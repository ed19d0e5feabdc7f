-- ===== src/Store/Backup/Steps.antt =====
-- One row of a restoration that is new to its table.
use traffic_cone.Common.{
  ℕ, ◌≡◌, refl, ap, ◌∙◌, Bool, true, false, not, ◌||◌, none, List, [], ◌∷◌, ◌++◌, map,
  if◌then◌else◌, any_of, ok, Text, Bytes, text_eq, text_eq_refl,
}
use traffic_cone.Common.Int.{pos, eqb_ℤ}
use traffic_cone.Common.Tables.{any_of-or, any_of-append_right}
use traffic_cone.Store.Models.{Cert, CaCert, App, SshRoute}
use traffic_cone.Store.Db.{
  Db, KeyRow, SshKeyRow, RouteRow, insert_cert, insert_key, insert_ssh_key, insert_ca_cert,
  insert_app, insert_or_ignore_route, insert_or_ignore_ssh_route, app_exists,
}
use traffic_cone.Store.Db.Sound.{cert_clash, app_clash, has_cert, has_ssh_key}
use traffic_cone.Store.Handle.{Store, conn}
use traffic_cone.Store.Crypto.{Crates, CratesLaws}
use traffic_cone.Store.Exec.{Exec, ◌>>=◌, sql, ask, done}
use traffic_cone.Store.Backup.{backup_cert, backup_ssh_key, backup_ca_cert, backup_route}
use traffic_cone.Store.Backup.Loop.{at_db, bind_run, sql_run, IsNew}
use traffic_cone.Store.Backup.Restore.{
  key_of, ssh_key_of, unless, restore_cert, insert_pair, decode_cert, restore_ssh_key,
  decode_or_empty, restore_ssh_route, restore_route, restore_app, restore_ca_cert, exists,
}

exists_run :
    (test : Db → Bool) (t : Store) (pass : Bytes) (d : Db)
    → exists test (at_db t pass d) ≡ (at_db t pass d, ok (test d))
unfolding ask conn
exists_run test t pass d = refl

insert_new_run :
    (test : Db → Bool) (insert : Exec (Unit {0})) (t : Store) (pass : Bytes) (d d' : Db)
    → test d ≡ false
    → insert (at_db t pass d) ≡ (at_db t pass d', ok tt)
    → (exists test >>= λ present. unless present insert) (at_db t pass d)
      ≡ (at_db t pass d', ok true)
unfolding done
insert_new_run test insert t pass d d' absent e =
    bind_run (exists test) _ _ _ (exists_run test t pass d)
    ∙ (ap (λ (b : Bool). unless b insert (at_db t pass d)) absent ∙ bind_run insert _ _ _ e)

abbrev pub ca_clash : CaCert → CaCert → Bool
ca_clash x c = text_eq x.id c.id || text_eq x.fingerprint c.fingerprint

abbrev pub ssh_clash : SshKeyRow → SshKeyRow → Bool
ssh_clash x k = text_eq x.id k.id

abbrev pub route_clash : RouteRow → RouteRow → Bool
route_clash x r = text_eq x.id r.id

abbrev pub ssh_route_clash : SshRoute → SshRoute → Bool
ssh_route_clash x r = text_eq x.id r.id

-- What a backup keeps of a CA certificate.
abbrev pub without_file : CaCert → CaCert
without_file x = record x { system_file = none }

-- A column of 0 and 1.
abbrev pub as_flag : RouteRow → RouteRow
as_flag r = record r { require_both = if not (eqb_ℤ r.require_both (pos 0)) then pos 1 else pos 0 }

pub restore_ca_cert_run :
    (c : Crates) (t : Store) (pass : Bytes) (d : Db) (before : List CaCert) (i : ℕ) (x : CaCert)
    → IsNew ca_clash before (without_file x)
    → restore_ca_cert i (backup_ca_cert c x) (at_db t pass (record d { ca_certs = before }))
      ≡ (at_db t pass (record d { ca_certs = before ++ without_file x ∷ [] }), ok true)
unfolding restore_ca_cert insert_ca_cert
restore_ca_cert_run c t pass d before i x new =
    insert_new_run _ (sql (insert_ca_cert (without_file x))) t pass _ _
      (any_of-or _ (λ (y : CaCert). text_eq y.fingerprint x.fingerprint) before new).1
      (sql_run (insert_ca_cert (without_file x)) t pass _ _ (rw new refl))

pub restore_app_run :
    (t : Store) (pass : Bytes) (d : Db) (before : List App) (i : ℕ) (x : App)
    → IsNew app_clash before x
    → restore_app i x (at_db t pass (record d { apps = before }))
      ≡ (at_db t pass (record d { apps = before ++ x ∷ [] }), ok true)
unfolding restore_app insert_app
restore_app_run t pass d before i x new =
    insert_new_run _ (sql (insert_app x)) t pass _ _
      (any_of-or _ (λ (y : App). text_eq y.exe_path x.exe_path) before new).1
      (sql_run (insert_app x) t pass _ _ (rw new refl))

pub restore_route_run :
    (c : Crates) (t : Store) (pass : Bytes) (d : Db) (before : List RouteRow) (i : ℕ) (x : RouteRow)
    → IsNew route_clash before (as_flag x)
    → has_cert d.certs x.cert_id ≡ true
    → app_exists d x.app_id ≡ true
    → restore_route i (backup_route c x) (at_db t pass (record d { routes = before }))
      ≡ (at_db t pass (record d { routes = before ++ as_flag x ∷ [] }), ok true)
unfolding restore_route insert_or_ignore_route done
restore_route_run c t pass d before i x new owned linked =
    bind_run (sql (insert_or_ignore_route (as_flag x))) _ _ _
      (sql_run (insert_or_ignore_route (as_flag x)) t pass _ _ (rw new (rw owned (rw linked refl))))

pub restore_ssh_route_run :
    (t : Store) (pass : Bytes) (d : Db) (before : List SshRoute) (i : ℕ) (x : SshRoute)
    → IsNew ssh_route_clash before x
    → has_ssh_key d.ssh_keys x.ssh_key_id ≡ true
    → app_exists d x.app_id ≡ true
    → restore_ssh_route i x (at_db t pass (record d { ssh_routes = before }))
      ≡ (at_db t pass (record d { ssh_routes = before ++ x ∷ [] }), ok true)
unfolding restore_ssh_route insert_or_ignore_ssh_route done
restore_ssh_route_run t pass d before i x new owned linked =
    bind_run (sql (insert_or_ignore_ssh_route x)) _ _ _
      (sql_run (insert_or_ignore_ssh_route x) t pass _ _ (rw new (rw owned (rw linked refl))))

-- The two tables of a list of certificates with their keys.
abbrev pub with_pairs : Db → List (Cert × KeyRow) → Db
with_pairs d ps = record d { certs = map (λ p. p.0) ps; keys = map (λ p. p.1) ps }

-- The certificate and its key, under the id that was drawn.
abbrev pub pair_row : (ℕ → Text) → ℕ → Cert × KeyRow → Cert × KeyRow
pair_row key_id i (x, k) = (x, record k { id = key_id i; cert_id = x.id })

abbrev pub pair_clash : Cert × KeyRow → Cert × KeyRow → Bool
pair_clash (x, k) (y, l) = cert_clash x y || text_eq k.id l.id

any_of-map :
    {A B : Type 0} (p : B → Bool) (f : A → B) (xs : List A)
    → any_of p (map f xs) ≡ any_of (λ a. p (f a)) xs
any_of-map p f [] = refl
any_of-map p f (x ∷ xs) = rw (any_of-map p f xs) refl

pub map_append :
    {A B : Type 0} (f : A → B) (xs ys : List A) → map f (xs ++ ys) ≡ map f xs ++ map f ys
map_append f [] ys = refl
map_append f (x ∷ xs) ys = ap (λ zs. f x ∷ zs) (map_append f xs ys)

pairs_added :
    (d : Db) (before : List (Cert × KeyRow)) (r : Cert × KeyRow)
    → (record d {
      certs = map (λ (p : Cert × KeyRow). p.0) before ++ r.0 ∷ [];
      keys = map (λ (p : Cert × KeyRow). p.1) before ++ r.1 ∷ [];
    })
      ≡ with_pairs d (before ++ r ∷ [])
pairs_added d before r =
    rw (map_append (λ (p : Cert × KeyRow). p.0) before (r ∷ []))
      (rw (map_append (λ (p : Cert × KeyRow). p.1) before (r ∷ [])) refl)

module _ (c : Crates) (laws : CratesLaws c) where
  decoded : (b : Bytes) → decode_or_empty c (c.hex_encode b) ≡ b
  decoded b = rw (laws.decode-encode b) refl

  pub restore_ssh_key_run :
      (t : Store) (pass : Bytes) (d : Db) (before : List SshKeyRow) (i : ℕ) (x : SshKeyRow)
      → IsNew ssh_clash before x
      → restore_ssh_key c i (backup_ssh_key c x) (at_db t pass (record d { ssh_keys = before }))
        ≡ (at_db t pass (record d { ssh_keys = before ++ x ∷ [] }), ok true)
  unfolding restore_ssh_key insert_ssh_key
  restore_ssh_key_run t pass d before i x new =
      let same : ssh_key_of c (backup_ssh_key c x) ≡ x =
        rw (decoded x.key_enc, decoded x.key_salt, decoded x.key_nonce) refl in
      insert_new_run _ (sql (insert_ssh_key (ssh_key_of c (backup_ssh_key c x)))) t pass _ _ new (
        sql_run (insert_ssh_key (ssh_key_of c (backup_ssh_key c x))) t pass _ _
          (rw same (rw new refl)))

  decode_cert_run : (x : Cert) (k : KeyRow) → decode_cert c (backup_cert c x k) ≡ ok x.cert_der
  decode_cert_run x k = rw (laws.decode-encode x.cert_der) refl

  insert_pair_run :
      (key_id : ℕ → Text) (t : Store) (pass : Bytes) (d : Db) (i : ℕ) (x : Cert) (k : KeyRow)
      → any_of (λ (y : Cert). cert_clash y x) d.certs ≡ false
      → any_of (λ (y : KeyRow). text_eq y.id (key_id i)) d.keys ≡ false
      → insert_pair c key_id i (backup_cert c x k) (at_db t pass d) ≡ (
        at_db t pass (record d {
          certs = d.certs ++ x ∷ [];
          keys = d.keys ++ (record k { id = key_id i; cert_id = x.id }) ∷ [];
        }),
        ok tt,
      )
  unfolding insert_cert insert_key ask
  insert_pair_run key_id t pass d i x k new free =
      let same : key_of c key_id i (backup_cert c x k)
          ≡ record k { id = key_id i; cert_id = x.id } =
        rw (decoded k.key_enc, decoded k.key_salt, decoded k.key_nonce) refl in
      let owned : any_of (λ (y : Cert). text_eq y.id x.id) (d.certs ++ x ∷ []) ≡ true =
        any_of-append_right _ d.certs (x ∷ []) (rw (text_eq_refl x.id) refl) in
      bind_run (ask (λ _. decode_cert c (backup_cert c x k))) _ (at_db t pass d) (at_db t pass d)
        (ap (λ r. (at_db t pass d, r)) (decode_cert_run x k))
      ∙ (bind_run (sql (insert_cert x)) _ _ _ (
            sql_run (insert_cert x) t pass d (record d { certs = d.certs ++ x ∷ [] }) (rw new refl))
          ∙ sql_run (insert_key (key_of c key_id i (backup_cert c x k))) t pass _ _
              (rw same (rw (free, owned) refl)))

  pub restore_cert_run :
      (key_id : ℕ → Text) (t : Store) (pass : Bytes) (d : Db) (before : List (Cert × KeyRow))
      (i : ℕ) (q : Cert × KeyRow)
      → IsNew pair_clash before (pair_row key_id i q)
      → restore_cert c key_id i (backup_cert c q.0 q.1) (at_db t pass (with_pairs d before))
        ≡ (at_db t pass (with_pairs d (before ++ pair_row key_id i q ∷ [])), ok true)
  unfolding restore_cert
  restore_cert_run key_id t pass d before i (x, k) new =
      let (certs_new, keys_new) =
        any_of-or (λ (y : Cert × KeyRow). cert_clash y.0 x)
          (λ (y : Cert × KeyRow). text_eq y.1.id (key_id i)) before new in
      let certs_free : any_of (λ (y : Cert). cert_clash y x)
            (map (λ (p : Cert × KeyRow). p.0) before)
          ≡ false =
        any_of-map (λ (y : Cert). cert_clash y x) (λ (p : Cert × KeyRow). p.0) before ∙ certs_new in
      let keys_free : any_of (λ (y : KeyRow). text_eq y.id (key_id i))
            (map (λ (p : Cert × KeyRow). p.1) before)
          ≡ false =
        any_of-map (λ (y : KeyRow). text_eq y.id (key_id i)) (λ (p : Cert × KeyRow). p.1) before
        ∙ keys_new in
      insert_new_run _ (insert_pair c key_id i (backup_cert c x k)) t pass _ _
        (any_of-or _ (λ (y : Cert). text_eq y.fingerprint x.fingerprint) _ certs_free).1
        (insert_pair_run key_id t pass (with_pairs d before) i x k certs_free keys_free)
      ∙ ap (λ (e : Db). (at_db t pass e, ok true)) (pairs_added d before (pair_row key_id i (x, k)))
