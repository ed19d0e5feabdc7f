-- ===== src/Store/Keyring/Deleted.antt =====
-- What a deletion does to the keys of the store.
use traffic_cone.Common.{
  ◌≡◌, refl, sym, ap, ◌∙◌, subst, inl, inr, Bool, false, not, Option, none, some, List, [], ◌∷◌,
  ◌++◌, arith, if◌then◌else◌, Bool-cases, find, filter_by, ok, err, ok_or, Text, Bytes, codes,
  text_eq, text_eq_iff,
}
use traffic_cone.Common.Int.{ℤ}
use traffic_cone.Store.Models.{Cert, not_found}
use traffic_cone.Store.Db.{Db, KeyRow, AuditRow, delete_cert_row, insert_audit}
use traffic_cone.Store.Handle.{Store, StoreState, sealed, unlocked, conn, set_db, passphrase}
use traffic_cone.Store.Exec.{ask_ok, sql_ok, sql_ran}
use traffic_cone.Store.Crypto.{Crates}
use traffic_cone.Store.Listing.{get_cert_by_label, get_plaintext_key}
use traffic_cone.Store.Delete.{delete_cert, audit_row}
use traffic_cone.Store.Keyring.{text_eq_sym, remove, keyring, row_of, keyring-seen, remove_alone}

abbrev pub kept : Text → KeyRow → Bool
kept i k = not (text_eq k.cert_id i)

-- The row of another certificate stays.
pub find-kept :
    (i x : Text) (ks : List KeyRow)
    → text_eq x i ≡ false
    → find (λ (k : KeyRow). text_eq k.cert_id x) (filter_by (kept i) ks)
      ≡ find (λ (k : KeyRow). text_eq k.cert_id x) ks
find-kept i x [] other = refl
find-kept i x (k ∷ ks) other = elim (Bool-cases (text_eq k.cert_id i)) [
  | inl gone ↦
      let e : text_eq k.cert_id x ≡ false =
        subst (λ t. text_eq t x ≡ false) (sym ((text_eq_iff k.cert_id i).0 gone))
          (text_eq_sym x i other) in
      rw (gone, e) (find-kept i x ks other)
  | inr stays ↦ rw stays (
      ap (λ (o : Option KeyRow). if text_eq k.cert_id x then some k else o)
        (find-kept i x ks other))
]

-- The rows of the deleted certificate go.
find-filter_by :
    (i : Text) (ks : List KeyRow)
    → find (λ (k : KeyRow). text_eq k.cert_id i) (filter_by (kept i) ks) ≡ none
find-filter_by i [] = refl
find-filter_by i (k ∷ ks) = elim (Bool-cases (text_eq k.cert_id i)) [
  | inl gone ↦ rw gone (find-filter_by i ks)
  | inr stays ↦ rw (stays) (rw stays (find-filter_by i ks))
]

-- The tables after both statements.
deleted_keys :
    (i : Text) (a : AuditRow) (d d' : Db)
    → insert_audit a (delete_cert_row i d) ≡ ok d'
    → d'.keys ≡ filter_by (kept i) d.keys
unfolding insert_audit delete_cert_row
deleted_keys i a d d' e = ground arith

not_there :
    (c : Crates) (s : Store) (pass : Bytes) (i : Text)
    → row_of s.disk.db i ≡ none
    → get_plaintext_key c (record s { state = unlocked pass }) i
      ≡ err (not_found (codes "no private key found for cert '" ++ i ++ codes "'"))
unfolding get_plaintext_key conn passphrase
not_there c s pass i e = rw (e, ok_or) refl

removed :
    (c : Crates) (s : Store) (pass : Bytes) (i : Text) (a : AuditRow) (d d' : Db)
    → delete_cert_row i s.disk.db ≡ d
    → insert_audit a d ≡ ok d'
    → keyring c (set_db d' (set_db d (record s { state = unlocked pass })))
      ≡ remove i (keyring c (record s { state = unlocked pass }))
unfolding set_db
removed c s pass i a d d' before ran =
    let keys : d'.keys ≡ filter_by (kept i) s.disk.db.keys =
      deleted_keys i a s.disk.db d' (subst (λ t. insert_audit a t ≡ ok d') (sym before) ran) in
    let row : (x : Text)
        → row_of d' x
          ≡ find (λ (k : KeyRow). text_eq k.cert_id x) (filter_by (kept i) s.disk.db.keys) =
      λ x. ap (find (λ (k : KeyRow). text_eq k.cert_id x)) keys in
    let after = set_db d' (set_db d (record s { state = unlocked pass })) in
    remove_alone (keyring c (record s { state = unlocked pass })) (keyring c after) i
      (not_there c after pass i (row i ∙ find-filter_by i s.disk.db.keys))
      λ x other.
        keyring-seen c after (record s { state = unlocked pass }) x
          (ap (λ (o : Option KeyRow). (unlocked pass, o))
            (row x ∙ find-kept i x s.disk.db.keys other))

module _ (c : Crates) (audit_id : Text) (now : ℤ) (label : Text) where
  abbrev Removed : Store → Type 0
  Removed s =
      (cert : Cert) × (get_cert_by_label s label ≡ ok cert)
      × (keyring c (delete_cert audit_id now label s).0 ≡ remove cert.id (keyring c s))

  delete_in_state :
      (s : Store) (st : StoreState)
      → (delete_cert audit_id now label (record s { state = st })).1 ≡ ok tt
      → Removed (record s { state = st })
  unfolding delete_cert set_db
  delete_in_state s sealed h =
      let (cert, e, q, h1) = ask_ok _ _ _ h in unfold get_cert_by_label conn in cc e
  delete_in_state s (unlocked pass) h =
      let (cert, e, q, h1) = ask_ok _ _ _ h in
      let (d, e1, q1, h2) = sql_ok _ _ _ h1 in
      let (d', e2, q2) = sql_ran _ _ h2 in
      (
        cert,
        e,
        subst (λ t. keyring c t ≡ remove cert.id (keyring c (record s { state = unlocked pass })))
            (sym (ap (λ t. t.0) (q ∙ q1) ∙ q2))
            (removed c s pass cert.id
              (audit_row audit_id (codes "cert_deleted") (some cert.id)
                (codes "Deleted cert: " ++ label) now)
              d d' (cc e1) e2),
      )

  -- A successful deletion of a certificate takes its key out of the keyring and changes nothing else
  -- in it.
  pub keyring-delete_cert :
      (s : Store)
      → (delete_cert audit_id now label s).1 ≡ ok tt
      → (cert : Cert) × (get_cert_by_label s label ≡ ok cert)
        × (keyring c (delete_cert audit_id now label s).0 ≡ remove cert.id (keyring c s))
  keyring-delete_cert s h = delete_in_state s s.state h
