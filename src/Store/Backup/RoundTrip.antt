-- ===== src/Store/Backup/RoundTrip.antt =====
-- A backup that is restored into a new store brings the rows back.
use traffic_cone.Common.{
  ℕ, suc, ◌≡◌, refl, sym, ap, ◌∙◌, subst, Bool, true, false, Option, none, some, List, [], ◌∷◌,
  ◌++◌, map, length, any_of, All, ok, Text, text_eq,
}
use traffic_cone.Common.Tables.{Distinct}
use traffic_cone.Store.Models.{Cert, App, SshRoute}
use traffic_cone.Store.Db.{Db, KeyRow, RouteRow, empty_db, app_exists}
use traffic_cone.Store.Handle.{Store}
use traffic_cone.Store.Exec.{Exec}
use traffic_cone.Store.Backup.Loop.{IsNew, rows, restore_each_run, AllReady-Distinct}
use traffic_cone.Store.Backup.Pairs.{pairs_of, OneKeyEach}
use traffic_cone.Store.Backup.Restore.{RestoreResult, RestoreDraws, restore_each}
use traffic_cone.Store.Backup.Steps.{
  ssh_route_clash, route_clash, ssh_clash, as_flag, without_file, pair_row, ca_clash,
}

-- The constraints of the schema that `IsSound` leaves out, and a key for each certificate.
pub record IsComplete (d : Db) : Type 0 where
  pub one_key : OneKeyEach d.keys d.certs
  pub ca_distinct : Distinct ca_clash d.ca_certs
  pub ssh_keys_distinct : Distinct ssh_clash d.ssh_keys
  pub routes_distinct : Distinct route_clash d.routes
  pub ssh_routes_distinct : Distinct ssh_route_clash d.ssh_routes
  pub routes_linked : All (λ (r : RouteRow). app_exists d r.app_id ≡ true) d.routes
  pub ssh_routes_linked : All (λ (r : SshRoute). app_exists d r.app_id ≡ true) d.ssh_routes

rows-map :
    {Q R : Type 0} (h : Q → R) (i : ℕ) (qs : List Q) → rows (λ (_ : ℕ) q. h q) i qs ≡ map h qs
rows-map h i [] = refl
rows-map h i (q ∷ qs) = ap (λ rs. h q ∷ rs) (rows-map h (suc i) qs)

pub map_id : {A : Type 0} (xs : List A) → map (λ x. x) xs ≡ xs
map_id [] = refl
map_id (x ∷ xs) = ap (λ ys. x ∷ ys) (map_id xs)

pub All-map :
    {A B : Type 0} (P : B → Type 0) (f : A → B) (xs : List A)
    → All (λ a. P (f a)) xs
    → All P (map f xs)
All-map P f [] h = tt
All-map P f (x ∷ xs) h = (h.0, All-map P f xs h.1)

pub All-both :
    {A : Type 0} (P Q : A → Type 0) (xs : List A) → All P xs → All Q xs → All (λ a. P a × Q a) xs
All-both P Q [] h k = tt
All-both P Q (x ∷ xs) h k = ((h.0, k.0), All-both P Q xs h.1 k.1)

pub All-tt : {A : Type 0} (xs : List A) → All (λ (_ : A). Unit {0}) xs
All-tt [] = tt
All-tt (x ∷ xs) = (tt, All-tt xs)

pub Distinct-map :
    {A B : Type 0} (clash : B → B → Bool) (f : A → B) (xs : List A)
    → Distinct (λ x y. clash (f x) (f y)) xs
    → Distinct clash (map f xs)
Distinct-map clash f [] h = tt
Distinct-map clash f (x ∷ xs) h =
    (All-map (λ y. clash (f x) y ≡ false) f xs h.0, Distinct-map clash f xs h.1)

-- A loop over a table whose rows are new and satisfy `P`.
pub table_run :
    {Q A R : Type 0} (f : ℕ → A → Exec Bool) (g : Q → A) (h : Q → R) (clash : R → R → Bool)
    (P : R → Type 0) (st : List R → Store)
    → ((before : List R) (i : ℕ) (q : Q)
        → IsNew clash before (h q) × P (h q)
        → f i (g q) (st before) ≡ (st (before ++ h q ∷ []), ok true))
    → (qs : List Q) → Distinct clash (map h qs)
    → All P (map h qs)
    → restore_each f 0 (map g qs) (st []) ≡ (st (map h qs), ok (length qs))
table_run f g h clash P st step qs d a =
    let e = rows-map h 0 qs in
    restore_each_run f g (λ (_ : ℕ) q. h q) (λ before r. IsNew clash before r × P r) st step [] 0 qs
      (AllReady-Distinct clash P [] (rows (λ (_ : ℕ) q. h q) 0 qs)
        (subst (Distinct clash) (sym e) d) (subst (All P) (sym e) a))
    ∙ ap (λ rs. (st rs, ok (length qs))) e

pub app_exists-apps :
    (d e : Db) (a : Option Text) → d.apps ≡ e.apps → app_exists d a ≡ app_exists e a
app_exists-apps d e none h = refl
app_exists-apps d e (some a) h = ap (any_of (λ (x : App). text_eq x.id a)) h

module _ (w : RestoreDraws) (d : Db) where
  abbrev pub pairs : List (Cert × KeyRow)
  pairs = rows (pair_row w.key_id) 0 (pairs_of d.keys d.certs)

  -- The keys of the restored store, in the order of the certificates.
  abbrev pub new_keys : List KeyRow
  new_keys = map (λ (p : Cert × KeyRow). p.1) pairs

  abbrev pub after_ca : Db
  after_ca = record empty_db { ca_certs = map without_file d.ca_certs }

  abbrev pub after_certs : Db
  after_certs = record after_ca { certs = d.certs; keys = new_keys }

  abbrev pub after_ssh : Db
  after_ssh = record after_certs { ssh_keys = d.ssh_keys }

  abbrev pub after_apps : Db
  after_apps = record after_ssh { apps = d.apps }

  abbrev pub after_routes : Db
  after_routes = record after_apps { routes = map as_flag d.routes }

  -- The tables before the audit row.
  abbrev pub restored : Db
  restored = record after_routes { ssh_routes = d.ssh_routes }

  -- The numbers of rows that are restored.
  abbrev pub counts : RestoreResult
  counts = record {
    certs = length (pairs_of d.keys d.certs);
    ssh_keys = length d.ssh_keys;
    ca_certs = length d.ca_certs;
    apps = length d.apps;
    routes = length d.routes;
    ssh_routes = length d.ssh_routes;
  }
