-- ===== src/Store/Backup/Loop.antt =====
-- A loop of the restoration that finds each row new appends them all.
use traffic_cone.Common.{
  append_nil, ℕ, suc, ◌≡◌, refl, sym, ap, ◌∙◌, subst, Bool, true, false, List, [], ◌∷◌, ◌++◌, map,
  length, any_of, All, Result, ok, Bytes,
}
use traffic_cone.Common.Tables.{Distinct}
use traffic_cone.Store.Models.{SqlError}
use traffic_cone.Store.Db.{Db}
use traffic_cone.Store.Handle.{Store, unlocked, conn, set_db}
use traffic_cone.Store.Exec.{Exec, continue, ◌>>=◌, sql, done}
use traffic_cone.Store.Backup.Restore.{restore_each}

-- The store with these tables, unlocked.
abbrev pub at_db : Store → Bytes → Db → Store
at_db t pass d = record { path = t.path; disk = record t.disk { db = d }; state = unlocked pass }

pub bind_run :
    {A B : Type 0} (m : Exec A) (f : A → Exec B) (s s' : Store) {a : A}
    → m s ≡ (s', ok a)
    → (m >>= f) s ≡ f a s'
unfolding ◌>>=◌
bind_run m f s s' e = ap (λ r. continue r f) e

pub sql_run :
    (statement : Db → Result SqlError Db) (t : Store) (pass : Bytes) (d d' : Db)
    → statement d ≡ ok d'
    → sql statement (at_db t pass d) ≡ (at_db t pass d', ok tt)
unfolding sql conn set_db
sql_run statement t pass d d' e = rw (e, sql) refl

pub append_one :
    {R : Type 0} (xs : List R) (y : R) (ys : List R) → (xs ++ y ∷ []) ++ ys ≡ xs ++ y ∷ ys
append_one [] y ys = refl
append_one (x ∷ xs) y ys = ap (λ zs. x ∷ zs) (append_one xs y ys)

-- Each row may be added to those before it.
abbrev pub AllReady : {R : Type 0} → (List R → R → Type 0) → List R → List R → Type 0
AllReady Ready before [] = Unit
AllReady Ready before (r ∷ rs) = Ready before r × AllReady Ready (before ++ r ∷ []) rs

-- The rows of a list, each with its place.
abbrev pub rows : {Q R : Type 0} → (ℕ → Q → R) → ℕ → List Q → List R
rows row i [] = []
rows row i (q ∷ qs) = row i q ∷ rows row (suc i) qs

module _ {Q A R : Type 0} (f : ℕ → A → Exec Bool) (g : Q → A) (row : ℕ → Q → R) where
  pub restore_each_run :
      (Ready : List R → R → Type 0) (st : List R → Store)
      → ((before : List R) (i : ℕ) (q : Q)
          → Ready before (row i q)
          → f i (g q) (st before) ≡ (st (before ++ row i q ∷ []), ok true))
      → (before : List R) (i : ℕ) (qs : List Q) → AllReady Ready before (rows row i qs)
      → restore_each f i (map g qs) (st before) ≡ (st (before ++ rows row i qs), ok (length qs))
  unfolding restore_each done
  restore_each_run Ready st step before i [] h = ap (λ rs. (st rs, ok 0)) (sym (append_nil before))
  restore_each_run Ready st step before i (q ∷ qs) h =
      bind_run (f i (g q)) _ (st before) _ (step before i q h.0)
      ∙ (bind_run (restore_each f (suc i) (map g qs)) _ _ _
            (restore_each_run Ready st step (before ++ row i q ∷ []) (suc i) qs h.1)
          ∙ ap (λ rs. (st rs, ok (suc (length qs))))
              (append_one before (row i q) (rows row (suc i) qs)))

module _ {R : Type 0} (clash : R → R → Bool) where
  -- No row before it clashes with this one.
  abbrev pub IsNew : List R → R → Type 0
  IsNew before r = any_of (λ x. clash x r) before ≡ false

  All-middle :
      (P : R → Type 0) (before : List R) (r : R) (rs : List R) → All P (before ++ r ∷ rs) → P r
  All-middle P [] r rs h = h.0
  All-middle P (x ∷ before) r rs h = All-middle P before r rs h.1

  Distinct-middle :
      (before : List R) (r : R) (rs : List R) → Distinct clash (before ++ r ∷ rs) → IsNew before r
  Distinct-middle [] r rs h = refl
  Distinct-middle (x ∷ before) r rs h =
      rw (All-middle (λ y. clash x y ≡ false) before r rs h.0) (Distinct-middle before r rs h.1)

  -- Rows without a clash that satisfy `P` may be added one after another.
  pub AllReady-Distinct :
      (P : R → Type 0) (before rs : List R)
      → Distinct clash (before ++ rs)
      → All P rs
      → AllReady (λ done r. IsNew done r × P r) before rs
  AllReady-Distinct P before [] h k = tt
  AllReady-Distinct P before (r ∷ rs) h k = (
    (Distinct-middle before r rs h, k.0),
    AllReady-Distinct P (before ++ r ∷ []) rs
        (subst (Distinct clash) (sym (append_one before r rs)) h) k.1,
  )
