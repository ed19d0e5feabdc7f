-- ===== src/Store/Exec.antt =====
-- Operations that take `&Store`, write to the database and may fail. What an earlier statement has
-- written stays written when a later one fails, so the store comes back beside the error.
use traffic_cone.Common.{
  ◌≡◌, refl, sym, ap, ◌∙◌, inl, inr, Bool, true, false, if◌then◌else◌, Result, ok, err,
  Result-cases,
}
use traffic_cone.Store.Models.{StoreError, database, SqlError}
use traffic_cone.Store.Db.{Db}
use traffic_cone.Store.Handle.{Store, StoreState, sealed, unlocked, conn, set_db}

abbrev pub Exec : Type 0 → Type 0
Exec A = Store → Store × Result StoreError A

abbrev pub continue :
    {A B : Type 0} → Store × Result StoreError A → (A → Exec B) → Store × Result StoreError B
continue (s, ok a) f = f a s
continue (s, err e) f = (s, err e)

infixl 5 ◌>>=◌ ◌>>◌
unfoldable pub ◌>>=◌ : {A B : Type 0} → Exec A → (A → Exec B) → Exec B
◌>>=◌ m f s = continue (m s) f

abbrev pub ◌>>◌ : {B : Type 0} → Exec (Unit {0}) → Exec B → Exec B
m >> n = m >>= λ _. n

unfoldable pub done : {A : Type 0} → A → Exec A
done a s = (s, ok a)

-- A read of the store, or a computation beside it, with its error passed on by `?`.
unfoldable pub ask : {A : Type 0} → (Store → Result StoreError A) → Exec A
ask f s = (s, f s)

-- `store.conn()?.execute(statement)?`
unfoldable pub sql : (Db → Result SqlError Db) → Exec (Unit {0})
sql statement s = elim (conn s) [
  | err e ↦ (s, err e)
  | ok d ↦ elim (statement d) [ err e ↦ (s, err (database e)) | ok d' ↦ (set_db d' s, ok tt) ]
]

-- `P` holds of the tables after the operation if it did before, whether the operation fails or not.
pub record KeepsDb {A : Type 0} (P : Db → Type 0) (m : Exec A) : Type 0 where
  pub at : (s : Store) → P s.disk.db → P (m s).0.disk.db

module _ {P : Db → Type 0} where
  pub KeepsDb-done : {A : Type 0} (a : A) → KeepsDb P (done a)
  unfolding done
  KeepsDb-done a = record { at = λ s h. h }

  pub KeepsDb-ask : {A : Type 0} (f : Store → Result StoreError A) → KeepsDb P (ask f)
  unfolding ask
  KeepsDb-ask f = record { at = λ s h. h }

  continue_keeps :
      {A B : Type 0} (r : Store × Result StoreError A) (f : A → Exec B)
      → P r.0.disk.db
      → ((a : A) → KeepsDb P (f a))
      → P (continue r f).0.disk.db
  continue_keeps (s, ok a) f h k = (k a).at s h
  continue_keeps (s, err e) f h k = h

  pub KeepsDb-bind :
      {A B : Type 0} (m : Exec A) (f : A → Exec B)
      → KeepsDb P m
      → ((a : A) → KeepsDb P (f a))
      → KeepsDb P (m >>= f)
  unfolding ◌>>=◌
  KeepsDb-bind m f km kf = record { at = λ s h. continue_keeps (m s) f (km.at s h) kf }

  pub KeepsDb-if :
      {A : Type 0} (b : Bool) (m n : Exec A)
      → KeepsDb P m
      → KeepsDb P n
      → KeepsDb P (if b then m else n)
  KeepsDb-if true m n km kn = km
  KeepsDb-if false m n km kn = kn

  sql_in_state :
      (statement : Db → Result SqlError Db)
      → ((d d' : Db) → P d → statement d ≡ ok d' → P d')
      → (s : Store) (st : StoreState) → P s.disk.db
      → P (sql statement (record s { state = st })).0.disk.db
  unfolding sql conn set_db
  sql_in_state statement keep s sealed h = h
  sql_in_state statement keep s (unlocked p) h = elim (Result-cases (statement s.disk.db)) [
    | inl (d', e) ↦ rw e (keep s.disk.db d' h e)
    | inr (x, e) ↦ rw e h
  ]

  pub KeepsDb-sql :
      (statement : Db → Result SqlError Db)
      → ((d d' : Db) → P d → statement d ≡ ok d' → P d')
      → KeepsDb P (sql statement)
  KeepsDb-sql statement keep = record { at = λ s h. sql_in_state statement keep s s.state h }

pub ruleset keeps_rules = (KeepsDb-done, KeepsDb-ask, KeepsDb-bind, KeepsDb-if)

-- Inversion of an operation that has succeeded: what its first step returned, the rest of the
-- operation on the store that the step left, and that the rest has succeeded.
module _ {A B : Type 0} where
  continue_ok :
      (r : Store × Result StoreError A) (f : A → Exec B) {b : B}
      → (continue r f).1 ≡ ok b
      → (a : A) × (r.1 ≡ ok a) × (continue r f ≡ f a r.0) × ((f a r.0).1 ≡ ok b)
  continue_ok (s, ok a) f h = (a, refl, refl, h)
  continue_ok (s, err e) f h = cc

  pub bind_ok :
      (m : Exec A) (f : A → Exec B) (s : Store) {b : B}
      → ((m >>= f) s).1 ≡ ok b
      → (a : A) × ((m s).1 ≡ ok a) × ((m >>= f) s ≡ f a (m s).0) × ((f a (m s).0).1 ≡ ok b)
  unfolding ◌>>=◌
  bind_ok m f s h = continue_ok (m s) f h

  pub ask_ok :
      (g : Store → Result StoreError A) (f : A → Exec B) (s : Store) {b : B}
      → ((ask g >>= f) s).1 ≡ ok b
      → (a : A) × (g s ≡ ok a) × ((ask g >>= f) s ≡ f a s) × ((f a s).1 ≡ ok b)
  unfolding ask
  ask_ok g f s h = bind_ok (ask g) f s h

sql_ok_in_state :
    (statement : Db → Result SqlError Db) (s : Store) (st : StoreState)
    → (sql statement (record s { state = st })).1 ≡ ok tt
    → (d : Db) × (statement s.disk.db ≡ ok d)
      × ((sql statement (record s { state = st })).0 ≡ set_db d (record s { state = st }))
unfolding sql conn
sql_ok_in_state statement s sealed h = cc
sql_ok_in_state statement s (unlocked p) h = elim (Result-cases (statement s.disk.db)) [
  | inl (d, e) ↦ (d, e, rw e refl)
  | inr (x, e) ↦ cc (rw e at h)
]

-- A statement that has run: the tables that it made.
pub sql_ran :
    (statement : Db → Result SqlError Db) (s : Store)
    → (sql statement s).1 ≡ ok tt
    → (d : Db) × (statement s.disk.db ≡ ok d) × ((sql statement s).0 ≡ set_db d s)
sql_ran statement s h = sql_ok_in_state statement s s.state h

run_in_state :
    (statement next : Db → Result SqlError Db) (s : Store) (st : StoreState) (d d' : Db)
    → (sql statement (record s { state = st })).1 ≡ ok tt
    → next d ≡ ok d'
    → sql next (set_db d (record s { state = st }))
      ≡ (set_db d' (set_db d (record s { state = st })), ok tt)
unfolding sql conn set_db
run_in_state statement next s sealed d d' h e = cc
run_in_state statement next s (unlocked p) d d' h e = rw e refl

-- Where one statement has run, the next runs too, on the tables that are there.
pub sql_again :
    (statement next : Db → Result SqlError Db) (s : Store) (d d' : Db)
    → (sql statement s).1 ≡ ok tt
    → next d ≡ ok d'
    → sql next (set_db d s) ≡ (set_db d' (set_db d s), ok tt)
sql_again statement next s d d' h e = run_in_state statement next s s.state d d' h e

pub sql_ok :
    {B : Type 0} (statement : Db → Result SqlError Db) (f : Unit {0} → Exec B) (s : Store) {b : B}
    → ((sql statement >>= f) s).1 ≡ ok b
    → (d : Db) × (statement s.disk.db ≡ ok d)
      × ((sql statement >>= f) s ≡ f tt (set_db d s))
      × ((f tt (set_db d s)).1 ≡ ok b)
sql_ok statement f s h =
    let (u, e, rest, more) = bind_ok (sql statement) f s h in
    let (d, ran, after) = sql_ok_in_state statement s s.state e in
    (d, ran, rest ∙ ap (f tt) after, ap (λ (t : Store). (f tt t).1) (sym after) ∙ more)
