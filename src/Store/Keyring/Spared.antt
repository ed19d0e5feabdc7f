-- ===== src/Store/Keyring/Spared.antt =====
-- Operations that leave a key of the store as it was.
use traffic_cone.Common.{◌≡◌, refl, ap, ◌∙◌, inl, inr, Option, Result, ok, err, Result-cases, Text}
use traffic_cone.Store.Models.{StoreError, SqlError}
use traffic_cone.Store.Db.{Db, KeyRow}
use traffic_cone.Store.Handle.{Store, StoreState, sealed, unlocked, conn, set_db}
use traffic_cone.Store.Exec.{Exec, ask, sql, done, continue, ◌>>=◌}
use traffic_cone.Store.Keyring.{row_of, seen}

-- An operation that leaves the key of one certificate as it was, whether it succeeds or fails.
pub record Spares {A : Type 0} (x : Text) (m : Exec A) : Type 0 where
  pub at : (s : Store) → seen (m s).0 x ≡ seen s x

sql_in_state :
    (x : Text) (statement : Db → Result SqlError Db)
    → ((d d' : Db) → statement d ≡ ok d' → row_of d' x ≡ row_of d x)
    → (s : Store) (st : StoreState)
    → seen (sql statement (record s { state = st })).0 x ≡ seen (record s { state = st }) x
unfolding sql conn set_db
sql_in_state x statement keep s sealed = refl
sql_in_state x statement keep s (unlocked p) = elim (Result-cases (statement s.disk.db)) [
  | inl (d', e) ↦ rw e (ap (λ (k : Option KeyRow). (unlocked p, k)) (keep s.disk.db d' e))
  | inr (y, e) ↦ rw e refl
]

module _ {x : Text} where
  pub Spares-done : {A : Type 0} (a : A) → Spares x (done a)
  unfolding done
  Spares-done a = record { at = λ s. refl }

  pub Spares-ask : {A : Type 0} (f : Store → Result StoreError A) → Spares x (ask f)
  unfolding ask
  Spares-ask f = record { at = λ s. refl }

  continue-Spares :
      {A B : Type 0} (r : Store × Result StoreError A) (f : A → Exec B)
      → ((a : A) → Spares x (f a))
      → seen (continue r f).0 x ≡ seen r.0 x
  continue-Spares (s, ok a) f h = (h a).at s
  continue-Spares (s, err e) f h = refl

  pub Spares-bind :
      {A B : Type 0} (m : Exec A) (f : A → Exec B)
      → Spares x m
      → ((a : A) → Spares x (f a))
      → Spares x (m >>= f)
  unfolding ◌>>=◌
  Spares-bind m f km kf = record { at = λ s. continue-Spares (m s) f kf ∙ km.at s }

  pub Spares-sql :
      (statement : Db → Result SqlError Db)
      → ((d d' : Db) → statement d ≡ ok d' → row_of d' x ≡ row_of d x)
      → Spares x (sql statement)
  Spares-sql statement keep = record { at = λ s. sql_in_state x statement keep s s.state }

pub ruleset spares_rules = (Spares-done, Spares-ask, Spares-bind)
