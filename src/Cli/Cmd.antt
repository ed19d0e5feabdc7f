-- ===== src/Cli/Cmd.antt =====
-- A command of crates/cone-cli/src/main.rs on the store: what it has written stays written when it
-- fails, so the store comes back beside the error.
use traffic_cone.Common.{Result, ok, err, map_err, Bool, true, false, if◌then◌else◌, ◌≡◌, refl}
use traffic_cone.Store.Models.{StoreError}
use traffic_cone.Store.Db.{Db}
use traffic_cone.Store.Handle.{Store}
use traffic_cone.Store.Exec.{Exec, KeepsDb}
use traffic_cone.Cli.Output.{CliError, store_error}

abbrev pub Cmd : Type 0 → Type 0
Cmd A = Store → Store × Result CliError A

abbrev pub continue :
    {A B : Type 0} → Store × Result CliError A → (A → Cmd B) → Store × Result CliError B
continue (s, ok a) f = f a s
continue (s, err e) f = (s, err e)

infixl 5 ◌>>◌ ◌>>=◌
unfoldable pub ◌>>=◌ : {A B : Type 0} → Cmd A → (A → Cmd B) → Cmd B
◌>>=◌ m f s = continue (m s) f

abbrev pub ◌>>◌ : {B : Type 0} → Cmd (Unit {0}) → Cmd B → Cmd B
m >> n = m >>= λ _. n

-- What does not touch the store.
unfoldable pub from : {A : Type 0} → Result CliError A → Cmd A
from r s = (s, r)

abbrev pub print : {A : Type 0} → A → Cmd A
print a = from (ok a)

-- An operation of the store, with its error passed on by `?`.
unfoldable pub lift : {A : Type 0} → Exec A → Cmd A
lift m s = let (s', r) = m s in (s', map_err store_error r)

unfoldable pub reads : {A : Type 0} → (Store → Result StoreError A) → Cmd A
reads f s = (s, map_err store_error (f s))

-- `P` holds of the tables after the command if it did before, whether the command fails or not.
pub record Keeps {A : Type 0} (P : Db → Type 0) (m : Cmd A) : Type 0 where
  pub at : (s : Store) → P s.disk.db → P (m s).0.disk.db

module _ {P : Db → Type 0} where
  pub Keeps-from : {A : Type 0} (r : Result CliError A) → Keeps P (from r)
  unfolding from
  Keeps-from r = record { at = λ s h. h }

  pub Keeps-reads : {A : Type 0} (f : Store → Result StoreError A) → Keeps P (reads f)
  unfolding reads
  Keeps-reads f = record { at = λ s h. h }

  pub Keeps-lift : {A : Type 0} (m : Exec A) → KeepsDb P m → Keeps P (lift m)
  unfolding lift
  Keeps-lift m k = record { at = λ s h. k.at s h }

  continue_keeps :
      {A B : Type 0} (r : Store × Result CliError A) (f : A → Cmd B)
      → P r.0.disk.db
      → ((a : A) → Keeps P (f a))
      → P (continue r f).0.disk.db
  continue_keeps (s, ok a) f h k = (k a).at s h
  continue_keeps (s, err e) f h k = h

  pub Keeps-bind :
      {A B : Type 0} (m : Cmd A) (f : A → Cmd B)
      → Keeps P m
      → ((a : A) → Keeps P (f a))
      → Keeps P (m >>= f)
  unfolding ◌>>=◌
  Keeps-bind m f km kf = record { at = λ s h. continue_keeps (m s) f (km.at s h) kf }

  pub Keeps-if :
      {A : Type 0} (b : Bool) (m n : Cmd A) → Keeps P m → Keeps P n → Keeps P (if b then m else n)
  Keeps-if true m n km kn = km
  Keeps-if false m n km kn = kn

pub ruleset cmd_rules = (Keeps-from, Keeps-reads, Keeps-lift, Keeps-bind, Keeps-if)

-- Inversion of a command that has succeeded, as for the operations of the store.
module _ {A B : Type 0} where
  continue_ok :
      (r : Store × Result CliError A) (f : A → Cmd B) {b : B}
      → (continue r f).1 ≡ ok b
      → (a : A) × (r.1 ≡ ok a) × (continue r f ≡ f a r.0) × ((f a r.0).1 ≡ ok b)
  continue_ok (s, ok a) f h = (a, refl, refl, h)
  continue_ok (s, err e) f h = cc

  pub bind_ok :
      (m : Cmd A) (f : A → Cmd B) (s : Store) {b : B}
      → ((m >>= f) s).1 ≡ ok b
      → (a : A) × ((m s).1 ≡ ok a) × ((m >>= f) s ≡ f a (m s).0) × ((f a (m s).0).1 ≡ ok b)
  unfolding ◌>>=◌
  bind_ok m f s h = continue_ok (m s) f h
