-- ===== src/Store/Handle.antt =====
-- crates/cone-store/src/store.rs: the handle that is locked or unlocked, over the two files on disk.
pub mod Lifecycle
use traffic_cone.Common.Int.{ℤ}
use traffic_cone.Store.Db.Migrate.{Table, DbFile, prepared, script, migrate, execute_all, new_file}
use traffic_cone.Common.{
  ℕ, List, take, ◌≡◌, refl, sym, subst, ◌⊎◌, Bool, true, false, Option, none, some, if◌then◌else◌,
  Bool-cases, Result, ok, err, Text, Bytes, text_eq,
}
use traffic_cone.Store.Models.{StoreError, database, locked, not_a_database, no_rows}
use traffic_cone.Store.Db.{Db, empty_db}

-- The database file under its SQLCipher key, with the rows of `schema_version`, the tables that are
-- there and their rows, and the companion file `<path>.salt`.
pub record Disk : Type 0 where
  pub salt : Option Bytes
  pub key : Option Bytes
  pub versions : Option (List ℤ)
  pub tables : Table → Bool
  pub db : Db

abbrev pub file_of : Disk → DbFile
file_of d = record { versions = d.versions; tables = d.tables; rows = d.db }

abbrev pub with_file : DbFile → Disk → Disk
with_file f d = record d { versions = f.versions; tables = f.tables; db = f.rows }

-- Where `db::open` fails once the key has been accepted: at the pragmas, before anything is written, or
-- after that many statements of `migrate`.
pub data Stop : Type 0 where
  at_pragma : StoreError → Stop
  at_statement : ℕ → StoreError → Stop

-- What an unlocking is given from outside: the salt that `random_salt` draws, and the errors of the
-- files, if there are any: of reading the salt, of writing it, with what is then in the file, of opening
-- the database under any key, and of the statements after that.
pub record Opening : Type 0 where
  pub fresh : Bytes
  pub salt_unreadable : Option StoreError
  pub salt_unwritten : Option (StoreError × Option Bytes)
  pub unopened : Option StoreError
  pub stop : Option Stop

pub data StoreState : Type 0 where
  sealed : StoreState
  unlocked : Bytes → StoreState

-- `Store`; an open connection writes through to the file, so the tables stand in `disk`.
pub record Store : Type 0 where
  pub path : Text
  pub disk : Disk
  pub state : StoreState

-- `crypto::derive_key`, which calls the argon2 crate.
abbrev pub DeriveKey : Type 0
DeriveKey = Bytes → Bytes → Result StoreError Bytes

abbrev pub new_disk : Disk
new_disk = record { salt = none; key = none; versions = none; tables = λ t. false; db = empty_db }

unfoldable pub open_store : Text → Disk → Store
open_store p d = record { path = p; disk = d; state = sealed }

abbrev pub read_salt : Option StoreError → Bytes → Result StoreError Bytes
read_salt none salt = ok salt
read_salt (some e) salt = err e

abbrev pub write_salt :
    Bytes → Option (StoreError × Option Bytes) → Store → Store × Result StoreError Bytes
write_salt fresh none s = (record s { disk = record s.disk { salt = some fresh } }, ok fresh)
write_salt fresh (some (e, left)) s = (record s { disk = record s.disk { salt = left } }, err e)

unfoldable pub load_or_create_db_salt : Opening → Store → Store × Result StoreError Bytes
load_or_create_db_salt o s = elim s.disk.salt [
  | some salt ↦ (s, read_salt o.salt_unreadable salt)
  | none ↦ write_salt o.fresh o.salt_unwritten s
]

-- `migrate` on the file, which then has this key; without a version it ends with the first statements.
abbrev pub migrated : Bytes → Disk → Option DbFile → Disk × Result StoreError (Unit {0})
migrated k d (some f) = (record (with_file f d) { key = some k }, ok tt)
migrated k d none =
    (record (with_file (prepared (file_of d)) d) { key = some k }, err (database no_rows))

abbrev pub migrate_until : Bytes → Disk → Option Stop → Disk × Result StoreError (Unit {0})
migrate_until k d none = migrated k d (migrate (file_of d))
migrate_until k d (some (at_pragma e)) = (d, err e)
migrate_until k d (some (at_statement n e)) =
    let f = execute_all (take n (script (file_of d))) (file_of d) in
    (record (with_file f d) { key = some k }, err e)

-- A new file takes the key that it is opened with, an existing one wants its own.
abbrev pub open_keyed :
    Option Stop → Bytes → Disk → Option Bytes → Disk × Result StoreError (Unit {0})
open_keyed stop k d none = migrate_until k (with_file new_file d) stop
open_keyed stop k d (some k') =
    if text_eq k k' then migrate_until k d stop else (d, err (database not_a_database))

-- `db::open`
unfoldable pub open_db : Opening → Bytes → Disk → Disk × Result StoreError (Unit {0})
open_db o k d = elim o.unopened [ some e ↦ (d, err e) | none ↦ open_keyed o.stop k d d.key ]

-- The last step of `unlock`: the state changes only when everything has succeeded.
abbrev pub opened_in :
    Bytes → Store → Disk × Result StoreError (Unit {0}) → Store × Result StoreError (Unit {0})
opened_in passphrase s (d, err e) = (record s { disk = d }, err e)
opened_in passphrase s (d, ok u) = (record s { disk = d; state = unlocked passphrase }, ok tt)

abbrev pub derived_in :
    Opening → Bytes → Store → Result StoreError Bytes → Store × Result StoreError (Unit {0})
derived_in o passphrase s (err e) = (s, err e)
derived_in o passphrase s (ok key) = opened_in passphrase s (open_db o key s.disk)

module _ (derive_key : DeriveKey) where
  abbrev pub salted_in :
      Opening → Bytes → Store × Result StoreError Bytes → Store × Result StoreError (Unit {0})
  salted_in o passphrase (s, err e) = (s, err e)
  salted_in o passphrase (s, ok salt) = derived_in o passphrase s (derive_key passphrase salt)

  -- The store comes back beside the result: what has been written stays where a later step fails.
  unfoldable pub unlock : Opening → Bytes → Store → Store × Result StoreError (Unit {0})
  unfolding load_or_create_db_salt open_db
  unlock o passphrase s = salted_in o passphrase (load_or_create_db_salt o s)

unfoldable pub lock : Store → Store
lock s = record s { state = sealed }

unfoldable pub is_unlocked : Store → Bool
is_unlocked s = elim s.state [ sealed ↦ false | unlocked p ↦ true ]

-- `Store::conn`: the tables, or `Locked`.
unfoldable pub conn : Store → Result StoreError Db
conn s = elim s.state [ sealed ↦ err locked | unlocked p ↦ ok s.disk.db ]

unfoldable pub passphrase : Store → Result StoreError Bytes
passphrase s = elim s.state [ sealed ↦ err locked | unlocked p ↦ ok p ]

-- A statement that has been executed has written the file.
unfoldable pub set_db : Db → Store → Store
set_db d s = record s { disk = record s.disk { db = d } }

in_state :
    (s : Store) (st : StoreState)
    → is_unlocked (record s { state = st }) ≡ true
    → (p : Bytes) × (st ≡ unlocked p)
unfolding is_unlocked
in_state s sealed h = cc
in_state s (unlocked p) h = (p, refl)

-- An unlocked store is one with a passphrase.
pub unlocked_with : (s : Store) → is_unlocked s ≡ true → (p : Bytes) × (s.state ≡ unlocked p)
unlocked_with s h = in_state s s.state h

pub is_unlocked-cases : (s : Store) → (is_unlocked s ≡ true) ⊎ (is_unlocked s ≡ false)
is_unlocked-cases s = Bool-cases (is_unlocked s)

-- A property of a store in the state that it is in.
pub in_its_state :
    (P : Store → Type 0) (s : Store) {st : StoreState}
    → s.state ≡ st
    → P (record s { state = st })
    → P s
in_its_state P s e h = subst (λ t. P (record s { state = t })) (sym e) h
