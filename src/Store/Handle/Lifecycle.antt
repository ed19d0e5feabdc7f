-- ===== src/Store/Handle/Lifecycle.antt =====
-- Unlocking the store, locking it and unlocking it again.
use traffic_cone.Common.{
  ◌≡◌, refl, sym, ap, ◌∙◌, subst, ◌≢◌, inl, inr, Bool, true, Option, none, some, Bool-cases,
  Option-cases, Result, ok, err, Bytes, text_eq, text_eq_iff, text_eq_refl, if◌then◌else◌,
}
use traffic_cone.Store.Models.{StoreError, database, not_a_database}
use traffic_cone.Store.Db.{Db}
use traffic_cone.Store.Db.Migrate.{DbFile, migrate, new_file}
use traffic_cone.Store.Db.Migrate.Again.{Current, migrate-Current, migrated-Current}
use traffic_cone.Store.Handle.{
  Store, Disk, DeriveKey, StoreState, unlocked, open_db, unlock, lock, is_unlocked, Opening, Stop,
  at_pragma, at_statement, load_or_create_db_salt, set_db, file_of, with_file, read_salt,
  write_salt, migrated, migrate_until, open_keyed, opened_in, derived_in, salted_in,
}

-- A file that has been opened with this key, in which a migration has nothing to do.
abbrev Ready : Bytes → Disk → Type 0
Ready key d = (d.key ≡ some key) × Current (file_of d)

abbrev OpenedFrom : Bytes → Disk → Disk × Result StoreError (Unit {0}) → Type 0
OpenedFrom key d r = Ready key r.0 × (r.0.salt ≡ d.salt)

migrated-Ready :
    (key : Bytes) (d : Disk) (m : Option DbFile)
    → migrate (file_of d) ≡ m
    → (migrated key d m).1 ≡ ok tt
    → OpenedFrom key d (migrated key d m)
migrated-Ready key d none e h = cc
migrated-Ready key d (some f) e h = ((refl, migrated-Current (file_of d) f e), refl)

migrate_until-Ready :
    (key : Bytes) (d : Disk) (stop : Option Stop)
    → (migrate_until key d stop).1 ≡ ok tt
    → OpenedFrom key d (migrate_until key d stop)
migrate_until-Ready key d none h = migrated-Ready key d (migrate (file_of d)) refl h
migrate_until-Ready key d (some (at_pragma e)) h = cc
migrate_until-Ready key d (some (at_statement n e)) h = cc

open_keyed-Ready :
    (stop : Option Stop) (key : Bytes) (d : Disk) (found : Option Bytes)
    → (open_keyed stop key d found).1 ≡ ok tt
    → OpenedFrom key d (open_keyed stop key d found)
open_keyed-Ready stop key d none h = migrate_until-Ready key (with_file new_file d) stop h
open_keyed-Ready stop key d (some k) h = elim (Bool-cases (text_eq key k)) [
  | inl b ↦ rw b (migrate_until-Ready key d stop (rw b at h))
  | inr b ↦ cc (rw b at h)
]

open_db-Ready :
    (o : Opening) (key : Bytes) (d : Disk)
    → (open_db o key d).1 ≡ ok tt
    → OpenedFrom key d (open_db o key d)
unfolding open_db
open_db-Ready o key d h = elim (Option-cases o.unopened) [
  | inl n ↦ rw (n, open_db) (open_keyed-Ready o.stop key d d.key (rw (n, open_db) at h))
  | inr (e, n) ↦ cc (rw (n, open_db) at h)
]

-- What a successful unlocking leaves: the key that the passphrase derived, in the file and the state.
abbrev Left : Bytes → Store → Result StoreError Bytes → Store → Type 0
Left pass s derived t =
    (key : Bytes) × (derived ≡ ok key)
    × Ready key t.disk
    × (t.disk.salt ≡ s.disk.salt)
    × (t.state ≡ unlocked pass)

opened_in-Left :
    (pass key : Bytes) (s : Store) (r : Disk × Result StoreError (Unit {0}))
    → (r.1 ≡ ok tt → OpenedFrom key s.disk r)
    → (opened_in pass s r).1 ≡ ok tt
    → Left pass s (ok key) (opened_in pass s r).0
opened_in-Left pass key s (d, err e) ready h = cc
opened_in-Left pass key s (d, ok u) ready h =
    let (file, salt) = ready refl in (key, refl, file, salt, refl)

derived_in-Left :
    (o : Opening) (pass : Bytes) (s : Store) (derived : Result StoreError Bytes)
    → (derived_in o pass s derived).1 ≡ ok tt
    → Left pass s derived (derived_in o pass s derived).0
derived_in-Left o pass s (err e) h = cc
derived_in-Left o pass s (ok key) h =
    opened_in-Left pass key s (open_db o key s.disk) (open_db-Ready o key s.disk) h

-- The salt that is used is the one in the file.
abbrev Salted : Store × Result StoreError Bytes → Type 0
Salted (s, loaded) = (salt : Bytes) → loaded ≡ ok salt → s.disk.salt ≡ some salt

read_salt-Salted :
    (e : Option StoreError) (salt : Bytes) (s : Store)
    → s.disk.salt ≡ some salt
    → Salted (s, read_salt e salt)
read_salt-Salted none salt s h salt' q = h ∙ ap some (cc q)
read_salt-Salted (some e) salt s h salt' q = cc

write_salt-Salted :
    (fresh : Bytes) (e : Option (StoreError × Option Bytes)) (s : Store)
    → Salted (write_salt fresh e s)
write_salt-Salted fresh none s salt q = ap some (cc q)
write_salt-Salted fresh (some (e, left)) s salt q = cc

load-Salted : (o : Opening) (s : Store) → Salted (load_or_create_db_salt o s)
unfolding load_or_create_db_salt
load-Salted o s = elim (Option-cases s.disk.salt) [
  | inl n ↦ rw (n, load_or_create_db_salt) (write_salt-Salted o.fresh o.salt_unwritten s)
  | inr (salt, e) ↦ rw (e, load_or_create_db_salt) (read_salt-Salted o.salt_unreadable salt s e)
]

-- An unlocking in which no file fails.
pub record Healthy (o : Opening) : Type 0 where
  pub readable : o.salt_unreadable ≡ none
  pub openable : o.unopened ≡ none
  pub unstopped : o.stop ≡ none

migrate_until-Current :
    (key : Bytes) (d : Disk) → Ready key d → migrate_until key d none ≡ (d, ok tt)
migrate_until-Current key d (k, current) =
    ap (migrated key d) (migrate-Current (file_of d) d.versions refl current)
    ∙ ap (λ k'. (record d { key = k' }, ok tt)) (sym k)

opens_with :
    (o : Opening) (key : Bytes) (d : Disk) → Healthy o → Ready key d → open_db o key d ≡ (d, ok tt)
unfolding open_db
opens_with o key d h ready =
    rw (h.openable, open_db)
      (ap (open_keyed o.stop key d) ready.0
        ∙ ap
            (λ (b : Bool).
              if b then migrate_until key d o.stop else (d, err (database not_a_database)))
            (text_eq_refl key)
        ∙ ap (migrate_until key d) h.unstopped
        ∙ migrate_until-Current key d ready)

-- Any way in which a database with another key does not open leaves it as it is.
opens_not :
    (o : Opening) (found key : Bytes) (d : Disk)
    → d.key ≡ some key
    → found ≢ key
    → (e : StoreError) × (open_db o found d ≡ (d, err e))
unfolding open_db
opens_not o found key d k differ = elim (Option-cases o.unopened) [
  | inr (e, n) ↦ (e, rw (n, open_db) refl)
  | inl n ↦ elim (Bool-cases (text_eq found key)) [
    | inl b ↦ absurd (differ ((text_eq_iff found key).0 b))
    | inr b ↦ (database not_a_database, rw (n, open_db) (rw k (rw b refl)))
  ]
]

abbrev Refused : Store → Store × Result StoreError (Unit {0}) → Type 0
Refused s r = (r.1 ≢ ok tt) × (r.0 ≡ s)

derived_in-Refused :
    (o : Opening) (pass key : Bytes) (s : Store) (derived : Result StoreError Bytes)
    → s.disk.key ≡ some key
    → derived ≢ ok key
    → Refused s (derived_in o pass s derived)
derived_in-Refused o pass key s (err e) k differ = ((λ q. cc), refl)
derived_in-Refused o pass key s (ok found) k differ =
    let (e, closed) = opens_not o found key s.disk k (λ (q : found ≡ key). differ (ap ok q)) in
    subst (λ r. Refused s (opened_in pass s r)) (sym closed) ((λ q. cc), refl)

module _ (derive_key : DeriveKey) where
  salted_in-Left :
      (o : Opening) (pass : Bytes) (loaded : Store × Result StoreError Bytes)
      → Salted loaded
      → (salted_in derive_key o pass loaded).1 ≡ ok tt
      → (salt : Bytes) × ((salted_in derive_key o pass loaded).0.disk.salt ≡ some salt)
        × Left pass loaded.0 (derive_key pass salt) (salted_in derive_key o pass loaded).0
  salted_in-Left o pass (s, err e) salted h = cc
  salted_in-Left o pass (s, ok salt) salted h =
      let (key, d, ready, same, state) = derived_in-Left o pass s (derive_key pass salt) h in
      (salt, same ∙ salted salt refl, (key, d, ready, same, state))

  -- The files that an unlocking leaves have the salt and the key that it used.
  unlock-Left :
      (o : Opening) (pass : Bytes) (s : Store)
      → (unlock derive_key o pass s).1 ≡ ok tt
      → (salt : Bytes) × ((unlock derive_key o pass s).0.disk.salt ≡ some salt)
        × Left pass
            (load_or_create_db_salt o s).0
            (derive_key pass salt)
            (unlock derive_key o pass s).0
  unfolding unlock
  unlock-Left o pass s h = salted_in-Left o pass (load_or_create_db_salt o s) (load-Salted o s) h

  pub unlock-is_unlocked :
      (o : Opening) (pass : Bytes) (s : Store)
      → (unlock derive_key o pass s).1 ≡ ok tt
      → is_unlocked (unlock derive_key o pass s).0 ≡ true
  unfolding is_unlocked
  unlock-is_unlocked o pass s h =
      let (salt, hs, (key, d, ready, same, state)) = unlock-Left o pass s h in
      rw (state, is_unlocked) refl

  salt_found :
      (o : Opening) (salt : Bytes) (s : Store)
      → s.disk.salt ≡ some salt
      → load_or_create_db_salt o s ≡ (s, read_salt o.salt_unreadable salt)
  unfolding load_or_create_db_salt
  salt_found o salt s e = simp (e, load_or_create_db_salt)

  -- A store whose files have the salt and the key that the passphrase derives opens as it is.
  reopens :
      (o : Opening) (pass salt key : Bytes) (s : Store)
      → Healthy o
      → s.disk.salt ≡ some salt
      → derive_key pass salt ≡ ok key
      → Ready key s.disk
      → unlock derive_key o pass s ≡ (record s { state = unlocked pass }, ok tt)
  unfolding unlock
  reopens o pass salt key s h hs hd ready =
      ap (salted_in derive_key o pass)
        (salt_found o salt s hs ∙ ap (λ e. (s, read_salt e salt)) h.readable)
      ∙ ap (derived_in o pass s) hd
      ∙ ap (opened_in pass s) (opens_with o key s.disk h ready)

  read_in-Refused :
      (o : Opening) (other salt key : Bytes) (s : Store) (unreadable : Option StoreError)
      → derive_key other salt ≢ ok key
      → s.disk.key ≡ some key
      → Refused s (salted_in derive_key o other (s, read_salt unreadable salt))
  read_in-Refused o other salt key s (some e) differ hk = ((λ q. cc), refl)
  read_in-Refused o other salt key s none differ hk =
      derived_in-Refused o other key s (derive_key other salt) hk differ

  refuses :
      (o : Opening) (other salt key : Bytes) (s : Store)
      → s.disk.salt ≡ some salt
      → derive_key other salt ≢ ok key
      → s.disk.key ≡ some key
      → Refused s (unlock derive_key o other s)
  unfolding unlock
  refuses o other salt key s hs differ hk =
      subst (λ r. Refused s (salted_in derive_key o other r)) (sym (salt_found o salt s hs))
        (read_in-Refused o other salt key s o.salt_unreadable differ hk)

  -- After a successful unlocking, whatever tables have been written and once the store is locked, the
  -- same passphrase unlocks it again and finds those tables, when reading the salt and opening the
  -- database do not fail: the migration that is run again changes nothing.
  pub unlock-lock :
      (o o' : Opening) (pass : Bytes) (s : Store) (d : Db)
      → Healthy o'
      → (unlock derive_key o pass s).1 ≡ ok tt
      → ((unlock derive_key o' pass (lock (set_db d (unlock derive_key o pass s).0))).1 ≡ ok tt)
        × ((unlock derive_key o' pass (lock (set_db d (unlock derive_key o pass s).0))).0
            ≡ set_db d (unlock derive_key o pass s).0)
  unfolding lock set_db
  unlock-lock o o' pass s d healthy h =
      let (salt, hs, (key, hd, ready, same, state)) = unlock-Left o pass s h in
      let e =
        reopens o' pass salt key (lock (set_db d (unlock derive_key o pass s).0)) healthy hs hd
          (ready.0, ready.1) in
      (
        ap (λ r. r.1) e,
        ap (λ r. r.0) e
            ∙ ap
                (λ (st : StoreState). record (set_db d (unlock derive_key o pass s).0) {
                  state = st;
                })
                (sym state),
      )

  -- A passphrase that derives another key, or none, from the salt does not unlock the store that an
  -- unlocking has left, and the attempt leaves it locked with its files as they were, whether or not
  -- reading and opening them fails.
  pub unlock-other :
      (o o' : Opening) (pass other salt : Bytes) (s : Store)
      → (unlock derive_key o pass s).1 ≡ ok tt
      → (unlock derive_key o pass s).0.disk.salt ≡ some salt
      → derive_key other salt ≢ derive_key pass salt
      → ((unlock derive_key o' other (lock (unlock derive_key o pass s).0)).1 ≢ ok tt)
        × ((unlock derive_key o' other (lock (unlock derive_key o pass s).0)).0
            ≡ lock (unlock derive_key o pass s).0)
  unfolding lock
  unlock-other o o' pass other salt s h e differ =
      let (salt', hs, (key, hd, ready, same_salt, state)) = unlock-Left o pass s h in
      let same : salt' ≡ salt = cc (hs, e) in
      refuses o' other salt key (lock (unlock derive_key o pass s).0) e
        (λ q. differ (q ∙ sym (subst (λ (t : Bytes). derive_key pass t ≡ ok key) same hd))) ready.0
