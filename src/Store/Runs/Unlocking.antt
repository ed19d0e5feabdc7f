-- ===== src/Store/Runs/Unlocking.antt =====
-- Unlocking a store, on a file system with no files.
use traffic_cone.Common.{text_eq, ◌≡◌, refl, ◌≢◌, some, [], ◌∷◌, ◌++◌, ok, codes}
use traffic_cone.Store.Handle.{
  Opening, Store, DeriveKey, new_disk, open_store, unlock, lock, set_db,
}
use traffic_cone.Store.Handle.Lifecycle.{Healthy, unlock-lock, unlock-other}
use traffic_cone.Store.Samples.{opening_with, sample_db}

abbrev sample_derive : DeriveKey
sample_derive = λ pass salt. ok (pass ++ salt)

abbrev first_run : Store
first_run = open_store (codes "db") new_disk

abbrev once : Opening
once = opening_with (1 ∷ [])

abbrev later : Opening
later = opening_with (2 ∷ [])

later-Healthy : Healthy later
later-Healthy = record { readable = refl; openable = refl; unstopped = refl }

opened : (unlock sample_derive once (7 ∷ []) first_run).1 ≡ ok tt
unfolding unlock open_store traffic_cone.Store.Db.Migrate.migrate
    traffic_cone.Store.Db.Migrate.execute_all text_eq
opened = refl

unlock-lock_example :
    ((unlock sample_derive later
        (7 ∷ [])
        (lock (set_db sample_db (unlock sample_derive once (7 ∷ []) first_run).0))).1
      ≡ ok tt)
    × ((unlock sample_derive later
          (7 ∷ [])
          (lock (set_db sample_db (unlock sample_derive once (7 ∷ []) first_run).0))).0
        ≡ set_db sample_db (unlock sample_derive once (7 ∷ []) first_run).0)
unlock-lock_example =
    unlock-lock sample_derive once later (7 ∷ []) first_run sample_db later-Healthy opened

salted : (unlock sample_derive once (7 ∷ []) first_run).0.disk.salt ≡ some (1 ∷ [])
unfolding unlock open_store traffic_cone.Store.Db.Migrate.migrate
    traffic_cone.Store.Db.Migrate.execute_all text_eq
salted = refl

other_key : sample_derive [] (1 ∷ []) ≢ sample_derive (7 ∷ []) (1 ∷ [])
other_key h = cc

unlock-other_example :
    ((unlock sample_derive later [] (lock (unlock sample_derive once (7 ∷ []) first_run).0)).1
      ≢ ok tt)
    × ((unlock sample_derive later [] (lock (unlock sample_derive once (7 ∷ []) first_run).0)).0
        ≡ lock (unlock sample_derive once (7 ∷ []) first_run).0)
unlock-other_example =
    unlock-other sample_derive once later (7 ∷ []) [] (1 ∷ []) first_run opened salted other_key
