-- ===== src/Daemon/Runs/Starting.antt =====
-- The daemon's start on the samples.
use traffic_cone.Common.{
  ℕ, ◌≡◌, refl, ◌≢◌, true, false, some, [], ◌∷◌, ◌++◌, if◌then◌else◌, All, ok, err, Text, codes,
  text_eq,
}
use traffic_cone.Common.Int.{pos}
use traffic_cone.Common.Host.{VarError, Env}
use traffic_cone.Store.Handle.{Disk, DeriveKey, open_store, unlock, is_unlocked}
use traffic_cone.Store.Integrity.Verify.{Matches}
use traffic_cone.Daemon.Hardening.{dangerous}
use traffic_cone.Daemon.Routing.{load_known_hashes}
use traffic_cone.Daemon.Ipc.{IpcServer}
use traffic_cone.Daemon.Start.{Host, prepare, main}
use traffic_cone.Daemon.Start.Guarded.{Unseen, main-Matches}
use traffic_cone.Daemon.Start.Reaches.{main-starts}
use traffic_cone.Store.Samples.{opening_with, sample_crates, sample_db, read_old}

-- Only the passphrase is set.
abbrev sample_env : Env
sample_env = λ var.
    if text_eq var (codes "CONE_PASSPHRASE") then ok (codes "pw") else err VarError.not_present

abbrev sample_host : Host
sample_host = record {
  env = sample_env;
  uid = 1000;
  calls = record { set_dumpable = λ on. ok tt; mlock = λ ptr len. ok tt };
  create_dir_all = λ dir. ok tt;
  read_password = err [];
  files = read_old;
  opening = opening_with (1 ∷ []);
  now = pos 3;
}

abbrev sample_derive : DeriveKey
sample_derive = λ pass salt. ok (pass ++ salt)

-- The files of a store that has been opened with the passphrase before.
abbrev sample_disk : Disk
sample_disk = record {
  salt = some (9 ∷ []);
  key = some (codes "pw" ++ 9 ∷ []);
  versions = some (pos 1 ∷ []);
  tables = λ t. true;
  db = sample_db;
}

abbrev store_file : Text
store_file = codes "/tmp/.local/share/cone/store.db"

prepared : prepare sample_host ≡ ok (store_file, codes "pw")
unfolding prepare text_eq
prepared = refl

unlocks :
    (unlock sample_derive sample_host.opening (codes "pw") (open_store store_file sample_disk)).1
    ≡ ok tt
unfolding unlock open_store text_eq traffic_cone.Store.Db.Migrate.migrate
    traffic_cone.Store.Db.Migrate.execute_all
unlocks = refl

matching :
    All
      (Matches sample_crates read_old)
      (unlock sample_derive sample_host.opening
        (codes "pw")
        (open_store store_file sample_disk)).0.disk.db.integrity
unfolding unlock open_store text_eq traffic_cone.Store.Db.Migrate.migrate
    traffic_cone.Store.Db.Migrate.execute_all traffic_cone.Store.Integrity.hash_file
matching = (refl, tt)

main-starts_example :
    (srv : IpcServer) × ((main sample_crates sample_derive sample_host sample_disk).1 ≡ ok srv)
main-starts_example =
    main-starts sample_crates sample_derive sample_host sample_disk store_file (codes "pw") prepared
      unlocks matching

started :
    (srv : IpcServer) × ((main sample_crates sample_derive sample_host sample_disk).1 ≡ ok srv)
started =
    main-starts sample_crates sample_derive sample_host sample_disk store_file (codes "pw") prepared
      unlocks matching

main-Matches_example :
    All (Unseen sample_env) dangerous
    × (◌≢◌ {A = ℕ} 1000 0)
    × (sample_host.calls.set_dumpable false ≡ ok tt)
    × (is_unlocked started.0.store ≡ true)
    × All (Matches sample_crates read_old) started.0.store.disk.db.integrity
    × (load_known_hashes started.0.store ≡ ok started.0.known_hashes)
main-Matches_example =
    main-Matches sample_crates sample_derive sample_host sample_disk started.0 started.1
