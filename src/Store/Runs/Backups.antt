-- ===== src/Store/Runs/Backups.antt =====
-- Backups of the sample store: each theorem about them, applied.
use traffic_cone.Common.{
  ℕ, ◌≡◌, refl, sym, ap, true, some, [], ◌∷◌, map, Result, ok, Text, Bytes, codes, text_eq,
  text_eq_iff,
}
use traffic_cone.Common.Int.{pos}
use traffic_cone.Store.Db.{Db, empty_db}
use traffic_cone.Store.Handle.{Store}
use traffic_cone.Store.Listing.{get_plaintext_key}
use traffic_cone.Store.Backup.{BackupCrates, payload_of}
use traffic_cone.Store.Backup.Loop.{at_db}
use traffic_cone.Store.Backup.Steps.{without_file, as_flag}
use traffic_cone.Store.Backup.RoundTrip.{IsComplete, counts}
use traffic_cone.Store.Backup.Restore.{RestoreDraws, create_backup, restore_backup}
use traffic_cone.Store.Backup.Whole.{
  BackupLaws, restore_backup-create_backup, get_plaintext_key-restore_backup,
}
use traffic_cone.Store.Samples.{sample-IsSound, sample_crates, sample_laws, sample_db, sample_store}

-- JSON of one payload, and a cipher that leaves the text as it is.
abbrev sample_backup : BackupCrates
sample_backup = record {
  to_vec_pretty = λ payload. ok (1 ∷ []);
  from_slice = λ json. ok (payload_of sample_crates (pos 4) sample_db);
  age_wrap = λ password plain. ok plain;
  age_open = λ cipher. ok (some (λ password. ok (ok cipher)));
}

wrapped :
    (password : Text) (plain cipher : Bytes)
    → sample_backup.age_wrap password plain ≡ ok cipher
    → (decrypt : Text → Result Text (Result Text Bytes)) × (sample_backup.age_open cipher
        ≡ ok (some decrypt))
      × (decrypt password ≡ ok (ok plain))
wrapped password plain cipher h =
    let same : plain ≡ cipher = cc h in
    ((λ _. ok (ok cipher)), refl, ap (λ (t : Bytes). ok (ok t)) (sym same))

sample_backup_laws : BackupLaws sample_backup (payload_of sample_crates (pos 4) sample_db)
sample_backup_laws = record {
  from_slice-to_vec_pretty = λ json h. refl;
  age_open-age_wrap = wrapped;
}

abbrev sample_restore : RestoreDraws
sample_restore = record { key_id = λ n. n ∷ []; audit_id = codes "e9"; now = pos 8 }

distinct_ids :
    (m n : ℕ) → text_eq (sample_restore.key_id m) (sample_restore.key_id n) ≡ true → m ≡ n
distinct_ids m n h = let e : m ∷ [] ≡ n ∷ [] = (text_eq_iff (m ∷ []) (n ∷ [])).0 h in cc e

sample-IsComplete : IsComplete sample_db
unfolding text_eq
sample-IsComplete = record {
  one_key = (refl, tt);
  ca_distinct = tt;
  ssh_keys_distinct = (tt, tt);
  routes_distinct = (tt, tt);
  ssh_routes_distinct = tt;
  routes_linked = (refl, tt);
  ssh_routes_linked = tt;
}

abbrev pub master : Bytes
master = codes "pw"

made :
    (create_backup sample_crates sample_backup
      (codes "e8")
      (codes "b")
      (pos 4)
      (at_db sample_store master sample_db)).1
    ≡ ok (1 ∷ [])
unfolding create_backup traffic_cone.Store.Exec.◌>>=◌ traffic_cone.Store.Exec.ask
    traffic_cone.Store.Backup.seal_backup traffic_cone.Store.Handle.conn traffic_cone.Store.Exec.sql
    traffic_cone.Store.Db.insert_audit traffic_cone.Store.Exec.done
made = refl

restore_backup-create_backup_example :
    let (t, result) =
      restore_backup sample_crates sample_backup sample_restore
        (1 ∷ [])
        (codes "b")
        (at_db sample_store master empty_db) in
    (result ≡ ok (counts sample_restore sample_db))
    × (t.disk.db.certs ≡ sample_db.certs)
    × (t.disk.db.ssh_keys ≡ sample_db.ssh_keys)
    × (t.disk.db.ca_certs ≡ map without_file sample_db.ca_certs)
    × (t.disk.db.apps ≡ sample_db.apps)
    × (t.disk.db.routes ≡ map as_flag sample_db.routes)
    × (t.disk.db.ssh_routes ≡ sample_db.ssh_routes)
restore_backup-create_backup_example =
    restore_backup-create_backup sample_crates sample_laws sample_backup sample_store sample_store
      master sample_db sample_restore (pos 4) sample_backup_laws (codes "e8") (codes "b") (1 ∷ [])
      sample-IsSound sample-IsComplete distinct_ids made

has_c1 : traffic_cone.Store.Db.Sound.has_cert sample_db.certs (codes "c1") ≡ true
unfolding text_eq
has_c1 = refl

get_plaintext_key-restore_backup_example :
    get_plaintext_key sample_crates
      (restore_backup sample_crates sample_backup sample_restore
        (1 ∷ [])
        (codes "b")
        (at_db sample_store master empty_db)).0
      (codes "c1")
    ≡ get_plaintext_key sample_crates (at_db sample_store master sample_db) (codes "c1")
get_plaintext_key-restore_backup_example =
    get_plaintext_key-restore_backup sample_crates sample_laws sample_backup sample_store
      sample_store master sample_db sample_restore (pos 4) sample_backup_laws (codes "e8")
      (codes "b") (1 ∷ []) (codes "c1") sample-IsSound sample-IsComplete distinct_ids made has_c1
