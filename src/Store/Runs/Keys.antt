-- ===== src/Store/Runs/Keys.antt =====
-- The keyring and the migration, on the samples.
use traffic_cone.Common.{◌≡◌, refl, some, take, ok, codes, text_eq}
use traffic_cone.Common.Int.{pos}
use traffic_cone.Store.Models.{Cert}
use traffic_cone.Store.Db.{empty_db}
use traffic_cone.Store.Db.Migrate.{DbFile, migrate, new_file, script, execute_all}
use traffic_cone.Store.Db.Migrate.Again.{Current, migrate-interrupted}
use traffic_cone.Store.Listing.{get_cert_by_label}
use traffic_cone.Store.Delete.{delete_cert}
use traffic_cone.Store.Keyring.{keyring, remove}
use traffic_cone.Store.Keyring.Deleted.{keyring-delete_cert}
use traffic_cone.Store.Keyring.Histories.{Unaimed, History, idle, deleting, keyring-History}
use traffic_cone.Store.Samples.{sample_crates, sample_store, sample_cert}

deleted : (delete_cert (codes "a9") (pos 4) sample_cert.label sample_store).1 ≡ ok tt
unfolding delete_cert get_cert_by_label traffic_cone.Store.Handle.conn traffic_cone.Store.Exec.◌>>=◌
    traffic_cone.Store.Exec.ask traffic_cone.Store.Exec.sql text_eq
    traffic_cone.Store.Db.delete_cert_row traffic_cone.Store.Db.insert_audit
    traffic_cone.Store.Handle.set_db
deleted = refl

keyring-delete_cert_example :
    (cert : Cert) × (get_cert_by_label sample_store sample_cert.label ≡ ok cert)
    × (keyring sample_crates (delete_cert (codes "a9") (pos 4) sample_cert.label sample_store).0
        ≡ remove cert.id (keyring sample_crates sample_store))
keyring-delete_cert_example =
    keyring-delete_cert sample_crates (codes "a9") (pos 4) sample_cert.label sample_store deleted

-- A migration of a new file that was cut off after the third table.
migrate-interrupted_example :
    (g : DbFile) × (migrate new_file ≡ some g)
    × Current g
    × (migrate g ≡ some g)
    × (migrate (execute_all (take 5 (script new_file)) new_file) ≡ some g)
migrate-interrupted_example = migrate-interrupted 5 new_file

-- A new file gets no rows.
new_rows : (g : DbFile) × (migrate new_file ≡ some g) × (g.rows ≡ empty_db)
unfolding migrate execute_all
new_rows = (_, refl, refl)

another_label : Unaimed (codes "c1") (codes "phone") sample_store
unfolding get_cert_by_label traffic_cone.Store.Handle.conn text_eq
another_label cert e = cc e

-- A deletion that finds no certificate.
one_failure :
    History sample_crates
      (codes "c1")
      sample_store
      (delete_cert (codes "a9") (pos 4) (codes "phone") sample_store).0
one_failure =
    deleting sample_store (delete_cert (codes "a9") (pos 4) (codes "phone") sample_store).0
      (codes "a9") (pos 4) (codes "phone") another_label
      (idle (delete_cert (codes "a9") (pos 4) (codes "phone") sample_store).0)

keyring-History_example :
    keyring sample_crates
      (delete_cert (codes "a9") (pos 4) (codes "phone") sample_store).0
      (codes "c1")
    ≡ keyring sample_crates sample_store (codes "c1")
keyring-History_example = keyring-History sample_crates (codes "c1") one_failure
