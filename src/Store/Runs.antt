-- ===== src/Store/Runs.antt =====
-- The store at work on the samples: each theorem about it, applied.
mod Exporting
mod Unlocking
mod Backups
mod Keys
use traffic_cone.Common.{
  ◌-◌, ◌/◌, ◌≡◌, refl, ◌≢◌, ◌↔◌, ◌⊎◌, inl, true, false, none, some, List, [], ◌∷◌, arith, All, In,
  ok, ◌>>=◌, ◌>>◌, Bytes, codes, text_eq,
}
use traffic_cone.Common.Int.{pos}
use traffic_cone.Store.Models.{Route, KeyAlgorithm}
use traffic_cone.Store.Db.{Db, RouteRow}
use traffic_cone.Store.Handle.{Store, unlocked, conn, is_unlocked}
use traffic_cone.Store.Crypto.{encrypt_key}
use traffic_cone.Store.Listing.{list_routes, list_apps, route_of_row}
use traffic_cone.Store.Routes.{Query, resolve_route, app_id_of, is_candidate}
use traffic_cone.Store.Routes.Best.{Wins, resolve_route-Wins}
use traffic_cone.Store.Routes.Reach.{Passed, resolve_route-Passed, resolve_route-ne-none}
use traffic_cone.Store.Integrity.{verify_all, record_component, hash_file}
use traffic_cone.Store.Integrity.Verify.{Matches, verify_all_iff, verify_all-record_component}
use traffic_cone.Store.Import.{store_cert_and_key, detect_key_algorithm, detect_format}
use traffic_cone.Store.Import.File.{import_file}
use traffic_cone.Store.Keyring.{keyring, put}
use traffic_cone.Store.Keyring.Imported.{keyring-import_file}
use traffic_cone.Store.Samples.{
  sample-IsSound, sample_record, sample_draws, sample_laws, read_new, read_old, sample_parsers,
  sample_query, sample_app, sample_crates, open_route, store_of, sample_db, sample_store,
  sample_route,
}

abbrev one_route : List Route
one_route = route_of_row sample_route ∷ []

listed_routes : list_routes sample_store ≡ ok one_route
unfolding list_routes conn traffic_cone.Common.Sort.sort_by
listed_routes = refl

listed_apps : list_apps sample_store ≡ ok (sample_app ∷ [])
unfolding list_apps conn traffic_cone.Common.Sort.sort_by
listed_apps = refl

opened : conn sample_store ≡ ok sample_db
unfolding conn
opened = refl

routed : resolve_route sample_store sample_query ≡ ok (some (codes "c1"))
unfolding resolve_route list_routes list_apps conn traffic_cone.Common.Sort.sort_by
    traffic_cone.Store.Routes.app_matches text_eq traffic_cone.Store.Routes.host_matches
    traffic_cone.Store.Listing.parse_match_type
routed = refl

resolve_route-Wins_example :
    ((resolve_route sample_store sample_query ≡ ok none)
      × All
          (λ x.
            is_candidate (app_id_of (sample_app ∷ []) sample_query.exe_path) sample_query x ≡ false)
          one_route)
    ⊎ ((r : Route) × Wins
          (app_id_of (sample_app ∷ []) sample_query.exe_path)
          sample_query
          one_route
          r
        × (resolve_route sample_store sample_query ≡ ok (some r.cert_id)))
resolve_route-Wins_example =
    resolve_route-Wins sample_store sample_query one_route (sample_app ∷ []) listed_routes
      listed_apps

resolve_route-Passed_example :
    (row : RouteRow) × In row sample_db.routes
    × (row.cert_id ≡ codes "c1")
    × Passed (app_id_of (sample_app ∷ []) sample_query.exe_path) sample_query (route_of_row row)
resolve_route-Passed_example =
    resolve_route-Passed sample_store sample_db sample_query (codes "c1") (sample_app ∷ []) opened
      listed_apps routed

abbrev open_db : Db
open_db = record sample_db { routes = open_route ∷ [] }

abbrev open_store : Store
open_store = store_of open_db (unlocked (codes "pw"))

opened_too : conn open_store ≡ ok open_db
unfolding conn
opened_too = refl

abbrev nowhere : Query
nowhere = record { exe_path = none; remote_host = none; remote_ip = none }

resolve_route-ne-none_example : resolve_route open_store nowhere ≢ ok none
resolve_route-ne-none_example =
    resolve_route-ne-none open_store open_db nowhere open_route opened_too (inl refl)
      (refl, inl refl)

imported :
    (import_file sample_crates sample_parsers sample_draws
      (codes "me.p12")
      (codes "x")
      (codes "new")
      none
      sample_store).1
    ≡ ok (record { cert_id = codes "c2"; ca_chain = [] })
unfolding import_file traffic_cone.Store.Exec.◌>>=◌ traffic_cone.Store.Exec.ask
    traffic_cone.Store.Exec.sql traffic_cone.Store.Exec.done detect_format text_eq
    traffic_cone.Store.Import.Path.extension_lower traffic_cone.Store.Import.Path.to_lower
    traffic_cone.Store.Import.Formats.pkcs12_parts store_cert_and_key detect_key_algorithm
    traffic_cone.Store.Handle.passphrase traffic_cone.Store.Handle.set_db encrypt_key conn
    traffic_cone.Store.Db.insert_cert traffic_cone.Store.Db.insert_key
    traffic_cone.Store.Db.insert_audit traffic_cone.Store.Crypto.hash_bytes
    traffic_cone.Store.Crypto.derive_key traffic_cone.Store.Import.File.import_as
    traffic_cone.Store.Import.File.import_pkcs12 traffic_cone.Store.Import.debug_name
imported = refl

keyring-import_file_example :
    (key_der : Bytes) × (a : KeyAlgorithm) × (detect_key_algorithm sample_crates sample_parsers
        key_der
      ≡ ok a)
    × (keyring sample_crates
          (import_file sample_crates sample_parsers sample_draws
            (codes "me.p12")
            (codes "x")
            (codes "new")
            none
            sample_store).0
        ≡ put (codes "c2") (key_der, a) (keyring sample_crates sample_store))
keyring-import_file_example =
    keyring-import_file sample_crates sample_parsers sample_draws sample_laws (codes "me.p12")
      (codes "x") (codes "new") none sample_store (record { cert_id = codes "c2"; ca_chain = [] })
      sample-IsSound imported

is_open : is_unlocked sample_store ≡ true
unfolding is_unlocked
is_open = refl

verify_all_iff_example :
    ((verify_all sample_crates read_old (pos 3) sample_store).1 ≡ ok tt)
    ↔ All (Matches sample_crates read_old) sample_db.integrity
verify_all_iff_example = verify_all_iff sample_crates read_old (pos 3) sample_store is_open

changed : ¬ Matches sample_crates read_new sample_record
unfolding hash_file
changed h = ground arith

verify_all-record_component_example :
    (verify_all sample_crates read_new
      (pos 4)
      (record_component sample_crates read_new
        (codes "i2")
        (pos 3)
        (codes "coned")
        (codes "/bin/coned")
        (codes "2")
        sample_store).0).1
    ≢ ok tt
unfolding text_eq
verify_all-record_component_example =
    verify_all-record_component sample_crates read_new (codes "i2") (pos 3) (pos 4) (codes "coned")
      (codes "/bin/coned") (codes "2") sample_store sample_record is_open (inl refl) refl changed
