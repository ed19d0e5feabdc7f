-- ===== src/Store/Backup/Restored.antt =====
-- Every table of a backup, restored into a new store.
use traffic_cone.Common.{ℕ, ◌≡◌, refl, sym, ap, ◌∙◌, true, [], map, length, ok, Bytes, text_eq}
use traffic_cone.Common.Int.{ℤ}
use traffic_cone.Store.Db.{Db, empty_db, app_exists}
use traffic_cone.Store.Db.Sound.{IsSound, app_clash, has_cert, has_ssh_key}
use traffic_cone.Store.Handle.{Store}
use traffic_cone.Store.Crypto.{Crates, CratesLaws}
use traffic_cone.Store.Exec.{done}
use traffic_cone.Store.Backup.{join_keys, backup_ssh_key, backup_ca_cert, backup_route, payload_of}
use traffic_cone.Store.Backup.Loop.{at_db, bind_run, IsNew, restore_each_run, AllReady-Distinct}
use traffic_cone.Store.Backup.Pairs.{
  rows-certs, rows-Distinct, backup_pair, join_keys-pairs_of, pairs_of,
}
use traffic_cone.Store.Backup.Restore.{
  restore_payload, restore_ssh_route, restore_route, restore_app, restore_ssh_key, restore_cert,
  restore_ca_cert, RestoreDraws, restore_each,
}
use traffic_cone.Store.Backup.Steps.{
  restore_cert_run, with_pairs, pair_clash, restore_ssh_route_run, restore_route_run,
  restore_ssh_key_run, ssh_route_clash, route_clash, restore_app_run, restore_ca_cert_run,
  ssh_clash, as_flag, without_file, pair_row, ca_clash,
}
use traffic_cone.Store.Backup.RoundTrip.{
  IsComplete, map_id, All-map, All-both, All-tt, Distinct-map, table_run, app_exists-apps, pairs,
  new_keys, after_ca, after_certs, after_ssh, after_apps, after_routes, restored, counts,
}

module _ (c : Crates) (laws : CratesLaws c) (t : Store) (pass : Bytes) (w : RestoreDraws)
    (d : Db) where
  module _ (sound : IsSound d) (complete : IsComplete d)
      (inj : (m n : ℕ) → text_eq (w.key_id m) (w.key_id n) ≡ true → m ≡ n) where
    ca_run :
        restore_each restore_ca_cert 0 (map (backup_ca_cert c) d.ca_certs) (at_db t pass empty_db)
        ≡ (at_db t pass (after_ca w d), ok (length d.ca_certs))
    ca_run =
        table_run restore_ca_cert (backup_ca_cert c) without_file ca_clash (λ _. Unit {0})
          (λ before. at_db t pass (record empty_db { ca_certs = before }))
          (λ before i x new. restore_ca_cert_run c t pass empty_db before i x new.0) d.ca_certs
          (Distinct-map ca_clash without_file d.ca_certs complete.ca_distinct)
          (All-tt (map without_file d.ca_certs))

    certs_run :
        restore_each
          (restore_cert c w.key_id)
          0
          (join_keys c d.keys d.certs)
          (at_db t pass (after_ca w d))
        ≡ (at_db t pass (after_certs w d), ok (length (pairs_of d.keys d.certs)))
    certs_run =
        ap (λ xs. restore_each (restore_cert c w.key_id) 0 xs (at_db t pass (after_ca w d)))
          (join_keys-pairs_of c d.keys d.certs)
        ∙ (restore_each_run (restore_cert c w.key_id) (backup_pair c) (pair_row w.key_id)
              (λ before r. IsNew pair_clash before r × Unit {0})
              (λ before. at_db t pass (with_pairs (after_ca w d) before))
              (λ before i q new.
                restore_cert_run c laws w.key_id t pass (after_ca w d) before i q new.0)
              [] 0 (pairs_of d.keys d.certs)
              (AllReady-Distinct pair_clash (λ _. Unit {0}) [] (pairs w d)
                (rows-Distinct w.key_id d.keys 0 d.certs inj complete.one_key sound.certs_distinct)
                (All-tt (pairs w d)))
            ∙ ap
                (λ cs. (
                  at_db t pass (record (after_ca w d) { certs = cs; keys = (new_keys w d) }),
                  ok (length (pairs_of d.keys d.certs)),
                ))
                (rows-certs w.key_id d.keys 0 d.certs complete.one_key))

    ssh_run :
        restore_each
          (restore_ssh_key c)
          0
          (map (backup_ssh_key c) d.ssh_keys)
          (at_db t pass (after_certs w d))
        ≡ (at_db t pass (after_ssh w d), ok (length d.ssh_keys))
    ssh_run =
        table_run (restore_ssh_key c) (backup_ssh_key c) (λ k. k) ssh_clash (λ _. Unit {0})
          (λ before. at_db t pass (record (after_certs w d) { ssh_keys = before }))
          (λ before i x new. restore_ssh_key_run c laws t pass (after_certs w d) before i x new.0)
          d.ssh_keys (Distinct-map ssh_clash (λ k. k) d.ssh_keys complete.ssh_keys_distinct)
          (All-tt (map (λ k. k) d.ssh_keys))
        ∙ ap
            (λ ks.
              (at_db t pass (record (after_certs w d) { ssh_keys = ks }), ok (length d.ssh_keys)))
            (map_id d.ssh_keys)

    apps_run :
        restore_each restore_app 0 d.apps (at_db t pass (after_ssh w d))
        ≡ (at_db t pass (after_apps w d), ok (length d.apps))
    apps_run =
        ap (λ xs. restore_each restore_app 0 xs (at_db t pass (after_ssh w d)))
          (sym (map_id d.apps))
        ∙ (table_run restore_app (λ a. a) (λ a. a) app_clash (λ _. Unit {0})
              (λ before. at_db t pass (record (after_ssh w d) { apps = before }))
              (λ before i x new. restore_app_run t pass (after_ssh w d) before i x new.0) d.apps
              (Distinct-map app_clash (λ a. a) d.apps sound.apps_distinct)
              (All-tt (map (λ a. a) d.apps))
            ∙ ap (λ xs. (at_db t pass (record (after_ssh w d) { apps = xs }), ok (length d.apps)))
                (map_id d.apps))

    routes_run :
        restore_each restore_route 0 (map (backup_route c) d.routes) (at_db t pass (after_apps w d))
        ≡ (at_db t pass (after_routes w d), ok (length d.routes))
    routes_run =
        table_run restore_route (backup_route c) as_flag route_clash
          (λ r. (has_cert d.certs r.cert_id ≡ true) × (app_exists d r.app_id ≡ true))
          (λ before. at_db t pass (record (after_apps w d) { routes = before }))
          (λ before i x ready.
            restore_route_run c t pass (after_apps w d) before i x ready.0 ready.1.0
              (app_exists-apps (after_apps w d) d x.app_id refl ∙ ready.1.1))
          d.routes (Distinct-map route_clash as_flag d.routes complete.routes_distinct)
          (All-map _ as_flag d.routes
            (All-both _ _ d.routes sound.routes_owned complete.routes_linked))

    ssh_routes_run :
        restore_each restore_ssh_route 0 d.ssh_routes (at_db t pass (after_routes w d))
        ≡ (at_db t pass (restored w d), ok (length d.ssh_routes))
    ssh_routes_run =
        ap (λ xs. restore_each restore_ssh_route 0 xs (at_db t pass (after_routes w d)))
          (sym (map_id d.ssh_routes))
        ∙ (table_run restore_ssh_route (λ r. r) (λ r. r) ssh_route_clash
              (λ r. (has_ssh_key d.ssh_keys r.ssh_key_id ≡ true) × (app_exists d r.app_id ≡ true))
              (λ before. at_db t pass (record (after_routes w d) { ssh_routes = before }))
              (λ before i x ready.
                restore_ssh_route_run t pass (after_routes w d) before i x ready.0 ready.1.0
                  (app_exists-apps (after_routes w d) d x.app_id refl ∙ ready.1.1))
              d.ssh_routes
              (Distinct-map ssh_route_clash (λ r. r) d.ssh_routes complete.ssh_routes_distinct)
              (All-map _ (λ r. r) d.ssh_routes
                (All-both _ _ d.ssh_routes sound.ssh_routes_owned complete.ssh_routes_linked))
            ∙ ap
                (λ rs. (
                  at_db t pass (record (after_routes w d) { ssh_routes = rs }),
                  ok (length d.ssh_routes),
                ))
                (map_id d.ssh_routes))

    pub restore_payload_run :
        (now : ℤ)
        → restore_payload c w (payload_of c now d) (at_db t pass empty_db)
          ≡ (at_db t pass (restored w d), ok (counts w d))
    unfolding restore_payload done
    restore_payload_run now =
        bind_run _ _ _ _ ca_run
        ∙ (bind_run _ _ _ _ certs_run
            ∙ (bind_run _ _ _ _ ssh_run
                ∙ (bind_run _ _ _ _ apps_run
                    ∙ (bind_run _ _ _ _ routes_run ∙ bind_run _ _ _ _ ssh_routes_run))))
