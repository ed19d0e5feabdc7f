-- ===== src/Cli/Commands.antt =====
-- crates/cone-cli/src/main.rs: the commands that work on an open store.
pub mod Registered
pub mod Removal
use traffic_cone.Common.{
  ℕ, ◌+◌, ◌||◌, Option, none, some, List, [], ◌∷◌, if◌then◌else◌, length, Result, ok, err, ok_or,
  map_err, Text, Bytes, codes, text_eq,
}
use traffic_cone.Store.Models.{StoreError, App, Cert, CaCert, SshKey}
use traffic_cone.Store.Crypto.{Crates}
use traffic_cone.Store.Db.{RouteRow, AuditRow, insert_app, insert_route}
use traffic_cone.Store.Exec.{sql}
use traffic_cone.Store.Listing.{
  list_audit_log, list_ca_certs, list_ssh_keys, list_ssh_routes, list_apps, list_routes,
  get_cert_by_label, get_cert_by_id,
}
use traffic_cone.Store.Routes.{resolve_route}
use traffic_cone.Store.Delete.{delete_cert}
use traffic_cone.Store.Integrity.{hash_file, verify_all}
use traffic_cone.Store.Import.{Parsers}
use traffic_cone.Store.Import.File.{import_file}
use traffic_cone.Store.Backup.{BackupCrates}
use traffic_cone.Store.Backup.Restore.{create_backup, restore_backup}
use traffic_cone.Cli.Output.{
  Line, CliError, no_ca_certs, no_ssh_keys, no_apps, no_audit_entries, all_verified, route_removed,
  no_route_matched, ca_certs_in_file, ssh_route_count, removed_cert, imported, backup_written,
  app_matches_hash, restored_counts, audit_line, label_line, app_registered, route_added,
  would_present, prompt_failed, read_failed, write_failed, no_such_cert, integrity_failed,
  hash_mismatch, slice, format_timestamp, ends_with,
}
use traffic_cone.Cli.Cmd.{Cmd, from, print, lift, reads, ◌>>=◌, ◌>>◌}
use traffic_cone.Cli.Tool.{
  Tool, RouteArgs, bool_int, pattern_of, delete_routes, import_source, find_app, some_or, lines_or,
  route_lines,
}

module _ (w : Tool) where
  abbrev ask_password : Text → Cmd Text
  ask_password prompt = from (map_err prompt_failed (w.password prompt))

  -- The passphrase of a PFX file; others are not asked for one.
  unfoldable pub import_passphrase : Option Text → Cmd Text
  unfolding ends_with
  import_passphrase none = print []
  import_passphrase (some f) =
      if ends_with f (codes ".pfx") || ends_with f (codes ".p12")
      then ask_password (codes "PFX passphrase")
      else print []

  abbrev chain_lines : List Bytes → List Line
  chain_lines [] = []
  chain_lines (cert ∷ chain) = ca_certs_in_file (length (cert ∷ chain)) ∷ []

  unfoldable pub import_command :
      Crates → Parsers → Option Text → Option Text → Option Text → Text → Cmd (List Line)
  unfolding import_passphrase import_source
  import_command c p file cert key label = do
    pass ← import_passphrase file
    (path, key_path) ← from (import_source file cert key)
    result ← lift (import_file c p w.draws path pass label key_path)
    print (imported label ∷ chain_lines result.ca_chain)

  unfoldable pub remove_command : Text → Cmd (List Line)
  remove_command label = do
    _ ← lift (delete_cert w.audit_id w.now label)
    print (removed_cert label ∷ [])

  unfoldable pub backup_command : Crates → BackupCrates → Text → Cmd (List Line)
  backup_command c b out = do
    pass ← ask_password (codes "Backup passphrase")
    bytes ← lift (create_backup c b w.audit_id pass w.now)
    _ ← from (map_err write_failed (w.write_file out bytes))
    print (backup_written out ∷ [])

  unfoldable pub restore_command : Crates → BackupCrates → Text → Cmd (List Line)
  restore_command c b file = do
    bytes ← from (ok_or (w.files file) (read_failed file))
    pass ← ask_password (codes "Backup passphrase")
    r ← lift (restore_backup c b w.restore_draws bytes pass)
    print (restored_counts r.certs r.ssh_keys r.ca_certs r.apps (r.routes + r.ssh_routes) ∷ [])

  unfoldable pub audit_command : ℕ → Cmd (List Line)
  unfolding format_timestamp
  audit_command limit = do
    entries ← reads (λ s. list_audit_log s limit)
    print (
        lines_or no_audit_entries
          (λ (e : AuditRow).
            audit_line (format_timestamp e.occurred_at) e.event_type (some_or [] e.detail))
          entries)

  abbrev verified_lines : Result StoreError (Unit {0}) → Result CliError (List Line)
  verified_lines (ok u) = ok (all_verified ∷ [])
  verified_lines (err e) = err (integrity_failed e)

  -- A failure is printed, and the tool exits with status 1.
  unfoldable pub verify_command : Crates → Cmd (List Line)
  verify_command c s = let (s', r) = verify_all c w.files w.now s in (s', verified_lines r)

  unfoldable pub ca_list_command : Cmd (List Line)
  ca_list_command = do
    certs ← reads list_ca_certs
    print (lines_or no_ca_certs (λ (c : CaCert). label_line c.label c.subject) certs)

  unfoldable pub ssh_list_command : Cmd (List Line)
  ssh_list_command = do
    keys ← reads list_ssh_keys
    print (lines_or no_ssh_keys (λ (k : SshKey). label_line k.label k.public_key) keys)

  unfoldable pub ssh_route_list_command : Cmd (List Line)
  ssh_route_list_command = do
    routes ← reads list_ssh_routes
    print (ssh_route_count (length routes) ∷ [])

  unfoldable pub app_list_command : Cmd (List Line)
  app_list_command = do
    apps ← reads list_apps
    print (lines_or no_apps (λ (a : App). label_line a.label a.exe_path) apps)

  abbrev pub new_app : Text → Text → Text → App
  new_app label exe hash = record {
    id = w.id;
    label = label;
    exe_path = exe;
    exe_hash = hash;
    registered_at = w.now;
  }

  unfoldable pub app_add_command : Crates → Text → Text → Cmd (List Line)
  app_add_command c label exe = do
    hash ← reads (λ _. hash_file c w.files exe)
    _ ← lift (sql (insert_app (new_app label exe hash)))
    short ← from (slice 16 hash)
    print (app_registered label exe short ∷ [])

  unfoldable pub check_app : App → Text → Result CliError (List Line)
  check_app a current =
      if text_eq current a.exe_hash
      then ok (app_matches_hash a.label ∷ [])
      else err (hash_mismatch a.exe_hash current)

  unfoldable pub app_verify_command : Crates → Text → Cmd (List Line)
  unfolding find_app check_app
  app_verify_command c label = do
    apps ← reads list_apps
    a ← from (find_app label apps)
    current ← reads (λ _. hash_file c w.files a.exe_path)
    from (check_app a current)

  unfoldable pub route_list_command : Cmd (List Line)
  unfolding slice
  route_list_command = do routes ← reads list_routes; from (route_lines routes)

  -- The id of the application with a label, if a label is given.
  unfoldable pub app_id_for : Option Text → Cmd (Option Text)
  unfolding find_app
  app_id_for none = print none
  app_id_for (some label) = do
    apps ← reads list_apps
    a ← from (find_app label apps)
    print (some a.id)

  unfoldable pub new_route : RouteArgs → Text → Option Text → RouteRow
  unfolding pattern_of
  new_route args cert_id app_id =
      let (match_type, pattern) = pattern_of args.host args.ip_addr in
      record {
        id = w.id;
        cert_id = cert_id;
        app_id = app_id;
        match_type = match_type;
        pattern = pattern;
        require_both = bool_int args.require_both;
        priority = args.priority;
        created_at = w.now;
      }

  -- The certificate with a label; every error is shown as a missing certificate.
  abbrev pub cert_for : Text → Cmd Cert
  cert_for label s = (s, map_err (λ _. no_such_cert label) (get_cert_by_label s label))

  unfoldable pub route_add_command : RouteArgs → Cmd (List Line)
  unfolding app_id_for slice
  route_add_command args = do
    cert ← cert_for args.cert
    app_id ← app_id_for args.app
    _ ← lift (sql (insert_route (new_route args cert.id app_id)))
    short ← from (slice 8 w.id)
    print (route_added short ∷ [])

  unfoldable pub route_remove_command : Text → Cmd (List Line)
  unfolding delete_routes
  route_remove_command id = do
    _ ← lift (sql (λ d. ok (delete_routes w.like id d)))
    print (route_removed ∷ [])

  abbrev pub shown_cert : Option Text → Cmd (List Line)
  shown_cert none = print (no_route_matched ∷ [])
  shown_cert (some cert_id) = do
    cert ← reads (λ s. get_cert_by_id s cert_id)
    print (would_present cert.label cert.subject ∷ [])

  unfoldable pub test_command : Option Text → Option Text → Cmd (List Line)
  test_command host ip_addr = do
    found ←
        reads (λ s.
          resolve_route s (record { exe_path = none; remote_host = host; remote_ip = ip_addr }))
    shown_cert found
