-- ===== src/Cli/Main.antt =====
-- crates/cone-cli/src/main.rs: the dispatch of `main`, and the store that a command opens.
use traffic_cone.Common.{
  ok_or, List, [], ◌∷◌, if◌then◌else◌, Result, ok, err, ◌>>=◌, map_err, Text, Bytes, codes,
}
use traffic_cone.Common.Host.{connect, get_store_path}
use traffic_cone.Store.Crypto.{Crates}
use traffic_cone.Store.Handle.{Store, Disk, DeriveKey, open_store, unlock}
use traffic_cone.Store.Import.{Parsers}
use traffic_cone.Store.Backup.{BackupCrates}
use traffic_cone.Daemon.Ipc.{CertSummary}
use traffic_cone.Cli.Client.{
  ClientCrates, DaemonStatus, status_of_daemon, lock_daemon, list_certs_of_daemon,
}
use traffic_cone.Cli.Output.{
  Line, CliError, running_locked, running_unlocked, store_locked, no_certs, cert_line,
  ca_import_line, todo_ca_import, todo_ca_remove, todo_ssh_route_add, todo_ssh_route_remove,
  todo_ssh_import, todo_ssh_remove, todo_app_update, todo_app_remove, slice, store_path_failed,
  prompt_failed, unlock_failed, connect_failed, client_error,
}
use traffic_cone.Cli.Cmd.{Cmd}
use traffic_cone.Cli.Command.{
  Command, CaCommand, SshRouteCommand, SshCommand, AppCommand, RouteCommand, ca_add, ca_list,
  ca_remove, ssh_route_add, ssh_route_list, ssh_route_remove, ssh_import, ssh_list, ssh_remove,
  ssh_route, app_add, app_list, app_verify, app_update, app_remove, route_add, route_list,
  route_remove, status, lock, list, verify, import_cert, remove, backup, restore, ca, ssh, app,
  route, test, audit,
}
use traffic_cone.Cli.Tool.{Tool}
use traffic_cone.Cli.Commands.{
  import_command, remove_command, backup_command, restore_command, audit_command, verify_command,
  ca_list_command, ssh_list_command, ssh_route_list_command, app_list_command, app_add_command,
  app_verify_command, route_list_command, route_add_command, route_remove_command, test_command,
}

abbrev pub status_lines : DaemonStatus → List Line
status_lines st = (if st.locked then running_locked else running_unlocked st.cert_count) ∷ []

abbrev pub summary_lines : List CertSummary → Result CliError (List Line)
summary_lines [] = ok []
summary_lines (cert ∷ rest) = do
  lines ← summary_lines rest
  short ← slice 8 cert.id
  ok (cert_line short cert.label cert.subject ∷ lines)

abbrev pub list_lines : List CertSummary → Result CliError (List Line)
list_lines [] = ok (no_certs ∷ [])
list_lines (cert ∷ rest) = summary_lines (cert ∷ rest)

-- The path that `IpcClient::connect` asks for.
abbrev pub coned_socket : Text
coned_socket = 0 ∷ codes "traffic-cone-daemon"

-- Whether a command asks coned, works on the store, or only prints what is to be done.
pub data Action : Type 0 where
  remote : ((Bytes → Bytes) → Result CliError (List Line)) → Action
  direct : Cmd (List Line) → Action
  unfinished : List Line → Action

module _ (w : Tool) (c : Crates) (p : Parsers) (b : BackupCrates) (j : ClientCrates) where
  abbrev pub ca_action : CaCommand → Action
  ca_action ca_list = direct (ca_list_command w)
  ca_action (ca_add file label) = unfinished (ca_import_line file label ∷ todo_ca_import ∷ [])
  ca_action (ca_remove label) = unfinished (todo_ca_remove label ∷ [])

  abbrev pub ssh_route_action : SshRouteCommand → Action
  ssh_route_action ssh_route_list = direct (ssh_route_list_command w)
  ssh_route_action (ssh_route_add key label host) =
      unfinished (todo_ssh_route_add key label host ∷ [])
  ssh_route_action (ssh_route_remove id) = unfinished (todo_ssh_route_remove id ∷ [])

  abbrev pub ssh_action : SshCommand → Action
  ssh_action ssh_list = direct (ssh_list_command w)
  ssh_action (ssh_import file label) = unfinished (todo_ssh_import file label ∷ [])
  ssh_action (ssh_remove label) = unfinished (todo_ssh_remove label ∷ [])
  ssh_action (ssh_route command) = ssh_route_action command

  abbrev pub app_action : AppCommand → Action
  app_action app_list = direct (app_list_command w)
  app_action (app_add label exe) = direct (app_add_command w c label exe)
  app_action (app_verify label) = direct (app_verify_command w c label)
  app_action (app_update label) = unfinished (todo_app_update label ∷ [])
  app_action (app_remove label) = unfinished (todo_app_remove label ∷ [])

  abbrev pub route_action : RouteCommand → Action
  route_action route_list = direct (route_list_command w)
  route_action (route_add args) = direct (route_add_command w args)
  route_action (route_remove id) = direct (route_remove_command w id)

  -- The arms of `main`.
  unfoldable pub action : Command → Action
  unfolding slice
  action status =
      remote λ coned. map_err client_error (status_of_daemon j coned) >>= λ st. ok (status_lines st)
  action lock =
      remote λ coned. map_err client_error (lock_daemon j coned) >>= λ _. ok (store_locked ∷ [])
  action list = remote λ coned. map_err client_error (list_certs_of_daemon j coned) >>= list_lines
  action (import_cert file cert key label) = direct (import_command w c p file cert key label)
  action (remove label) = direct (remove_command w label)
  action (backup out) = direct (backup_command w c b out)
  action (restore file) = direct (restore_command w c b file)
  action (audit limit) = direct (audit_command w limit)
  action verify = direct (verify_command w c)
  action (ca command) = ca_action command
  action (ssh command) = ssh_action command
  action (app command) = app_action command
  action (route command) = route_action command
  action (test host ip_addr) = direct (test_command w host ip_addr)

  -- The path of the store and the passphrase for it.
  unfoldable pub store_credentials : Result CliError (Text × Text)
  unfolding get_store_path
  store_credentials = do
    path ← map_err store_path_failed (get_store_path w.env w.create_dir_all)
    pass ← elim (w.env (codes "CONE_PASSPHRASE")) [
      | ok pass ↦ ok pass
      | err e ↦ map_err prompt_failed (w.password (codes "Master passphrase"))
    ]
    ok (path, pass)

  module _ (derive_key : DeriveKey) where
    -- `open_store_direct`
    unfoldable pub open_store_direct : Disk → Store × Result CliError (Unit {0})
    unfolding store_credentials
    open_store_direct disk = elim store_credentials [
      | err e ↦ (open_store [] disk, err e)
      | ok (path, pass) ↦
          let (s, opened) = unlock derive_key w.opening pass (open_store path disk) in
          (s, map_err unlock_failed opened)
    ]

    abbrev pub run_direct :
        Cmd (List Line) → Store × Result CliError (Unit {0}) → Store × Result CliError (List Line)
    run_direct command (s, ok u) = command s
    run_direct command (s, err e) = (s, err e)

    -- A run of the tool, to what it leaves on the disk and what it prints.
    unfoldable pub perform : Action → Disk → Disk × Result CliError (List Line)
    unfolding open_store_direct connect
    perform (remote call) disk =
        (disk, ok_or (connect w.coned coned_socket) connect_failed >>= call)
    perform (direct command) disk =
        let (s, r) = run_direct command (open_store_direct disk) in (s.disk, r)
    perform (unfinished lines) disk = (disk, ok lines)

    unfoldable pub main : Command → Disk → Disk × Result CliError (List Line)
    unfolding action perform
    main command disk = perform (action command) disk
