-- ===== src/Cli/Command.antt =====
-- crates/cone-cli/src/main.rs: the commands of the tool, `Commands` and the enumerations below it.
use traffic_cone.Common.{ℕ, Option, Text}
use traffic_cone.Cli.Tool.{RouteArgs}

pub data CaCommand : Type 0 where
  ca_add : Text → Text → CaCommand
  ca_list : CaCommand
  ca_remove : Text → CaCommand

-- `ssh_route_add` has the key, the application and the host.
pub data SshRouteCommand : Type 0 where
  ssh_route_add : Text → Option Text → Option Text → SshRouteCommand
  ssh_route_list : SshRouteCommand
  ssh_route_remove : Text → SshRouteCommand

pub data SshCommand : Type 0 where
  ssh_import : Text → Text → SshCommand
  ssh_list : SshCommand
  ssh_remove : Text → SshCommand
  ssh_route : SshRouteCommand → SshCommand

-- `app_add` has the label and the path of the program.
pub data AppCommand : Type 0 where
  app_add : Text → Text → AppCommand
  app_list : AppCommand
  app_verify app_update app_remove : Text → AppCommand

pub data RouteCommand : Type 0 where
  route_add : RouteArgs → RouteCommand
  route_list : RouteCommand
  route_remove : Text → RouteCommand

-- `import_cert` has the file, the certificate, the key and the label; `test` the host and the address.
pub data Command : Type 0 where
  status lock list verify : Command
  import_cert : Option Text → Option Text → Option Text → Text → Command
  remove backup restore : Text → Command
  ca : CaCommand → Command
  ssh : SshCommand → Command
  app : AppCommand → Command
  route : RouteCommand → Command
  test : Option Text → Option Text → Command
  audit : ℕ → Command
