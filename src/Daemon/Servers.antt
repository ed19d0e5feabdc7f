-- ===== src/Daemon/Servers.antt =====
-- crates/coned/src/main.rs, step 7: the two servers on threads of their own, over the store that they
-- share. The IPC server serves one connection at a time, and the SSH agent never writes to the store,
-- so that a step is a whole connection of the one or a message of the other.
pub mod Sealed
use traffic_cone.Common.{ℕ, List, [], ◌∷◌, Bytes}
use traffic_cone.Store.Crypto.{Crates}
use traffic_cone.Daemon.Monitor.{Kernel}
use traffic_cone.Daemon.Ipc.{IpcCrates, IpcServer, Response, serve}
use traffic_cone.Daemon.Ssh.{SshCrates, answer}

-- What one of the servers sends.
pub data Reply : Type 0 where
  ipc_reply : Response → Reply
  ssh_reply : Bytes → Reply

module _ (i : IpcCrates) (x : SshCrates) (c : Crates) (our_uid : ℕ) where
  -- What the daemon may do next, with the state that it leaves.
  pub data Turn : IpcServer → Reply → IpcServer → Type 0 where
    ipc_connection :
        (srv : IpcServer) (k : Kernel) (pid uid : ℕ) (stream : Bytes)
        → Turn srv
            (ipc_reply (serve i c our_uid k srv pid uid stream).1)
            (serve i c our_uid k srv pid uid stream).0
    ssh_message :
        (srv : IpcServer) (msg : Bytes) → Turn srv (ssh_reply (answer c x srv.store msg)) srv

  -- A run of the daemon, in any order of the steps of its servers.
  pub data Run : IpcServer → List Reply → IpcServer → Type 0 where
    idle : (srv : IpcServer) → Run srv [] srv
    after :
        (srv next last : IpcServer) (reply : Reply) (replies : List Reply)
        → Turn srv reply next
        → Run next replies last
        → Run srv (reply ∷ replies) last
