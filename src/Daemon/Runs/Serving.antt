-- ===== src/Daemon/Runs/Serving.antt =====
-- The two servers of the daemon, at work on a locked store, and their socket.
use traffic_cone.Common.{codes, ◌≡◌, refl, false, List, [], ◌∷◌, All}
use traffic_cone.Store.Handle.{is_unlocked}
use traffic_cone.Store.Samples.{sample_crates}
use traffic_cone.Daemon.Ipc.{IpcServer, serve}
use traffic_cone.Daemon.Ssh.{answer}
use traffic_cone.Daemon.Samples.{sample_kernel, sample_ipc, sample_ssh, sealed_server, sign_frame}
use traffic_cone.Daemon.Servers.{
  Reply, ipc_reply, ssh_reply, Run, ipc_connection, ssh_message, after, idle,
}
use traffic_cone.Common.Int.{pos, negsuc}
use traffic_cone.Daemon.Sockets.{SocketCalls, bind_abstract_socket}
use traffic_cone.Daemon.Sockets.Bound.{Named, Ends, bind_abstract_socket-Ends}
use traffic_cone.Daemon.Servers.Sealed.{Silent, Run-sealed}

-- The server after a connection that asks for a signature, and its response.
abbrev asked : IpcServer
asked = (serve sample_ipc sample_crates 1000 sample_kernel sealed_server 9 1000 sign_frame).0

abbrev sent : List Reply
sent =
    ipc_reply (serve sample_ipc sample_crates 1000 sample_kernel sealed_server 9 1000 sign_frame).1
    ∷ ssh_reply (answer sample_crates sample_ssh asked.store (11 ∷ []))
    ∷ []

asked_then_listed : Run sample_ipc sample_ssh sample_crates 1000 sealed_server sent asked
asked_then_listed =
    after sealed_server asked asked
      (ipc_reply
        (serve sample_ipc sample_crates 1000 sample_kernel sealed_server 9 1000 sign_frame).1)
      (ssh_reply (answer sample_crates sample_ssh asked.store (11 ∷ [])) ∷ [])
      (ipc_connection sealed_server sample_kernel 9 1000 sign_frame)
      (after asked asked asked (ssh_reply (answer sample_crates sample_ssh asked.store (11 ∷ [])))
        [] (ssh_message asked (11 ∷ [])) (idle asked))

refused : is_unlocked sealed_server.store ≡ false
unfolding is_unlocked
refused = refl

Run-sealed_example : (is_unlocked asked.store ≡ false) × All Silent sent
Run-sealed_example = Run-sealed sample_ipc sample_ssh sample_crates 1000 asked_then_listed refused

-- A kernel that refuses to listen.
abbrev deaf : SocketCalls
deaf = record {
  socket = pos 3;
  bind = λ fd addr len. pos 0;
  listen = λ fd backlog. negsuc 0;
  getsockopt = λ fd. (pos 0, record { pid = pos 9; uid = 1000 });
}

bind_abstract_socket-Ends_example :
    All (Named (codes "cone")) (bind_abstract_socket deaf (codes "cone")).0
    × Ends deaf (codes "cone") (bind_abstract_socket deaf (codes "cone"))
bind_abstract_socket-Ends_example = bind_abstract_socket-Ends deaf (codes "cone")
