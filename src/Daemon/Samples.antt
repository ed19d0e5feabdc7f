-- ===== src/Daemon/Samples.antt =====
-- Test data: a kernel with two programs, and a server on the sample store.
use traffic_cone.Common.{
  ℕ, none, some, [], ◌∷◌, ◌++◌, ◌==◌, if◌then◌else◌, Result, ok, err, Text, Bytes, codes,
}
use traffic_cone.Daemon.Monitor.{ProcessEntry, Kernel}
use traffic_cone.Daemon.Routing.{KnownHashes}
use traffic_cone.Daemon.Ipc.{IpcCrates, IpcServer, Request, lock_request, sign}
use traffic_cone.Daemon.Ssh.{SshCrates}
use traffic_cone.Store.Handle.{sealed}
use traffic_cone.Store.Samples.{sample_store, sample_db, store_of}

-- Process 7 is curl, which started at 50 and is connected to 10.0.0.1; any other is the program cone.
abbrev pub path_of : ℕ → Text
path_of pid = if pid == 7 then codes "/bin/curl" else codes "/bin/cone"

abbrev pub sample_kernel : Kernel
sample_kernel = record {
  stat = λ pid. some (codes "7 (a) b) S 1 1 1 1 1 1 1 1 1 1 1 1 1 1 1 1 1 1 50 9");
  exe = λ pid. some (path_of pid);
  net = λ pid ipv6.
      if ipv6 then none else some (codes "sl local rem st" ++ 10 ∷ codes "0: x 0100000A:01BB 01 y");
  read = λ path. some (codes "h");
}

abbrev pub curl : ProcessEntry
curl = record { pid = 7; exe_path = codes "/bin/curl"; exe_hash = codes "h"; start_time = 50 }

abbrev pub sample_known : KnownHashes
sample_known = (codes "/bin/cone", codes "h") ∷ []

abbrev pub cone : ProcessEntry
cone = record { pid = 9; exe_path = codes "/bin/cone"; exe_hash = codes "h"; start_time = 50 }

abbrev pub parse_sample : Bytes → Result Text Request
parse_sample [] = err []
parse_sample (b ∷ rest) = if b == 1 then ok lock_request else ok (sign 7 rest)

abbrev pub sample_ipc : IpcCrates
sample_ipc = record {
  ecdsa = λ key. ok (λ str. key ++ str);
  rsa_sha256 = λ key. ok (λ str. key ++ str);
  from_slice = parse_sample;
  to_vec = λ r. [];
}

abbrev pub open_server : IpcServer
open_server = record { store = sample_store; cache = []; known_hashes = sample_known }

abbrev pub sealed_server : IpcServer
sealed_server = record {
  store = store_of sample_db sealed;
  cache = [];
  known_hashes = sample_known;
}

-- A `Sign` request for process 7.
abbrev pub sign_frame : Bytes
sign_frame = 0 ∷ 0 ∷ 0 ∷ 2 ∷ 2 ∷ 8 ∷ []

abbrev pub sample_ssh : SshCrates
sample_ssh = record {
  ed25519 = λ key str. key ++ str;
  ecdsa_p256 = λ key. ok (λ str. key ++ str);
  rsa_sha256 = λ key. ok (λ str. key ++ str);
  rsa_sha512 = λ key. ok (λ str. key ++ str);
}
