-- ===== src/Daemon/Routing.antt =====
-- crates/coned/src/routing.rs: from a PID to the certificate that it is given.
pub mod Routed
pub mod Laws
use traffic_cone.Common.{
  ℕ, not, Option, none, some, List, [], ◌∷◌, map, ◌==◌, if◌then◌else◌, Result, ok, err, ◌>>=◌, ◌>>◌,
  map_err, Text, text_eq,
}
use traffic_cone.Store.Routes.{Query, resolve_route}
use traffic_cone.Store.Handle.{Store}
use traffic_cone.Daemon.Monitor.{
  resolve, ProcessCache, get_connections, Kernel, MonitorError, ProcessEntry,
}
use traffic_cone.Store.Crypto.{Crates}
use traffic_cone.Store.Models.{IntegrityRecord, StoreError}
use traffic_cone.Daemon.Address.{Connection}
use traffic_cone.Store.Integrity.{list_integrity}

-- `HashMap<String, String>` from path to hash; a later entry for a path replaces an earlier one.
abbrev pub KnownHashes : Type 0
KnownHashes = List (Text × Text)

unfoldable pub known_hash : KnownHashes → Text → Option Text
known_hash [] path = none
known_hash ((p, h) ∷ rest) path = elim (known_hash rest path) [
  | some later ↦ some later
  | none ↦ if text_eq p path then some h else none
]

unfoldable pub load_known_hashes : Store → Result StoreError KnownHashes
load_known_hashes s = do
  records ← list_integrity s
  ok (map (λ (r : IntegrityRecord). (r.path, r.sha256)) records)

pub record ResolvedRoute : Type 0 where
  pub cert_id : Text
  pub process : ProcessEntry
  pub remote_host : Option Text
  pub remote_ip : Option Text

pub data RouteError : Type 0 where
  monitor : MonitorError → RouteError
  store_failed : StoreError → RouteError
  replaced no_route unexpected_hash not_registered : ProcessEntry → RouteError
  uid_mismatch : ℕ → ℕ → RouteError

-- Step 2: a Traffic Cone binary has to have its recorded hash; other programs pass.
unfoldable pub check_known : KnownHashes → ProcessEntry → Result RouteError (Unit {0})
check_known known process = elim (known_hash known process.exe_path) [
  | none ↦ ok tt
  | some expected ↦
      if not (text_eq process.exe_hash expected) then err (replaced process) else ok tt
]

abbrev pub query_of : ProcessEntry → Option Text → Query
query_of process remote_ip = record {
  exe_path = some process.exe_path;
  remote_host = none;
  remote_ip = remote_ip;
}

abbrev pub route_via : ProcessEntry → Option Text → Text → ResolvedRoute
route_via process remote_ip cert = record {
  cert_id = cert;
  process = process;
  remote_host = none;
  remote_ip = remote_ip;
}

-- One query's answer: its route, its error, or what the queries after it give.
abbrev pub answered :
    ProcessEntry
    → Option Text
    → Result StoreError (Option Text)
    → Result RouteError ResolvedRoute
    → Result RouteError ResolvedRoute
answered p ip (err e) rest = err (store_failed e)
answered p ip (ok (some cert)) rest = ok (route_via p ip cert)
answered p ip (ok none) rest = rest

-- Steps 4 and 5: the first connection with a route, or else a route of the application alone.
unfoldable pub route_connections :
    Store → ProcessEntry → List Connection → Result RouteError ResolvedRoute
route_connections s process [] =
    answered process none (resolve_route s (query_of process none)) (err (no_route process))
route_connections s process (conn ∷ more) =
    answered process (some conn.remote_ip)
      (resolve_route s (query_of process (some conn.remote_ip))) (route_connections s process more)

module _ (c : Crates) (k : Kernel) where
  -- What follows on the verified process.
  unfoldable pub route_process :
      Store → KnownHashes → ℕ → ProcessEntry → Result RouteError ResolvedRoute
  unfolding check_known
  route_process s known pid process = do
    check_known known process
    route_connections s process (get_connections c k pid)

  unfoldable pub resolve_for_pid :
      Store → ℕ → KnownHashes → ProcessCache → ProcessCache × Result RouteError ResolvedRoute
  unfolding route_process
  resolve_for_pid s pid known cache =
      let (cache', resolved) = resolve c k pid cache in
      (cache', map_err monitor resolved >>= route_process s known pid)

  -- The hash check on an entry that is resolved.
  unfoldable pub check_binary : KnownHashes → ProcessEntry → Result RouteError ProcessEntry
  check_binary expected process = elim (known_hash expected process.exe_path) [
    | none ↦ err (not_registered process)
    | some hash ↦
        if text_eq hash process.exe_hash then ok process else err (unexpected_hash process)
  ]

  -- `our_uid` is the daemon's own.
  unfoldable pub verify_traffic_cone_binary :
      ℕ → ℕ → ℕ → KnownHashes → ProcessCache → ProcessCache × Result RouteError ProcessEntry
  unfolding check_binary
  verify_traffic_cone_binary our_uid pid uid expected cache =
      if not (uid == our_uid)
      then (cache, err (uid_mismatch uid our_uid))
      else (let (cache', resolved) = resolve c k pid cache in
          (cache', map_err monitor resolved >>= check_binary expected))
