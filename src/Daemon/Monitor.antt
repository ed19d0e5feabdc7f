-- ===== src/Daemon/Monitor.antt =====
-- `ProcessMonitor` of crates/coned/src/process_monitor.rs: who a PID is, from a snapshot of /proc, and
-- the cache of the answers.
pub mod Cache
use traffic_cone.Common.{
  ℕ, ◌+◌, ◌^◌, Bool, true, false, not, Option, none, some, List, [], ◌∷◌, ◌++◌, ◌==◌, if◌then◌else◌,
  get_elem?, filter_by, Result, ok, err, ◌>>=◌, ◌>>◌, ok_or, Text, Bytes, text_eq,
}
use traffic_cone.Daemon.Numbers.{from_str_radix}
use traffic_cone.Daemon.Utf8.{is_utf8}
use traffic_cone.Daemon.Fields.{split_whitespace, after_last}
use traffic_cone.Store.Crypto.{Crates}
use traffic_cone.Daemon.Address.{read_proc_net_tcp, Connection}

pub record ProcessEntry : Type 0 where
  pub pid : ℕ
  pub exe_path : Text
  pub exe_hash : Text
  pub start_time : ℕ

-- What the kernel shows while a request is handled: /proc/PID/stat as UTF-8, the target of the link
-- /proc/PID/exe, /proc/PID/net/tcp and tcp6 (`true`), and the files.
pub record Kernel : Type 0 where
  pub stat : ℕ → Option Text
  pub exe : ℕ → Option Bytes
  pub net : ℕ → Bool → Option Text
  pub read : Text → Option Bytes

pub data MonitorError : Type 0 where
  not_found malformed no_start_time no_exe exe_not_utf8 : ℕ → MonitorError
  unreadable : Text → MonitorError
  hash_mismatch : ProcessEntry → Text → MonitorError
  -- the slice behind the comm field is out of range
  panicked : MonitorError

-- `parse::<u64>`, with its one optional `+`.
unfoldable pub parse_u64 : Text → Option ℕ
parse_u64 t = from_str_radix 10 (2 ^ 64) t

abbrev behind_comm : Text → Option Text
behind_comm [] = none
behind_comm (c ∷ rest) = some rest

unfoldable pub parse_stat : ℕ → Text → Result MonitorError ℕ
unfolding parse_u64
parse_stat pid stat = do
  back ← ok_or (after_last b')' stat) (malformed pid)
  rest ← ok_or (behind_comm back) panicked
  field ← ok_or (get_elem? (split_whitespace rest) 19) (no_start_time pid)
  ok_or (parse_u64 field) (no_start_time pid)

unfoldable pub read_process_start_time : Kernel → ℕ → Result MonitorError ℕ
read_process_start_time k pid = do stat ← ok_or (k.stat pid) (not_found pid); parse_stat pid stat

unfoldable pub read_exe_path : Kernel → ℕ → Result MonitorError Text
read_exe_path k pid = do
  exe ← ok_or (k.exe pid) (no_exe pid)
  if is_utf8 exe then ok exe else err (exe_not_utf8 pid)

-- `process_monitor::hash_file`.
unfoldable pub hash_exe : Crates → Kernel → Text → Result MonitorError Text
hash_exe c k path = do
  bytes ← ok_or (k.read path) (unreadable path)
  ok (c.hex_encode (c.sha256 bytes))

-- The map behind the mutex.
abbrev pub ProcessCache : Type 0
ProcessCache = List (ℕ × ProcessEntry)

unfoldable pub cached : ℕ → ProcessCache → Option ProcessEntry
cached pid [] = none
cached pid ((p, e) ∷ rest) = if p == pid then some e else cached pid rest

unfoldable pub invalidate : ℕ → ProcessCache → ProcessCache
invalidate pid cache = filter_by (λ (x : ℕ × ProcessEntry). not (x.0 == pid)) cache

unfoldable pub insert_entry : ℕ → ProcessEntry → ProcessCache → ProcessCache
unfolding invalidate
insert_entry pid e cache = (pid, e) ∷ invalidate pid cache

-- The entry of the cache, if it is of the process that started then.
unfoldable pub cache_hit : ℕ → ℕ → ProcessCache → Option ProcessEntry
cache_hit pid start_time cache = elim (cached pid cache) [
  | none ↦ none
  | some e ↦ if e.start_time == start_time then some e else none
]

module _ (c : Crates) (k : Kernel) where
  unfoldable pub resolve_fresh : ℕ → ℕ → Result MonitorError ProcessEntry
  resolve_fresh pid start_time = do
    exe_path ← read_exe_path k pid
    exe_hash ← hash_exe c k exe_path
    ok (record { pid = pid; exe_path = exe_path; exe_hash = exe_hash; start_time = start_time })

  unfoldable pub resolve : ℕ → ProcessCache → ProcessCache × Result MonitorError ProcessEntry
  resolve pid cache = elim (read_process_start_time k pid) [
    | err e ↦ (cache, err e)
    | ok start_time ↦ elim (cache_hit pid start_time cache) [
      | some e ↦ (cache, ok e)
      | none ↦ elim (resolve_fresh pid start_time) [
        | err e ↦ (cache, err e)
        | ok e ↦ (insert_entry pid e cache, ok e)
      ]
    ]
  ]

  unfoldable pub verify_hash :
      ℕ → Text → ProcessCache → ProcessCache × Result MonitorError ProcessEntry
  unfolding resolve
  verify_hash pid expected cache =
      let (cache', result) = resolve pid cache in
      (
        cache',
        result >>= λ entry.
            if not (text_eq entry.exe_hash expected)
            then err (hash_mismatch entry expected)
            else ok entry,
      )

  unfoldable pub get_connections : ℕ → List Connection
  get_connections pid =
      read_proc_net_tcp false (k.net pid false) ++ read_proc_net_tcp true (k.net pid true)

  abbrev pub is_current : ℕ × ProcessEntry → Bool
  is_current (pid, e) = elim (read_process_start_time k pid) [
    | err x ↦ false
    | ok start_time ↦ start_time == e.start_time
  ]

  unfoldable pub cleanup_stale : ProcessCache → ProcessCache
  cleanup_stale cache = filter_by is_current cache
