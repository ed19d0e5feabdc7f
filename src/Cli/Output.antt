-- ===== src/Cli/Output.antt =====
-- crates/cone-cli/src/main.rs: what the tool prints, as the values that a line shows, and how it
-- cuts and formats them. The heads of tables are left out, and so is what a command has printed
-- before it fails.
use traffic_cone.Common.{
  Option, ℕ, ◌-◌, ◌/◌, ◌%◌, ◌^◌, Bool, ◌++◌, reverse, ltb, if◌then◌else◌, length, take, Result, ok,
  err, Text, codes, starts_with,
}
use traffic_cone.Common.Int.{ℤ, pos, negsuc}
use traffic_cone.Common.Decimal.{show_ℕ}
use traffic_cone.Store.Models.{StoreError}
use traffic_cone.Cli.Client.{ClientError}

pub data Line : Type 0 where
  running_locked store_locked no_certs no_ca_certs no_ssh_keys no_apps no_routes : Line
  no_audit_entries all_verified route_removed no_route_matched todo_ca_import : Line
  running_unlocked ca_certs_in_file ssh_route_count : ℕ → Line
  todo_ca_remove todo_ssh_remove todo_ssh_route_remove todo_app_update todo_app_remove : Text → Line
  ca_import_line todo_ssh_import : Text → Text → Line
  todo_ssh_route_add : Text → Option Text → Option Text → Line
  cert_line : Text → Text → Text → Line
  removed_cert imported backup_written app_matches_hash : Text → Line
  restored_counts : ℕ → ℕ → ℕ → ℕ → ℕ → Line
  audit_line : Text → Text → Text → Line
  label_line : Text → Text → Line
  app_registered : Text → Text → Text → Line
  route_line : Text → Text → Text → Text → Bool → Line
  route_added : Text → Line
  would_present : Text → Text → Line

-- What ends a command early; `exited` is an exit with status 1 after a message.
pub data CliError : Type 0 where
  store_path_failed prompt_failed read_failed write_failed : Text → CliError
  client_error : ClientError → CliError
  unlock_failed store_error : StoreError → CliError
  no_such_cert no_such_app : Text → CliError
  usage slice_out_of_range connect_failed : CliError
  integrity_failed : StoreError → CliError
  hash_mismatch : Text → Text → CliError

-- `&t[..n]` of an ASCII text, which panics on a shorter one.
unfoldable pub slice : ℕ → Text → Result CliError Text
slice n t = if ltb (length t) n then err slice_out_of_range else ok (take n t)

-- `{:02}`
abbrev pub two_digits : ℕ → Text
two_digits n = if ltb n 10 then codes "0" ++ show_ℕ n else show_ℕ n

-- `ts as u64`
abbrev pub as_u64 : ℤ → ℕ
as_u64 (pos n) = n % 2 ^ 64
as_u64 (negsuc n) = 2 ^ 64 - 1 - n % 2 ^ 64

unfoldable pub format_timestamp : ℤ → Text
format_timestamp ts =
    let mins = as_u64 ts / 60 in
    let hours = mins / 60 in
    let days = hours / 24 in
    show_ℕ days
    ++ (codes "d " ++ (two_digits (hours % 24) ++ (codes ":" ++ two_digits (mins % 60))))

-- `str::ends_with`
unfoldable pub ends_with : Text → Text → Bool
ends_with t suffix = starts_with (reverse t) (reverse suffix)
