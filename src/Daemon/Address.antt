-- ===== src/Daemon/Address.antt =====
-- `parse_hex_addr` and `read_proc_net_tcp` of crates/coned/src/process_monitor.rs.
pub mod Ipv4
pub mod Ipv6
use traffic_cone.Common.{
  ℕ, zero, suc, ◌+◌, ◌*◌, ◌/◌, ◌%◌, Bool, true, false, Option, none, some, List, [], ◌∷◌, ◌++◌,
  ◌==◌, if◌then◌else◌, length, take, drop, Text, codes, text_eq,
}
use traffic_cone.Daemon.Numbers.{from_str_radix, show_u8, show_hex8}
use traffic_cone.Daemon.Fields.{split_whitespace, lines, split_once}

-- Only established connections are ever stored.
pub data ConnectionState : Type 0 where
  established other : ConnectionState

pub record Connection : Type 0 where
  pub remote_ip : Text
  pub remote_port : ℕ
  pub state : ConnectionState

-- `u32::swap_bytes`.
unfoldable pub swap_bytes : ℕ → ℕ
swap_bytes w =
    w % 256 * 16777216 + w / 256 % 256 * 65536 + w / 65536 % 256 * 256 + w / 16777216 % 256

-- `u32::from_be` on a little-endian machine.
unfoldable pub from_be : ℕ → ℕ
unfolding swap_bytes
from_be w = swap_bytes w

-- The four words of an IPv6 address, as `groups.join("")`.
unfoldable pub hex_words : ℕ → Text → Option Text
unfolding from_be
hex_words zero t = some []
hex_words (suc n) t = elim (from_str_radix 16 4294967296 (take 8 t)) [
  | none ↦ none
  | some word ↦ elim (hex_words n (drop 8 t)) [
    | none ↦ none
    | some rest ↦ some (show_hex8 (from_be (swap_bytes word)) ++ rest)
  ]
]

-- Groups of four characters, joined by colons.
unfoldable pub join_groups : ℕ → Text → Text
join_groups zero t = []
join_groups (suc zero) t = take 4 t
join_groups (suc (suc n)) t = take 4 t ++ b':' ∷ join_groups (suc n) (drop 4 t)

-- `to_le_bytes`, printed with dots.
unfoldable pub show_ipv4 : ℕ → Text
show_ipv4 n =
    show_u8 (n % 256)
    ++ b'.'
      ∷ (show_u8 (n / 256 % 256)
          ++ b'.' ∷ (show_u8 (n / 65536 % 256) ++ b'.' ∷ show_u8 (n / 16777216 % 256)))

unfoldable pub parse_ip : Bool → Text → Option Text
parse_ip true t =
    if length t == 32
    then (elim (hex_words 4 t) [ none ↦ none | some hex ↦ some (join_groups 8 hex) ])
    else none
parse_ip false t =
    if length t == 8
    then (elim (from_str_radix 16 4294967296 t) [ none ↦ none | some n ↦ some (show_ipv4 n) ])
    else none

unfoldable pub parse_hex_addr : Text → Bool → Option (Text × ℕ)
parse_hex_addr addr ipv6 = elim (split_once b':' addr) [
  | none ↦ none
  | some (addr_part, port_part) ↦ elim (from_str_radix 16 65536 port_part) [
    | none ↦ none
    | some port ↦ elim (parse_ip ipv6 addr_part) [ none ↦ none | some ip ↦ some (ip, port) ]
  ]
]

-- One line of the table after its header.
unfoldable pub read_line : Bool → Text → List Connection
read_line ipv6 line = elim (split_whitespace line) [
  | sl ∷ local ∷ rem ∷ st ∷ more ↦
      if text_eq st (codes "01")
      then (elim (parse_hex_addr rem ipv6) [
        | none ↦ []
        | some (ip, port) ↦ record { remote_ip = ip; remote_port = port; state = established } ∷ []
      ])
      else []
  | _ ↦ []
]

read_lines : Bool → List Text → List Connection
read_lines ipv6 [] = []
read_lines ipv6 (l ∷ ls) = read_line ipv6 l ++ read_lines ipv6 ls

-- `read_proc_net_tcp`; a file that cannot be read has no connections.
unfoldable pub read_proc_net_tcp : Bool → Option Text → List Connection
unfolding read_lines
read_proc_net_tcp ipv6 none = []
read_proc_net_tcp ipv6 (some content) = read_lines ipv6 (drop 1 (lines content))
