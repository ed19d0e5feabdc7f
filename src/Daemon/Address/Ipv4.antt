-- ===== src/Daemon/Address/Ipv4.antt =====
-- What the kernel writes of an IPv4 endpoint is read back as the dotted address and the port.
use traffic_cone.Common.{
  ℕ, ◌+◌, ◌*◌, ◌/◌, ◌%◌, ◌<◌, ◌≡◌, refl, ap, ◌∙◌, Bool, false, some, [], ◌∷◌, ◌++◌, arith, ◌==◌,
  All, Text,
}
use traffic_cone.Common.Tables.{All-append}
use traffic_cone.Daemon.Numbers.RoundTrip.{
  print_hex4, print_hex8, upper_digit, from_str_radix-print_hex8, from_str_radix-print_hex4,
}
use traffic_cone.Daemon.Numbers.{from_str_radix, show_u8}
use traffic_cone.Daemon.Fields.{split_once}
use traffic_cone.Daemon.Address.{parse_ip, parse_hex_addr, show_ipv4}

-- The four bytes of an address in memory order, as one little-endian word.
abbrev pub word_of : ℕ → ℕ → ℕ → ℕ → ℕ
word_of a b c d = a + 256 * b + 65536 * c + 16777216 * d

abbrev pub dotted : ℕ → ℕ → ℕ → ℕ → Text
dotted a b c d = show_u8 a ++ b'.' ∷ (show_u8 b ++ b'.' ∷ (show_u8 c ++ b'.' ∷ show_u8 d))

abbrev pub NoColon : Text → Type 0
NoColon = All (λ c. (c == b':') ≡ false)

upper_digit-ne-colon : (v : ℕ) → v < 16 → (upper_digit v == b':') ≡ false
upper_digit-ne-colon v h = ground arith

print_hex4-NoColon : (n : ℕ) → NoColon (print_hex4 n)
print_hex4-NoColon n = (
  upper_digit-ne-colon (n / 4096 % 16) (omega arith),
  (
    upper_digit-ne-colon (n / 256 % 16) (omega arith),
    (
      upper_digit-ne-colon (n / 16 % 16) (omega arith),
      (upper_digit-ne-colon (n % 16) (omega arith), tt),
    ),
  ),
)

pub print_hex8-NoColon : (n : ℕ) → NoColon (print_hex8 n)
print_hex8-NoColon n =
    All-append (λ c. (c == b':') ≡ false) (print_hex4 (n / 65536)) (print_hex4 (n % 65536))
      (print_hex4-NoColon (n / 65536)) (print_hex4-NoColon (n % 65536))

pub split_once-append :
    (front rest : Text)
    → NoColon front
    → split_once b':' (front ++ b':' ∷ rest) ≡ some (front, rest)
unfolding split_once
split_once-append [] rest h = refl
split_once-append (c ∷ cs) rest h = rw (h.0, split_once-append cs rest h.1) refl

show_word :
    (a b c d : ℕ)
    → a < 256
    → b < 256
    → c < 256
    → d < 256
    → show_ipv4 (word_of a b c d) ≡ dotted a b c d
unfolding show_ipv4
show_word a b c d ha hb hc hd =
    let e0 : word_of a b c d % 256 ≡ a = omega arith in
    let e1 : word_of a b c d / 256 % 256 ≡ b = omega arith in
    let e2 : word_of a b c d / 65536 % 256 ≡ c = omega arith in
    let e3 : word_of a b c d / 16777216 % 256 ≡ d = omega arith in rw (e0, e1, e2, e3) refl

pub endpoint :
    (addr_part port_part : Text) (ipv6 : Bool) (ip : Text) (port : ℕ)
    → NoColon addr_part
    → from_str_radix 16 65536 port_part ≡ some port
    → parse_ip ipv6 addr_part ≡ some ip
    → parse_hex_addr (addr_part ++ b':' ∷ port_part) ipv6 ≡ some (ip, port)
unfolding parse_hex_addr
endpoint addr_part port_part ipv6 ip port h e1 e2 =
    ground (arith, split_once-append addr_part port_part h)

ipv4_ip : (n : ℕ) → n < 4294967296 → parse_ip false (print_hex8 n) ≡ some (show_ipv4 n)
unfolding parse_ip
ipv4_ip n h = ground (arith, from_str_radix-print_hex8 n h)

-- The endpoint a.b.c.d:port of /proc/net/tcp, an `%08X` of the address as it lies in memory and an
-- `%04X` of the port, is read as the address in dotted form and the port.
pub parse_hex_addr_ipv4 :
    (a b c d port : ℕ)
    → a < 256
    → b < 256
    → c < 256
    → d < 256
    → port < 65536
    → parse_hex_addr (print_hex8 (word_of a b c d) ++ b':' ∷ print_hex4 port) false
      ≡ some (dotted a b c d, port)
parse_hex_addr_ipv4 a b c d port ha hb hc hd hp =
    endpoint (print_hex8 (word_of a b c d)) (print_hex4 port) false (dotted a b c d) port
      (print_hex8-NoColon (word_of a b c d)) (from_str_radix-print_hex4 port hp)
      (ipv4_ip (word_of a b c d) (omega arith) ∙ ap some (show_word a b c d ha hb hc hd))
