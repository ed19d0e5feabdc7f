-- ===== src/Daemon/Address/Ipv6.antt =====
-- What an IPv6 endpoint is read as: the two byte swaps of each word undo one another, so the groups
-- are the kernel's digits in the order in which it wrote them.
use traffic_cone.Common.{
  ℕ, suc, ◌<◌, ◌≡◌, refl, ◌∙◌, true, false, none, some, [], ◌∷◌, ◌++◌, arith, ◌==◌, length, Text,
}
use traffic_cone.Daemon.Address.{
  parse_ip, join_groups, parse_hex_addr, hex_words, swap_bytes, from_be,
}
use traffic_cone.Daemon.Numbers.RoundTrip.{
  from_str_radix-print_hex4, print_hex4, from_str_radix-print_hex8, print_hex8,
}
use traffic_cone.Daemon.Numbers.{show_hex8}
use traffic_cone.Daemon.Address.Ipv4.{endpoint, print_hex8-NoColon, NoColon}
use traffic_cone.Common.Tables.{All-append}

swap_twice : (w : ℕ) → w < 4294967296 → from_be (swap_bytes w) ≡ w
unfolding from_be swap_bytes
swap_twice w h = omega arith

hex_words_step :
    (n w : ℕ) (rest : Text)
    → w < 4294967296
    → hex_words (suc n) (print_hex8 w ++ rest)
      ≡ (elim (hex_words n rest) [ none ↦ none | some more ↦ some (show_hex8 w ++ more) ])
unfolding hex_words
hex_words_step n w rest h = ground (arith, from_str_radix-print_hex8 w h, swap_twice w h)

abbrev pub words_of : ℕ → ℕ → ℕ → ℕ → Text
words_of w1 w2 w3 w4 = print_hex8 w1 ++ (print_hex8 w2 ++ (print_hex8 w3 ++ (print_hex8 w4 ++ [])))

abbrev pub shown : ℕ → ℕ → ℕ → ℕ → Text
shown w1 w2 w3 w4 = show_hex8 w1 ++ (show_hex8 w2 ++ (show_hex8 w3 ++ (show_hex8 w4 ++ [])))

hex_words-words_of :
    (w1 w2 w3 w4 : ℕ)
    → w1 < 4294967296
    → w2 < 4294967296
    → w3 < 4294967296
    → w4 < 4294967296
    → hex_words 4 (words_of w1 w2 w3 w4) ≡ some (shown w1 w2 w3 w4)
hex_words-words_of w1 w2 w3 w4 h1 h2 h3 h4 =
    let last : hex_words 1 (print_hex8 w4 ++ []) ≡ some (show_hex8 w4 ++ []) =
      hex_words_step 0 w4 [] h4 ∙ unfold hex_words in refl in
    let third = hex_words_step 1 w3 (print_hex8 w4 ++ []) h3 in
    let second = hex_words_step 2 w2 (print_hex8 w3 ++ (print_hex8 w4 ++ [])) h2 in
    let first =
      hex_words_step 3 w1 (print_hex8 w2 ++ (print_hex8 w3 ++ (print_hex8 w4 ++ []))) h1 in
    ground (arith, first, second, third, last)

words_of-NoColon : (w1 w2 w3 w4 : ℕ) → NoColon (words_of w1 w2 w3 w4)
words_of-NoColon w1 w2 w3 w4 =
    All-append (λ c. (c == b':') ≡ false) (print_hex8 w1)
      (print_hex8 w2 ++ (print_hex8 w3 ++ (print_hex8 w4 ++ []))) (print_hex8-NoColon w1)
      (All-append (λ c. (c == b':') ≡ false) (print_hex8 w2)
        (print_hex8 w3 ++ (print_hex8 w4 ++ [])) (print_hex8-NoColon w2)
        (All-append (λ c. (c == b':') ≡ false) (print_hex8 w3) (print_hex8 w4 ++ [])
          (print_hex8-NoColon w3)
          (All-append (λ c. (c == b':') ≡ false) (print_hex8 w4) [] (print_hex8-NoColon w4) tt)))

ipv6_ip :
    (t hex : Text)
    → length t ≡ 32
    → hex_words 4 t ≡ some hex
    → parse_ip true t ≡ some (join_groups 8 hex)
unfolding parse_ip
ipv6_ip t hex h e = ground arith

-- The endpoint of /proc/net/tcp6 whose four words the kernel writes as `%08X` each is read as those
-- words in that order, in lower case, cut into groups of four digits: no word is byte-swapped.
pub parse_hex_addr_ipv6 :
    (w1 w2 w3 w4 port : ℕ)
    → w1 < 4294967296
    → w2 < 4294967296
    → w3 < 4294967296
    → w4 < 4294967296
    → port < 65536
    → parse_hex_addr (words_of w1 w2 w3 w4 ++ b':' ∷ print_hex4 port) true
      ≡ some (join_groups 8 (shown w1 w2 w3 w4), port)
parse_hex_addr_ipv6 w1 w2 w3 w4 port h1 h2 h3 h4 hp =
    endpoint (words_of w1 w2 w3 w4) (print_hex4 port) true (join_groups 8 (shown w1 w2 w3 w4)) port
      (words_of-NoColon w1 w2 w3 w4) (from_str_radix-print_hex4 port hp)
      (ipv6_ip (words_of w1 w2 w3 w4) (shown w1 w2 w3 w4) refl
        (hex_words-words_of w1 w2 w3 w4 h1 h2 h3 h4))
