-- ===== src/Daemon/Ssh/Identities.antt =====
-- A client that decodes the list of identities by the protocol gets the keys of the store.
use traffic_cone.Common.{
  append_nil, ℕ, zero, suc, ◌≤◌, ◌<◌, ◌≡◌, refl, sym, ap, ◌∙◌, List, [], ◌∷◌, ◌++◌, map, length,
  All, Result, ok, err, ◌>>=◌, Bytes,
}
use traffic_cone.Store.Models.{SshKey}
use traffic_cone.Store.Handle.{Store}
use traffic_cone.Store.Listing.{list_ssh_keys}
use traffic_cone.Daemon.Wire.{
  WireError, read_u32, to_be_bytes, read_string, write_string, string_limit,
}
use traffic_cone.Daemon.Wire.RoundTrip.{
  read_u32-to_be_bytes, read_string-write_string, append_assoc,
}
use traffic_cone.Daemon.Ssh.{
  ssh_agent_identities_answer, handle_request_identities, write_identities,
}

-- The client's side of the protocol: so many pairs of strings.
abbrev pub read_pairs : ℕ → Bytes → Result WireError (List (Bytes × Bytes))
read_pairs zero input = ok []
read_pairs (suc n) input = do
  (blob, rest) ← read_string input
  (comment, rest) ← read_string rest
  pairs ← read_pairs n rest
  ok ((blob, comment) ∷ pairs)

-- The client's decoder of an identities answer.
abbrev pub read_identities : Bytes → Result WireError (List (Bytes × Bytes))
read_identities [] = err WireError.unexpected_eof
read_identities (kind ∷ payload) = read_u32 payload >>= λ (n, rest). read_pairs n rest

abbrev pub Fits : SshKey → Type 0
Fits key = (length key.public_key ≤ string_limit) × (length key.label ≤ string_limit)

abbrev pub pair_of : SshKey → Bytes × Bytes
pair_of key = (key.public_key, key.label)

abbrev body : List SshKey → Bytes
body [] = []
body (key ∷ keys) = write_string [] key.public_key ++ (write_string [] key.label ++ body keys)

write_string-append : (buf str : Bytes) → write_string buf str ≡ buf ++ write_string [] str
unfolding write_string
write_string-append buf str = refl

-- Two strings are written at the end of a buffer.
two_strings :
    (buf p l rest : Bytes)
    → write_string (write_string buf p) l ++ rest
      ≡ buf ++ (write_string [] p ++ (write_string [] l ++ rest))
unfolding write_string
two_strings buf p l rest =
    append_assoc (buf ++ write_string [] p) (write_string [] l) rest
    ∙ append_assoc buf (write_string [] p) (write_string [] l ++ rest)

write_identities-body :
    (keys : List SshKey) (buf : Bytes) → write_identities keys buf ≡ buf ++ body keys
unfolding write_identities
write_identities-body [] buf = sym (append_nil buf)
write_identities-body (key ∷ keys) buf =
    write_identities-body keys (write_string (write_string buf key.public_key) key.label)
    ∙ two_strings buf key.public_key key.label (body keys)

read_pairs-body :
    (keys : List SshKey)
    → All Fits keys
    → read_pairs (length keys) (body keys) ≡ ok (map pair_of keys)
read_pairs-body [] h = refl
read_pairs-body (key ∷ keys) h =
    rw (read_string-write_string key.public_key (write_string [] key.label ++ body keys) h.0.0) (
      rw (read_string-write_string key.label (body keys) h.0.1)
        (rw (read_pairs-body keys h.1) refl))

answer-body :
    (s : Store) (keys : List SshKey)
    → list_ssh_keys s ≡ ok keys
    → handle_request_identities s
      ≡ ssh_agent_identities_answer ∷ (to_be_bytes (length keys) ++ body keys)
unfolding handle_request_identities
answer-body s keys h =
    rw (h, handle_request_identities)
      (write_identities-body keys (ssh_agent_identities_answer ∷ to_be_bytes (length keys)))

-- A client that decodes the identities answer by the protocol reads the public key and the label of
-- each SSH key of the store, in the store's order, where there are fewer than 2 ^ 32 of them and
-- each of the two is at most 256 KiB long.
pub read_identities-handle_request_identities :
    (s : Store) (keys : List SshKey)
    → list_ssh_keys s ≡ ok keys
    → All Fits keys
    → length keys < 4294967296
    → read_identities (handle_request_identities s) ≡ ok (map pair_of keys)
read_identities-handle_request_identities s keys h fits few =
    ap read_identities (answer-body s keys h)
    ∙ (ap (λ r. r >>= λ (n, rest). read_pairs n rest)
          (read_u32-to_be_bytes (length keys) (body keys) few)
        ∙ read_pairs-body keys fits)
