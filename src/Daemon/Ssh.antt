-- ===== src/Daemon/Ssh.antt =====
-- crates/coned/src/ssh_agent.rs: the messages of the SSH agent and the loop that answers them.
pub mod Signing
pub mod Identities
pub mod Signatures
pub mod Loop
use traffic_cone.Common.{
  ℕ, zero, suc, ◌+◌, ◌-◌, ◌/◌, ◌%◌, Bool, true, false, not, ◌||◌, Option, none, some, List, [], ◌∷◌,
  ◌++◌, ltb, ◌==◌, if◌then◌else◌, length, drop, find, Result, ok, err, ◌>>=◌, ◌>>◌, guard, map_err,
  unwrap_or, Text, Bytes, codes, text_eq,
}
use traffic_cone.Store.Models.{StoreError, SshAlgorithm, SshKey}
use traffic_cone.Store.Handle.{Store}
use traffic_cone.Store.Listing.{list_ssh_keys, get_ssh_plaintext_key}
use traffic_cone.Store.Crypto.{Crates}
use traffic_cone.Daemon.Wire.{
  WireError, read_u32, read_exact, to_be_bytes, read_string, write_string,
}

abbrev pub ssh_agent_failure : ℕ
ssh_agent_failure = 5

abbrev pub ssh_agent_identities_answer : ℕ
ssh_agent_identities_answer = 12

abbrev pub ssh_agent_sign_response : ℕ
ssh_agent_sign_response = 14

abbrev pub message_limit : ℕ
message_limit = 262144

-- The crates ed25519-dalek (`from_bytes` and `sign`), p256 and rsa (`from_pkcs8_der` and `sign`).
pub record SshCrates : Type 0 where
  pub ed25519 : Bytes → Bytes → Bytes
  pub ecdsa_p256 : Bytes → Result Text (Bytes → Bytes)
  pub rsa_sha256 : Bytes → Result Text (Bytes → Bytes)
  pub rsa_sha512 : Bytes → Result Text (Bytes → Bytes)

pub data SshError : Type 0 where
  wire : WireError → SshError
  store_failed retrieve_key : StoreError → SshError
  key_too_short : SshError
  parse_key : Text → SshError

-- What `handle_message` finds on the stream: its end, an error, or a message, to which there is a
-- reply, with the rest of the stream.
pub data Step : Type 0 where
  closed : Step
  failed : Step
  replied : Bytes → Bytes → Step

unfoldable pub sign_ed25519 : SshCrates → Bytes → Bytes → Result SshError (Text × Bytes)
sign_ed25519 x key_der str = do
  guard (not (ltb (length key_der) 32)) key_too_short
  ok (codes "ssh-ed25519", x.ed25519 (drop (length key_der - 32) key_der) str)

unfoldable pub sign_ecdsa_p256 : SshCrates → Bytes → Bytes → Result SshError (Text × Bytes)
sign_ecdsa_p256 x key_der str = do
  signer ← map_err parse_key (x.ecdsa_p256 key_der)
  ok (codes "ecdsa-sha2-nistp256", signer str)

unfoldable pub sign_rsa_ssh : SshCrates → Bytes → Bytes → Bool → Result SshError (Text × Bytes)
sign_rsa_ssh x key_der str true = do
  signer ← map_err parse_key (x.rsa_sha512 key_der)
  ok (codes "rsa-sha2-512", signer str)
sign_rsa_ssh x key_der str false = do
  signer ← map_err parse_key (x.rsa_sha256 key_der)
  ok (codes "rsa-sha2-256", signer str)

-- `flags & SSH_AGENT_RSA_SHA2_512 != 0`, the bit of weight 4.
abbrev pub wants_sha512 : ℕ → Bool
wants_sha512 flags = not (flags / 4 % 2 == 0)

unfoldable pub sign_ssh_data :
    SshCrates → Bytes → Bytes → SshAlgorithm → ℕ → Result SshError (Text × Bytes)
unfolding sign_ed25519 sign_ecdsa_p256 sign_rsa_ssh
sign_ssh_data x key_der str SshAlgorithm.ed25519 flags = sign_ed25519 x key_der str
sign_ssh_data x key_der str SshAlgorithm.ecdsa_p256 flags = sign_ecdsa_p256 x key_der str
sign_ssh_data x key_der str SshAlgorithm.rsa4096 flags =
    sign_rsa_ssh x key_der str (wants_sha512 flags)

-- One key of an identities answer: the blob and the comment.
unfoldable pub write_identities : List SshKey → Bytes → Bytes
unfolding write_string
write_identities [] buf = buf
write_identities (key ∷ keys) buf =
    write_identities keys (write_string (write_string buf key.public_key) key.label)

-- A store that cannot be read has no keys.
unfoldable pub handle_request_identities : Store → Bytes
unfolding write_identities to_be_bytes
handle_request_identities s =
    let keys = unwrap_or (list_ssh_keys s) [] in
    write_identities keys (ssh_agent_identities_answer ∷ to_be_bytes (length keys))

module _ (c : Crates) (x : SshCrates) where
  -- The answer for the key that was found.
  unfoldable pub sign_with_key : Store → Bytes → ℕ → SshKey → Result SshError Bytes
  unfolding sign_ssh_data write_string
  sign_with_key s str flags key = do
    plaintext ← map_err retrieve_key (get_ssh_plaintext_key c s key.label)
    (sig_type, sig) ← sign_ssh_data x plaintext str key.algorithm flags
    ok (write_string (ssh_agent_sign_response ∷ []) (write_string (write_string [] sig_type) sig))

  unfoldable pub handle_sign_request : Store → Bytes → Result SshError Bytes
  unfolding sign_with_key read_string
  handle_sign_request s payload = do
    (key_blob, rest) ← map_err wire (read_string payload)
    (str, rest) ← map_err wire (read_string rest)
    (flags, rest) ← map_err wire (read_u32 rest)
    keys ← map_err store_failed (list_ssh_keys s)
    elim (find (λ (k : SshKey). text_eq k.public_key key_blob) keys) [
      | none ↦ ok (ssh_agent_failure ∷ [])
      | some key ↦ sign_with_key s str flags key
    ]

  -- The dispatch on the first byte; an error becomes a failure message.
  unfoldable pub answer : Store → Bytes → Bytes
  unfolding handle_request_identities handle_sign_request
  answer s [] = []
  answer s (msg_type ∷ payload) =
      if msg_type == 11
      then handle_request_identities s
      else if msg_type == 13
      then unwrap_or (handle_sign_request s payload) (ssh_agent_failure ∷ [])
      else ssh_agent_failure ∷ []

  -- The length prefix has been read.
  unfoldable pub handle_sized : Store → ℕ × Bytes → Step
  unfolding answer to_be_bytes
  handle_sized s (len, rest) =
      if len == 0 || ltb message_limit len then failed else (elim (read_exact len rest) [
        | none ↦ failed
        | some (msg, rest') ↦
            let response = answer s msg in replied (to_be_bytes (length response) ++ response) rest'
      ])

  unfoldable pub handle_message : Store → Bytes → Step
  unfolding handle_sized
  handle_message s stream = elim (read_u32 stream) [
    | err e ↦ closed
    | ok sized ↦ handle_sized s sized
  ]

  -- The loop of `run` on one connection, to what it writes.
  unfoldable pub converse : ℕ → Store → Bytes → Option Bytes
  unfolding handle_message
  converse zero s stream = none
  converse (suc fuel) s stream = elim (handle_message s stream) [
    | closed ↦ some []
    | failed ↦ some []
    | replied reply rest ↦ elim (converse fuel s rest) [
      | none ↦ none
      | some more ↦ some (reply ++ more)
    ]
  ]
