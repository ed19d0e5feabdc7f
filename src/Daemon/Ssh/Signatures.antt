-- ===== src/Daemon/Ssh/Signatures.antt =====
-- How a client of the SSH agent asks for a signature and reads the answer.
use traffic_cone.Common.{
  ◌>>=◌, ℕ, ◌+◌, ◌≤◌, ◌≡◌, ap, ◌∙◌, subst, [], ◌∷◌, ◌++◌, arith, ◌==◌, if◌then◌else◌, length,
  Result, ok, err, Bytes, append_nil,
}
use traffic_cone.Store.Models.{SshAlgorithm}
use traffic_cone.Daemon.Wire.{WireError, to_be_bytes, read_string, write_string, string_limit}
use traffic_cone.Daemon.Wire.RoundTrip.{read_string-write_string}
use traffic_cone.Daemon.Ssh.{SshCrates, ssh_agent_sign_response, sign_ssh_data}

-- The client's side of the protocol: a request for a signature, and the decoder of the answer.
abbrev pub sign_message : Bytes → Bytes → ℕ → Bytes
sign_message blob str flags =
    13 ∷ (write_string [] blob ++ (write_string [] str ++ to_be_bytes flags))

abbrev read_sig : Bytes → Result WireError (Bytes × Bytes) → Result WireError (Bytes × Bytes)
read_sig sig_type r = r >>= λ (sig, end). ok (sig_type, sig)

abbrev read_type : Result WireError (Bytes × Bytes) → Result WireError (Bytes × Bytes)
read_type r = r >>= λ (sig_type, rest). read_sig sig_type (read_string rest)

abbrev read_blob : Result WireError (Bytes × Bytes) → Result WireError (Bytes × Bytes)
read_blob r = r >>= λ (sig_blob, end). read_type (read_string sig_blob)

abbrev pub read_signature : Bytes → Result WireError (Bytes × Bytes)
read_signature [] = err WireError.unexpected_eof
read_signature (kind ∷ payload) =
    if kind == ssh_agent_sign_response
    then read_blob (read_string payload)
    else err WireError.unexpected_eof

-- Signatures are far shorter than the limit on a string.
abbrev pub Short : SshCrates → Type 0
Short x =
    (key str : Bytes) (a : SshAlgorithm) (flags : ℕ) (sig_type sig : Bytes)
    → sign_ssh_data x key str a flags ≡ ok (sig_type, sig)
    → 8 + (length sig_type + length sig) ≤ string_limit

length-append : (xs ys : Bytes) → length (xs ++ ys) ≡ length xs + length ys
length-append [] ys = omega arith
length-append (x ∷ xs) ys = omega (arith, length-append xs ys)

length-write_string : (str : Bytes) → length (write_string [] str) ≡ 4 + length str
unfolding write_string to_be_bytes
length-write_string str = omega arith

read_alone :
    (str : Bytes) → length str ≤ string_limit → read_string (write_string [] str) ≡ ok (str, [])
read_alone str h =
    subst (λ t. read_string t ≡ ok (str, [])) (append_nil (write_string [] str))
      (read_string-write_string str [] h)

pub read_signature-write_string :
    (sig_type sig : Bytes)
    → 8 + (length sig_type + length sig) ≤ string_limit
    → read_signature
        (write_string (ssh_agent_sign_response ∷ []) (write_string (write_string [] sig_type) sig))
      ≡ ok (sig_type, sig)
unfolding write_string
read_signature-write_string sig_type sig h =
    let inner : Bytes = write_string [] sig_type ++ write_string [] sig in
    let size : length inner ≤ string_limit = omega (
      arith,
      length-append (write_string [] sig_type) (write_string [] sig),
      length-write_string sig_type,
      length-write_string sig,
    ) in
    ap read_blob (read_alone inner size)
    ∙ ap read_type (read_string-write_string sig_type (write_string [] sig) (omega (arith, h)))
    ∙ ap (read_sig sig_type) (read_alone sig (omega (arith, h)))
