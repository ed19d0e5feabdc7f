-- ===== src/Daemon/Ssh/Signing.antt =====
-- When a client of the SSH agent reads a signature.
use traffic_cone.Common.{
  ◌>>=◌, ℕ, ◌≤◌, ◌<◌, ◌≡◌, sym, ap, ◌∙◌, ◌↔◌, inl, inr, Option, none, some, List, [], ◌∷◌, ◌++◌,
  Option-cases, length, find, Result, ok, err, map_err, unwrap_or, Result-cases, Bytes, text_eq,
}
use traffic_cone.Store.Models.{SshKey, StoreError}
use traffic_cone.Store.Handle.{Store}
use traffic_cone.Store.Crypto.{Crates}
use traffic_cone.Store.Listing.{list_ssh_keys, get_ssh_plaintext_key}
use traffic_cone.Daemon.Wire.{
  WireError, read_u32, to_be_bytes, read_string, write_string, string_limit,
}
use traffic_cone.Daemon.Wire.RoundTrip.{read_u32-to_be_bytes, read_string-write_string}
use traffic_cone.Daemon.Ssh.{
  retrieve_key, SshCrates, SshError, ssh_agent_sign_response, ssh_agent_failure, sign_ssh_data,
  sign_with_key, handle_sign_request, answer, wire, store_failed,
}
use traffic_cone.Daemon.Ssh.Signatures.{
  sign_message, read_signature, Short, read_signature-write_string,
}

module _ (c : Crates) (x : SshCrates) where
  -- `handle_sign_request` from the reading of the keys on, step by step.
  abbrev replied : Result SshError (Bytes × Bytes) → Result SshError Bytes
  replied r = r >>= λ (sig_type, sig).
      ok (write_string (ssh_agent_sign_response ∷ []) (write_string (write_string [] sig_type) sig))

  abbrev decrypted : Bytes → ℕ → SshKey → Result StoreError Bytes → Result SshError Bytes
  decrypted str flags key r = map_err retrieve_key r >>= λ plaintext.
      replied (sign_ssh_data x plaintext str key.algorithm flags)

  abbrev picked : Store → Bytes → ℕ → Option SshKey → Result SshError Bytes
  picked s str flags o = elim o [
    | none ↦ ok (ssh_agent_failure ∷ [])
    | some key ↦ sign_with_key c x s str flags key
  ]

  abbrev listed :
      Store → Bytes → Bytes → ℕ → Result StoreError (List SshKey) → Result SshError Bytes
  listed s blob str flags r = map_err store_failed r >>= λ keys.
      picked s str flags (find (λ (k : SshKey). text_eq k.public_key blob) keys)

  abbrev signed : Store → Bytes → Bytes → ℕ → Result SshError Bytes
  signed s blob str flags = listed s blob str flags (list_ssh_keys s)

  -- With the key that has the blob.
  found :
      (s : Store) (blob str : Bytes) (flags : ℕ) {keys : List SshKey} {key : SshKey}
      → list_ssh_keys s ≡ ok keys
      → find (λ (k : SshKey). text_eq k.public_key blob) keys ≡ some key
      → signed s blob str flags ≡ decrypted str flags key (get_ssh_plaintext_key c s key.label)
  unfolding sign_with_key
  found s blob str flags ek ef = ap (listed s blob str flags) ek ∙ ap (picked s str flags) ef

  abbrev with_flags : Store → Bytes → Bytes → Result WireError (ℕ × Bytes) → Result SshError Bytes
  with_flags s blob str r = map_err wire r >>= λ (flags, rest). signed s blob str flags

  abbrev with_str : Store → Bytes → Result WireError (Bytes × Bytes) → Result SshError Bytes
  with_str s blob r = map_err wire r >>= λ (str, rest). with_flags s blob str (read_u32 rest)

  abbrev with_blob : Store → Result WireError (Bytes × Bytes) → Result SshError Bytes
  with_blob s r = map_err wire r >>= λ (blob, rest). with_str s blob (read_string rest)

  request_read :
      (s : Store) (blob str : Bytes) (flags : ℕ)
      → length blob ≤ string_limit
      → length str ≤ string_limit
      → flags < 4294967296
      → handle_sign_request c x s
          (write_string [] blob ++ (write_string [] str ++ to_be_bytes flags))
        ≡ signed s blob str flags
  unfolding handle_sign_request to_be_bytes
  request_read s blob str flags hb hs hf =
      ap (with_blob s) (read_string-write_string blob (write_string [] str ++ to_be_bytes flags) hb)
      ∙ ap (with_str s blob) (read_string-write_string str (to_be_bytes flags) hs)
      ∙ ap (with_flags s blob str) (read_u32-to_be_bytes flags [] hf)

  -- The key of the store with this blob, decrypted, signs so.
  abbrev pub Signs : Store → Bytes → Bytes → ℕ → Bytes → Bytes → Type 0
  Signs s blob str flags sig_type sig =
      (keys : List SshKey) × (key : SshKey) × (plaintext : Bytes) × (list_ssh_keys s ≡ ok keys)
      × (find (λ (k : SshKey). text_eq k.public_key blob) keys ≡ some key)
      × (get_ssh_plaintext_key c s key.label ≡ ok plaintext)
      × (sign_ssh_data x plaintext str key.algorithm flags ≡ ok (sig_type, sig))

  -- What a client reads from the reply.
  abbrev reads : Result SshError Bytes → Result WireError (Bytes × Bytes)
  reads r = read_signature (unwrap_or r (ssh_agent_failure ∷ []))

  back :
      (short : Short x) (s : Store) (blob str : Bytes) (flags : ℕ) (sig_type sig : Bytes)
      → Signs s blob str flags sig_type sig
      → reads (signed s blob str flags) ≡ ok (sig_type, sig)
  back short s blob str flags sig_type sig (keys, key, plaintext, ek, ef, ep, es) =
      ap reads (found s blob str flags ek ef ∙ ap (decrypted str flags key) ep ∙ ap replied es)
      ∙ read_signature-write_string sig_type sig
          (short plaintext str key.algorithm flags sig_type sig es)

  -- A request that does not come to a signature is answered by a failure, which a client does not
  -- read as one.
  no_signature :
      (r : Result SshError Bytes) (e : SshError) (v : Bytes × Bytes)
      → r ≡ err e
      → reads r ≡ ok v
      → ⊥
  no_signature r e v q h = let p : reads (err e) ≡ ok v = ap reads (sym q) ∙ h in cc p

  refused :
      (r : Result SshError Bytes) (v : Bytes × Bytes)
      → r ≡ ok (ssh_agent_failure ∷ [])
      → reads r ≡ ok v
      → ⊥
  refused r v q h =
      let p : reads (ok (ssh_agent_failure ∷ [])) ≡ ok v = ap reads (sym q) ∙ h in cc p

  forth :
      (short : Short x) (s : Store) (blob str : Bytes) (flags : ℕ) (sig_type sig : Bytes)
      → reads (signed s blob str flags) ≡ ok (sig_type, sig)
      → Signs s blob str flags sig_type sig
  forth short s blob str flags sig_type sig h =
      let r = signed s blob str flags in
      elim (Result-cases (list_ssh_keys s)) [
        | inr (e, ek) ↦
            absurd (no_signature r (store_failed e) _ (ap (listed s blob str flags) ek) h)
        | inl (keys, ek) ↦
            elim (Option-cases (find (λ (k : SshKey). text_eq k.public_key blob) keys)) [
              | inl ef ↦
                  absurd
                    (refused r _ (ap (listed s blob str flags) ek ∙ ap (picked s str flags) ef) h)
              | inr (key, ef) ↦ elim (Result-cases (get_ssh_plaintext_key c s key.label)) [
                | inr (e, ep) ↦ absurd (
                    no_signature r (retrieve_key e) _
                      (found s blob str flags ek ef ∙ ap (decrypted str flags key) ep) h)
                | inl (plaintext, ep) ↦
                    let to_sign = found s blob str flags ek ef ∙ ap (decrypted str flags key) ep in
                    elim (Result-cases (sign_ssh_data x plaintext str key.algorithm flags)) [
                      | inr (e, es) ↦ absurd (no_signature r e _ (to_sign ∙ ap replied es) h)
                      | inl ((t, g), es) ↦
                          let p : ok (t, g) ≡ ok (sig_type, sig) =
                            sym (
                              back short s blob str flags t g
                                (keys, key, plaintext, ek, ef, ep, es))
                            ∙ h in
                          let same : (t, g) ≡ (sig_type, sig) = cc p in
                          (keys, key, plaintext, ek, ef, ep, es ∙ ap ok same)
                    ]
              ]
            ]
      ]

  pub read_signature-answer :
      (short : Short x) (s : Store) (blob str : Bytes) (flags : ℕ) (sig_type sig : Bytes)
      → length blob ≤ string_limit
      → length str ≤ string_limit
      → flags < 4294967296
      → (read_signature (answer c x s (sign_message blob str flags)) ≡ ok (sig_type, sig))
        ↔ Signs s blob str flags sig_type sig
  unfolding answer
  read_signature-answer short s blob str flags sig_type sig hb hs hf =
      let e : reads (
            handle_sign_request c x s
              (write_string [] blob ++ (write_string [] str ++ to_be_bytes flags)))
          ≡ reads (signed s blob str flags) =
        ap reads (request_read s blob str flags hb hs hf) in
      (
        (λ h. forth short s blob str flags sig_type sig (sym e ∙ h)),
        (λ g. e ∙ back short s blob str flags sig_type sig g),
      )
