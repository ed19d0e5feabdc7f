-- ===== src/Store/Crypto.antt =====
-- crates/cone-store/src/crypto.rs. The crates argon2, aes-gcm, sha2 and hex are parameters.
use traffic_cone.Common.{◌≡◌, arith, Result, ok, ◌>>=◌, map_err, Text, Bytes}
use traffic_cone.Store.Models.{StoreError, crypto, wrong_passphrase}

-- The calls of the crates, with the message of a failure where they have one.
pub record Crates : Type 0 where
  -- `hash_password_into(passphrase, salt)` under the parameters of `derive_key`
  pub argon2 : Bytes → Bytes → Result Text Bytes
  -- `encrypt(key, nonce, plaintext)` and `decrypt(key, nonce, ciphertext)` of `Aes256Gcm`
  pub aes_encrypt : Bytes → Bytes → Bytes → Result Text Bytes
  pub aes_decrypt : Bytes → Bytes → Bytes → Result Text Bytes
  pub sha256 : Bytes → Bytes
  pub hex_encode : Bytes → Text
  pub hex_decode : Text → Result Text Bytes

-- What the crates document.
pub record CratesLaws (c : Crates) : Type 0 where
  pub decrypt-encrypt :
      (key nonce plain cipher : Bytes)
      → c.aes_encrypt key nonce plain ≡ ok cipher
      → c.aes_decrypt key nonce cipher ≡ ok plain
  pub decode-encode : (b : Bytes) → c.hex_decode (c.hex_encode b) ≡ ok b

module _ (c : Crates) where
  unfoldable pub derive_key : Bytes → Bytes → Result StoreError Bytes
  derive_key passphrase salt = map_err crypto (c.argon2 passphrase salt)

  -- `salt` and `nonce` are what `random_salt` and `random_nonce` drew.
  unfoldable pub encrypt_key :
      Bytes → Bytes → Bytes → Bytes → Result StoreError (Bytes × Bytes × Bytes)
  unfolding derive_key
  encrypt_key salt nonce key_bytes passphrase = do
    derived ← derive_key passphrase salt
    ciphertext ← map_err crypto (c.aes_encrypt derived nonce key_bytes)
    ok (ciphertext, salt, nonce)

  unfoldable pub decrypt_key : Bytes → Bytes → Bytes → Bytes → Result StoreError Bytes
  unfolding derive_key
  decrypt_key ciphertext salt nonce passphrase = do
    derived ← derive_key passphrase salt
    map_err (λ _. wrong_passphrase) (c.aes_decrypt derived nonce ciphertext)

  unfoldable pub hash_bytes : Bytes → Text
  hash_bytes b = c.hex_encode (c.sha256 b)

-- Under the same passphrase `decrypt_key` returns what `encrypt_key` was given.
pub decrypt_key-encrypt_key :
    (c : Crates) (laws : CratesLaws c) (salt nonce key_bytes passphrase : Bytes)
    (e : Bytes × Bytes × Bytes)
    → encrypt_key c salt nonce key_bytes passphrase ≡ ok e
    → decrypt_key c e.0 e.1 e.2 passphrase ≡ ok key_bytes
unfolding encrypt_key decrypt_key
decrypt_key-encrypt_key c laws salt nonce key_bytes passphrase e h =
    grind (arith, laws.decrypt-encrypt)
