-- ===== src/Store/Import/File.antt =====
-- crates/cone-store/src/import.rs: `import_file` and its formats, which end on the common path.
use traffic_cone.Common.{◌≡◌, refl, sym, ap, ◌∙◌, subst, Option, Result, ok, Text, Bytes}
use traffic_cone.Store.Models.{KeyAlgorithm, StoreError}
use traffic_cone.Store.Crypto.{Crates, CratesLaws}
use traffic_cone.Store.Handle.{Store}
use traffic_cone.Store.Listing.{get_plaintext_key}
use traffic_cone.Store.Db.Sound.{IsSound}
use traffic_cone.Store.Exec.{done, ask, ◌>>=◌, Exec, ask_ok, bind_ok}
use traffic_cone.Store.Import.{
  Parsers, Draws, ImportResult, ImportFormat, detect_format, detect_key_algorithm,
  store_cert_and_key,
}
use traffic_cone.Store.Import.Formats.{Parts, pkcs12_parts, pem_parts, der_parts}
use traffic_cone.Store.Import.Laws.{get_plaintext_key-store_cert_and_key}

module _ (c : Crates) (p : Parsers) (w : Draws) where
  -- The common path on the parts.
  abbrev pub store_parts : Text → Parts → Exec ImportResult
  store_parts label parts = store_cert_and_key c p w parts.cert_der parts.key_der label

  unfoldable pub import_pkcs12 : Text → Text → Text → Exec ImportResult
  import_pkcs12 path file_passphrase label = do
    parts ← ask (λ _. pkcs12_parts p path file_passphrase)
    result ← store_parts label parts
    done (record result { ca_chain = parts.ca_chain })

  unfoldable pub import_pem : Text → Text → Option Text → Exec ImportResult
  import_pem path label key_path = do
    parts ← ask (λ _. pem_parts p path key_path)
    store_parts label parts

  unfoldable pub import_der : Text → Text → Option Text → Exec ImportResult
  import_der path label key_path = do
    parts ← ask (λ _. der_parts p path key_path)
    store_parts label parts

  unfoldable pub import_as : ImportFormat → Text → Text → Text → Option Text → Exec ImportResult
  unfolding import_pkcs12 import_pem import_der
  import_as ImportFormat.pkcs12 path file_passphrase label key_path =
      import_pkcs12 path file_passphrase label
  import_as ImportFormat.pem path file_passphrase label key_path = import_pem path label key_path
  import_as ImportFormat.der path file_passphrase label key_path = import_der path label key_path

  unfoldable pub import_file : Text → Text → Text → Option Text → Exec ImportResult
  unfolding import_as
  import_file path file_passphrase label key_path = do
    format ← ask (λ _. detect_format path)
    import_as format path file_passphrase label key_path

-- A successful import has gone through the common path, which left the same store under the same id.
abbrev Common :
    Crates → Parsers → Draws → Text → Store → Store × Result StoreError ImportResult → Text → Type 0
Common c p w label s end id =
    (parts : Parts) × (r : ImportResult) × ((store_parts c p w label parts s).1 ≡ ok r)
    × (end.0 ≡ (store_parts c p w label parts s).0)
    × (r.cert_id ≡ id)

module _ (c : Crates) (p : Parsers) (w : Draws) where
  import_as-Common :
      (format : ImportFormat) (path file_passphrase label : Text) (key_path : Option Text)
      (s : Store) (r : ImportResult)
      → (import_as c p w format path file_passphrase label key_path s).1 ≡ ok r
      → Common c p w label s
          (import_as c p w format path file_passphrase label key_path s)
          r.cert_id
  unfolding import_as import_pkcs12 import_pem import_der done
  import_as-Common ImportFormat.pkcs12 path file_passphrase label key_path s r h =
      let (parts, e, q, h1) = ask_ok _ _ _ h in
      let (found, e0, q0, h2) = bind_ok (store_parts c p w label parts) _ _ h1 in
      (parts, found, e0, ap (λ z. z.0) (q ∙ q0), cc h2)
  import_as-Common ImportFormat.pem path file_passphrase label key_path s r h =
      let (parts, e, q, h1) = ask_ok _ _ _ h in (parts, r, h1, ap (λ z. z.0) q, refl)
  import_as-Common ImportFormat.der path file_passphrase label key_path s r h =
      let (parts, e, q, h1) = ask_ok _ _ _ h in (parts, r, h1, ap (λ z. z.0) q, refl)

  -- After a successful import of any format into a sound store, the store decrypts a key under the
  -- id that the import returned, and its algorithm is the one that was detected on that key.
  pub get_plaintext_key-import_file :
      (laws : CratesLaws c) (path file_passphrase label : Text) (key_path : Option Text) (s : Store)
      (r : ImportResult)
      → IsSound s.disk.db
      → (import_file c p w path file_passphrase label key_path s).1 ≡ ok r
      → (key_der : Bytes) × (a : KeyAlgorithm) × (detect_key_algorithm c p key_der ≡ ok a)
        × (get_plaintext_key c (import_file c p w path file_passphrase label key_path s).0 r.cert_id
            ≡ ok (key_der, a))
  unfolding import_file
  get_plaintext_key-import_file laws path file_passphrase label key_path s r sound h =
      let (format, ef, qf, h1) = ask_ok _ _ _ h in
      let (parts, found, e0, q0, same) =
        import_as-Common format path file_passphrase label key_path s r h1 in
      let (a, ea, back) =
        get_plaintext_key-store_cert_and_key c laws p w parts.cert_der parts.key_der label s found
          sound e0 in
      (
        parts.key_der,
        a,
        ea,
        subst (λ (t : Store). get_plaintext_key c t r.cert_id ≡ ok (parts.key_der, a))
            (sym (ap (λ z. z.0) qf ∙ q0))
            (subst
              (λ (i : Text).
                get_plaintext_key c (store_parts c p w label parts s).0 i ≡ ok (parts.key_der, a))
              same back),
      )
