-- ===== src/Store/Import.antt =====
-- crates/cone-store/src/import.rs. The parsers of the crates x509-cert, pkcs8, pem and p12-keystore
-- and the file system are parameters.
pub mod Path
pub mod Laws
pub mod Formats
pub mod File
use traffic_cone.Common.{
  em_dash, String, ◌+◌, Bool, false, ◌||◌, Option, some, List, [], ◌∷◌, ◌++◌, ltb, if◌then◌else◌,
  length, Result, ok, err, map_err, Text, Bytes, codes, text_eq,
}
use traffic_cone.Common.Int.{ℤ}
use traffic_cone.Store.Import.Path.{extension_lower}
use traffic_cone.Store.Models.{
  ec_p384, ec_p256, rsa2048, Cert, import_error, KeyAlgorithm, StoreError,
}
use traffic_cone.Store.Crypto.{encrypt_key, hash_bytes, Crates}
use traffic_cone.Store.Db.{insert_audit, insert_key, insert_cert, KeyRow}
use traffic_cone.Store.Exec.{done, sql, ◌>>◌, ask, ◌>>=◌, Exec}
use traffic_cone.Store.Handle.{conn, passphrase}
use traffic_cone.Store.Delete.{audit_row}

-- What `parse_cert_metadata` reads of a certificate.
pub record CertInfo : Type 0 where
  pub subject : Text
  pub issuer : Text
  pub not_before : ℤ
  pub not_after : ℤ

pub record PemBlock : Type 0 where
  pub tag : Text
  pub contents : Bytes

pub record Parsers : Type 0 where
  -- `Certificate::from_der`
  pub x509 : Bytes → Result Text CertInfo
  -- `PrivateKeyInfo::from_der`, to the OID of its algorithm
  pub pkcs8_oid : Bytes → Result Text Text
  pub pem_parse : Text → Result Text PemBlock
  pub pem_parse_many : Text → Result Text (List PemBlock)
  -- `KeyStore::from_pkcs12` and `private_key_chain`: the certificates and the key
  pub pkcs12 : Bytes → Text → Result Text (Option (List Bytes × Bytes))
  -- `std::fs::read`
  pub read_file : Text → Option Bytes
  -- `std::fs::read_to_string`
  pub read_to_string : Text → Option Text

-- What the operation draws: a salt and a nonce, three ids, and the time.
pub record Draws : Type 0 where
  pub salt : Bytes
  pub nonce : Bytes
  pub cert_id : Text
  pub key_id : Text
  pub audit_id : Text
  pub now : ℤ

-- Without the field `summary`, which is a text for the terminal.
pub record ImportResult : Type 0 where
  pub cert_id : Text
  pub ca_chain : List Bytes

pub data ImportFormat : Type 0 where
  pkcs12 pem der : ImportFormat

one_of : Text → List String → Bool
one_of t [] = false
one_of t (w ∷ ws) = text_eq t (codes w) || one_of t ws

unfoldable pub detect_format : Text → Result StoreError ImportFormat
unfolding one_of
detect_format path =
    let ext = extension_lower path in
    if one_of ext ("pfx" ∷ "p12" ∷ [])
    then ok pkcs12
    else if one_of ext ("pem" ∷ "key" ∷ [])
    then ok pem
    else if one_of ext ("crt" ∷ "cer" ∷ "der" ∷ [])
    then ok der
    else err (
        import_error (
          codes "unrecognised file extension '."
          ++ (ext
              ++ (codes "' "
                  ++ (em_dash ++ codes " supported: pfx, p12, pem, key, crt, cer, der")))))

-- `format!("{:?}", algorithm)`
unfoldable pub debug_name : KeyAlgorithm → Text
debug_name rsa2048 = codes "Rsa2048"
debug_name KeyAlgorithm.rsa4096 = codes "Rsa4096"
debug_name ec_p256 = codes "EcP256"
debug_name ec_p384 = codes "EcP384"

module _ (c : Crates) (p : Parsers) where
  unfoldable pub detect_key_algorithm : Bytes → Result StoreError KeyAlgorithm
  detect_key_algorithm key_der = elim (p.pkcs8_oid key_der) [
    | err e ↦ err (import_error (codes "failed to parse private key: " ++ e))
    | ok oid ↦
        if text_eq oid (codes "1.2.840.113549.1.1.1")
        then (if ltb 1000 (length key_der) then ok KeyAlgorithm.rsa4096 else ok rsa2048)
        else if text_eq oid (codes "1.2.840.10045.2.1")
        then ok ec_p256
        else err (
            import_error (
              codes "unsupported key algorithm OID: "
              ++ (oid ++ (codes " " ++ (em_dash ++ codes " only RSA and EC keys are supported")))))
  ]

  abbrev parse_cert_metadata : Bytes → Result StoreError CertInfo
  parse_cert_metadata cert_der =
      map_err (λ e. import_error (codes "invalid certificate: " ++ e)) (p.x509 cert_der)

  module _ (w : Draws) where
    abbrev pub cert_row : CertInfo → Bytes → Text → Cert
    cert_row meta cert_der label = record {
      id = w.cert_id;
      label = label;
      cert_der = cert_der;
      fingerprint = hash_bytes c cert_der;
      subject = meta.subject;
      issuer = meta.issuer;
      not_before = meta.not_before;
      not_after = meta.not_after;
      created_at = w.now;
    }

    abbrev pub key_row : KeyAlgorithm → Bytes × Bytes × Bytes → KeyRow
    key_row algorithm e = record {
      id = w.key_id;
      cert_id = w.cert_id;
      algorithm = debug_name algorithm;
      key_enc = e.0;
      key_salt = e.1;
      key_nonce = e.2;
    }

    -- All import paths converge here.
    unfoldable pub store_cert_and_key : Bytes → Bytes → Text → Exec ImportResult
    store_cert_and_key cert_der key_der label = do
      meta ← ask (λ _. parse_cert_metadata cert_der)
      algorithm ← ask (λ _. detect_key_algorithm key_der)
      master ← ask passphrase
      e ← ask (λ _. encrypt_key c w.salt w.nonce key_der master)
      _ ← ask conn
      sql (insert_cert (cert_row meta cert_der label))
      sql (insert_key (key_row algorithm e))
      sql (
          insert_audit (
            audit_row w.audit_id (codes "cert_imported") (some w.cert_id)
              (codes "Imported: " ++ label) w.now))
      done (record { cert_id = w.cert_id; ca_chain = [] })
