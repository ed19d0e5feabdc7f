-- ===== src/Store/Export.antt =====
-- crates/cone-store/src/export.rs: `export_pfx`. The parser of certificates and the PKCS#12 writer
-- are parameters.
pub mod RoundTrip
use traffic_cone.Common.{some, ◌++◌, find, Result, ok_or, map_err, Text, Bytes, codes, text_eq}
use traffic_cone.Common.Int.{ℤ}
use traffic_cone.Store.Models.{Cert, not_found, crypto}
use traffic_cone.Store.Db.{KeyRow, insert_audit}
use traffic_cone.Store.Handle.{conn, passphrase}
use traffic_cone.Store.Crypto.{Crates, decrypt_key}
use traffic_cone.Store.Exec.{done, sql, ask, ◌>>◌, ◌>>=◌, Exec}
use traffic_cone.Store.Delete.{audit_row}

-- p12-keystore: `Certificate::from_der`, and the writer on a password, a key and a certificate.
pub record PfxCrate : Type 0 where
  pub check_cert : Bytes → Result Text (Unit {0})
  pub write : Text → Bytes → Bytes → Result Text Bytes

module _ (c : Crates) (x : PfxCrate) where
  -- `audit_id` and `now` are what `new_id` and `unix_now` return.
  unfoldable pub export_pfx : Text → ℤ → Text → Text → Exec Bytes
  unfolding decrypt_key
  export_pfx audit_id now cert_id export_password = do
    d ← ask conn
    cert ← ask (λ _.
        ok_or (find (λ (y : Cert). text_eq y.id cert_id) d.certs)
          (not_found (codes "certificate " ++ (cert_id ++ codes " not found"))))
    k ← ask (λ _.
        ok_or (find (λ (y : KeyRow). text_eq y.cert_id cert_id) d.keys)
          (not_found (codes "private key for cert " ++ (cert_id ++ codes " not found"))))
    master ← ask passphrase
    plaintext ← ask (λ _. decrypt_key c k.key_enc k.key_salt k.key_nonce master)
    _ ← ask (λ _.
        map_err (λ (e : Text). crypto (codes "failed to parse stored certificate: " ++ e))
          (x.check_cert cert.cert_der))
    pfx ← ask (λ _.
        map_err (λ (e : Text). crypto (codes "failed to write PFX: " ++ e))
          (x.write export_password plaintext cert.cert_der))
    sql (
        insert_audit
          (audit_row audit_id (codes "cert_exported") (some cert_id) (codes "Exported as PFX") now))
    done pfx
