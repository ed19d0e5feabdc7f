-- ===== src/Store/Backup.antt =====
-- crates/cone-store/src/export.rs, the backup file: its payload, and how it is made.
pub mod Restored
pub mod Restore
pub mod Keeps
pub mod Loop
pub mod Steps
pub mod Pairs
pub mod RoundTrip
pub mod Whole
use traffic_cone.Common.{
  em_dash, ℕ, ◌+◌, Bool, not, Option, List, [], ◌∷◌, ◌++◌, map, filter_by, Result, ok, ◌>>=◌, ◌>>◌,
  ok_or, map_err, Text, Bytes, codes, text_eq,
}
use traffic_cone.Common.Int.{ℤ, pos, eqb_ℤ}
use traffic_cone.Store.Models.{Cert, CaCert, App, SshRoute, StoreError, crypto, import_error}
use traffic_cone.Store.Db.{Db, KeyRow, SshKeyRow, RouteRow}
use traffic_cone.Store.Handle.{Store, conn}
use traffic_cone.Store.Crypto.{Crates}

pub record BackupCert : Type 0 where
  pub id : Text
  pub label : Text
  pub cert_der : Text
  pub fingerprint : Text
  pub subject : Text
  pub issuer : Text
  pub not_before : ℤ
  pub not_after : ℤ
  pub created_at : ℤ
  pub key_enc : Text
  pub key_salt : Text
  pub key_nonce : Text
  pub key_algorithm : Text

pub record BackupSshKey : Type 0 where
  pub id : Text
  pub label : Text
  pub public_key : Text
  pub algorithm : Text
  pub key_enc : Text
  pub key_salt : Text
  pub key_nonce : Text
  pub created_at : ℤ

-- Without the column `system_file`.
pub record BackupCaCert : Type 0 where
  pub id : Text
  pub label : Text
  pub cert_pem : Text
  pub fingerprint : Text
  pub subject : Text
  pub not_after : ℤ
  pub created_at : ℤ

pub record BackupRoute : Type 0 where
  pub id : Text
  pub cert_id : Text
  pub app_id : Option Text
  pub match_type : Text
  pub pattern : Option Text
  pub require_both : Bool
  pub priority : ℤ
  pub created_at : ℤ

-- `BackupApp` and `BackupSshRoute` have the columns of their tables.
pub record BackupPayload : Type 0 where
  pub version : ℕ
  pub exported_at : ℤ
  pub certs : List BackupCert
  pub ssh_keys : List BackupSshKey
  pub ca_certs : List BackupCaCert
  pub apps : List App
  pub routes : List BackupRoute
  pub ssh_routes : List SshRoute

-- Where the age crate fails to encrypt: `wrap_output`, `write_all` or `finish`.
pub data AgeStage : Type 0 where
  wrapping writing finishing : AgeStage

-- serde_json and age. A decryptor is `None` unless the file was encrypted under a passphrase; then a
-- passphrase gives a reader, which may fail in turn.
pub record BackupCrates : Type 0 where
  pub to_vec_pretty : BackupPayload → Result Text Bytes
  pub from_slice : Bytes → Result Text BackupPayload
  pub age_wrap : Text → Bytes → Result (AgeStage × Text) Bytes
  pub age_open : Bytes → Result Text (Option (Text → Result Text (Result Text Bytes)))

abbrev pub age_error : AgeStage × Text → StoreError
age_error (wrapping, e) = crypto (codes "age encrypt error: " ++ e)
age_error (writing, e) = crypto (codes "age write error: " ++ e)
age_error (finishing, e) = crypto (codes "age finish error: " ++ e)

module _ (b : BackupCrates) where
  unfoldable pub age_encrypt : Bytes → Text → Result StoreError Bytes
  age_encrypt plaintext passphrase = map_err age_error (b.age_wrap passphrase plaintext)

  unfoldable pub age_decrypt : Bytes → Text → Result StoreError Bytes
  age_decrypt ciphertext passphrase = do
    opened ←
        map_err (λ (e : Text). crypto (codes "age decrypt init error: " ++ e))
          (b.age_open ciphertext)
    decrypt ← ok_or opened (crypto (codes "backup was not encrypted with a passphrase"))
    reader ←
        map_err
          (λ (e : Text).
            crypto (
              codes "backup decryption failed "
              ++ (em_dash ++ (codes " wrong passphrase?: " ++ e))))
          (decrypt passphrase)
    map_err (λ (e : Text). crypto (codes "age read error: " ++ e)) reader

  -- `age_decrypt` and the parser.
  unfoldable pub open_payload : Bytes → Text → Result StoreError BackupPayload
  unfolding age_decrypt
  open_payload backup_data password = do
    json ← age_decrypt backup_data password
    map_err (λ (e : Text). import_error (codes "failed to parse backup: " ++ e)) (b.from_slice json)

module _ (c : Crates) where
  abbrev pub backup_cert : Cert → KeyRow → BackupCert
  backup_cert x k = record {
    id = x.id;
    label = x.label;
    cert_der = c.hex_encode x.cert_der;
    fingerprint = x.fingerprint;
    subject = x.subject;
    issuer = x.issuer;
    not_before = x.not_before;
    not_after = x.not_after;
    created_at = x.created_at;
    key_enc = c.hex_encode k.key_enc;
    key_salt = c.hex_encode k.key_salt;
    key_nonce = c.hex_encode k.key_nonce;
    key_algorithm = k.algorithm;
  }

  -- `FROM certs c JOIN keys k ON k.cert_id = c.id`, in the order of `certs` and then of `keys`; without an
  -- ORDER BY SQLite promises none, and the loops of the nested join give this one.
  unfoldable pub join_keys : List KeyRow → List Cert → List BackupCert
  join_keys keys [] = []
  join_keys keys (x ∷ certs) =
      map (backup_cert x) (filter_by (λ (k : KeyRow). text_eq k.cert_id x.id) keys)
      ++ join_keys keys certs

  abbrev pub backup_ssh_key : SshKeyRow → BackupSshKey
  backup_ssh_key k = record {
    id = k.id;
    label = k.label;
    public_key = k.public_key;
    algorithm = k.algorithm;
    key_enc = c.hex_encode k.key_enc;
    key_salt = c.hex_encode k.key_salt;
    key_nonce = c.hex_encode k.key_nonce;
    created_at = k.created_at;
  }

  abbrev pub backup_ca_cert : CaCert → BackupCaCert
  backup_ca_cert x = record {
    id = x.id;
    label = x.label;
    cert_pem = x.cert_pem;
    fingerprint = x.fingerprint;
    subject = x.subject;
    not_after = x.not_after;
    created_at = x.created_at;
  }

  abbrev pub backup_route : RouteRow → BackupRoute
  backup_route r = record {
    id = r.id;
    cert_id = r.cert_id;
    app_id = r.app_id;
    match_type = r.match_type;
    pattern = r.pattern;
    require_both = not (eqb_ℤ r.require_both (pos 0));
    priority = r.priority;
    created_at = r.created_at;
  }

  abbrev pub payload_of : ℤ → Db → BackupPayload
  payload_of now d = record {
    version = 1;
    exported_at = now;
    certs = join_keys d.keys d.certs;
    ssh_keys = map backup_ssh_key d.ssh_keys;
    ca_certs = map backup_ca_cert d.ca_certs;
    apps = d.apps;
    routes = map backup_route d.routes;
    ssh_routes = d.ssh_routes;
  }

  -- `now` is what `unix_now` returns.
  unfoldable pub collect_backup_payload : ℤ → Store → Result StoreError BackupPayload
  unfolding join_keys
  collect_backup_payload now s = do d ← conn s; ok (payload_of now d)

  -- The bytes of the file, before the audit row is written.
  unfoldable pub seal_backup : BackupCrates → Text → ℤ → Store → Result StoreError Bytes
  unfolding collect_backup_payload age_encrypt
  seal_backup b password now s = do
    payload ← collect_backup_payload now s
    json ←
        map_err (λ (e : Text). crypto (codes "failed to serialise backup: " ++ e))
          (b.to_vec_pretty payload)
    age_encrypt b json password
