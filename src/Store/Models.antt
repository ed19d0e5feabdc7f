-- ===== src/Store/Models.antt =====
-- crates/cone-store/src/models.rs and error.rs: the rows as the operations return them, and the
-- errors. An `i64` is an integer; a message that is built by `format!` is the text it stands for.
use traffic_cone.Common.{Bool, Option, Text, Bytes}
use traffic_cone.Common.Int.{ℤ}

pub data KeyAlgorithm : Type 0 where
  rsa2048 rsa4096 ec_p256 ec_p384 : KeyAlgorithm

pub data SshAlgorithm : Type 0 where
  ed25519 ecdsa_p256 rsa4096 : SshAlgorithm

pub data MatchType : Type 0 where
  hostname ip ip_cidr : MatchType

-- A TLS client certificate (public material only).
pub record Cert : Type 0 where
  pub id : Text
  pub label : Text
  pub cert_der : Bytes
  pub fingerprint : Text
  pub subject : Text
  pub issuer : Text
  pub not_before : ℤ
  pub not_after : ℤ
  pub created_at : ℤ

pub record SshKey : Type 0 where
  pub id : Text
  pub label : Text
  pub public_key : Text
  pub algorithm : SshAlgorithm
  pub key_enc : Bytes
  pub key_salt : Bytes
  pub key_nonce : Bytes
  pub created_at : ℤ

pub record CaCert : Type 0 where
  pub id : Text
  pub label : Text
  pub cert_pem : Text
  pub fingerprint : Text
  pub subject : Text
  pub not_after : ℤ
  pub system_file : Option Text
  pub created_at : ℤ

pub record App : Type 0 where
  pub id : Text
  pub label : Text
  pub exe_path : Text
  pub exe_hash : Text
  pub registered_at : ℤ

pub record Route : Type 0 where
  pub id : Text
  pub cert_id : Text
  pub app_id : Option Text
  pub match_type : MatchType
  pub pattern : Option Text
  pub require_both : Bool
  pub priority : ℤ
  pub created_at : ℤ

pub record SshRoute : Type 0 where
  pub id : Text
  pub ssh_key_id : Text
  pub app_id : Option Text
  pub host_pattern : Option Text
  pub created_at : ℤ

pub record IntegrityRecord : Type 0 where
  pub id : Text
  pub component : Text
  pub path : Text
  pub sha256 : Text
  pub version : Text
  pub recorded_at : ℤ
  pub verified_at : Option ℤ

-- The errors of SQLite that the source passes on: a broken constraint, a key that does not open the
-- file, and a query without the row that is asked for.
pub data SqlError : Type 0 where
  constraint not_a_database no_rows : SqlError

pub data StoreError : Type 0 where
  database : SqlError → StoreError
  wrong_passphrase locked : StoreError
  integrity_failure : Text → StoreError
  import_error : Text → StoreError
  crypto : Text → StoreError
  not_found : Text → StoreError
  io : StoreError
