-- ===== src/Store/Backup/Restore.antt =====
-- crates/cone-store/src/export.rs: `create_backup` and `restore_backup` on the store.
use traffic_cone.Common.{
  ℕ, suc, Bool, true, false, none, List, [], ◌∷◌, ◌++◌, if◌then◌else◌, any_of, Result, ok, err,
  map_err, unwrap_or, Text, Bytes, codes, text_eq,
}
use traffic_cone.Common.Int.{ℤ, pos}
use traffic_cone.Store.Models.{Cert, CaCert, App, SshRoute, StoreError, import_error}
use traffic_cone.Store.Db.{
  AuditRow, Db, KeyRow, SshKeyRow, RouteRow, insert_cert, insert_key, insert_ssh_key,
  insert_ca_cert, insert_app, insert_or_ignore_route, insert_or_ignore_ssh_route, insert_audit,
}
use traffic_cone.Store.Handle.{conn}
use traffic_cone.Store.Crypto.{Crates}
use traffic_cone.Common.Decimal.{show_ℕ}
use traffic_cone.Store.Exec.{done, sql, ask, ◌>>◌, ◌>>=◌, Exec}
use traffic_cone.Store.Delete.{audit_row}
use traffic_cone.Store.Backup.{
  BackupCert, BackupSshKey, BackupCaCert, BackupRoute, BackupPayload, BackupCrates, seal_backup,
  open_payload,
}

pub record RestoreResult : Type 0 where
  pub certs : ℕ
  pub ssh_keys : ℕ
  pub ca_certs : ℕ
  pub apps : ℕ
  pub routes : ℕ
  pub ssh_routes : ℕ

-- What a restoration draws: an id for the key of the certificate at each place of the payload, one
-- for the audit row, and the time.
pub record RestoreDraws : Type 0 where
  pub key_id : ℕ → Text
  pub audit_id : Text
  pub now : ℤ

abbrev pub test_conn : (Db → Bool) → Result StoreError Db → Result StoreError Bool
test_conn test (ok d) = ok (test d)
test_conn test (err e) = err e

-- `SELECT COUNT(*) > 0`
abbrev pub exists : (Db → Bool) → Exec Bool
exists test = ask (λ s. test_conn test (conn s))

-- A loop over rows: the number of those that were restored.
unfoldable pub restore_each : {A : Type 0} → (ℕ → A → Exec Bool) → ℕ → List A → Exec ℕ
restore_each restore i [] = done 0
restore_each restore i (x ∷ xs) = do
  restored ← restore i x
  n ← restore_each restore (suc i) xs
  done (if restored then suc n else n)

-- A row that is not there yet is inserted.
abbrev pub unless : Bool → Exec (Unit {0}) → Exec Bool
unless true insert = done false
unless false insert = do insert; done true

-- `hex::decode(..).unwrap_or_default()`
abbrev pub decode_or_empty : Crates → Text → Bytes
decode_or_empty c t = unwrap_or (c.hex_decode t) []

abbrev pub ca_cert_row : BackupCaCert → CaCert
ca_cert_row x = record {
  id = x.id;
  label = x.label;
  cert_pem = x.cert_pem;
  fingerprint = x.fingerprint;
  subject = x.subject;
  not_after = x.not_after;
  system_file = none;
  created_at = x.created_at;
}

unfoldable pub restore_ca_cert : ℕ → BackupCaCert → Exec Bool
restore_ca_cert i x = do
  present ← exists (λ d. any_of (λ (y : CaCert). text_eq y.fingerprint x.fingerprint) d.ca_certs)
  unless present (sql (insert_ca_cert (ca_cert_row x)))

abbrev pub cert_of : BackupCert → Bytes → Cert
cert_of x der = record {
  id = x.id;
  label = x.label;
  cert_der = der;
  fingerprint = x.fingerprint;
  subject = x.subject;
  issuer = x.issuer;
  not_before = x.not_before;
  not_after = x.not_after;
  created_at = x.created_at;
}

unfoldable pub restore_app : ℕ → App → Exec Bool
restore_app i a = do
  present ← exists (λ d. any_of (λ (y : App). text_eq y.exe_path a.exe_path) d.apps)
  unless present (sql (insert_app a))

abbrev pub route_row : BackupRoute → RouteRow
route_row r = record {
  id = r.id;
  cert_id = r.cert_id;
  app_id = r.app_id;
  match_type = r.match_type;
  pattern = r.pattern;
  require_both = if r.require_both then pos 1 else pos 0;
  priority = r.priority;
  created_at = r.created_at;
}

unfoldable pub restore_route : ℕ → BackupRoute → Exec Bool
restore_route i r = do sql (insert_or_ignore_route (route_row r)); done true

unfoldable pub restore_ssh_route : ℕ → SshRoute → Exec Bool
restore_ssh_route i r = do sql (insert_or_ignore_ssh_route r); done true

abbrev pub no_cert_row : Text → Text → Text → ℤ → AuditRow
no_cert_row id event detail now = audit_row id event none detail now

-- The detail of the audit row, in decimal digits.
abbrev pub restored_detail : RestoreResult → Text
restored_detail r =
    codes "Restored: "
    ++ (show_ℕ r.certs
        ++ (codes " certs, "
            ++ (show_ℕ r.ssh_keys ++ (codes " SSH keys, " ++ (show_ℕ r.apps ++ codes " apps")))))

module _ (c : Crates) where
  abbrev pub key_of : (ℕ → Text) → ℕ → BackupCert → KeyRow
  key_of key_id i x = record {
    id = key_id i;
    cert_id = x.id;
    algorithm = x.key_algorithm;
    key_enc = decode_or_empty c x.key_enc;
    key_salt = decode_or_empty c x.key_salt;
    key_nonce = decode_or_empty c x.key_nonce;
  }

  -- `hex::decode` of the certificate, with its error.
  abbrev pub decode_cert : BackupCert → Result StoreError Bytes
  decode_cert x =
      map_err (λ (e : Text). import_error (codes "invalid cert data in backup: " ++ e))
        (c.hex_decode x.cert_der)

  abbrev pub insert_pair : (ℕ → Text) → ℕ → BackupCert → Exec (Unit {0})
  insert_pair key_id i x = do
    der ← ask (λ _. decode_cert x)
    sql (insert_cert (cert_of x der))
    sql (insert_key (key_of key_id i x))

  unfoldable pub restore_cert : (ℕ → Text) → ℕ → BackupCert → Exec Bool
  restore_cert key_id i x = do
    present ← exists (λ d. any_of (λ (y : Cert). text_eq y.fingerprint x.fingerprint) d.certs)
    unless present (insert_pair key_id i x)

  abbrev pub ssh_key_of : BackupSshKey → SshKeyRow
  ssh_key_of k = record {
    id = k.id;
    label = k.label;
    public_key = k.public_key;
    algorithm = k.algorithm;
    key_enc = decode_or_empty c k.key_enc;
    key_salt = decode_or_empty c k.key_salt;
    key_nonce = decode_or_empty c k.key_nonce;
    created_at = k.created_at;
  }

  unfoldable pub restore_ssh_key : ℕ → BackupSshKey → Exec Bool
  restore_ssh_key i k = do
    present ← exists (λ d. any_of (λ (y : SshKeyRow). text_eq y.id k.id) d.ssh_keys)
    unless present (sql (insert_ssh_key (ssh_key_of k)))

  -- The loops of `restore_backup`, in their order.
  unfoldable pub restore_payload : RestoreDraws → BackupPayload → Exec RestoreResult
  unfolding restore_each restore_ca_cert restore_cert restore_ssh_key restore_app restore_route
      restore_ssh_route
  restore_payload w payload = do
    ca_certs ← restore_each restore_ca_cert 0 payload.ca_certs
    certs ← restore_each (restore_cert w.key_id) 0 payload.certs
    ssh_keys ← restore_each restore_ssh_key 0 payload.ssh_keys
    apps ← restore_each restore_app 0 payload.apps
    routes ← restore_each restore_route 0 payload.routes
    ssh_routes ← restore_each restore_ssh_route 0 payload.ssh_routes
    done (record {
      certs = certs;
      ssh_keys = ssh_keys;
      ca_certs = ca_certs;
      apps = apps;
      routes = routes;
      ssh_routes = ssh_routes;
    })

  module _ (b : BackupCrates) where
    unfoldable pub restore_backup : RestoreDraws → Bytes → Text → Exec RestoreResult
    unfolding restore_payload
    restore_backup w backup_data password = do
      payload ← ask (λ _. open_payload b backup_data password)
      _ ← ask conn
      result ← restore_payload w payload
      sql (
          insert_audit
            (no_cert_row w.audit_id (codes "backup_restored") (restored_detail result) w.now))
      done result

    -- The audit row is written after the file has been made.
    unfoldable pub create_backup : Text → Text → ℤ → Exec Bytes
    create_backup audit_id password now = do
      bytes ← ask (seal_backup c b password now)
      sql (
          insert_audit
            (no_cert_row audit_id (codes "backup_created") (codes "Full backup created") now))
      done bytes
