-- ===== src/Store/Db.antt =====
-- crates/cone-store/src/db.rs: the tables of the schema as lists of rows in the order of insertion,
-- and the statements that write to them, with the constraints that the schema declares.
pub mod Sound
pub mod Migrate
use traffic_cone.Common.{
  Bool, true, not, ◌&&◌, ◌||◌, Option, none, some, List, [], ◌∷◌, ◌++◌, if◌then◌else◌, filter_by,
  any_of, Result, ok, err, Text, Bytes, text_eq,
}
use traffic_cone.Common.Int.{ℤ}
use traffic_cone.Store.Models.{Cert, CaCert, App, SshRoute, IntegrityRecord, SqlError, constraint}

-- The table `keys`; `models::EncryptedKey` with its algorithm as the text of the column.
pub record KeyRow : Type 0 where
  pub id : Text
  pub cert_id : Text
  pub algorithm : Text
  pub key_enc : Bytes
  pub key_salt : Bytes
  pub key_nonce : Bytes

pub record SshKeyRow : Type 0 where
  pub id : Text
  pub label : Text
  pub public_key : Text
  pub algorithm : Text
  pub key_enc : Bytes
  pub key_salt : Bytes
  pub key_nonce : Bytes
  pub created_at : ℤ

pub record RouteRow : Type 0 where
  pub id : Text
  pub cert_id : Text
  pub app_id : Option Text
  pub match_type : Text
  pub pattern : Option Text
  pub require_both : ℤ
  pub priority : ℤ
  pub created_at : ℤ

pub record AuditRow : Type 0 where
  pub id : Text
  pub event_type : Text
  pub cert_id : Option Text
  pub ssh_key_id : Option Text
  pub app_id : Option Text
  pub detail : Option Text
  pub occurred_at : ℤ

pub record Db : Type 0 where
  pub certs : List Cert
  pub keys : List KeyRow
  pub ssh_keys : List SshKeyRow
  pub ca_certs : List CaCert
  pub apps : List App
  pub routes : List RouteRow
  pub ssh_routes : List SshRoute
  pub integrity : List IntegrityRecord
  pub audit_log : List AuditRow

-- What `migration_001` leaves in a new file.
abbrev pub empty_db : Db
empty_db = record {
  certs = [];
  keys = [];
  ssh_keys = [];
  ca_certs = [];
  apps = [];
  routes = [];
  ssh_routes = [];
  integrity = [];
  audit_log = [];
}

-- `REFERENCES apps(id)` on a column that may be NULL.
abbrev pub app_exists : Db → Option Text → Bool
app_exists d none = true
app_exists d (some a) = any_of (λ (x : App). text_eq x.id a) d.apps

-- `INSERT INTO certs`: `id` is the primary key and `fingerprint` is UNIQUE.
unfoldable pub insert_cert : Cert → Db → Result SqlError Db
insert_cert c d =
    if any_of (λ (x : Cert). text_eq x.id c.id || text_eq x.fingerprint c.fingerprint) d.certs
    then err constraint
    else ok (record d { certs = d.certs ++ c ∷ [] })

-- `INSERT INTO keys`: the certificate has to exist (`PRAGMA foreign_keys = ON`).
unfoldable pub insert_key : KeyRow → Db → Result SqlError Db
insert_key k d =
    if any_of (λ (x : KeyRow). text_eq x.id k.id) d.keys
      || not (any_of (λ (x : Cert). text_eq x.id k.cert_id) d.certs)
    then err constraint
    else ok (record d { keys = d.keys ++ k ∷ [] })

unfoldable pub insert_ssh_key : SshKeyRow → Db → Result SqlError Db
insert_ssh_key k d =
    if any_of (λ (x : SshKeyRow). text_eq x.id k.id) d.ssh_keys
    then err constraint
    else ok (record d { ssh_keys = d.ssh_keys ++ k ∷ [] })

unfoldable pub insert_ca_cert : CaCert → Db → Result SqlError Db
insert_ca_cert c d =
    if any_of (λ (x : CaCert). text_eq x.id c.id || text_eq x.fingerprint c.fingerprint) d.ca_certs
    then err constraint
    else ok (record d { ca_certs = d.ca_certs ++ c ∷ [] })

-- `INSERT INTO apps`: `exe_path` is UNIQUE.
unfoldable pub insert_app : App → Db → Result SqlError Db
insert_app a d =
    if any_of (λ (x : App). text_eq x.id a.id || text_eq x.exe_path a.exe_path) d.apps
    then err constraint
    else ok (record d { apps = d.apps ++ a ∷ [] })

abbrev pub route_parents : RouteRow → Db → Bool
route_parents r d = any_of (λ (x : Cert). text_eq x.id r.cert_id) d.certs && app_exists d r.app_id

unfoldable pub insert_route : RouteRow → Db → Result SqlError Db
insert_route r d =
    if any_of (λ (x : RouteRow). text_eq x.id r.id) d.routes || not (route_parents r d)
    then err constraint
    else ok (record d { routes = d.routes ++ r ∷ [] })

-- `INSERT OR IGNORE` skips a row whose key is taken, and still fails on a foreign key.
unfoldable pub insert_or_ignore_route : RouteRow → Db → Result SqlError Db
insert_or_ignore_route r d =
    if any_of (λ (x : RouteRow). text_eq x.id r.id) d.routes
    then ok d
    else if route_parents r d
    then ok (record d { routes = d.routes ++ r ∷ [] })
    else err constraint

unfoldable pub insert_or_ignore_ssh_route : SshRoute → Db → Result SqlError Db
insert_or_ignore_ssh_route r d =
    if any_of (λ (x : SshRoute). text_eq x.id r.id) d.ssh_routes
    then ok d
    else if any_of (λ (x : SshKeyRow). text_eq x.id r.ssh_key_id) d.ssh_keys
        && app_exists d r.app_id
    then ok (record d { ssh_routes = d.ssh_routes ++ r ∷ [] })
    else err constraint

-- `INSERT OR REPLACE INTO integrity`: only the primary key `id` can conflict.
unfoldable pub insert_or_replace_integrity : IntegrityRecord → Db → Db
insert_or_replace_integrity r d = record d {
  integrity = filter_by (λ (x : IntegrityRecord). not (text_eq x.id r.id)) d.integrity ++ r ∷ [];
}

unfoldable pub insert_audit : AuditRow → Db → Result SqlError Db
insert_audit a d =
    if any_of (λ (x : AuditRow). text_eq x.id a.id) d.audit_log
    then err constraint
    else ok (record d { audit_log = d.audit_log ++ a ∷ [] })

-- `DELETE FROM certs WHERE id = ?1`, with `ON DELETE CASCADE` on `keys` and `routes`.
unfoldable pub delete_cert_row : Text → Db → Db
delete_cert_row i d = record d {
  certs = filter_by (λ (x : Cert). not (text_eq x.id i)) d.certs;
  keys = filter_by (λ (x : KeyRow). not (text_eq x.cert_id i)) d.keys;
  routes = filter_by (λ (x : RouteRow). not (text_eq x.cert_id i)) d.routes;
}
