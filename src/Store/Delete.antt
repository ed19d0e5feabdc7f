-- ===== src/Store/Delete.antt =====
-- `delete_cert` of crates/cone-store/src/list.rs.
pub mod Cascade
use traffic_cone.Common.{◌+◌, Option, none, some, ◌++◌, ok, Text, codes}
use traffic_cone.Common.Int.{ℤ}
use traffic_cone.Store.Db.{insert_audit, delete_cert_row, AuditRow}
use traffic_cone.Store.Exec.{sql, ◌>>◌, ask, ◌>>=◌, Exec}
use traffic_cone.Store.Listing.{get_cert_by_label}

-- An audit row with the columns that the source leaves out as NULL.
abbrev pub audit_row : Text → Text → Option Text → Text → ℤ → AuditRow
audit_row id event_type cert_id detail occurred_at = record {
  id = id;
  event_type = event_type;
  cert_id = cert_id;
  ssh_key_id = none;
  app_id = none;
  detail = some detail;
  occurred_at = occurred_at;
}

-- `audit_id` and `now` are what `new_id` and `unix_now` return.
unfoldable pub delete_cert : Text → ℤ → Text → Exec (Unit {0})
delete_cert audit_id now label = do
  cert ← ask (λ s. get_cert_by_label s label)
  sql (λ d. ok (delete_cert_row cert.id d))
  sql (
      insert_audit (
        audit_row audit_id (codes "cert_deleted") (some cert.id) (codes "Deleted cert: " ++ label)
          now))
