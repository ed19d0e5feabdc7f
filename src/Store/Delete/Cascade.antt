-- ===== src/Store/Delete/Cascade.antt =====
-- What `delete_cert` leaves of a certificate.
use traffic_cone.Store.Handle.{Store}
use traffic_cone.Common.{arith, subst, Text}
use traffic_cone.Store.Delete.{delete_cert}
use traffic_cone.Common.Int.{ℤ}
use traffic_cone.Store.Exec.{KeepsDb-sql, KeepsDb-ask, KeepsDb-bind, KeepsDb}
use traffic_cone.Store.Db.Sound.{insert_audit-IsSound, IsSound}
use traffic_cone.Store.Db.Sound.Removed.{delete_cert_row-IsSound}

pub delete_cert-KeepsDb :
    (audit_id : Text) (now : ℤ) (label : Text) → KeepsDb IsSound (delete_cert audit_id now label)
unfolding delete_cert
delete_cert-KeepsDb audit_id now label = KeepsDb-bind _ _ (KeepsDb-ask _) λ cert.
    KeepsDb-bind _ _
      (KeepsDb-sql _
        (λ d d' h e. subst IsSound (ground arith) (delete_cert_row-IsSound cert.id d h)))
      λ _. KeepsDb-sql _ (insert_audit-IsSound _)

-- A deletion keeps the constraints of `IsSound`, on every branch: no key and no route is left
-- without its certificate.
pub delete_cert-IsSound :
    (audit_id : Text) (now : ℤ) (label : Text) (s : Store)
    → IsSound s.disk.db
    → IsSound (delete_cert audit_id now label s).0.disk.db
delete_cert-IsSound audit_id now label s h = (delete_cert-KeepsDb audit_id now label).at s h
