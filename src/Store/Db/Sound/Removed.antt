-- ===== src/Store/Db/Sound/Removed.antt =====
-- The constraints of `IsSound` hold after the cascade that removes a certificate.
use traffic_cone.Common.{◌≡◌, true, not, arith, Text, text_eq, text_eq_iff}
use traffic_cone.Common.Tables.{Distinct-filter_by, any_of-filter_by, All-filter_by}
use traffic_cone.Store.Models.{Cert}
use traffic_cone.Store.Db.{delete_cert_row, Db, KeyRow, RouteRow}
use traffic_cone.Store.Db.Sound.{cert_clash, IsSound}

-- The parent of a row that the cascade leaves is left too.
other_parent :
    (i j : Text) (x : Cert)
    → not (text_eq j i) ≡ true
    → text_eq x.id j ≡ true
    → not (text_eq x.id i) ≡ true
other_parent i j x h e = ground (arith, text_eq_iff x.id j, text_eq_iff j i, text_eq_iff x.id i)

pub delete_cert_row-IsSound : (i : Text) (d : Db) → IsSound d → IsSound (delete_cert_row i d)
unfolding delete_cert_row
delete_cert_row-IsSound i d h = record {
  keys_owned =
      All-filter_by _ _ _
        (λ (k : KeyRow) owned left.
          any_of-filter_by _ _ (λ x. other_parent i k.cert_id x left) d.certs owned)
        d.keys h.keys_owned;
  routes_owned =
      All-filter_by _ _ _
        (λ (r : RouteRow) owned left.
          any_of-filter_by _ _ (λ x. other_parent i r.cert_id x left) d.certs owned)
        d.routes h.routes_owned;
  ssh_routes_owned = h.ssh_routes_owned;
  certs_distinct = Distinct-filter_by cert_clash _ d.certs h.certs_distinct;
  apps_distinct = h.apps_distinct;
}
