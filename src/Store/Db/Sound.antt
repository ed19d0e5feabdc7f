-- ===== src/Store/Db/Sound.antt =====
-- Five constraints of the schema hold of the tables after every statement: the foreign keys to certs and
-- ssh_keys, and the uniqueness of fingerprints of certificates and paths of applications.
pub mod Removed
use traffic_cone.Common.{
  ◌≡◌, subst, ◌⊎◌, inl, inr, Bool, true, false, not, ◌&&◌, ◌||◌, List, [], ◌∷◌, ◌++◌, arith,
  if◌then◌else◌, any_of, All, ok, err, Text, text_eq,
}
use traffic_cone.Common.Tables.{All-append, any_of-append_left, All-mono, Distinct, Distinct-append}
use traffic_cone.Store.Models.{CaCert, constraint, Cert, App, SshRoute}
use traffic_cone.Store.Db.{
  empty_db, AuditRow, app_exists, insert_audit, insert_or_ignore_ssh_route, insert_or_ignore_route,
  insert_route, route_parents, insert_app, insert_ca_cert, insert_ssh_key, insert_key, Db, KeyRow,
  SshKeyRow, RouteRow, insert_cert,
}

abbrev pub has_cert : List Cert → Text → Bool
has_cert certs i = any_of (λ (x : Cert). text_eq x.id i) certs

abbrev pub has_ssh_key : List SshKeyRow → Text → Bool
has_ssh_key keys i = any_of (λ (x : SshKeyRow). text_eq x.id i) keys

abbrev pub cert_clash : Cert → Cert → Bool
cert_clash x c = text_eq x.id c.id || text_eq x.fingerprint c.fingerprint

abbrev pub app_clash : App → App → Bool
app_clash x a = text_eq x.id a.id || text_eq x.exe_path a.exe_path

-- Every key, route and SSH route has its parent, and the UNIQUE columns of `certs` and `apps` are.
pub record IsSound (d : Db) : Type 0 where
  pub keys_owned : All (λ (k : KeyRow). has_cert d.certs k.cert_id ≡ true) d.keys
  pub routes_owned : All (λ (r : RouteRow). has_cert d.certs r.cert_id ≡ true) d.routes
  pub ssh_routes_owned :
      All (λ (r : SshRoute). has_ssh_key d.ssh_keys r.ssh_key_id ≡ true) d.ssh_routes
  pub certs_distinct : Distinct cert_clash d.certs
  pub apps_distinct : Distinct app_clash d.apps

-- An INSERT that has succeeded: its constraint was not broken, and the rows are there.
inserted :
    (b : Bool) (d d' : Db) → (if b then err constraint else ok d) ≡ ok d' → (b ≡ false) × (d ≡ d')
inserted b d d' h = ground arith

ignored :
    (b c : Bool) (d e d' : Db)
    → (if b then ok d else if c then ok e else err constraint) ≡ ok d'
    → (d ≡ d') ⊎ ((c ≡ true) × (e ≡ d'))
ignored b c d e d' h = ground arith

or_false : (a b : Bool) → (a || not b) ≡ false → b ≡ true
or_false a b h = ground arith

and_true : (a b : Bool) → (a && b) ≡ true → a ≡ true
and_true a b h = ground arith

pub insert_cert-IsSound : (c : Cert) (d d' : Db) → IsSound d → insert_cert c d ≡ ok d' → IsSound d'
unfolding insert_cert
insert_cert-IsSound c d d' h e =
    let (free, same) = inserted (any_of (λ (x : Cert). cert_clash x c) d.certs) _ d' e in
    subst IsSound same (record {
      keys_owned = All-mono _ _ (λ k. any_of-append_left _ d.certs (c ∷ [])) d.keys h.keys_owned;
      routes_owned =
          All-mono _ _ (λ r. any_of-append_left _ d.certs (c ∷ [])) d.routes h.routes_owned;
      ssh_routes_owned = h.ssh_routes_owned;
      certs_distinct = Distinct-append cert_clash d.certs c h.certs_distinct free;
      apps_distinct = h.apps_distinct;
    })

pub insert_key-IsSound : (k : KeyRow) (d d' : Db) → IsSound d → insert_key k d ≡ ok d' → IsSound d'
unfolding insert_key
insert_key-IsSound k d d' h e =
    let (free, same) = inserted _ (record d { keys = d.keys ++ k ∷ [] }) d' e in
    subst IsSound same (record {
      keys_owned =
          All-append _ d.keys (k ∷ []) h.keys_owned
            (or_false _ (has_cert d.certs k.cert_id) free, tt);
      routes_owned = h.routes_owned;
      ssh_routes_owned = h.ssh_routes_owned;
      certs_distinct = h.certs_distinct;
      apps_distinct = h.apps_distinct;
    })

pub insert_ssh_key-IsSound :
    (k : SshKeyRow) (d d' : Db) → IsSound d → insert_ssh_key k d ≡ ok d' → IsSound d'
unfolding insert_ssh_key
insert_ssh_key-IsSound k d d' h e =
    let (free, same) = inserted _ (record d { ssh_keys = d.ssh_keys ++ k ∷ [] }) d' e in
    subst IsSound same (record {
      keys_owned = h.keys_owned;
      routes_owned = h.routes_owned;
      ssh_routes_owned =
          All-mono _ _ (λ r. any_of-append_left _ d.ssh_keys (k ∷ [])) d.ssh_routes
            h.ssh_routes_owned;
      certs_distinct = h.certs_distinct;
      apps_distinct = h.apps_distinct;
    })

pub insert_ca_cert-IsSound :
    (c : CaCert) (d d' : Db) → IsSound d → insert_ca_cert c d ≡ ok d' → IsSound d'
unfolding insert_ca_cert
insert_ca_cert-IsSound c d d' h e =
    let (free, same) = inserted _ (record d { ca_certs = d.ca_certs ++ c ∷ [] }) d' e in
    subst IsSound same (untouched c h)
  where
    untouched : (c : CaCert) → IsSound d → IsSound (record d { ca_certs = d.ca_certs ++ c ∷ [] })
    untouched c h = record {
      keys_owned = h.keys_owned;
      routes_owned = h.routes_owned;
      ssh_routes_owned = h.ssh_routes_owned;
      certs_distinct = h.certs_distinct;
      apps_distinct = h.apps_distinct;
    }

pub insert_app-IsSound : (a : App) (d d' : Db) → IsSound d → insert_app a d ≡ ok d' → IsSound d'
unfolding insert_app
insert_app-IsSound a d d' h e =
    let (free, same) = inserted (any_of (λ (x : App). app_clash x a) d.apps) _ d' e in
    subst IsSound same (record {
      keys_owned = h.keys_owned;
      routes_owned = h.routes_owned;
      ssh_routes_owned = h.ssh_routes_owned;
      certs_distinct = h.certs_distinct;
      apps_distinct = Distinct-append app_clash d.apps a h.apps_distinct free;
    })

route_added :
    (r : RouteRow) (d : Db)
    → IsSound d
    → route_parents r d ≡ true
    → IsSound (record d { routes = d.routes ++ r ∷ [] })
route_added r d h p = record {
  keys_owned = h.keys_owned;
  routes_owned =
      All-append _ d.routes (r ∷ []) h.routes_owned (and_true (has_cert d.certs r.cert_id) _ p, tt);
  ssh_routes_owned = h.ssh_routes_owned;
  certs_distinct = h.certs_distinct;
  apps_distinct = h.apps_distinct;
}

pub insert_route-IsSound :
    (r : RouteRow) (d d' : Db) → IsSound d → insert_route r d ≡ ok d' → IsSound d'
unfolding insert_route
insert_route-IsSound r d d' h e =
    let (free, same) = inserted _ (record d { routes = d.routes ++ r ∷ [] }) d' e in
    subst IsSound same (route_added r d h (or_false _ (route_parents r d) free))

pub insert_or_ignore_route-IsSound :
    (r : RouteRow) (d d' : Db) → IsSound d → insert_or_ignore_route r d ≡ ok d' → IsSound d'
unfolding insert_or_ignore_route
insert_or_ignore_route-IsSound r d d' h e =
    elim (ignored _ (route_parents r d) d (record d { routes = d.routes ++ r ∷ [] }) d' e) [
      | inl same ↦ subst IsSound same h
      | inr (p, same) ↦ subst IsSound same (route_added r d h p)
    ]

ssh_route_added :
    (r : SshRoute) (d : Db)
    → IsSound d
    → has_ssh_key d.ssh_keys r.ssh_key_id ≡ true
    → IsSound (record d { ssh_routes = d.ssh_routes ++ r ∷ [] })
ssh_route_added r d h p = record {
  keys_owned = h.keys_owned;
  routes_owned = h.routes_owned;
  ssh_routes_owned = All-append _ d.ssh_routes (r ∷ []) h.ssh_routes_owned (p, tt);
  certs_distinct = h.certs_distinct;
  apps_distinct = h.apps_distinct;
}

pub insert_or_ignore_ssh_route-IsSound :
    (r : SshRoute) (d d' : Db) → IsSound d → insert_or_ignore_ssh_route r d ≡ ok d' → IsSound d'
unfolding insert_or_ignore_ssh_route
insert_or_ignore_ssh_route-IsSound r d d' h e =
    elim (ignored _ (has_ssh_key d.ssh_keys r.ssh_key_id && app_exists d r.app_id) d
      (record d { ssh_routes = d.ssh_routes ++ r ∷ [] }) d' e) [
        | inl same ↦ subst IsSound same h
        | inr (p, same) ↦
            subst IsSound same (ssh_route_added r d h (and_true _ (app_exists d r.app_id) p))
      ]

pub insert_audit-IsSound :
    (a : AuditRow) (d d' : Db) → IsSound d → insert_audit a d ≡ ok d' → IsSound d'
unfolding insert_audit
insert_audit-IsSound a d d' h e =
    let (free, same) = inserted _ (record d { audit_log = d.audit_log ++ a ∷ [] }) d' e in
    subst IsSound same (record {
      keys_owned = h.keys_owned;
      routes_owned = h.routes_owned;
      ssh_routes_owned = h.ssh_routes_owned;
      certs_distinct = h.certs_distinct;
      apps_distinct = h.apps_distinct;
    })

pub empty_db-IsSound : IsSound empty_db
empty_db-IsSound = record {
  keys_owned = tt;
  routes_owned = tt;
  ssh_routes_owned = tt;
  certs_distinct = tt;
  apps_distinct = tt;
}

pub ruleset sound_rules = (
  insert_cert-IsSound, insert_key-IsSound, insert_ssh_key-IsSound, insert_ca_cert-IsSound,
  insert_app-IsSound, insert_route-IsSound, insert_or_ignore_route-IsSound,
  insert_or_ignore_ssh_route-IsSound, insert_audit-IsSound,
)
