-- ===== src/Store/Routes.antt =====
-- `resolve_route` of crates/cone-store/src/list.rs: which certificate a connection is given.
pub mod Best
pub mod Reach
use traffic_cone.Common.{
  ℕ, zero, suc, ◌-◌, Bool, true, false, not, ◌&&◌, ◌||◌, Option, none, some, List, [], ◌∷◌, ltb,
  leb, if◌then◌else◌, length, take, drop, find, Result, ok, ◌>>=◌, Text, codes, text_eq,
  opt_text_eq, starts_with,
}
use traffic_cone.Common.Int.{ℤ, ltb_ℤ, eqb_ℤ}
use traffic_cone.Store.Models.{App, Route, MatchType, hostname, ip, ip_cidr, StoreError}
use traffic_cone.Store.Handle.{Store}
use traffic_cone.Store.Listing.{list_apps, list_routes}

-- What the caller knows of the connection.
pub record Query : Type 0 where
  pub exe_path : Option Text
  pub remote_host : Option Text
  pub remote_ip : Option Text

-- The id of the application registered at the calling binary's path.
unfoldable pub app_id_of : List App → Option Text → Option Text
app_id_of apps none = none
app_id_of apps (some path) = elim (find (λ (a : App). text_eq a.exe_path path) apps) [
  | none ↦ none
  | some a ↦ some a.id
]

unfoldable pub app_matches : Option Text → Option Text → Bool
app_matches none app_id = true
app_matches (some r_app) none = false
app_matches (some r_app) (some a_id) = text_eq r_app a_id

-- `trim_end_matches(".0/24")`: the suffix goes as often as it stands there. The length of the text
-- is fuel enough.
unfoldable pub trim_suffix : ℕ → Text → Text
trim_suffix zero t = t
trim_suffix (suc fuel) t =
    let shorter = trim_suffix fuel (take (length t - 5) t) in
    if leb 5 (length t) && text_eq (drop (length t - 5) t) (codes ".0/24") then shorter else t

unfoldable pub host_matches : Option Text → MatchType → Query → Bool
unfolding trim_suffix
host_matches none m q = true
host_matches (some pattern) hostname q = opt_text_eq q.remote_host pattern
host_matches (some pattern) ip q = opt_text_eq q.remote_ip pattern
host_matches (some pattern) ip_cidr q = elim q.remote_ip [
  | none ↦ false
  | some addr ↦ starts_with addr (trim_suffix (length pattern) pattern)
]

abbrev pub is_some : Option Text → Bool
is_some none = false
is_some (some t) = true

-- The order of the entries: priority first, then specificity.
abbrev pub outranks : ℤ → ℕ → ℤ → ℕ → Bool
outranks pri spec best_pri best_spec =
    ltb_ℤ best_pri pri || (eqb_ℤ pri best_pri && ltb best_spec spec)

module _ (app_id : Option Text) (q : Query) where
  abbrev pub app_ok : Route → Bool
  app_ok r = app_matches r.app_id app_id

  abbrev pub host_ok : Route → Bool
  host_ok r = host_matches r.pattern r.match_type q

  -- The two `continue`s of the loop.
  unfoldable pub is_candidate : Route → Bool
  is_candidate r =
      if r.require_both && not (app_ok r && host_ok r)
      then false
      else if not (app_ok r) && not (host_ok r)
      then false
      else true

  unfoldable pub specificity : Route → ℕ
  specificity r =
      if (app_ok r && is_some r.app_id) && (host_ok r && is_some r.pattern) then 2 else 1

  -- `is_better` against a best entry of this priority and specificity.
  abbrev pub is_better : Route → ℤ → ℕ → Bool
  is_better r best_pri best_spec = outranks r.priority (specificity r) best_pri best_spec

  -- One round of the loop on (priority, specificity, cert_id).
  unfoldable pub consider : Option (ℤ × ℕ × Text) → Route → Option (ℤ × ℕ × Text)
  unfolding is_candidate specificity
  consider best r =
      if is_candidate r
      then (elim best [
        | none ↦ some (r.priority, specificity r, r.cert_id)
        | some (p, s, cert) ↦
            if is_better r p s
            then some (r.priority, specificity r, r.cert_id)
            else some (p, s, cert)
      ])
      else best

  unfoldable pub best_route : Option (ℤ × ℕ × Text) → List Route → Option (ℤ × ℕ × Text)
  unfolding consider
  best_route best [] = best
  best_route best (r ∷ rs) = best_route (consider best r) rs

abbrev pub cert_of : Option (ℤ × ℕ × Text) → Option Text
cert_of none = none
cert_of (some (p, s, cert)) = some cert

unfoldable pub resolve_route : Store → Query → Result StoreError (Option Text)
unfolding app_id_of best_route
resolve_route s q = do
  routes ← list_routes s
  apps ← list_apps s
  ok (cert_of (best_route (app_id_of apps q.exe_path) q none routes))
