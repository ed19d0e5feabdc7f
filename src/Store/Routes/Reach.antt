-- ===== src/Store/Routes/Reach.antt =====
-- Which connections a stored route reaches: the guard of `require_both`, the routes that reach every
-- connection, and what resolution does not look at.
use traffic_cone.Common.{
  ◌≡◌, refl, ap, subst, ◌≢◌, ◌⊎◌, inl, inr, true, false, Option, none, some, List, [], ◌∷◌, map,
  arith, In, In-map, of_In-map, All-In, ok, Text,
}
use traffic_cone.Common.Int.{pos}
use traffic_cone.Common.Sort.{sort_by, In-sort_by, of_In-sort_by, sort_by-map}
use traffic_cone.Store.Models.{App, Route}
use traffic_cone.Store.Db.{Db, RouteRow}
use traffic_cone.Store.Handle.{StoreState, sealed, unlocked, Store, conn}
use traffic_cone.Store.Listing.{list_apps, list_routes, route_of_row, text_le, route_before}
use traffic_cone.Store.Routes.{
  Query, app_id_of, app_matches, host_matches, is_candidate, resolve_route,
}
use traffic_cone.Store.Routes.Best.{Wins, here, there, resolve_route-Wins}

module _ (app_id : Option Text) (q : Query) where
  Wins-In : {rs : List Route} {r : Route} → Wins app_id q rs r → In r rs
  Wins-In (here r rs c a) = inl refl
  Wins-In (there x r rs o w) = inr (Wins-In w)

  Wins-candidate :
      {rs : List Route} {r : Route} → Wins app_id q rs r → is_candidate app_id q r ≡ true
  Wins-candidate (here r rs c a) = c
  Wins-candidate (there x r rs o w) = Wins-candidate w

  -- What a candidate has passed.
  abbrev pub Passed : Route → Type 0
  Passed r =
      ((app_matches r.app_id app_id ≡ true) ⊎ (host_matches r.pattern r.match_type q ≡ true))
      × (r.require_both ≡ true
          → (app_matches r.app_id app_id ≡ true) × (host_matches r.pattern r.match_type q ≡ true))

  candidate-Passed : (r : Route) → is_candidate app_id q r ≡ true → Passed r
  unfolding is_candidate
  candidate-Passed r h = (ground arith, λ b. (ground arith, ground arith))

  abbrev pub IsOpen : Route → Type 0
  IsOpen r = (r.require_both ≡ false) × ((r.app_id ≡ none) ⊎ (r.pattern ≡ none))

  IsOpen-candidate : (r : Route) → IsOpen r → is_candidate app_id q r ≡ true
  unfolding is_candidate app_matches host_matches
  IsOpen-candidate r h = ground arith

conn_lists :
    (s : Store) (d : Db)
    → conn s ≡ ok d
    → (list_routes s ≡ ok (map route_of_row (sort_by route_before d.routes)))
      × (list_apps s ≡ ok (sort_by (λ (a b : App). text_le a.label b.label) d.apps))
unfolding list_routes list_apps
conn_lists s d h = (rw h, rw h)

-- A certificate is presented only under a stored route for it whose application or host matched,
-- and under a `require_both` route only if both did.
pub resolve_route-Passed :
    (s : Store) (d : Db) (q : Query) (cert : Text) (apps : List App)
    → conn s ≡ ok d
    → list_apps s ≡ ok apps
    → resolve_route s q ≡ ok (some cert)
    → (row : RouteRow) × In row d.routes
      × (row.cert_id ≡ cert)
      × Passed (app_id_of apps q.exe_path) q (route_of_row row)
resolve_route-Passed s d q cert apps hc ha h =
    let app_id : Option Text = app_id_of apps q.exe_path in
    let rows : List RouteRow = sort_by route_before d.routes in
    elim (resolve_route-Wins s q (map route_of_row rows) apps (conn_lists s d hc).0 ha) [
      | inl k ↦ cc (k.0, h)
      | inr (r, w, e) ↦
          let (row, i, er) = of_In-map route_of_row r rows (Wins-In app_id q w) in
          (
            row,
            of_In-sort_by route_before row d.routes i,
            cc (e, h, ap (λ (x : Route). x.cert_id) er),
            subst (Passed app_id q) er (candidate-Passed app_id q r (Wins-candidate app_id q w)),
          )
    ]

abbrev pub IsOpenRow : RouteRow → Type 0
IsOpenRow row = (row.require_both ≡ pos 0) × ((row.app_id ≡ none) ⊎ (row.pattern ≡ none))

IsOpenRow-IsOpen :
    (row : RouteRow) (app_id : Option Text) (q : Query)
    → IsOpenRow row
    → IsOpen app_id q (route_of_row row)
IsOpenRow-IsOpen row app_id q h = (rw h.0, h.1)

-- A stored route that names no application, or no host, and does not have `require_both`, is a
-- candidate for every connection: with it resolution never answers that no route matches.
pub resolve_route-ne-none :
    (s : Store) (d : Db) (q : Query) (row : RouteRow)
    → conn s ≡ ok d
    → In row d.routes
    → IsOpenRow row
    → resolve_route s q ≢ ok none
resolve_route-ne-none s d q row hc i h e =
    let rows : List RouteRow = sort_by route_before d.routes in
    let apps : List App = sort_by (λ (a b : App). text_le a.label b.label) d.apps in
    let app_id : Option Text = app_id_of apps q.exe_path in
    elim (resolve_route-Wins s q (map route_of_row rows) apps (conn_lists s d hc).0
      (conn_lists s d hc).1) [
        | inl k ↦ cc (
          All-In (λ x. is_candidate app_id q x ≡ false) (route_of_row row) (map route_of_row rows)
              k.1 (In-map route_of_row row rows (In-sort_by route_before row d.routes i)),
          IsOpen-candidate app_id q (route_of_row row) (IsOpenRow-IsOpen row app_id q h),
        )
        | inr (r, w, e') ↦ cc (e, e')
      ]

-- The registered hashes, changed at will.
abbrev rehash_app : (App → Text) → App → App
rehash_app f a = record a { exe_hash = f a }

abbrev pub rehash : (App → Text) → Store → Store
rehash f s = record s {
  disk = record s.disk { db = record s.disk.db { apps = map (rehash_app f) s.disk.db.apps } };
}

app_id_of-rehash :
    (f : App → Text) (apps : List App) (path : Option Text)
    → app_id_of (map (rehash_app f) apps) path ≡ app_id_of apps path
unfolding app_id_of
app_id_of-rehash f apps none = refl
app_id_of-rehash f [] (some p) = refl
app_id_of-rehash f (a ∷ rest) (some p) = ground (arith, app_id_of-rehash f rest (some p))

rehash_in_state :
    (f : App → Text) (s : Store) (q : Query) (st : StoreState)
    → resolve_route (rehash f (record s { state = st })) q
      ≡ resolve_route (record s { state = st }) q
unfolding resolve_route list_routes list_apps conn
rehash_in_state f s q sealed = refl
rehash_in_state f s q (unlocked p) =
    rw
      (sort_by-map (λ (a b : App). text_le a.label b.label) (rehash_app f) (λ a b. refl)
        s.disk.db.apps)
      (rw
        (app_id_of-rehash f (sort_by (λ (a b : App). text_le a.label b.label) s.disk.db.apps)
          q.exe_path)
        refl)

-- The registered hash of an application has no say: replacing the hashes of all applications, by
-- whatever values, leaves every resolution as it was.
pub resolve_route-rehash :
    (f : App → Text) (s : Store) (q : Query) → resolve_route (rehash f s) q ≡ resolve_route s q
resolve_route-rehash f s q = rehash_in_state f s q s.state
