-- ===== src/Daemon/Routing/Routed.antt =====
-- What a certificate that resolve_for_pid returns was routed by.
use traffic_cone.Common.{
  ℕ, ◌≡◌, refl, sym, ap, ◌∙◌, subst, ◌⊎◌, inl, inr, Option, none, some, List, [], ◌∷◌, In, Result,
  ok, err, ◌>>=◌, map_err, map_err-eq-ok, >>=-eq-ok, Text,
}
use traffic_cone.Store.Models.{StoreError, App}
use traffic_cone.Store.Db.{Db, RouteRow}
use traffic_cone.Store.Handle.{Store, conn}
use traffic_cone.Store.Listing.{list_apps, route_of_row}
use traffic_cone.Store.Routes.{app_id_of, resolve_route}
use traffic_cone.Store.Routes.Reach.{Passed, resolve_route-Passed}
use traffic_cone.Store.Crypto.{Crates}
use traffic_cone.Daemon.Address.{Connection}
use traffic_cone.Daemon.Monitor.{resolve, ProcessCache, get_connections, Kernel, ProcessEntry}
use traffic_cone.Daemon.Routing.{
  no_route, answered, RouteError, route_via, monitor, known_hash, resolve_for_pid, route_process,
  route_connections, query_of, ResolvedRoute, KnownHashes, check_known,
}
use traffic_cone.Daemon.Routing.Laws.{check_known-ok}

-- Where the routes of a process lead: the result keeps the process, and a stored route passed.
abbrev RoutedBy : Db → List App → List Connection → ProcessEntry → ResolvedRoute → Type 0
RoutedBy d apps peers p route =
    (route.process ≡ p)
    × ((row : RouteRow) × In row d.routes
        × (row.cert_id ≡ route.cert_id)
        × Passed (app_id_of apps (some p.exe_path)) (query_of p route.remote_ip) (route_of_row row))
    × ((route.remote_ip ≡ none)
        ⊎ ((peer : Connection) × In peer peers × (route.remote_ip ≡ some peer.remote_ip)))

route_via-RoutedBy :
    (s : Store) (d : Db) (apps : List App) (peers : List Connection) (p : ProcessEntry)
    (ip : Option Text) (cert : Text)
    → conn s ≡ ok d
    → list_apps s ≡ ok apps
    → resolve_route s (query_of p ip) ≡ ok (some cert)
    → (ip ≡ none) ⊎ ((peer : Connection) × In peer peers × (ip ≡ some peer.remote_ip))
    → RoutedBy d apps peers p (route_via p ip cert)
route_via-RoutedBy s d apps peers p ip cert hc ha h from =
    (refl, resolve_route-Passed s d (query_of p ip) cert apps hc ha h, from)

answered-ok :
    (p : ProcessEntry) (ip : Option Text) (x : Result StoreError (Option Text))
    (rest : Result RouteError ResolvedRoute) (route : ResolvedRoute)
    → answered p ip x rest ≡ ok route
    → ((cert : Text) × (x ≡ ok (some cert)) × (route_via p ip cert ≡ route)) ⊎ (rest ≡ ok route)
answered-ok p ip (err e) rest route h = cc
answered-ok p ip (ok (some cert)) rest route h = inl (cert, refl, cc)
answered-ok p ip (ok none) rest route h = inr h

route_connections-last :
    (s : Store) (p : ProcessEntry)
    → route_connections s p []
      ≡ answered p none (resolve_route s (query_of p none)) (err (no_route p))
unfolding route_connections
route_connections-last s p = refl

route_connections-turn :
    (s : Store) (p : ProcessEntry) (peer : Connection) (more : List Connection)
    → route_connections s p (peer ∷ more)
      ≡ answered p
          (some peer.remote_ip)
          (resolve_route s (query_of p (some peer.remote_ip)))
          (route_connections s p more)
unfolding route_connections
route_connections-turn s p peer more = refl

route_connections-RoutedBy :
    (s : Store) (d : Db) (apps : List App) (p : ProcessEntry) (peers : List Connection)
    (route : ResolvedRoute)
    → conn s ≡ ok d
    → list_apps s ≡ ok apps
    → route_connections s p peers ≡ ok route
    → RoutedBy d apps peers p route
route_connections-RoutedBy s d apps p [] route hc ha h =
    elim (answered-ok p none (resolve_route s (query_of p none)) (err (no_route p)) route
      (sym (route_connections-last s p) ∙ h)) [
        | inl (cert, e, er) ↦
            subst (RoutedBy d apps [] p) er
              (route_via-RoutedBy s d apps [] p none cert hc ha e (inl refl))
        | inr e ↦ cc
      ]
route_connections-RoutedBy s d apps p (peer ∷ more) route hc ha h =
    let ip : Option Text = some peer.remote_ip in
    elim (answered-ok p ip (resolve_route s (query_of p ip)) (route_connections s p more) route
      (sym (route_connections-turn s p peer more) ∙ h)) [
        | inl (cert, e, er) ↦ subst (RoutedBy d apps (peer ∷ more) p) er (
            route_via-RoutedBy s d apps (peer ∷ more) p ip cert hc ha e
              (inr (peer, inl refl, refl)))
        | inr rest ↦
            let (ep, row, from) = route_connections-RoutedBy s d apps p more route hc ha rest in
            (ep, row, elim from [ inl n ↦ inl n | inr (x, i, ex) ↦ inr (x, inr i, ex) ])
      ]

process_then :
    (c : Crates) (k : Kernel) (s : Store) (known : KnownHashes) (pid : ℕ) (p : ProcessEntry)
    {route : ResolvedRoute}
    → route_process c k s known pid p ≡ ok route
    → (check_known known p >>= λ (_ : Unit {0}). route_connections s p (get_connections c k pid))
      ≡ ok route
unfolding route_process
process_then c k s known pid p h = h

-- A certificate is given to a process only if it resolves, its binary has the recorded hash where
-- one is recorded for its path, a stored route for that certificate passed the matching of
-- `resolve_route` for its application and for the address used, where a column that is NULL counts as
-- matched, and the address, if any, is the remote end of a socket in /proc/PID/net/tcp or tcp6.
pub resolve_for_pid-Passed :
    (c : Crates) (k : Kernel) (s : Store) (d : Db) (apps : List App) (pid : ℕ) (known : KnownHashes)
    (cache : ProcessCache) (route : ResolvedRoute)
    → conn s ≡ ok d
    → list_apps s ≡ ok apps
    → (resolve_for_pid c k s pid known cache).1 ≡ ok route
    → ((resolve c k pid cache).1 ≡ ok route.process)
      × ((known_hash known route.process.exe_path ≡ none)
          ⊎ (known_hash known route.process.exe_path ≡ some route.process.exe_hash))
      × ((row : RouteRow) × In row d.routes
          × (row.cert_id ≡ route.cert_id)
          × Passed
              (app_id_of apps (some route.process.exe_path))
              (query_of route.process route.remote_ip)
              (route_of_row row))
      × ((route.remote_ip ≡ none)
          ⊎ ((peer : Connection) × In peer (get_connections c k pid)
              × (route.remote_ip ≡ some peer.remote_ip)))
unfolding resolve_for_pid
resolve_for_pid-Passed c k s d apps pid known cache route hc ha h =
    let (p, em, hp) =
      >>=-eq-ok (map_err monitor (resolve c k pid cache).1) (route_process c k s known pid) h in
    let (u, known_ok, hr) =
      >>=-eq-ok (check_known known p)
        (λ (_ : Unit {0}). route_connections s p (get_connections c k pid))
        (process_then c k s known pid p hp) in
    let (ep, row, from) =
      route_connections-RoutedBy s d apps p (get_connections c k pid) route hc ha hr in
    (
      map_err-eq-ok monitor (resolve c k pid cache).1 em ∙ ap ok (sym ep),
      subst
          (λ (x : ProcessEntry).
            (known_hash known x.exe_path ≡ none) ⊎ (known_hash known x.exe_path ≡ some x.exe_hash))
          (sym ep) (check_known-ok known p u known_ok),
      subst
          (λ (x : ProcessEntry).
            (row : RouteRow) × In row d.routes
            × (row.cert_id ≡ route.cert_id)
            × Passed (app_id_of apps (some x.exe_path)) (query_of x route.remote_ip)
                (route_of_row row))
          (sym ep) row,
      from,
    )
