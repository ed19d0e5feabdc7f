-- ===== src/Cli/Commands/Removal.antt =====
-- `cone route remove` after `cone route add`.
use traffic_cone.Common.{
  ℕ, zero, suc, ◌≡◌, refl, sym, ap, ◌∙◌, subst, ◌≢◌, inl, inr, Bool, true, false, not, ◌||◌, Option,
  none, some, List, [], ◌∷◌, ◌++◌, Bool-cases, take, drop, filter_by, any_of, All, All-of, All-In,
  Result, ok, map_err, map_err-eq-ok, Result-cases, Text, codes, text_eq,
}
use traffic_cone.Store.Models.{StoreError, SqlError}
use traffic_cone.Store.Db.{Db, RouteRow, insert_route, route_parents}
use traffic_cone.Store.Handle.{Store, set_db}
use traffic_cone.Store.Listing.{list_apps}
use traffic_cone.Store.Exec.{sql, sql_ran, sql_again}
use traffic_cone.Cli.Output.{Line, CliError, route_removed, route_added, slice}
use traffic_cone.Cli.Cmd.{from, print, lift, reads, ◌>>=◌, bind_ok, continue}
use traffic_cone.Cli.Tool.{Tool, RouteArgs, delete_routes, find_app}
use traffic_cone.Cli.Commands.{
  app_id_for, cert_for, new_route, route_add_command, route_remove_command,
}

-- Neither `%` nor `_`.
abbrev pub Plain : ℕ → Type 0
Plain c = (c ≢ 37) × (c ≢ 95)

-- The row is not deleted with the routes of an id.
abbrev pub Stays : (Text → Text → Bool) → Text → RouteRow → Type 0
Stays like id r = (text_eq r.id id || like r.id (id ++ codes "%")) ≡ false

not_or : (a b : Bool) → b ≡ true → not (a || b) ≡ false
not_or true b h = refl
not_or false b h = ap not h

take-drop : (n : ℕ) (t : Text) → take n t ++ drop n t ≡ t
take-drop zero t = refl
take-drop (suc n) [] = refl
take-drop (suc n) (c ∷ t) = ap (λ (r : Text). c ∷ r) (take-drop n t)

-- A filter that keeps the rows that stay, and none of the last row.
drops_last :
    (keep : RouteRow → Bool) (rows : List RouteRow) (row : RouteRow)
    → All (λ (r : RouteRow). keep r ≡ true) rows
    → keep row ≡ false
    → filter_by keep (rows ++ row ∷ []) ≡ rows
drops_last keep [] row h e = rw e refl
drops_last keep (r ∷ rows) row (k, h) e =
    rw k (ap (λ (rs : List RouteRow). r ∷ rs) (drops_last keep rows row h e))

inserted :
    (row : RouteRow) (d d' : Db)
    → insert_route row d ≡ ok d'
    → d' ≡ record d { routes = d.routes ++ row ∷ [] }
unfolding insert_route
inserted row d d' h =
    elim (Bool-cases
      (any_of (λ (x : RouteRow). text_eq x.id row.id) d.routes || not (route_parents row d))) [
        | inl b ↦ cc (rw (b, insert_route) at h)
        | inr b ↦ sym (cc (rw (b, insert_route) at h))
      ]

module _ (w : Tool) where
  app_id_for-same : (app : Option Text) (s : Store) → (app_id_for w app s).0 ≡ s
  unfolding app_id_for ◌>>=◌ reads from
  app_id_for-same none s = refl
  app_id_for-same (some label) s = elim (Result-cases (list_apps s)) [
    | inr (e, q) ↦ rw (q, continue) refl
    | inl (apps, q) ↦ elim (Result-cases (find_app label apps)) [
      | inr (e, f) ↦ rw (q, continue) (rw (f, continue) refl)
      | inl (a, f) ↦ rw (q, continue) (rw (f, continue) refl)
    ]
  ]

  -- A route has been inserted in the tables of a store.
  abbrev Inserted : RouteArgs → Store → Store → Type 0
  Inserted args s after =
      (cert_id : Text) × (app_id : Option Text) × (d : Db) × (insert_route
          (new_route w args cert_id app_id) s.disk.db
        ≡ ok d)
      × ((sql (insert_route (new_route w args cert_id app_id)) s).1 ≡ ok tt)
      × (after ≡ set_db d s)

  insert-ran :
      (args : RouteArgs) (cert_id : Text) (app_id : Option Text) (s : Store) (lines : List Line)
      → ((lift (sql (insert_route (new_route w args cert_id app_id))) >>= λ _.
            from (slice 8 w.id) >>= λ short. print (route_added short ∷ []))
          s).1
        ≡ ok lines
      → Inserted args s
          ((lift (sql (insert_route (new_route w args cert_id app_id))) >>= λ _.
              from (slice 8 w.id) >>= λ short. print (route_added short ∷ []))
            s).0
  unfolding lift from
  insert-ran args cert_id app_id s lines h =
      let (u, e, q, h') =
        bind_ok (lift (sql (insert_route (new_route w args cert_id app_id)))) _ s h in
      let (short, e', q', h'') = bind_ok (from (slice 8 w.id)) _ _ h' in
      let ran = map_err-eq-ok _ ((sql (insert_route (new_route w args cert_id app_id)) s).1) e in
      let (d, made, left) = sql_ran (insert_route (new_route w args cert_id app_id)) s ran in
      (cert_id, app_id, d, made, ran, ap (λ r. r.0) (q ∙ q') ∙ left)

  -- What `route add` has done when it succeeds.
  route_add-ran :
      (args : RouteArgs) (s : Store) (lines : List Line)
      → (route_add_command w args s).1 ≡ ok lines
      → Inserted args s (route_add_command w args s).0
  unfolding route_add_command
  route_add-ran args s lines h =
      let (cert, e0, q0, h0) = bind_ok (cert_for w args.cert) _ s h in
      let (app_id, e1, q1, h1) = bind_ok (app_id_for w args.app) _ s h0 in
      let done = insert-ran args cert.id app_id (app_id_for w args.app s).0 lines h1 in
      subst (λ (t : Store). Inserted args t (route_add_command w args s).0)
        (app_id_for-same args.app s)
        (subst (Inserted args (app_id_for w args.app s).0) (sym (ap (λ r. r.0) (q0 ∙ q1))) done)

  after_sql :
      (statement : Db → Result SqlError Db) (lines : List Line) (x y : Store)
      → sql statement x ≡ (y, ok tt)
      → (lift (sql statement) >>= λ _. print lines) x ≡ (y, ok lines)
  unfolding ◌>>=◌ lift from
  after_sql statement lines x y h =
      ap
        (λ (r : Store × Result StoreError (Unit {0})).
          continue (r.0, map_err CliError.store_error r.1) (λ (_ : Unit {0}). print lines))
        h

  restored :
      (like_prefix : (p rest : Text) → All Plain p → w.like (p ++ rest) (p ++ codes "%") ≡ true)
      (args : RouteArgs) (cert_id : Text) (app_id : Option Text) (d d' : Db)
      → All Plain (take 8 w.id)
      → All (Stays w.like (take 8 w.id)) d.routes
      → insert_route (new_route w args cert_id app_id) d ≡ ok d'
      → delete_routes w.like (take 8 w.id) d' ≡ d
  unfolding delete_routes new_route
  restored like_prefix args cert_id app_id d d' plain stay made =
      let row = new_route w args cert_id app_id in
      let matched : w.like w.id (take 8 w.id ++ codes "%") ≡ true =
        subst (λ (t : Text). w.like t (take 8 w.id ++ codes "%") ≡ true) (take-drop 8 w.id)
          (like_prefix (take 8 w.id) (drop 8 w.id) plain) in
      ap (delete_routes w.like (take 8 w.id)) (inserted row d d' made)
      ∙ ap (λ (rs : List RouteRow). record d { routes = rs })
          (drops_last
            (λ (r : RouteRow).
              not (text_eq r.id (take 8 w.id) || w.like r.id (take 8 w.id ++ codes "%")))
            d.routes row (All-of _ _ (λ r i. ap not (All-In _ r d.routes stay i)))
            (not_or (text_eq w.id (take 8 w.id)) _ matched))

  -- When `cone route add` has succeeded, `cone route remove` with the first eight characters of the
  -- new id succeeds and brings the store back to what it was: under LIKE's law that a text starting
  -- with a pattern's plain text matches the pattern with a `%` after it, where those characters are
  -- plain and no route of the store has an id that matches them.
  pub route_remove-route_add :
      (like_prefix : (p rest : Text) → All Plain p → w.like (p ++ rest) (p ++ codes "%") ≡ true)
      (args : RouteArgs) (s : Store) (lines : List Line)
      → (route_add_command w args s).1 ≡ ok lines
      → All Plain (take 8 w.id)
      → All (Stays w.like (take 8 w.id)) s.disk.db.routes
      → route_remove_command w (take 8 w.id) (route_add_command w args s).0
        ≡ (s, ok (route_removed ∷ []))
  unfolding route_remove_command delete_routes set_db
  route_remove-route_add like_prefix args s lines h plain stay =
      let (cert_id, app_id, d, made, ran, left) = route_add-ran args s lines h in
      ap (route_remove_command w (take 8 w.id)) left
      ∙ after_sql (λ e. ok (delete_routes w.like (take 8 w.id) e)) (route_removed ∷ []) (set_db d s)
          s
          (sql_again (insert_route (new_route w args cert_id app_id))
            (λ e. ok (delete_routes w.like (take 8 w.id) e)) s d s.disk.db ran
            (ap ok (restored like_prefix args cert_id app_id s.disk.db d plain stay made)))
