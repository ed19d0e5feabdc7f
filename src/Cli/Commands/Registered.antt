-- ===== src/Cli/Commands/Registered.antt =====
-- `cone app verify`: when it says that a binary is the one that was registered.
use traffic_cone.Common.{
  ◌≡◌, sym, ap, ◌∙◌, subst, inl, inr, Bool, true, some, List, [], ◌∷◌, Bool-cases, find, In, ok,
  map_err-eq-ok, ok_or-eq-ok, Text, text_eq, text_eq_iff,
}
use traffic_cone.Store.Models.{App}
use traffic_cone.Store.Crypto.{Crates}
use traffic_cone.Store.Handle.{Store}
use traffic_cone.Store.Listing.{list_apps}
use traffic_cone.Store.Integrity.{hash_file}
use traffic_cone.Cli.Output.{Line, app_matches_hash}
use traffic_cone.Cli.Cmd.{from, reads, bind_ok}
use traffic_cone.Cli.Tool.{Tool, find_app}
use traffic_cone.Cli.Commands.{check_app, app_verify_command}

find-In :
    (p : App → Bool) (apps : List App) (a : App) → find p apps ≡ some a → In a apps × (p a ≡ true)
find-In p [] a h = cc
find-In p (x ∷ apps) a h = elim (Bool-cases (p x)) [
  | inl e ↦
      let same : x ≡ a = cc (rw e at h) in (inl (sym same), subst (λ (t : App). p t ≡ true) same e)
  | inr e ↦ let (member, q) = find-In p apps a (rw e at h) in (inr member, q)
]

-- An application of a list with this label, the first one.
found_app :
    (label : Text) (apps : List App) (a : App)
    → find_app label apps ≡ ok a
    → In a apps × (a.label ≡ label)
unfolding find_app
found_app label apps a h =
    let (member, e) = find-In (λ (x : App). text_eq x.label label) apps a (ok_or-eq-ok _ _ h) in
    (member, (text_eq_iff a.label label).0 e)

check_app-ok :
    (w : Tool) (a : App) (current : Text) (lines : List Line)
    → check_app w a current ≡ ok lines
    → (current ≡ a.exe_hash) × (lines ≡ app_matches_hash a.label ∷ [])
unfolding check_app
check_app-ok w a current lines h = elim (Bool-cases (text_eq current a.exe_hash)) [
  | inl b ↦ ((text_eq_iff current a.exe_hash).0 b, sym (cc (rw (b, check_app) at h)))
  | inr b ↦ cc (rw (b, check_app) at h)
]

-- When `cone app verify` succeeds, the store has an application with the
-- label whose file now has the hash that was registered, and it says so.
pub app_verify-hash_file :
    (w : Tool) (c : Crates) (label : Text) (s : Store) (lines : List Line)
    → (app_verify_command w c label s).1 ≡ ok lines
    → (a : App) × (apps : List App) × (list_apps s ≡ ok apps)
      × In a apps
      × (a.label ≡ label)
      × (hash_file c w.files a.exe_path ≡ ok a.exe_hash)
      × (lines ≡ app_matches_hash label ∷ [])
unfolding app_verify_command reads from
app_verify-hash_file w c label s lines h =
    let (apps, e0, q0, h0) = bind_ok (reads list_apps) _ s h in
    let (a, e1, q1, h1) = bind_ok (from (find_app label apps)) _ s h0 in
    let (current, e2, q2, h2) = bind_ok (reads (λ _. hash_file c w.files a.exe_path)) _ s h1 in
    let (same, said) = check_app-ok w a current lines h2 in
    let (member, labelled) = found_app label apps a e1 in
    (
      a,
      apps,
      map_err-eq-ok _ (list_apps s) e0,
      member,
      labelled,
      map_err-eq-ok _ (hash_file c w.files a.exe_path) e2 ∙ ap ok same,
      said ∙ ap (λ (t : Text). app_matches_hash t ∷ []) labelled,
    )
