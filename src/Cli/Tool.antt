-- ===== src/Cli/Tool.antt =====
-- crates/cone-cli/src/main.rs: what a run of the tool has around it, and the parts of its commands
-- that do not use it.
use traffic_cone.Common.{
  Bool, true, false, not, ◌||◌, Option, none, some, List, [], ◌∷◌, ◌++◌, map, find, filter_by,
  Result, ok, err, ok_or, Text, Bytes, codes, text_eq,
}
use traffic_cone.Common.Int.{ℤ, pos}
use traffic_cone.Store.Models.{App, Route}
use traffic_cone.Store.Db.{Db, RouteRow}
use traffic_cone.Store.Import.{Draws}
use traffic_cone.Store.Backup.Restore.{RestoreDraws}
use traffic_cone.Store.Handle.{Opening}
use traffic_cone.Common.Host.{Env}
use traffic_cone.Cli.Output.{Line, CliError, no_routes, route_line, no_such_app, usage, slice}

-- What a run of the tool has around it. `password` is the prompt of the crate dialoguer, `like` the
-- operator LIKE of SQLite, and `coned` is what coned answers to the bytes of a request, if it runs; the
-- ids and the time are what `new_id` and `unix_now` return.
pub record Tool : Type 0 where
  pub env : Env
  pub create_dir_all : Text → Result Text (Unit {0})
  pub password : Text → Result Text Text
  pub files : Text → Option Bytes
  pub write_file : Text → Bytes → Result Text (Unit {0})
  pub coned : Option (Bytes → Bytes)
  pub like : Text → Text → Bool
  pub opening : Opening
  pub id : Text
  pub audit_id : Text
  pub now : ℤ
  pub draws : Draws
  pub restore_draws : RestoreDraws

-- The arguments of `cone route add`.
pub record RouteArgs : Type 0 where
  pub cert : Text
  pub app : Option Text
  pub host : Option Text
  pub ip_addr : Option Text
  pub require_both : Bool
  pub priority : ℤ

abbrev pub bool_int : Bool → ℤ
bool_int true = pos 1
bool_int false = pos 0

-- `(match_type, pattern)` of a new route.
unfoldable pub pattern_of : Option Text → Option Text → Text × Option Text
pattern_of (some h) i = (codes "hostname", some h)
pattern_of none (some i) = (codes "ip", some i)
pattern_of none none = (codes "hostname", none)

-- `DELETE FROM routes WHERE id = ?1 OR id LIKE ?2`
unfoldable pub delete_routes : (Text → Text → Bool) → Text → Db → Db
delete_routes like id d = record d {
  routes =
      filter_by (λ (r : RouteRow). not (text_eq r.id id || like r.id (id ++ codes "%"))) d.routes;
}

-- The file that `import_file` is given, and the one with the key.
unfoldable pub import_source :
    Option Text → Option Text → Option Text → Result CliError (Text × Option Text)
import_source (some f) cert key = ok (f, none)
import_source none (some c) (some k) = ok (c, some k)
import_source none (some c) none = err usage
import_source none none key = err usage

-- `apps.iter().find(|a| a.label == label)`
unfoldable pub find_app : Text → List App → Result CliError App
find_app label apps = ok_or (find (λ (a : App). text_eq a.label label) apps) (no_such_app label)

abbrev pub some_or : Text → Option Text → Text
some_or other none = other
some_or other (some t) = t

-- The lines of a list, or the one for an empty list.
abbrev pub lines_or : {A : Type 0} → Line → (A → Line) → List A → List Line
lines_or none_line line [] = none_line ∷ []
lines_or none_line line (x ∷ xs) = line x ∷ map line xs

-- Lines that may panic, in order.
abbrev try_lines : {A : Type 0} → (A → Result CliError Line) → List A → Result CliError (List Line)
try_lines line [] = ok []
try_lines line (x ∷ xs) = elim (line x) [
  | err e ↦ err e
  | ok l ↦ elim (try_lines line xs) [ err e ↦ err e | ok ls ↦ ok (l ∷ ls) ]
]

abbrev pub slice_line : Route → Result CliError Line
slice_line r = elim (slice 8 r.cert_id) [
  | err e ↦ err e
  | ok short ↦ ok (
      route_line r.id short (some_or (codes "any") r.app_id) (some_or (codes "any") r.pattern)
        r.require_both)
]

abbrev pub route_lines : List Route → Result CliError (List Line)
route_lines [] = ok (no_routes ∷ [])
route_lines (r ∷ rs) = try_lines slice_line (r ∷ rs)
