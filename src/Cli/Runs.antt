-- ===== src/Cli/Runs.antt =====
-- The tool at work on the samples: each theorem about it, applied.
use traffic_cone.Common.{
  ℕ, ◌<◌, ◌≡◌, refl, Bool, true, false, ◌&&◌, none, some, [], ◌∷◌, ◌++◌, arith, ◌==◌, ==_iff, All,
  ok, err, Text, codes,
}
use traffic_cone.Common.Int.{pos}
use traffic_cone.Common.Host.{VarError, Env}
use traffic_cone.Cli.Output.{app_matches_hash, route_removed, route_added}
use traffic_cone.Cli.Tool.{Tool, RouteArgs}
use traffic_cone.Cli.Commands.{app_verify_command, route_add_command, route_remove_command}
use traffic_cone.Cli.Commands.Removal.{Plain, Stays, route_remove-route_add}
use traffic_cone.Store.Listing.{list_apps}
use traffic_cone.Store.Integrity.{hash_file}
use traffic_cone.Store.Samples.{
  opening_with, sample_crates, sample_store, sample_route, sample_draws,
}

-- LIKE on a plain text and a `%`.
abbrev like_text : Text → Text → Bool
like_text text [] = false
like_text [] (c ∷ []) = c == 37
like_text (t ∷ text) (c ∷ []) = c == 37
like_text [] (c ∷ d ∷ pattern) = false
like_text (t ∷ text) (c ∷ d ∷ pattern) = (t == c) && like_text text (d ∷ pattern)

abbrev no_env : Env
no_env = λ var. err VarError.not_present

abbrev sample_tool : Tool
sample_tool = record {
  env = no_env;
  create_dir_all = λ dir. ok tt;
  password = λ prompt. ok (codes "pw");
  files = λ path. some (codes "h");
  write_file = λ path bytes. ok tt;
  coned = some (λ buf. []);
  like = like_text;
  opening = opening_with (1 ∷ []);
  id = codes "0123456789";
  audit_id = codes "e1";
  now = pos 4;
  draws = sample_draws;
  restore_draws = record { key_id = λ n. n ∷ []; audit_id = codes "e9"; now = pos 8 };
}

abbrev host_route : RouteArgs
host_route = record {
  cert = codes "laptop";
  app = some (codes "curl");
  host = some (codes "example.org");
  ip_addr = none;
  require_both = false;
  priority = pos 5;
}

like_prefix : (p rest : Text) → All Plain p → like_text (p ++ rest) (p ++ codes "%") ≡ true
like_prefix [] [] h = refl
like_prefix [] (c ∷ rest) h = refl
like_prefix (c ∷ []) rest h = rw ((==_iff c c).1 refl) (like_prefix [] rest tt)
like_prefix (c ∷ d ∷ p) rest h = rw ((==_iff c c).1 refl) (like_prefix (d ∷ p) rest h.1)

digit-Plain : (c : ℕ) → 40 < c → c < 90 → Plain c
digit-Plain c low high = ((λ h. omega (arith, h, low)), λ h. omega (arith, h, high))

id-Plain : All Plain (codes "01234567")
id-Plain = (
  digit-Plain 48 (omega arith) (omega arith),
  (
    digit-Plain 49 (omega arith) (omega arith),
    (
      digit-Plain 50 (omega arith) (omega arith),
      (
        digit-Plain 51 (omega arith) (omega arith),
        (
          digit-Plain 52 (omega arith) (omega arith),
          (
            digit-Plain 53 (omega arith) (omega arith),
            (
              digit-Plain 54 (omega arith) (omega arith),
              (digit-Plain 55 (omega arith) (omega arith), tt),
            ),
          ),
        ),
      ),
    ),
  ),
)

added :
    (route_add_command sample_tool host_route sample_store).1
    ≡ ok (route_added (codes "01234567") ∷ [])
unfolding route_add_command traffic_cone.Cli.Cmd.◌>>=◌ traffic_cone.Store.Listing.get_cert_by_label
    traffic_cone.Store.Handle.conn traffic_cone.Common.text_eq traffic_cone.Cli.Cmd.reads
    traffic_cone.Store.Listing.list_apps traffic_cone.Cli.Cmd.from traffic_cone.Common.Sort.sort_by
    traffic_cone.Cli.Cmd.lift traffic_cone.Store.Exec.sql traffic_cone.Store.Db.insert_route
    traffic_cone.Cli.Commands.new_route
added = refl

other_id : Stays like_text (codes "01234567") sample_route
unfolding traffic_cone.Common.text_eq
other_id = refl

route_remove-route_add_example :
    route_remove_command sample_tool
      (codes "01234567")
      (route_add_command sample_tool host_route sample_store).0
    ≡ (sample_store, ok (route_removed ∷ []))
route_remove-route_add_example =
    route_remove-route_add sample_tool like_prefix host_route sample_store
      (route_added (codes "01234567") ∷ []) added id-Plain (other_id, tt)

verified :
    (app_verify_command sample_tool sample_crates (codes "curl") sample_store).1
    ≡ ok (app_matches_hash (codes "curl") ∷ [])
unfolding app_verify_command traffic_cone.Cli.Cmd.◌>>=◌ traffic_cone.Cli.Cmd.reads list_apps
    traffic_cone.Store.Handle.conn traffic_cone.Cli.Cmd.from traffic_cone.Common.Sort.sort_by
    traffic_cone.Common.text_eq hash_file
verified = refl
