-- ===== src/Common/Host.antt =====
-- The environment that both programs read, and `get_store_path` of crates/coned/src/main.rs and of
-- crates/cone-cli/src/main.rs, which have the same body.
use traffic_cone.Common.{
  Option, none, any_of, ◌==◌, if◌then◌else◌, Bool, true, false, ◌++◌, Result, ok, err, ◌>>=◌,
  unwrap_or, Text, codes,
}

-- `std::env::VarError`
pub data VarError : Type 0 where
  not_present not_unicode : VarError

-- `std::env::var`
abbrev pub Env : Type 0
Env = Text → Result VarError Text

abbrev is_ok : {E A : Type 0} → Result E A → Bool
is_ok (ok a) = true
is_ok (err e) = false

-- `env::var(var).is_ok()`
abbrev pub is_set : Env → Text → Bool
is_set env var = is_ok (env var)

abbrev pub data_home : Env → Text
data_home env =
    unwrap_or (env (codes "XDG_DATA_HOME"))
      (unwrap_or (env (codes "HOME")) (codes "/tmp") ++ codes "/.local/share")

-- `create_dir_all` is that of the file system.
unfoldable pub get_store_path : Env → (Text → Result Text (Unit {0})) → Result Text Text
get_store_path env create_dir_all = do
  _ ← create_dir_all (data_home env ++ codes "/cone")
  ok (data_home env ++ codes "/cone/store.db")

-- `UnixStream::connect` of std, on the server that listens, if there is one: a path that has a byte 0
-- is an error before the kernel is asked.
unfoldable pub connect {ℓ} : {Server : Type ℓ} → Option Server → Text → Option Server
connect server path = if any_of (λ b. b == 0) path then none else server
