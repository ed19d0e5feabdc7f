-- ===== src/Daemon/Hardening.antt =====
-- crates/coned/src/hardening.rs: what coned refuses to run under, and what it asks of the kernel.
use traffic_cone.Common.{
  ℕ, zero, suc, Bool, false, List, [], ◌∷◌, ◌==◌, if◌then◌else◌, Result, ok, err, map_err, Text,
  codes,
}
use traffic_cone.Common.Host.{Env, is_set}

pub data HardeningError : Type 0 where
  variable_set : Text → HardeningError
  is_root : HardeningError
  prctl_failed mlock_failed : Text → HardeningError
  null_pointer : HardeningError

-- The array of `check_environment`.
abbrev pub dangerous : List Text
dangerous =
    codes "LD_PRELOAD"
    ∷ codes "LD_AUDIT"
    ∷ codes "LD_DEBUG"
    ∷ codes "LD_PROFILE"
    ∷ codes "DYLD_INSERT_LIBRARIES"
    ∷ []

abbrev pub check_variables : Env → List Text → Result HardeningError (Unit {0})
check_variables env [] = ok tt
check_variables env (var ∷ rest) =
    let checked = check_variables env rest in
    if is_set env var then err (variable_set var) else checked

unfoldable pub check_environment : Env → Result HardeningError (Unit {0})
check_environment env = check_variables env dangerous

unfoldable pub check_not_root : ℕ → Result HardeningError (Unit {0})
check_not_root uid = if uid == 0 then err is_root else ok tt

-- The calls of the kernel: `prctl::set_dumpable` and `mman::mlock`.
pub record KernelCalls : Type 0 where
  pub set_dumpable : Bool → Result Text (Unit {0})
  pub mlock : ℕ → ℕ → Result Text (Unit {0})

unfoldable pub harden_process : KernelCalls → Result HardeningError (Unit {0})
harden_process calls = map_err prctl_failed (calls.set_dumpable false)

-- The null pointer is 0.
unfoldable pub lock_memory_pages : KernelCalls → ℕ → ℕ → Result HardeningError (Unit {0})
lock_memory_pages calls zero len = err null_pointer
lock_memory_pages calls (suc ptr) len = map_err mlock_failed (calls.mlock (suc ptr) len)
