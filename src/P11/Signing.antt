-- ===== src/P11/Signing.antt =====
-- The buffer of `C_Sign`.
use traffic_cone.Common.{ℕ, ◌≤◌, ◌≡◌, ◌⊎◌, Bool, [], arith, length, Result, Bytes}
use traffic_cone.P11.{P11Error, ModuleState, c_sign}

-- `C_Sign` never writes more bytes than the caller has room for, on every branch, and it writes either
-- nothing or as many bytes as it reports.
pub c_sign-bounds :
    (reply : Result P11Error Bytes) (has_buffer : Bool) (len : ℕ) (s : ModuleState)
    → (length (c_sign reply has_buffer len s).written ≤ len)
      × (((c_sign reply has_buffer len s).written ≡ [])
          ⊎ (length (c_sign reply has_buffer len s).written ≡ (c_sign reply has_buffer len s).len))
unfolding c_sign
c_sign-bounds reply has_buffer len s = ground arith
