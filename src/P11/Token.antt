-- ===== src/P11/Token.antt =====
-- crates/cone-p11/src/pkcs11_impl.rs: what the token says of itself.
pub mod Padding
use traffic_cone.Common.{
  ℕ, zero, suc, Bool, true, false, Option, none, some, [], ◌∷◌, leb, if◌then◌else◌, length, take,
  Text, Bytes, codes,
}
use traffic_cone.P11.{ckr_ok, ckr_arguments_bad}

abbrev pub spaces : ℕ → Bytes
spaces zero = []
spaces (suc n) = 32 ∷ spaces n

-- `buf[..len].copy_from_slice(…)`
unfoldable pub copy_front : Bytes → Bytes → Bytes
copy_front [] buf = buf
copy_front (b ∷ bs) [] = []
copy_front (b ∷ bs) (x ∷ buf) = b ∷ copy_front bs buf

unfoldable pub pad32 : Text → Bytes
unfolding copy_front
pad32 s =
    let len : ℕ = if leb (length s) 32 then length s else 32 in copy_front (take len s) (spaces 32)

unfoldable pub pad16 : Text → Bytes
unfolding copy_front
pad16 s =
    let len : ℕ = if leb (length s) 16 then length s else 16 in copy_front (take len s) (spaces 16)

-- `CK_TOKEN_INFO`
pub record CkTokenInfo : Type 0 where
  pub label : Bytes
  pub manufacturer_id : Bytes
  pub model : Bytes
  pub serial_number : Bytes
  pub flags : ℕ
  pub max_session_count : ℕ
  pub session_count : ℕ
  pub max_rw_session_count : ℕ
  pub rw_session_count : ℕ
  pub max_pin_len : ℕ
  pub min_pin_len : ℕ
  pub total_public_memory : ℕ
  pub free_public_memory : ℕ
  pub total_private_memory : ℕ
  pub free_private_memory : ℕ
  pub hardware_version : Bytes
  pub firmware_version : Bytes
  pub utc_time : Bytes

-- Without a pointer nothing is written.
unfoldable pub get_token_info : Bool → Option CkTokenInfo × ℕ
unfolding pad32 pad16
get_token_info false = (none, ckr_arguments_bad)
get_token_info true =
    let info : CkTokenInfo = record {
      label = pad32 (codes "Traffic Cone");
      manufacturer_id = pad32 (codes "Traffic Cone Project");
      model = pad16 (codes "cone");
      serial_number = pad16 (codes "1");
      flags = 0x0400;
      max_session_count = 0xFFFFFFFF;
      session_count = 0;
      max_rw_session_count = 0xFFFFFFFF;
      rw_session_count = 0;
      max_pin_len = 256;
      min_pin_len = 0;
      total_public_memory = 0xFFFFFFFF;
      free_public_memory = 0xFFFFFFFF;
      total_private_memory = 0xFFFFFFFF;
      free_private_memory = 0xFFFFFFFF;
      hardware_version = 0 ∷ 1 ∷ [];
      firmware_version = 0 ∷ 1 ∷ [];
      utc_time = spaces 16;
    } in
    (some info, ckr_ok)

-- The count that is written; the list never is.
unfoldable pub get_mechanism_list : Bool → Option ℕ × ℕ
get_mechanism_list false = (none, ckr_arguments_bad)
get_mechanism_list true = (some 2, ckr_ok)

-- The handle of the session.
unfoldable pub open_session : Bool → Option ℕ × ℕ
open_session false = (none, ckr_arguments_bad)
open_session true = (some 1, ckr_ok)
