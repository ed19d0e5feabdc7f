-- ===== src/P11.antt =====
-- crates/cone-p11/src/pkcs11_impl.rs: the state of the PKCS#11 module and the functions that use it.
-- A C pointer is an optional value; what the daemon answers is an argument.
pub mod Search
pub mod Signing
pub mod Client
pub mod Functions
pub mod Token
pub mod Exports
mod Runs
use traffic_cone.Common.{
  ℕ, zero, suc, ◌+◌, ◌*◌, ◌/◌, Bool, true, false, Option, none, some, List, [], ◌∷◌, ltb, leb,
  if◌then◌else◌, length, get_elem?, Result, ok, err, unwrap_or, Text, Bytes,
}

-- `ipc::P11Cert`
pub record P11Cert : Type 0 where
  pub id : Text
  pub label : Text
  pub cert_der : Bytes
  pub fingerprint : Text

-- `ipc::P11Error`
pub data P11Error : Type 0 where
  unavailable protocol : P11Error
  daemon_error : Text → P11Error

-- `STATE` and `FIND_POSITION`.
pub record ModuleState : Type 0 where
  pub initialised : Bool
  pub certs : List P11Cert
  pub sign_handle : Option ℕ
  pub find_position : ℕ

abbrev pub ckr_ok : ℕ
ckr_ok = 0

abbrev pub ckr_general_error : ℕ
ckr_general_error = 5

abbrev pub ckr_arguments_bad : ℕ
ckr_arguments_bad = 7

abbrev pub ckr_object_handle_invalid : ℕ
ckr_object_handle_invalid = 0x82

abbrev pub start : ModuleState
start = record { initialised = false; certs = []; sign_handle = none; find_position = 0 }

-- `reply` is the outcome of `ipc::list_certs`.
unfoldable pub initialize : Result P11Error (List P11Cert) → ModuleState → ModuleState × ℕ
initialize reply s = (record s { certs = unwrap_or reply []; initialised = true }, ckr_ok)

unfoldable pub finalize : ModuleState → ModuleState × ℕ
finalize s = (record s { initialised = false; certs = [] }, ckr_ok)

-- The list and the count are where the caller's pointers lead.
unfoldable pub get_slot_list : Option ℕ → Option ℕ → Option ℕ × Option ℕ × ℕ
get_slot_list slot none = (slot, none, ckr_arguments_bad)
get_slot_list none (some count) = (none, some 1, ckr_ok)
get_slot_list (some slot) (some count) =
    if leb 1 count then (some 0, some 1, ckr_ok) else (some slot, some count, ckr_arguments_bad)

unfoldable pub find_objects_init : Result P11Error (List P11Cert) → ModuleState → ModuleState × ℕ
find_objects_init reply s = (record s { certs = unwrap_or reply []; find_position = 0 }, ckr_ok)

-- The loop of `C_FindObjects`, to the handles that it writes.
unfoldable pub find_handles : ℕ → ℕ → ℕ → List ℕ
find_handles zero place total = []
find_handles (suc max) place total =
    let rest = find_handles max (suc place) total in if ltb place total then place ∷ rest else []

abbrev pub object_count : ModuleState → ℕ
object_count s = length s.certs * 2

-- With both pointers; the count that is written is the length of the list.
unfoldable pub find_objects : ℕ → ModuleState → ModuleState × List ℕ
unfolding find_handles
find_objects max s =
    let handles = find_handles max s.find_position (object_count s) in
    (record s { find_position = s.find_position + length handles }, handles)

unfoldable pub has_object : ModuleState → ℕ → Bool
has_object s handle = elim (get_elem? s.certs (handle / 2)) [ none ↦ false | some cert ↦ true ]

unfoldable pub get_attribute_value : ℕ → ModuleState → ℕ
unfolding has_object
get_attribute_value handle s = if has_object s handle then ckr_ok else ckr_object_handle_invalid

unfoldable pub sign_init : ℕ → ModuleState → ModuleState × ℕ
unfolding has_object
sign_init handle s =
    if has_object s handle
    then (record s { sign_handle = some handle }, ckr_ok)
    else (s, ckr_object_handle_invalid)

-- What `C_Sign` leaves behind its pointers: the length, and the bytes of the buffer that it writes.
pub record Signed : Type 0 where
  pub len : ℕ
  pub written : Bytes
  pub rv : ℕ

-- The buffer, if there is one, has room for `len` bytes.
abbrev pub deliver : Bool → ℕ → Bytes → Signed
deliver false len sig = record { len = length sig; written = []; rv = ckr_ok }
deliver true len sig =
    if leb (length sig) len
    then record { len = length sig; written = sig; rv = ckr_ok }
    else record { len = len; written = []; rv = ckr_arguments_bad }

-- `reply` is the outcome of `ipc::sign`; both other pointers are there.
unfoldable pub c_sign : Result P11Error Bytes → Bool → ℕ → ModuleState → Signed
c_sign reply has_buffer len s = elim s.sign_handle [
  | none ↦ record { len = len; written = []; rv = ckr_general_error }
  | some handle ↦ elim reply [
    | err e ↦ record { len = len; written = []; rv = ckr_general_error }
    | ok sig ↦ deliver has_buffer len sig
  ]
]
