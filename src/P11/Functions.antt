-- ===== src/P11/Functions.antt =====
-- crates/cone-p11/src/pkcs11_impl.rs: the function list that p11-kit calls the module through, and the
-- functions that neither read their arguments nor the state.
pub mod Slots
use traffic_cone.Common.{ℕ, Bool, true, false, Option, none, some, List, [], ◌∷◌}
use traffic_cone.P11.{ckr_ok, ckr_arguments_bad}

-- The functions of PKCS#11.
pub data CkFunction : Type 0 where
  c_initialize c_finalize c_get_info c_get_function_list c_get_slot_list : CkFunction
  c_get_slot_info c_get_token_info c_get_mechanism_list c_get_mechanism_info : CkFunction
  c_init_token c_init_pin c_set_pin c_open_session c_close_session : CkFunction
  c_close_all_sessions c_get_session_info c_get_operation_state : CkFunction
  c_set_operation_state c_login c_logout c_create_object c_copy_object : CkFunction
  c_destroy_object c_get_object_size c_get_attribute_value c_set_attribute_value : CkFunction
  c_find_objects_init c_find_objects c_find_objects_final c_encrypt_init c_encrypt : CkFunction
  c_encrypt_update c_encrypt_final c_decrypt_init c_decrypt c_decrypt_update : CkFunction
  c_decrypt_final c_digest_init c_digest c_digest_update c_digest_key : CkFunction
  c_digest_final c_sign_init c_sign c_sign_update c_sign_final c_sign_recover_init : CkFunction
  c_sign_recover c_verify_init c_verify c_verify_update c_verify_final : CkFunction
  c_verify_recover_init c_verify_recover c_digest_encrypt_update : CkFunction
  c_decrypt_digest_update c_sign_encrypt_update c_decrypt_verify_update : CkFunction
  c_generate_key c_generate_key_pair c_wrap_key c_unwrap_key c_derive_key : CkFunction
  c_seed_random c_generate_random c_get_function_status c_cancel_function : CkFunction
  c_wait_for_slot_event : CkFunction

-- The fields of `CK_FUNCTION_LIST` after `version`, in order.
abbrev pub fields : List CkFunction
fields =
    c_initialize ∷ c_finalize ∷ c_get_info ∷ c_get_function_list ∷ c_get_slot_list ∷ c_get_slot_info
    ∷ c_get_token_info ∷ c_get_mechanism_list ∷ c_get_mechanism_info ∷ c_init_token ∷ c_init_pin
    ∷ c_set_pin ∷ c_open_session ∷ c_close_session ∷ c_close_all_sessions ∷ c_get_session_info
    ∷ c_get_operation_state ∷ c_set_operation_state ∷ c_login ∷ c_logout ∷ c_create_object
    ∷ c_copy_object ∷ c_destroy_object ∷ c_get_object_size ∷ c_get_attribute_value
    ∷ c_set_attribute_value ∷ c_find_objects_init ∷ c_find_objects ∷ c_find_objects_final
    ∷ c_encrypt_init ∷ c_encrypt ∷ c_encrypt_update ∷ c_encrypt_final ∷ c_decrypt_init ∷ c_decrypt
    ∷ c_decrypt_update ∷ c_decrypt_final ∷ c_digest_init ∷ c_digest ∷ c_digest_update ∷ c_digest_key
    ∷ c_digest_final ∷ c_sign_init ∷ c_sign ∷ c_sign_update ∷ c_sign_final ∷ c_sign_recover_init
    ∷ c_sign_recover ∷ c_verify_init ∷ c_verify ∷ c_verify_update ∷ c_verify_final
    ∷ c_verify_recover_init ∷ c_verify_recover ∷ c_digest_encrypt_update ∷ c_decrypt_digest_update
    ∷ c_sign_encrypt_update ∷ c_decrypt_verify_update ∷ c_generate_key ∷ c_generate_key_pair
    ∷ c_wrap_key ∷ c_unwrap_key ∷ c_derive_key ∷ c_seed_random ∷ c_generate_random
    ∷ c_get_function_status ∷ c_cancel_function ∷ c_wait_for_slot_event ∷ []

-- `CK_FUNCTION_LIST`, with the pointers in the order of the fields.
pub record FunctionList : Type 0 where
  pub version : ℕ × ℕ
  pub functions : List (Option CkFunction)

-- `FUNCTION_LIST`
abbrev pub function_list : FunctionList
function_list = record {
  version = (2, 40);
  functions =
      some c_initialize
      ∷ some c_finalize
      ∷ some c_get_info
      ∷ some c_get_function_list
      ∷ some c_get_slot_list
      ∷ some c_get_slot_info
      ∷ some c_get_token_info
      ∷ some c_get_mechanism_list
      ∷ some c_get_mechanism_info
      ∷ none
      ∷ none
      ∷ none
      ∷ some c_open_session
      ∷ some c_close_session
      ∷ some c_close_all_sessions
      ∷ some c_get_session_info
      ∷ none
      ∷ none
      ∷ some c_login
      ∷ some c_logout
      ∷ some c_create_object
      ∷ none
      ∷ some c_destroy_object
      ∷ none
      ∷ some c_get_attribute_value
      ∷ none
      ∷ some c_find_objects_init
      ∷ some c_find_objects
      ∷ some c_find_objects_final
      ∷ some c_encrypt_init
      ∷ some c_encrypt
      ∷ none
      ∷ none
      ∷ some c_decrypt_init
      ∷ some c_decrypt
      ∷ none
      ∷ none
      ∷ some c_digest_init
      ∷ some c_digest
      ∷ none
      ∷ none
      ∷ none
      ∷ some c_sign_init
      ∷ some c_sign
      ∷ none
      ∷ none
      ∷ none
      ∷ none
      ∷ some c_verify_init
      ∷ some c_verify
      ∷ none
      ∷ none
      ∷ none
      ∷ none
      ∷ none
      ∷ none
      ∷ none
      ∷ none
      ∷ some c_generate_key
      ∷ some c_generate_key_pair
      ∷ some c_wrap_key
      ∷ some c_unwrap_key
      ∷ some c_derive_key
      ∷ some c_seed_random
      ∷ some c_generate_random
      ∷ none
      ∷ none
      ∷ none
      ∷ [];
}

-- `C_GetFunctionList`: what it writes through its pointer.
unfoldable pub get_function_list : Bool → Option FunctionList × ℕ
get_function_list false = (none, ckr_arguments_bad)
get_function_list true = (some function_list, ckr_ok)

abbrev pub ckr_function_not_supported : ℕ
ckr_function_not_supported = 0x54

-- The functions whose body is a return value alone.
unfoldable pub constant : CkFunction → Option ℕ
constant c_get_info = some ckr_ok
constant c_get_slot_info = some ckr_ok
constant c_get_mechanism_info = some ckr_ok
constant c_close_session = some ckr_ok
constant c_close_all_sessions = some ckr_ok
constant c_find_objects_final = some ckr_ok
constant c_get_session_info = some ckr_function_not_supported
constant c_login = some ckr_function_not_supported
constant c_logout = some ckr_function_not_supported
constant c_create_object = some ckr_function_not_supported
constant c_destroy_object = some ckr_function_not_supported
constant c_encrypt_init = some ckr_function_not_supported
constant c_encrypt = some ckr_function_not_supported
constant c_decrypt_init = some ckr_function_not_supported
constant c_decrypt = some ckr_function_not_supported
constant c_digest_init = some ckr_function_not_supported
constant c_digest = some ckr_function_not_supported
constant c_verify_init = some ckr_function_not_supported
constant c_verify = some ckr_function_not_supported
constant c_generate_key = some ckr_function_not_supported
constant c_generate_key_pair = some ckr_function_not_supported
constant c_wrap_key = some ckr_function_not_supported
constant c_unwrap_key = some ckr_function_not_supported
constant c_derive_key = some ckr_function_not_supported
constant c_seed_random = some ckr_function_not_supported
constant c_generate_random = some ckr_function_not_supported
constant f = none

-- The functions that the file defines.
unfoldable pub defined : CkFunction → Bool
defined c_get_function_list = true
defined c_initialize = true
defined c_finalize = true
defined c_get_info = true
defined c_get_slot_list = true
defined c_get_slot_info = true
defined c_get_token_info = true
defined c_get_mechanism_list = true
defined c_get_mechanism_info = true
defined c_open_session = true
defined c_close_session = true
defined c_close_all_sessions = true
defined c_get_session_info = true
defined c_find_objects_init = true
defined c_find_objects = true
defined c_find_objects_final = true
defined c_get_attribute_value = true
defined c_sign_init = true
defined c_sign = true
defined c_login = true
defined c_logout = true
defined c_create_object = true
defined c_destroy_object = true
defined c_encrypt_init = true
defined c_encrypt = true
defined c_decrypt_init = true
defined c_decrypt = true
defined c_digest_init = true
defined c_digest = true
defined c_verify_init = true
defined c_verify = true
defined c_generate_key = true
defined c_generate_key_pair = true
defined c_wrap_key = true
defined c_unwrap_key = true
defined c_derive_key = true
defined c_seed_random = true
defined c_generate_random = true
defined f = false
