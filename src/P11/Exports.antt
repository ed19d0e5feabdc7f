-- ===== src/P11/Exports.antt =====
-- crates/cone-p11/src/pkcs11_impl.rs: every function of the module as its callers see it, with the
-- pointers that they may leave out.
pub mod Failed
pub mod Handles
pub mod Bounds
pub mod Finalized
use traffic_cone.Common.{ℕ, ◌≡◌, Bool, true, false, Option, none, some, List, [], ◌∷◌, Bytes}
use traffic_cone.P11.{
  Signed, ckr_ok, ckr_arguments_bad, get_slot_list, find_objects, get_attribute_value,
}
use traffic_cone.P11.Client.{
  P11Crates, P11Module, Peer, Call, Outcome, returned, signed, initialize_call,
  find_objects_init_call, finalize_call, sign_init_call, sign_call, step,
}
use traffic_cone.P11.Functions.{CkFunction, constant, FunctionList, get_function_list}
use traffic_cone.P11.Token.{CkTokenInfo, get_token_info, get_mechanism_list, open_session}

-- A call of a function, with what stands behind its pointers.
pub data Export : Type 0 where
  initialize_export find_objects_init_export : Peer → Export
  finalize_export : Export
  get_function_list_export get_token_info_export get_mechanism_list_export open_session_export :
      Bool → Export
  get_slot_list_export : Option ℕ → Option ℕ → Export
  find_objects_export : Bool → Bool → ℕ → Export
  get_attribute_value_export sign_init_export : ℕ → Export
  sign_export : Peer → ℕ → Option Bytes → Bool → Option ℕ → Export
  constant_export : (f : CkFunction) (rv : ℕ) → constant f ≡ some rv → Export

-- What a call leaves behind the pointers.
pub data Written : Type 0 where
  nothing : Written
  function_list_written : Option FunctionList → Written
  token_written : Option CkTokenInfo → Written
  number_written : Option ℕ → Written
  slots_written : Option ℕ → Option ℕ → Written
  handles_written : List ℕ → Written
  signature_written : Signed → Written

-- What a function returns: a value, and what it has written.
abbrev pub answer_of : Outcome → ℕ × Written
answer_of (returned rv) = (rv, nothing)
answer_of (signed s) = (s.rv, signature_written s)

module _ (x : P11Crates) where
  abbrev pub stepped : P11Module → Call → P11Module × ℕ × Written
  stepped m call =
      let (m', outcome) = step x m call in
      let (rv, written) = answer_of outcome in (m', rv, written)

  unfoldable pub invoke : P11Module → Export → P11Module × ℕ × Written
  unfolding step get_slot_list get_function_list get_token_info get_mechanism_list open_session
      find_objects get_attribute_value
  invoke m (initialize_export peer) = stepped m (initialize_call peer)
  invoke m (find_objects_init_export peer) = stepped m (find_objects_init_call peer)
  invoke m finalize_export = stepped m finalize_call
  invoke m (get_function_list_export there) =
      let (list, rv) = get_function_list there in (m, rv, function_list_written list)
  invoke m (get_token_info_export there) =
      let (info, rv) = get_token_info there in (m, rv, token_written info)
  invoke m (get_mechanism_list_export there) =
      let (count, rv) = get_mechanism_list there in (m, rv, number_written count)
  invoke m (open_session_export there) =
      let (handle, rv) = open_session there in (m, rv, number_written handle)
  invoke m (get_slot_list_export slot count) =
      let (slot', count', rv) = get_slot_list slot count in (m, rv, slots_written slot' count')
  invoke m (find_objects_export true true max) =
      let (s, handles) = find_objects max m.state in
      (record m { state = s }, ckr_ok, handles_written handles)
  invoke m (find_objects_export true false max) = (m, ckr_arguments_bad, nothing)
  invoke m (find_objects_export false there max) = (m, ckr_arguments_bad, nothing)
  invoke m (get_attribute_value_export handle) = (m, get_attribute_value handle m.state, nothing)
  invoke m (sign_init_export handle) = stepped m (sign_init_call handle)
  invoke m (sign_export peer pid (some str) has_buffer (some len)) =
      stepped m (sign_call peer pid str has_buffer len)
  invoke m (sign_export peer pid (some str) has_buffer none) = (m, ckr_arguments_bad, nothing)
  invoke m (sign_export peer pid none has_buffer len) = (m, ckr_arguments_bad, nothing)
  invoke m (constant_export f rv e) = (m, rv, nothing)

  unfoldable pub invoke_all : P11Module → List Export → P11Module
  unfolding invoke
  invoke_all m [] = m
  invoke_all m (e ∷ es) = invoke_all (invoke m e).0 es
