-- ===== src/P11/Exports/Bounds.antt =====
-- What a function writes behind the pointers of its caller.
use traffic_cone.Common.{
  Bool, [], Result, Bytes, ℕ, zero, suc, ◌*◌, ◌≤◌, ◌≡◌, refl, ◌⊎◌, inl, inr, true, false, Option,
  none, some, arith, leb, Bool-cases, length,
}
use traffic_cone.P11.{P11Error, ModuleState, c_sign, find_handles, get_slot_list}
use traffic_cone.P11.Client.{P11Crates, P11Module, step, sign_reply}
use traffic_cone.P11.Functions.{get_function_list}
use traffic_cone.P11.Token.{get_token_info, get_mechanism_list, open_session}
use traffic_cone.P11.Signing.{c_sign-bounds}
use traffic_cone.P11.Exports.{
  Export, Written, invoke, initialize_export, find_objects_init_export, finalize_export,
  get_function_list_export, get_token_info_export, get_mechanism_list_export, open_session_export,
  get_slot_list_export, find_objects_export, get_attribute_value_export, sign_init_export,
  sign_export, constant_export, nothing, handles_written, signature_written, slots_written,
  function_list_written, token_written, number_written,
}

length-find_handles : (max place total : ℕ) → length (find_handles max place total) ≤ max
unfolding find_handles
length-find_handles zero place total = omega arith
length-find_handles (suc max) place total =
    ground (arith, length-find_handles max (suc place) total)

-- Nothing is written.
abbrev pub Untouched : Written → Type 0
Untouched nothing = Unit
Untouched (function_list_written list) = list ≡ none
Untouched (token_written info) = info ≡ none
Untouched (number_written n) = n ≡ none
Untouched (slots_written slot count) = ⊥
Untouched (handles_written hs) = hs ≡ []
Untouched (signature_written s) = s.written ≡ []

abbrev pub SignatureFits : ℕ → Written → Type 0
SignatureFits len (signature_written s) = length s.written ≤ len
SignatureFits len w = Untouched w

abbrev pub HandlesFit : ℕ → Written → Type 0
HandlesFit max (handles_written hs) = length hs ≤ max
HandlesFit max w = Untouched w

-- Nothing appears behind a null pointer.
abbrev pub StaysNull : Option ℕ → Option ℕ → Type 0
StaysNull none after = after ≡ none
StaysNull (some n) after = Unit

-- The slot and the count are where the two pointers lead, before and after.
abbrev pub SlotsFit : Option ℕ → Option ℕ → Written → Type 0
SlotsFit slot count (slots_written slot' count') =
    StaysNull slot slot'
    × StaysNull count count'
    × ((slot' ≡ slot) ⊎ ((n : ℕ) × (count ≡ some n) × (1 ≤ n)))
SlotsFit slot count w = Untouched w

-- A pointer to one value.
abbrev pub ValueFits : Bool → Written → Type 0
ValueFits false w = Untouched w
ValueFits true w = Unit

-- What is written, by the pointers of the call.
abbrev pub Fits : Export → Written → Type 0
Fits (sign_export peer pid (some str) true (some len)) w = SignatureFits len w
Fits (sign_export peer pid (some str) false (some len)) w = Untouched w
Fits (sign_export peer pid (some str) has_buffer none) w = Untouched w
Fits (sign_export peer pid none has_buffer len) w = Untouched w
Fits (find_objects_export true true max) w = HandlesFit max w
Fits (find_objects_export true false max) w = Untouched w
Fits (find_objects_export false there max) w = Untouched w
Fits (get_slot_list_export slot count) w = SlotsFit slot count w
Fits (get_function_list_export there) w = ValueFits there w
Fits (get_token_info_export there) w = ValueFits there w
Fits (get_mechanism_list_export there) w = ValueFits there w
Fits (open_session_export there) w = ValueFits there w
Fits (initialize_export peer) w = Untouched w
Fits (find_objects_init_export peer) w = Untouched w
Fits finalize_export w = Untouched w
Fits (get_attribute_value_export handle) w = Untouched w
Fits (sign_init_export handle) w = Untouched w
Fits (constant_export f rv e) w = Untouched w

slot_list-Fits :
    (slot count : Option ℕ)
    → SlotsFit slot count (slots_written (get_slot_list slot count).0 (get_slot_list slot count).1)
unfolding get_slot_list
slot_list-Fits none none = (refl, refl, inl refl)
slot_list-Fits (some slot) none = (tt, refl, inl refl)
slot_list-Fits none (some count) = (refl, tt, inl refl)
slot_list-Fits (some slot) (some count) = elim (Bool-cases (leb 1 count)) [
  | inl room ↦ (tt, tt, inr (count, refl, ground arith))
  | inr full ↦ (tt, tt, inl (rw full refl))
]

-- Without a buffer no byte of the signature is written.
written-null :
    (reply : Result P11Error Bytes) (len : ℕ) (s : ModuleState)
    → (c_sign reply false len s).written ≡ []
unfolding c_sign
written-null reply len s = ground arith

module _ (x : P11Crates) where
  -- Whatever the state of the module and whatever coned answers, no function writes where its caller
  -- has given no pointer or past the room that its caller states: C_FindObjects writes at most `ul_max`
  -- handles, C_Sign no more bytes than the length that it was given and none without a buffer,
  -- C_GetSlotList a slot only where the count was at least one, and the functions that write one value
  -- only where there is a pointer to it.
  pub invoke-Fits : (m : P11Module) (e : Export) → Fits e (invoke x m e).2
  unfolding invoke step traffic_cone.P11.find_objects get_function_list get_token_info
      get_mechanism_list open_session
  invoke-Fits m (initialize_export peer) = tt
  invoke-Fits m (find_objects_init_export peer) = tt
  invoke-Fits m finalize_export = tt
  invoke-Fits m (get_function_list_export true) = tt
  invoke-Fits m (get_function_list_export false) = refl
  invoke-Fits m (get_token_info_export true) = tt
  invoke-Fits m (get_token_info_export false) = refl
  invoke-Fits m (get_mechanism_list_export true) = tt
  invoke-Fits m (get_mechanism_list_export false) = refl
  invoke-Fits m (open_session_export true) = tt
  invoke-Fits m (open_session_export false) = refl
  invoke-Fits m (get_slot_list_export slot count) = slot_list-Fits slot count
  invoke-Fits m (find_objects_export true true max) =
      length-find_handles max m.state.find_position (length m.state.certs * 2)
  invoke-Fits m (find_objects_export true false max) = tt
  invoke-Fits m (find_objects_export false there max) = tt
  invoke-Fits m (get_attribute_value_export handle) = tt
  invoke-Fits m (sign_init_export handle) = tt
  invoke-Fits m (sign_export peer pid (some str) true (some len)) =
      (c_sign-bounds (sign_reply x peer pid str m).1 true len m.state).0
  invoke-Fits m (sign_export peer pid (some str) false (some len)) =
      written-null (sign_reply x peer pid str m).1 len m.state
  invoke-Fits m (sign_export peer pid (some str) has_buffer none) = tt
  invoke-Fits m (sign_export peer pid none has_buffer none) = tt
  invoke-Fits m (sign_export peer pid none has_buffer (some len)) = tt
  invoke-Fits m (constant_export f rv e) = tt
