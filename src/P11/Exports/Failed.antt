-- ===== src/P11/Exports/Failed.antt =====
-- A call that fails.
use traffic_cone.Common.{ℕ, ◌≡◌, refl, ap, ◌≢◌, inl, inr, true, false, none, some, Bool-cases}
use traffic_cone.P11.{ckr_ok, sign_init, has_object}
use traffic_cone.P11.Client.{P11Crates, P11Module, step}
use traffic_cone.P11.Exports.{
  Export, invoke, initialize_export, find_objects_init_export, finalize_export,
  get_function_list_export, get_token_info_export, get_mechanism_list_export, open_session_export,
  get_slot_list_export, find_objects_export, get_attribute_value_export, sign_init_export,
  sign_export, constant_export,
}

-- The function sends nothing to coned.
abbrev pub Local : Export → Type 0
Local (sign_export peer pid str has_buffer len) = ⊥
Local other = Unit

module _ (x : P11Crates) where
  -- C_SignInit, which is refused where there is no object with the handle.
  refused :
      (m : P11Module) (handle : ℕ)
      → (invoke x m (sign_init_export handle)).1 ≢ ckr_ok
      → (invoke x m (sign_init_export handle)).0 ≡ m
  unfolding invoke step sign_init
  refused m handle h = elim (Bool-cases (has_object m.state handle)) [
    | inl e ↦ absurd (h (rw (e, sign_init) refl))
    | inr e ↦ rw (e, sign_init) refl
  ]

  pub invoke-failed :
      (m : P11Module) (e : Export)
      → (invoke x m e).1 ≢ ckr_ok
      → ((invoke x m e).0.state ≡ m.state) × (Local e → (invoke x m e).0 ≡ m)
  unfolding invoke step traffic_cone.P11.initialize traffic_cone.P11.find_objects_init
      traffic_cone.P11.finalize
  invoke-failed m (initialize_export peer) h = absurd (h refl)
  invoke-failed m (find_objects_init_export peer) h = absurd (h refl)
  invoke-failed m finalize_export h = absurd (h refl)
  invoke-failed m (get_function_list_export there) h = (refl, λ l. refl)
  invoke-failed m (get_token_info_export there) h = (refl, λ l. refl)
  invoke-failed m (get_mechanism_list_export there) h = (refl, λ l. refl)
  invoke-failed m (open_session_export there) h = (refl, λ l. refl)
  invoke-failed m (get_slot_list_export slot count) h = (refl, λ l. refl)
  invoke-failed m (find_objects_export true true max) h = absurd (h refl)
  invoke-failed m (find_objects_export true false max) h = (refl, λ l. refl)
  invoke-failed m (find_objects_export false there max) h = (refl, λ l. refl)
  invoke-failed m (get_attribute_value_export handle) h = (refl, λ l. refl)
  invoke-failed m (sign_init_export handle) h =
      let e : (invoke x m (sign_init_export handle)).0 ≡ m = refused m handle h in
      (ap (λ (n : P11Module). n.state) e, λ l. e)
  invoke-failed m (sign_export peer pid (some str) has_buffer (some len)) h = (refl, λ l. absurd l)
  invoke-failed m (sign_export peer pid (some str) has_buffer none) h = (refl, λ l. absurd l)
  invoke-failed m (sign_export peer pid none has_buffer len) h = (refl, λ l. absurd l)
  invoke-failed m (constant_export f rv e) h = (refl, λ l. refl)
