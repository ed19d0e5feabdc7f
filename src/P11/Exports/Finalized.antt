-- ===== src/P11/Exports/Finalized.antt =====
-- The module after C_Finalize.
use traffic_cone.Common.{
  ℕ, zero, suc, ◌*◌, ◌≡◌, refl, ap, ◌∙◌, true, false, none, some, List, [], ◌∷◌, arith, length, All,
}
use traffic_cone.P11.{
  P11Cert, ModuleState, ckr_object_handle_invalid, sign_init, has_object, find_handles,
}
use traffic_cone.P11.Client.{P11Crates, P11Module, step}
use traffic_cone.P11.Exports.{
  Export, invoke, invoke_all, initialize_export, find_objects_init_export, finalize_export,
  get_function_list_export, get_token_info_export, get_mechanism_list_export, open_session_export,
  get_slot_list_export, find_objects_export, get_attribute_value_export, sign_init_export,
  sign_export, constant_export, handles_written,
}

-- A call that does not ask coned for the certificates.
abbrev pub AsksNothing : Export → Type 0
AsksNothing (initialize_export peer) = ⊥
AsksNothing (find_objects_init_export peer) = ⊥
AsksNothing other = Unit

init_certs : (s : ModuleState) (h : ℕ) → (sign_init h s).0.certs ≡ s.certs
unfolding sign_init
init_certs s h = ground arith

no_object : (s : ModuleState) (h : ℕ) → s.certs ≡ [] → has_object s h ≡ false
unfolding has_object
no_object s h e = ground arith

no_handles : (max place : ℕ) → find_handles max place 0 ≡ []
unfolding find_handles
no_handles zero place = refl
no_handles (suc max) place = ground (arith, no_handles max (suc place))

-- There is no object that could be found, read or chosen for signing.
abbrev pub Empty : P11Crates → P11Module → Type 0
Empty x m =
    ((h : ℕ) → (invoke x m (sign_init_export h)).1 ≡ ckr_object_handle_invalid)
    × ((h : ℕ) → (invoke x m (get_attribute_value_export h)).1 ≡ ckr_object_handle_invalid)
    × ((max : ℕ) → (invoke x m (find_objects_export true true max)).2 ≡ handles_written [])

module _ (x : P11Crates) where
  certs_kept :
      (m : P11Module) (e : Export)
      → AsksNothing e
      → m.state.certs ≡ []
      → (invoke x m e).0.state.certs ≡ []
  unfolding invoke step traffic_cone.P11.finalize traffic_cone.P11.find_objects
  certs_kept m (initialize_export peer) q h = absurd q
  certs_kept m (find_objects_init_export peer) q h = absurd q
  certs_kept m finalize_export q h = refl
  certs_kept m (get_function_list_export there) q h = h
  certs_kept m (get_token_info_export there) q h = h
  certs_kept m (get_mechanism_list_export there) q h = h
  certs_kept m (open_session_export there) q h = h
  certs_kept m (get_slot_list_export slot count) q h = h
  certs_kept m (find_objects_export true true max) q h = h
  certs_kept m (find_objects_export true false max) q h = h
  certs_kept m (find_objects_export false there max) q h = h
  certs_kept m (get_attribute_value_export handle) q h = h
  certs_kept m (sign_init_export handle) q h = init_certs m.state handle ∙ h
  certs_kept m (sign_export peer pid (some str) has_buffer (some len)) q h = h
  certs_kept m (sign_export peer pid (some str) has_buffer none) q h = h
  certs_kept m (sign_export peer pid none has_buffer len) q h = h
  certs_kept m (constant_export f rv e) q h = h

  all_kept :
      (m : P11Module) (es : List Export)
      → All AsksNothing es
      → m.state.certs ≡ []
      → (invoke_all x m es).state.certs ≡ []
  unfolding invoke_all
  all_kept m [] qs h = h
  all_kept m (e ∷ es) (q, qs) h = all_kept (invoke x m e).0 es qs (certs_kept m e q h)

  certs-Empty : (m : P11Module) → m.state.certs ≡ [] → Empty x m
  unfolding invoke step sign_init traffic_cone.P11.get_attribute_value traffic_cone.P11.find_objects
  certs-Empty m h = (
    (λ i. rw (no_object m.state i h) refl),
    (λ i. rw (no_object m.state i h) refl),
    (λ max. ap handles_written (
        ap (λ (cs : List P11Cert). find_handles max m.state.find_position (length cs * 2)) h
        ∙ no_handles max m.state.find_position)),
  )

  -- After C_Finalize no object can be found, read or chosen for signing, whatever is called, until
  -- C_Initialize or C_FindObjectsInit asks coned for the certificates again.
  pub invoke_all-Empty :
      (m : P11Module) (es : List Export)
      → All AsksNothing es
      → Empty x (invoke_all x (invoke x m finalize_export).0 es)
  unfolding invoke step traffic_cone.P11.finalize
  invoke_all-Empty m es qs =
      certs-Empty (invoke_all x (invoke x m finalize_export).0 es)
        (all_kept (invoke x m finalize_export).0 es qs refl)
