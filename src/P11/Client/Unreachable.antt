-- ===== src/P11/Client/Unreachable.antt =====
-- The module as it runs, which cannot connect to coned.
use traffic_cone.Common.{
  ℕ, ◌≡◌, refl, ap, ◌∙◌, subst, sym, Bool, Option, none, some, List, [], ◌∷◌, map,
}
use traffic_cone.P11.{
  P11Cert, ModuleState, ckr_ok, ckr_general_error, ckr_object_handle_invalid, c_sign, initialize,
  find_objects_init, finalize, sign_init, has_object,
}
use traffic_cone.P11.Client.{
  P11Crates, P11Module, Call, Outcome, Connected, returned, signed, step, run_calls, sign,
  list_certs, get_connection, send_request, disconnect, initialize_call, finalize_call,
  find_objects_init_call, sign_init_call, sign_call,
}

-- What each call gives: the functions that fetch the certificates and finalise report success, no key
-- can be chosen, and no signature is made.
abbrev pub hopeless : Call → Outcome
hopeless (initialize_call peer) = returned ckr_ok
hopeless (find_objects_init_call peer) = returned ckr_ok
hopeless finalize_call = returned ckr_ok
hopeless (sign_init_call handle) = returned ckr_object_handle_invalid
hopeless (sign_call peer pid str has_buffer len) =
    signed (record { len = len; written = []; rv = ckr_general_error })

-- No connection and no certificate.
abbrev pub CutOff : P11Module → Type 0
CutOff m = (m.connection ≡ none) × (m.state.certs ≡ [])

abbrev Unheard : P11Module → Call → P11Module × Outcome → Type 0
Unheard m call r = CutOff r.0 × (r.1 ≡ hopeless call)

module _ (x : P11Crates) where
  -- A module that is cut off, in any state otherwise.
  abbrev lonely : Bool → Option ℕ → ℕ → P11Module
  lonely initialised handle place = record {
    state = record {
      initialised = initialised;
      certs = [];
      sign_handle = handle;
      find_position = place;
    };
    connection = none;
  }

  step-lonely :
      (initialised : Bool) (handle : Option ℕ) (place : ℕ) (call : Call)
      → Unheard
          (lonely initialised handle place)
          call
          (step x (lonely initialised handle place) call)
  unfolding step initialize find_objects_init finalize sign_init has_object c_sign disconnect
      list_certs sign send_request get_connection traffic_cone.Common.Host.connect
  step-lonely i h n (initialize_call peer) = ((refl, refl), refl)
  step-lonely i h n (find_objects_init_call peer) = ((refl, refl), refl)
  step-lonely i h n finalize_call = ((refl, refl), refl)
  step-lonely i h n (sign_init_call handle) = ((refl, refl), refl)
  step-lonely i none n (sign_call peer pid str has_buffer len) = ((refl, refl), refl)
  step-lonely i (some h) n (sign_call peer pid str has_buffer len) = ((refl, refl), refl)

  step-CutOff : (m : P11Module) (call : Call) → CutOff m → Unheard m call (step x m call)
  step-CutOff m call (unconnected, empty) =
      let s : ModuleState = m.state in
      let same : m ≡ lonely s.initialised s.sign_handle s.find_position =
        ap (λ (conn : Connected). record m { connection = conn }) unconnected
        ∙ ap
            (λ (cs : List P11Cert). record m {
              state = record m.state { certs = cs };
              connection = none;
            })
            empty in
      subst (λ (t : P11Module). Unheard t call (step x t call)) (sym same)
        (step-lonely s.initialised s.sign_handle s.find_position call)

  -- From a module without a connection and without certificates, as it starts, whatever is called and
  -- whether or not coned runs: no connection is ever made, no certificate is listed, C_Initialize and
  -- C_FindObjectsInit report success, every C_SignInit refuses its handle, and every C_Sign fails and
  -- writes nothing.
  pub run_calls-unreachable :
      (calls : List Call) (m : P11Module)
      → CutOff m
      → CutOff (run_calls x m calls).0 × ((run_calls x m calls).1 ≡ map hopeless calls)
  unfolding run_calls
  run_calls-unreachable [] m h = (h, refl)
  run_calls-unreachable (call ∷ calls) m h =
      let (h', outcome) = step-CutOff m call h in
      let (last, outcomes) = run_calls-unreachable calls (step x m call).0 h' in
      (
        last,
        ap (λ o. o ∷ (run_calls x (step x m call).0 calls).1) outcome
            ∙ ap (λ os. hopeless call ∷ os) outcomes,
      )
