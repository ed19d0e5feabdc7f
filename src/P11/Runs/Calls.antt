-- ===== src/P11/Runs/Calls.antt =====
-- The functions of the module, called by way of its function list.
use traffic_cone.Common.{false, ◌≡◌, refl, ◌≢◌, arith, true, none, some, [], ◌∷◌, codes}
use traffic_cone.P11.{start, ckr_ok}
use traffic_cone.P11.Client.{P11Crates, P11Module, signature}
use traffic_cone.P11.Exports.Bounds.{Fits, invoke-Fits}
use traffic_cone.P11.Exports.Finalized.{Empty, invoke_all-Empty}
use traffic_cone.P11.Exports.{
  invoke_all, find_objects_export, finalize_export, Export, invoke, sign_init_export, sign_export,
}
use traffic_cone.P11.Exports.Failed.{Local, invoke-failed}
use traffic_cone.P11.Exports.Handles.{sign_export-any_handle}

abbrev plain_p11 : P11Crates
plain_p11 = record { to_vec = λ r. []; from_slice = λ buf. some (signature (codes "c1") (5 ∷ [])) }

-- Two certificates, and no key chosen.
abbrev listed : P11Module
listed = record {
  state = record start {
    certs =
        record { id = 0 ∷ []; label = codes "a"; cert_der = []; fingerprint = [] }
        ∷ record { id = 1 ∷ []; label = codes "b"; cert_der = []; fingerprint = [] }
        ∷ [];
  };
  connection = none;
}

unknown : (invoke plain_p11 listed (sign_init_export 9)).1 ≢ ckr_ok
unfolding invoke traffic_cone.P11.Client.step traffic_cone.P11.sign_init traffic_cone.P11.has_object
unknown h = omega (arith, h)

invoke-failed_example :
    ((invoke plain_p11 listed (sign_init_export 9)).0.state ≡ listed.state)
    × (Local (sign_init_export 9) → (invoke plain_p11 listed (sign_init_export 9)).0 ≡ listed)
invoke-failed_example = invoke-failed plain_p11 listed (sign_init_export 9) unknown

first_accepted : (invoke plain_p11 listed (sign_init_export 1)).1 ≡ ckr_ok
unfolding invoke traffic_cone.P11.Client.step traffic_cone.P11.sign_init traffic_cone.P11.has_object
first_accepted = refl

second_accepted : (invoke plain_p11 listed (sign_init_export 3)).1 ≡ ckr_ok
unfolding invoke traffic_cone.P11.Client.step traffic_cone.P11.sign_init traffic_cone.P11.has_object
second_accepted = refl

-- A signature of the same bytes with either key.
abbrev signing : Export
signing = sign_export (some (λ buf. (0 ∷ 0 ∷ 0 ∷ 0 ∷ [], false))) 7 (some (8 ∷ [])) true (some 64)

sign_export-any_handle_example :
    let after = invoke plain_p11 (invoke plain_p11 listed (sign_init_export 1)).0 signing in
    let after' = invoke plain_p11 (invoke plain_p11 listed (sign_init_export 3)).0 signing in
    (after.1 ≡ after'.1) × (after.2 ≡ after'.2) × (after.0.connection ≡ after'.0.connection)
sign_export-any_handle_example =
    sign_export-any_handle plain_p11 listed 1 3 (some (λ buf. (0 ∷ 0 ∷ 0 ∷ 0 ∷ [], false))) 7
      (some (8 ∷ [])) true (some 64) first_accepted second_accepted

invoke-Fits_example :
    Fits
      (find_objects_export true true 3)
      (invoke plain_p11 listed (find_objects_export true true 3)).2
invoke-Fits_example = invoke-Fits plain_p11 listed (find_objects_export true true 3)

invoke_all-Empty_example : Empty plain_p11 (
    invoke_all plain_p11
      (invoke plain_p11 listed finalize_export).0
      (find_objects_export true true 4 ∷ signing ∷ []))
invoke_all-Empty_example =
    invoke_all-Empty plain_p11 listed (find_objects_export true true 4 ∷ signing ∷ [])
      (tt, (tt, tt))
