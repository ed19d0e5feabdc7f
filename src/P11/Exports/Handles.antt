-- ===== src/P11/Exports/Handles.antt =====
-- The key that C_SignInit has chosen.
use traffic_cone.Common.{ℕ, ◌≡◌, refl, inl, inr, Bool, Option, none, some, arith, Bool-cases, Bytes}
use traffic_cone.P11.{ModuleState, ckr_ok, sign_init, has_object, c_sign}
use traffic_cone.P11.Client.{P11Crates, P11Module, Peer, step}
use traffic_cone.P11.Exports.{invoke, sign_init_export, sign_export}

-- Once C_SignInit has accepted a handle, it is the one that the state has.
chosen :
    (s : ModuleState) (h : ℕ)
    → (sign_init h s).1 ≡ ckr_ok
    → (sign_init h s).0 ≡ record s { sign_handle = some h }
unfolding sign_init
chosen s h e = elim (Bool-cases (has_object s h)) [
  | inl f ↦ rw (f, sign_init) refl
  | inr f ↦ absurd (let p : ◌≡◌ {A = ℕ} 0x82 0 = rw f at e in omega (arith, p))
]

module _ (x : P11Crates) where
  pub sign_export-any_handle :
      (m : P11Module) (h h' : ℕ) (peer : Peer) (pid : ℕ) (str : Option Bytes) (has_buffer : Bool)
      (len : Option ℕ)
      → (invoke x m (sign_init_export h)).1 ≡ ckr_ok
      → (invoke x m (sign_init_export h')).1 ≡ ckr_ok
      → let after =
          invoke x (invoke x m (sign_init_export h)).0 (sign_export peer pid str has_buffer len) in
        let after' =
          invoke x (invoke x m (sign_init_export h')).0 (sign_export peer pid str has_buffer len) in
        (after.1 ≡ after'.1) × (after.2 ≡ after'.2) × (after.0.connection ≡ after'.0.connection)
  unfolding invoke step c_sign
  sign_export-any_handle m h h' peer pid none has_buffer len e e' = (refl, refl, refl)
  sign_export-any_handle m h h' peer pid (some str) has_buffer none e e' = (refl, refl, refl)
  sign_export-any_handle m h h' peer pid (some str) has_buffer (some len) e e' =
      rw (chosen m.state h e, chosen m.state h' e') (refl, refl, refl)
