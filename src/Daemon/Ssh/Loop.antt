-- ===== src/Daemon/Ssh/Loop.antt =====
-- The conversation on a connection ends: each message takes bytes off the stream.
use traffic_cone.Common.{
  ℕ, zero, suc, ◌≤◌, ◌<◌, ◌≡◌, refl, sym, ◌∙◌, subst, inl, inr, ◌||◌, some, [], ◌∷◌, ◌++◌, arith,
  ltb, ◌==◌, Bool-cases, Option-cases, length, ok, Result-cases, Bytes,
}
use traffic_cone.Store.Handle.{Store}
use traffic_cone.Store.Crypto.{Crates}
use traffic_cone.Daemon.Wire.{read_u32, read_exact}
use traffic_cone.Daemon.Ssh.{
  Step, message_limit, SshCrates, converse, handle_message, handle_sized, closed, failed, replied,
}

read_exact-length :
    (n : ℕ) (input : Bytes) {taken rest : Bytes}
    → read_exact n input ≡ some (taken, rest)
    → length rest ≤ length input
unfolding read_exact
read_exact-length zero input {taken} {rest} h =
    let e : input ≡ rest = cc h in subst (λ (r : Bytes). length r ≤ length input) e (omega arith)
read_exact-length (suc n) [] h = cc
read_exact-length (suc n) (b ∷ input) {taken} {rest} h = elim (Option-cases (read_exact n input)) [
  | inl e ↦ cc (rw (e, read_exact) at h)
  | inr ((t, r), e) ↦
      let ih = read_exact-length n input e in
      let er : r ≡ rest = cc (rw (e, read_exact) at h) in
      subst (λ (z : Bytes). length z ≤ suc (length input)) er (omega (arith, ih))
]

read_u32-length :
    (input : Bytes) {n : ℕ} {rest : Bytes}
    → read_u32 input ≡ ok (n, rest)
    → length rest < length input
unfolding read_u32
read_u32-length [] h = cc
read_u32-length (a ∷ []) h = cc
read_u32-length (a ∷ b ∷ []) h = cc
read_u32-length (a ∷ b ∷ c ∷ []) h = cc
read_u32-length (a ∷ b ∷ c ∷ d ∷ left) {n} {rest} h =
    let e : left ≡ rest = cc h in
    subst (λ (z : Bytes). length z < suc (suc (suc (suc (length left))))) e (omega arith)

handle_sized-shrinks :
    (c : Crates) (x : SshCrates) (s : Store) (len : ℕ) (left : Bytes) {reply rest : Bytes}
    → handle_sized c x s (len, left) ≡ replied reply rest
    → length rest ≤ length left
unfolding handle_sized
handle_sized-shrinks c x s len left {reply} {rest} h =
    elim (Bool-cases (len == 0 || ltb message_limit len)) [
      | inl b ↦ cc (rw (b, handle_sized) at h)
      | inr b ↦ elim (Option-cases (read_exact len left)) [
        | inl e ↦ cc (rw (b, e, handle_sized) at h)
        | inr ((msg, r), e) ↦
            let er : r ≡ rest = cc (rw (b, e, handle_sized) at h) in
            subst (λ (z : Bytes). length z ≤ length left) er (read_exact-length len left e)
      ]
    ]

read_first :
    (c : Crates) (x : SshCrates) (s : Store) (stream : Bytes) (len : ℕ) (left : Bytes)
    → read_u32 stream ≡ ok (len, left)
    → handle_message c x s stream ≡ handle_sized c x s (len, left)
unfolding handle_message
read_first c x s stream len left r = rw (r, handle_message) refl

handle_message-shrinks :
    (c : Crates) (x : SshCrates) (s : Store) (stream : Bytes) {reply rest : Bytes}
    → handle_message c x s stream ≡ replied reply rest
    → length rest < length stream
unfolding handle_message handle_sized
handle_message-shrinks c x s stream {reply} {rest} h = elim (Result-cases (read_u32 stream)) [
  | inr (e, r) ↦ cc (rw (r, handle_message) at h)
  | inl ((len, left), r) ↦
      let step : handle_sized c x s (len, left) ≡ replied reply rest =
        sym (read_first c x s stream len left r) ∙ h in
      let below = read_u32-length stream r in
      omega (arith, below, handle_sized-shrinks c x s len left step)
]

-- Fuel above the length of the stream is enough for the conversation on it to come to its end.
pub converse-total :
    (c : Crates) (x : SshCrates) (s : Store) (fuel : ℕ) (stream : Bytes)
    → length stream < fuel
    → (output : Bytes) × (converse c x fuel s stream ≡ some output)
unfolding converse
converse-total c x s zero stream h = absurd (omega (arith, h))
converse-total c x s (suc fuel) stream h =
    go (handle_message c x s stream) refl (λ rest b. converse-total c x s fuel rest b)
  where
    go :
        (step : Step)
        → handle_message c x s stream ≡ step
        → ((rest : Bytes)
            → length rest < fuel
            → (output : Bytes) × (converse c x fuel s rest ≡ some output))
        → (output : Bytes) × (converse c x (suc fuel) s stream ≡ some output)
    go closed e ends = ([], rw (e, converse) refl)
    go failed e ends = ([], rw (e, converse) refl)
    go (replied reply rest) e ends =
        let below = handle_message-shrinks c x s stream e in
        let (more, em) = ends rest (omega (arith, below, h)) in
        (reply ++ more, rw (e, converse) (rw em refl))
