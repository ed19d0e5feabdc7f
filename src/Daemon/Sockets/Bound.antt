-- ===== src/Daemon/Sockets/Bound.antt =====
-- Under which name an abstract socket is bound, and what becomes of its descriptor.
use traffic_cone.Common.{
  get_elem?, ℕ, zero, suc, ◌+◌, ◌-◌, ◌<◌, ◌≡◌, refl, ap, ◌∙◌, subst, ◌⊎◌, inl, inr, false, Option,
  none, some, List, [], ◌∷◌, ◌++◌, arith, Bool-cases, Option-cases, length, take, drop, All, In,
  Text, Bytes,
}
use traffic_cone.Common.Int.{ℤ, pos, negsuc}
use native.Mathlib.Decide.{dec_le}
use traffic_cone.Daemon.Sockets.{
  socket_failed, SockAddr, SocketCalls, SysCall, socket_call, bind_call, listen_call, close_call,
  Attempt, bound, bailed, panicked, af_unix, zeroed, write_at, write_name, sun_path_of, addr_len_of,
  is_negative, listen_on, bind_to, with_descriptor, bind_abstract_socket,
}

-- The name that Linux takes from the address of an abstract socket: the bytes after the first one, as
-- many as the length leaves.
abbrev pub abstract_name : SockAddr → ℕ → Text
abstract_name addr len = take (len - 3) (drop 1 addr.sun_path)

abbrev push : ℕ → Option Bytes → Option Bytes
push x none = none
push x (some ys) = some (x ∷ ys)

-- Past its first byte, a path is written as one that begins after it.
write_name-suc :
    (i : ℕ) (name : Text) (x : ℕ) (path : Bytes)
    → write_name (suc i) name (x ∷ path) ≡ push x (write_name i name path)
unfolding write_name write_at
write_name-suc i [] x path = refl
write_name-suc i (b ∷ name) x path = elim (Option-cases (write_at i b path)) [
  | inl e ↦ rw (e, write_name, write_at) refl
  | inr (path', e) ↦ rw (e, write_name, write_at) (write_name-suc (suc i) name x path')
]

write_name-fits :
    (name : Text) (left : ℕ)
    → write_name 0 name (zeroed (length name + left)) ≡ some (name ++ zeroed left)
unfolding write_name write_at zeroed
write_name-fits [] left = let e : 0 + left ≡ left = omega arith in rw e refl
write_name-fits (b ∷ name) left =
    let e : suc (length name) + left ≡ suc (length name + left) = omega arith in
    rw (e, write_name-suc 0 name b (zeroed (length name + left)), write_name-fits name left) refl

write_name-overflows : (name : Text) (n : ℕ) → n < length name → write_name 0 name (zeroed n) ≡ none
unfolding write_name write_at zeroed
write_name-overflows [] n h = absurd (omega arith)
write_name-overflows (b ∷ name) zero h = refl
write_name-overflows (b ∷ name) (suc n) h =
    rw (write_name-suc 0 name b (zeroed n), write_name-overflows name n (omega arith)) refl

sun_path_of-fits :
    (name : Text) (left : ℕ)
    → length name + left ≡ 107
    → sun_path_of name ≡ some (0 ∷ (name ++ zeroed left))
unfolding sun_path_of zeroed
sun_path_of-fits name left e =
    write_name-suc 0 name 0 (zeroed 107)
    ∙ ap (push 0) (
        subst (λ n. write_name 0 name (zeroed n) ≡ some (name ++ zeroed left)) e
          (write_name-fits name left))

sun_path_of-overflows : (name : Text) → 107 < length name → sun_path_of name ≡ none
unfolding sun_path_of zeroed
sun_path_of-overflows name h =
    write_name-suc 0 name 0 (zeroed 107) ∙ ap (push 0) (write_name-overflows name 107 h)

take_front : (xs ys : Text) → take (length xs) (xs ++ ys) ≡ xs
take_front [] ys = refl
take_front (x ∷ xs) ys = ap (λ (t : Text). x ∷ t) (take_front xs ys)

-- Every `bind` is for the abstract address with this name: its path begins with a 0.
abbrev pub Named : Text → SysCall → Type 0
Named name (bind_call addr len) =
    (addr.sun_family ≡ af_unix)
    × (get_elem? addr.sun_path 0 ≡ some 0)
    × (abstract_name addr len ≡ name)
Named name socket_call = Unit
Named name (listen_call fd) = Unit
Named name (close_call fd) = Unit

-- What becomes of the descriptor, by how the attempt ended.
abbrev pub Ends : SocketCalls → Text → List SysCall × Attempt → Type 0
Ends calls name (trace, bound fd) =
    (addr : SockAddr) × (trace
      ≡ socket_call ∷ bind_call addr (addr_len_of name) ∷ listen_call fd ∷ [])
    × (calls.socket ≡ pos fd)
    × (is_negative (calls.bind fd addr (addr_len_of name)) ≡ false)
    × (is_negative (calls.listen fd 128) ≡ false)
Ends calls name (trace, bailed e) =
    ((n : ℕ) × (calls.socket ≡ negsuc n) × (trace ≡ socket_call ∷ []))
    ⊎ ((fd : ℕ) × (calls.socket ≡ pos fd) × In (close_call fd) trace)
Ends calls name (trace, panicked) = 107 < length name

module _ (calls : SocketCalls) (name : Text) where
  abbrev Settled : ℕ → List SysCall × Attempt → Type 0
  Settled fd (trace, attempt) =
      All (Named name) (socket_call ∷ trace) × Ends calls name (socket_call ∷ trace, attempt)

  bind_to-Settled :
      (fd : ℕ) (addr : SockAddr)
      → calls.socket ≡ pos fd
      → Named name (bind_call addr (addr_len_of name))
      → Settled fd (bind_to calls fd addr (addr_len_of name))
  unfolding bind_to listen_on
  bind_to-Settled fd addr s named =
      elim (Bool-cases (is_negative (calls.bind fd addr (addr_len_of name)))) [
        | inl b ↦ rw (b, bind_to) ((tt, (named, (tt, tt))), inr (fd, s, inr (inr (inl refl))))
        | inr b ↦ elim (Bool-cases (is_negative (calls.listen fd 128))) [
          | inl l ↦
              rw (b, l, bind_to, listen_on)
                ((tt, (named, (tt, (tt, tt)))), inr (fd, s, inr (inr (inr (inl refl)))))
          | inr l ↦ rw (b, l, bind_to, listen_on) ((tt, (named, (tt, tt))), (addr, refl, s, b, l))
        ]
      ]

  with_descriptor-bind_to :
      (fd : ℕ) {path : Bytes}
      → sun_path_of name ≡ some path
      → with_descriptor calls fd name
        ≡ bind_to calls fd (record { sun_family = af_unix; sun_path = path }) (addr_len_of name)
  unfolding with_descriptor
  with_descriptor-bind_to fd e = rw (e, with_descriptor) refl

  name_left : (ys : Bytes) → take (addr_len_of name - 3) (name ++ ys) ≡ name
  name_left ys =
      let e : addr_len_of name - 3 ≡ length name = omega arith in
      ap (λ (n : ℕ). take n (name ++ ys)) e ∙ take_front name ys

  opened-Settled : (fd : ℕ) → calls.socket ≡ pos fd → Settled fd (with_descriptor calls fd name)
  opened-Settled fd s = elim (dec_le (length name) 107) [
    | no long ↦
        let e : with_descriptor calls fd name ≡ ([], panicked) =
          unfold with_descriptor in
          (rw (sun_path_of-overflows name (omega arith), with_descriptor) refl) in
        rw e ((tt, tt), omega arith)
    | yes short ↦
        rw (with_descriptor-bind_to fd (sun_path_of-fits name (107 - length name) (omega arith)))
          (bind_to-Settled fd _ s (refl, refl, name_left (zeroed (107 - length name))))
  ]

  without_socket :
      (n : ℕ)
      → calls.socket ≡ negsuc n
      → bind_abstract_socket calls name ≡ (socket_call ∷ [], bailed socket_failed)
  unfolding bind_abstract_socket
  without_socket n s = simp (s, bind_abstract_socket) refl

  with_socket :
      (fd : ℕ)
      → calls.socket ≡ pos fd
      → bind_abstract_socket calls name
        ≡ (socket_call ∷ (with_descriptor calls fd name).0, (with_descriptor calls fd name).1)
  unfolding bind_abstract_socket
  with_socket fd s = simp (s, bind_abstract_socket) refl

  -- With the kernel's answer to `socket` as a variable.
  answered :
      (fd : ℤ)
      → calls.socket ≡ fd
      → All (Named name) (bind_abstract_socket calls name).0
        × Ends calls name (bind_abstract_socket calls name)
  answered (negsuc n) s = rw (without_socket n s) ((tt, tt), inl (n, s, refl))
  answered (pos fd) s = rw (with_socket fd s) (opened-Settled fd s)

  -- Whatever the kernel answers, every address that `bind_abstract_socket` binds is a path that begins
  -- with a 0, that of an abstract socket, whose name is the whole name that was given; it returns a descriptor only if `bind` and `listen` on it have
  -- succeeded; where it fails after `socket` it has closed the descriptor; and it panics only for a name
  -- of more than 107 bytes.
  pub bind_abstract_socket-Ends :
      All (Named name) (bind_abstract_socket calls name).0
      × Ends calls name (bind_abstract_socket calls name)
  bind_abstract_socket-Ends = answered calls.socket refl
