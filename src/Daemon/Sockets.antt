-- ===== src/Daemon/Sockets.antt =====
-- The abstract sockets of coned: bind_abstract_socket, which crates/coned/src/ipc.rs and
-- crates/coned/src/ssh_agent.rs both have, and get_peer_credentials of crates/coned/src/ipc.rs. The
-- system calls are a record of what they answer.
pub mod Bound
use traffic_cone.Common.{
  ℕ, zero, suc, ◌+◌, ◌-◌, ◌%◌, ◌^◌, Bool, true, false, Option, none, some, List, [], ◌∷◌,
  if◌then◌else◌, length, Result, ok, err, Text, Bytes,
}
use traffic_cone.Common.Int.{ℤ, pos, negsuc, eqb_ℤ}
use traffic_cone.Daemon.Monitor.{Kernel}
use traffic_cone.Daemon.Ipc.{Incoming, accept_failed, no_credentials, peer}

-- `libc::sockaddr_un`
pub record SockAddr : Type 0 where
  pub sun_family : ℕ
  pub sun_path : Bytes

-- `libc::ucred`
pub record Ucred : Type 0 where
  pub pid : ℤ
  pub uid : ℕ

-- What the kernel answers to each call; a negative number is a failure.
pub record SocketCalls : Type 0 where
  pub socket : ℤ
  pub bind : ℕ → SockAddr → ℕ → ℤ
  pub listen : ℕ → ℕ → ℤ
  pub getsockopt : ℕ → ℤ × Ucred

-- The calls that the function makes, in order.
pub data SysCall : Type 0 where
  socket_call : SysCall
  bind_call : SockAddr → ℕ → SysCall
  listen_call : ℕ → SysCall
  close_call : ℕ → SysCall

pub data SocketError : Type 0 where
  socket_failed bind_failed listen_failed getsockopt_failed : SocketError

-- A write outside of `sun_path` panics.
pub data Attempt : Type 0 where
  bound : ℕ → Attempt
  bailed : SocketError → Attempt
  panicked : Attempt

abbrev pub af_unix : ℕ
af_unix = 1

-- `sun_path: [c_char; 108]`
abbrev pub path_size : ℕ
path_size = 108

unfoldable pub zeroed : ℕ → Bytes
zeroed zero = []
zeroed (suc n) = 0 ∷ zeroed n

-- `buf[i] = b`, which is none out of bounds.
unfoldable pub write_at : ℕ → ℕ → Bytes → Option Bytes
write_at i b [] = none
write_at zero b (x ∷ xs) = some (b ∷ xs)
write_at (suc i) b (x ∷ xs) = elim (write_at i b xs) [ none ↦ none | some ys ↦ some (x ∷ ys) ]

-- The loop over the bytes of the name, from an index on.
unfoldable pub write_name : ℕ → Text → Bytes → Option Bytes
unfolding write_at
write_name i [] path = some path
write_name i (b ∷ name) path = elim (write_at i b path) [
  | none ↦ none
  | some path' ↦ write_name (suc i) name path'
]

unfoldable pub sun_path_of : Text → Option Bytes
unfolding write_name zeroed
sun_path_of name = write_name 1 name (zeroed path_size)

-- `size_of::<sa_family_t>()` is 2.
abbrev pub addr_len_of : Text → ℕ
addr_len_of name = 2 + 1 + length name

abbrev pub is_negative : ℤ → Bool
is_negative (pos n) = false
is_negative (negsuc n) = true

module _ (calls : SocketCalls) where
  -- `listen` on a descriptor that has been bound.
  unfoldable pub listen_on : ℕ → List SysCall × Attempt
  listen_on fd =
      if is_negative (calls.listen fd 128)
      then (listen_call fd ∷ close_call fd ∷ [], bailed listen_failed)
      else (listen_call fd ∷ [], bound fd)

  -- `bind` and what follows it.
  unfoldable pub bind_to : ℕ → SockAddr → ℕ → List SysCall × Attempt
  unfolding listen_on
  bind_to fd addr len =
      let (trace, attempt) = listen_on fd in
      if is_negative (calls.bind fd addr len)
      then (bind_call addr len ∷ close_call fd ∷ [], bailed bind_failed)
      else (bind_call addr len ∷ trace, attempt)

  unfoldable pub with_descriptor : ℕ → Text → List SysCall × Attempt
  unfolding bind_to
  with_descriptor fd name = elim (sun_path_of name) [
    | none ↦ ([], panicked)
    | some path ↦ bind_to fd (record { sun_family = af_unix; sun_path = path }) (addr_len_of name)
  ]

  unfoldable pub bind_abstract_socket : Text → List SysCall × Attempt
  unfolding with_descriptor
  bind_abstract_socket name = elim calls.socket [
    | negsuc n ↦ (socket_call ∷ [], bailed socket_failed)
    | pos fd ↦ let (trace, attempt) = with_descriptor fd name in (socket_call ∷ trace, attempt)
  ]

  -- `ucred.pid as u32`
  abbrev pub as_u32 : ℤ → ℕ
  as_u32 (pos n) = n % 2 ^ 32
  as_u32 (negsuc n) = 2 ^ 32 - suc (n % 2 ^ 32)

  unfoldable pub get_peer_credentials : ℕ → Result SocketError (ℕ × ℕ)
  get_peer_credentials fd =
      let (ret, ucred) = calls.getsockopt fd in
      if eqb_ℤ ret (pos 0) then ok (as_u32 ucred.pid, ucred.uid) else err getsockopt_failed

  -- A connection that `incoming` yields, with the credentials that the loop of `run` asks for.
  unfoldable pub incoming_of : Option (ℕ × Bytes × Kernel) → Incoming
  unfolding get_peer_credentials
  incoming_of none = accept_failed
  incoming_of (some (fd, stream, k)) = elim (get_peer_credentials fd) [
    | err e ↦ no_credentials
    | ok (pid, uid) ↦ peer pid uid stream k
  ]
