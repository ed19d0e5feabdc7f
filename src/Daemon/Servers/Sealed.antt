-- ===== src/Daemon/Servers/Sealed.antt =====
-- What the two servers give away once the store is locked.
use traffic_cone.Common.{
  ℕ, ◌≡◌, refl, ◌⊎◌, inl, inr, false, List, [], ◌∷◌, ◌==◌, Bool-cases, All, Result, ok, err, ◌>>=◌,
  map_err, unwrap_or, Bytes,
}
use traffic_cone.Store.Models.{StoreError, SshKey}
use traffic_cone.Store.Handle.{Store, is_unlocked}
use traffic_cone.Store.Crypto.{Crates}
use traffic_cone.Store.Listing.{list_ssh_keys}
use traffic_cone.Daemon.Ipc.{IpcCrates, IpcServer}
use traffic_cone.Daemon.Ipc.Sessions.{Withheld, sealed_conn, serve-sealed}
use traffic_cone.Daemon.Ssh.{
  SshCrates, SshError, answer, handle_request_identities, handle_sign_request, write_identities,
  ssh_agent_failure, ssh_agent_identities_answer, store_failed, wire,
}
use traffic_cone.Daemon.Wire.{to_be_bytes, read_string, read_u32}
use traffic_cone.Daemon.Servers.{
  Reply, ipc_reply, ssh_reply, Turn, ipc_connection, ssh_message, Run, idle, after,
}

-- An answer with no signature and no key: nothing, a failure, or a list of no identities.
abbrev pub Empty : Bytes → Type 0
Empty reply =
    (reply ≡ [])
    ⊎ ((reply ≡ ssh_agent_failure ∷ [])
        ⊎ (reply ≡ ssh_agent_identities_answer ∷ 0 ∷ 0 ∷ 0 ∷ 0 ∷ []))

abbrev pub Silent : Reply → Type 0
Silent (ipc_reply r) = Withheld r
Silent (ssh_reply bytes) = Empty bytes

sealed_keys : (s : Store) → is_unlocked s ≡ false → list_ssh_keys s ≡ err StoreError.locked
unfolding list_ssh_keys
sealed_keys s h = rw (sealed_conn s h) refl

-- A chain whose rest always yields the default yields it.
unwrap_or->>= :
    {E A B : Type 0} (r : Result E A) (f : A → Result E B) (other : B)
    → ((a : A) → unwrap_or (f a) other ≡ other)
    → unwrap_or (r >>= f) other ≡ other
unwrap_or->>= (ok a) f other h = h a
unwrap_or->>= (err e) f other h = refl

sealed_chain :
    {B : Type 0} (s : Store) (f : List SshKey → Result SshError B) (other : B)
    → is_unlocked s ≡ false
    → unwrap_or (map_err store_failed (list_ssh_keys s) >>= f) other ≡ other
sealed_chain s f other h = rw (sealed_keys s h) refl

module _ (c : Crates) (x : SshCrates) where
  sealed_sign :
      (s : Store) (payload : Bytes)
      → is_unlocked s ≡ false
      → unwrap_or (handle_sign_request c x s payload) (ssh_agent_failure ∷ [])
        ≡ ssh_agent_failure ∷ []
  unfolding handle_sign_request
  sealed_sign s payload h =
      unwrap_or->>= (map_err wire (read_string payload)) _ (ssh_agent_failure ∷ [])
        λ (key_blob, rest).
          unwrap_or->>= (map_err wire (read_string rest)) _ (ssh_agent_failure ∷ []) λ (str, rest').
            unwrap_or->>= (map_err wire (read_u32 rest')) _ (ssh_agent_failure ∷ [])
              λ (flags, left). sealed_chain s _ (ssh_agent_failure ∷ []) h

  sealed_identities :
      (s : Store)
      → is_unlocked s ≡ false
      → handle_request_identities s ≡ ssh_agent_identities_answer ∷ 0 ∷ 0 ∷ 0 ∷ 0 ∷ []
  unfolding handle_request_identities write_identities to_be_bytes
  sealed_identities s h = rw (sealed_keys s h, handle_request_identities) refl

  answer-Empty : (s : Store) (msg : Bytes) → is_unlocked s ≡ false → Empty (answer c x s msg)
  unfolding answer
  answer-Empty s [] h = inl refl
  answer-Empty s (msg_type ∷ payload) h = elim (Bool-cases (msg_type == 11)) [
    | inl e ↦ rw (e, answer) (inr (inr (sealed_identities s h)))
    | inr e ↦ elim (Bool-cases (msg_type == 13)) [
      | inl f ↦ rw (e, answer) (rw f (inr (inl (sealed_sign s payload h))))
      | inr f ↦ rw (e, answer) (rw f (inr (inl refl)))
    ]
  ]

module _ (i : IpcCrates) (x : SshCrates) (c : Crates) (our_uid : ℕ) where
  Turn-sealed :
      {srv next : IpcServer} {reply : Reply}
      → Turn i x c our_uid srv reply next
      → is_unlocked srv.store ≡ false
      → (is_unlocked next.store ≡ false) × Silent reply
  Turn-sealed (ipc_connection srv k pid uid stream) h =
      serve-sealed i c our_uid k srv pid uid stream h
  Turn-sealed (ssh_message srv msg) h = (h, answer-Empty c x srv.store msg h)

  -- Once the store is locked, neither server unlocks it, in whatever order they work: no reply of the
  -- one carries a signature or a certificate, and those of the other are failures and empty lists of
  -- identities.
  pub Run-sealed :
      {srv last : IpcServer} {replies : List Reply}
      → Run i x c our_uid srv replies last
      → is_unlocked srv.store ≡ false
      → (is_unlocked last.store ≡ false) × All Silent replies
  Run-sealed (idle srv) h = (h, tt)
  Run-sealed (after srv next last reply replies turn rest) h =
      let (h', w) = Turn-sealed turn h in let (end, ws) = Run-sealed rest h' in (end, (w, ws))
