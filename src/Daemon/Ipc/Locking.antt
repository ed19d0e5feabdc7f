-- ===== src/Daemon/Ipc/Locking.antt =====
-- What a sequence of connections does to the store.
use traffic_cone.Common.{ℕ, ◌≡◌, refl, ap, ◌∙◌, subst, ◌⊎◌, inl, inr, List, [], ◌∷◌, In, ok, Bytes}
use traffic_cone.Store.Handle.{Store, lock}
use traffic_cone.Store.Crypto.{Crates}
use traffic_cone.Daemon.Monitor.{Kernel}
use traffic_cone.Daemon.Routing.Laws.{verify_traffic_cone_binary_iff}
use traffic_cone.Daemon.Ipc.{
  IpcCrates, IpcServer, lock_request, Incoming, accept_failed, no_credentials, peer, serve, run,
  read_request,
}
use traffic_cone.Daemon.Ipc.Sessions.{serve-store}

-- One of the connections is of a process of this user, and sends a `Lock` request.
abbrev pub LockedBy : IpcCrates → ℕ → List Incoming → Type 0
LockedBy i our_uid incoming =
    (pid : ℕ) × (uid : ℕ) × (stream : Bytes) × (k : Kernel) × In (peer pid uid stream k) incoming
    × (uid ≡ our_uid)
    × (read_request i stream ≡ ok lock_request)

module _ (i : IpcCrates) (c : Crates) (our_uid : ℕ) where
  abbrev Outcome : Store → Store → List Incoming → Type 0
  Outcome s t incoming = (t ≡ s) ⊎ ((t ≡ lock s) × LockedBy i our_uid incoming)

  later :
      (s t : Store) (first : Incoming) (rest : List Incoming)
      → Outcome s t rest
      → Outcome s t (first ∷ rest)
  later s t first rest (inl same) = inl same
  later s t first rest (inr (locked, by)) =
      let (pid, uid, stream, k, there, mine, asked) = by in
      inr (locked, (pid, uid, stream, k, inr there, mine, asked))

  -- One connection, and those after it.
  joined :
      (s s' t : Store) (first : Incoming) (rest : List Incoming)
      → (s' ≡ s) ⊎ ((s' ≡ lock s) × LockedBy i our_uid (first ∷ rest))
      → Outcome s' t rest
      → Outcome s t (first ∷ rest)
  unfolding lock
  joined s s' t first rest (inl same) o =
      later s t first rest (subst (λ z. Outcome z t rest) same o)
  joined s s' t first rest (inr (locked, by)) (inl same) = inr (same ∙ locked, by)
  joined s s' t first rest (inr (locked, by)) (inr (again, more)) = inr (again ∙ ap lock locked, by)

  -- A run of the loop leaves the store as it was, or locked; and it is locked only if one of the
  -- connections is of a process of the daemon's user and sends a `Lock` request.
  pub run-store :
      (srv : IpcServer) (incoming : List Incoming)
      → ((run i c our_uid srv incoming).0.store ≡ srv.store)
        ⊎ (((run i c our_uid srv incoming).0.store ≡ lock srv.store) × LockedBy i our_uid incoming)
  unfolding run
  run-store srv [] = inl refl
  run-store srv (accept_failed ∷ rest) = later _ _ accept_failed rest (run-store srv rest)
  run-store srv (no_credentials ∷ rest) = inl refl
  run-store srv (peer pid uid stream k ∷ rest) =
      let next = (serve i c our_uid k srv pid uid stream).0 in
      joined srv.store next.store (run i c our_uid next rest).0.store (peer pid uid stream k) rest
        (elim (serve-store i c our_uid k srv pid uid stream) [
          | inl same ↦ inl same
          | inr ((p, v), asked, locked) ↦
              let (mine, resolved, known) =
                (verify_traffic_cone_binary_iff c k our_uid pid uid srv.known_hashes srv.cache p).0
                  v in
              inr (locked, (pid, uid, stream, k, inl refl, mine, asked))
        ])
        (run-store next rest)
