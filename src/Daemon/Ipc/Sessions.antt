-- ===== src/Daemon/Ipc/Sessions.antt =====
-- What connections to the daemon's socket do to the store, and what they are told.
use traffic_cone.Common.{
  ℕ, ◌≡◌, refl, ap, ◌∙◌, ◌⊎◌, inl, inr, true, false, List, [], ◌∷◌, All, Result, ok, err,
  Result-cases, Bytes,
}
use traffic_cone.Store.Models.{StoreError}
use traffic_cone.Store.Handle.{Store, StoreState, sealed, unlocked, conn, lock, is_unlocked}
use traffic_cone.Store.Listing.{list_certs, get_plaintext_key}
use traffic_cone.Store.Crypto.{Crates}
use traffic_cone.Daemon.Monitor.{Kernel, ProcessEntry}
use traffic_cone.Daemon.Routing.{
  RouteError, ResolvedRoute, resolve_for_pid, verify_traffic_cone_binary,
}
use traffic_cone.Daemon.Ipc.{
  Incoming, Request, handle_connection, IpcServer, status_response, certs_response, sign_data,
  handle_request, sign_response, read_request, run, serve, IpcCrates, Response, ping,
  status_request, list_certs_request, lock_request, sign, pong, ok_response, error, status,
  signature, certs, accept_failed, no_credentials, peer,
}

pub sealed_conn : (s : Store) → is_unlocked s ≡ false → conn s ≡ err StoreError.locked
unfolding is_unlocked conn
sealed_conn s h = at_state s.state h
  where
    at_state :
        (st : StoreState)
        → is_unlocked (record s { state = st }) ≡ false
        → conn (record s { state = st }) ≡ err StoreError.locked
    at_state sealed h = refl
    at_state (unlocked p) h = cc

lock-sealed : (s : Store) → is_unlocked (lock s) ≡ false
unfolding is_unlocked lock
lock-sealed s = refl

-- A response that shows neither a signature nor a certificate, and a locked store.
abbrev pub Withheld : Response → Type 0
Withheld pong = Unit
Withheld ok_response = Unit
Withheld (error e) = Unit
Withheld (status b n) = (b ≡ true) × (n ≡ 0)
Withheld (signature cert str) = ⊥
Withheld (certs cs) = ⊥

module _ (i : IpcCrates) (c : Crates) where
  sealed_sign :
      (s : Store) (str : Bytes) (routed : Result RouteError ResolvedRoute)
      → is_unlocked s ≡ false
      → Withheld (sign_response i c s str routed)
  unfolding sign_response sign_data get_plaintext_key
  sealed_sign s str (err e) h = tt
  sealed_sign s str (ok route) h =
      rw (sealed_conn s h, sign_response, sign_data, get_plaintext_key) tt

  sealed_certs : (s : Store) → is_unlocked s ≡ false → Withheld (certs_response i c s)
  unfolding list_certs
  sealed_certs s h = rw (sealed_conn s h) tt

  sealed_status : (s : Store) → is_unlocked s ≡ false → Withheld (status_response i c s)
  sealed_status s h = rw h (refl, refl)

  module _ (k : Kernel) where
    handle-sealed :
        (srv : IpcServer) (r : Request)
        → is_unlocked srv.store ≡ false
        → (is_unlocked (handle_request i c k srv r).0.store ≡ false)
          × Withheld (handle_request i c k srv r).1
    unfolding handle_request
    handle-sealed srv ping h = (h, tt)
    handle-sealed srv status_request h = (h, sealed_status srv.store h)
    handle-sealed srv lock_request h = (lock-sealed srv.store, tt)
    handle-sealed srv list_certs_request h = (h, sealed_certs srv.store h)
    handle-sealed srv (sign pid str) h = (
      h,
      sealed_sign srv.store str (resolve_for_pid c k srv.store pid srv.known_hashes srv.cache).1 h,
    )

    handle-store :
        (srv : IpcServer) (r : Request)
        → ((handle_request i c k srv r).0.store ≡ srv.store)
          ⊎ ((r ≡ lock_request) × ((handle_request i c k srv r).0.store ≡ lock srv.store))
    unfolding handle_request
    handle-store srv ping = inl refl
    handle-store srv status_request = inl refl
    handle-store srv lock_request = inr (refl, refl)
    handle-store srv list_certs_request = inl refl
    handle-store srv (sign pid str) = inl refl

-- The store of a connection that is served changes only if its peer passed the daemon's check and
-- sent a `Lock` request, and then it is locked.
pub serve-store :
    (i : IpcCrates) (c : Crates) (our_uid : ℕ) (k : Kernel) (srv : IpcServer) (pid uid : ℕ)
    (stream : Bytes)
    → ((serve i c our_uid k srv pid uid stream).0.store ≡ srv.store)
      ⊎ (((p : ProcessEntry) × ((verify_traffic_cone_binary c k our_uid pid uid srv.known_hashes
                srv.cache).1
              ≡ ok p))
          × (read_request i stream ≡ ok lock_request)
          × ((serve i c our_uid k srv pid uid stream).0.store ≡ lock srv.store))
unfolding serve handle_connection
serve-store i c our_uid k srv pid uid stream =
    elim (Result-cases
      (verify_traffic_cone_binary c k our_uid pid uid srv.known_hashes srv.cache).1) [
        | inr (e, v) ↦ inl (rw (v, serve) refl)
        | inl (p, v) ↦ elim (Result-cases (read_request i stream)) [
          | inr (e, r) ↦ inl (rw (v, serve) (rw (r, handle_connection) refl))
          | inl (request, r) ↦
              elim (handle-store i c k
                (record srv {
                  cache =
                      (verify_traffic_cone_binary c k our_uid pid uid srv.known_hashes srv.cache).0;
                })
                request) [
                  | inl same ↦ inl (rw (v, serve) (rw (r, handle_connection) same))
                  | inr (is_lock, locked) ↦
                      inr (
                        (p, v),
                        r ∙ ap ok is_lock,
                        rw (v, serve) (rw (r, handle_connection) locked),
                      )
                ]
        ]
      ]

pub serve-sealed :
    (i : IpcCrates) (c : Crates) (our_uid : ℕ) (k : Kernel) (srv : IpcServer) (pid uid : ℕ)
    (stream : Bytes)
    → is_unlocked srv.store ≡ false
    → (is_unlocked (serve i c our_uid k srv pid uid stream).0.store ≡ false)
      × Withheld (serve i c our_uid k srv pid uid stream).1
unfolding serve handle_connection
serve-sealed i c our_uid k srv pid uid stream h =
    elim (Result-cases
      (verify_traffic_cone_binary c k our_uid pid uid srv.known_hashes srv.cache).1) [
        | inr (e, v) ↦ rw (v, serve) (h, tt)
        | inl (p, v) ↦ elim (Result-cases (read_request i stream)) [
          | inr (e, r) ↦ rw (v, serve) (rw (r, handle_connection) (h, tt))
          | inl (request, r) ↦
              rw (v, serve)
                (rw (r, handle_connection)
                  (handle-sealed i c k
                    (record srv {
                      cache =
                          (verify_traffic_cone_binary c k our_uid pid uid srv.known_hashes
                            srv.cache).0;
                    })
                    request h))
        ]
      ]

-- Once the store is locked, no sequence of connections unlocks it, and none of the responses to them
-- carries a signature or a certificate.
pub run-sealed :
    (i : IpcCrates) (c : Crates) (our_uid : ℕ) (srv : IpcServer) (incoming : List Incoming)
    → is_unlocked srv.store ≡ false
    → (is_unlocked (run i c our_uid srv incoming).0.store ≡ false)
      × All Withheld (run i c our_uid srv incoming).1
unfolding run
run-sealed i c our_uid srv [] h = (h, tt)
run-sealed i c our_uid srv (accept_failed ∷ rest) h = run-sealed i c our_uid srv rest h
run-sealed i c our_uid srv (no_credentials ∷ rest) h = (h, tt)
run-sealed i c our_uid srv (peer pid uid stream k ∷ rest) h =
    let (h', w) = serve-sealed i c our_uid k srv pid uid stream h in
    let (last, ws) = run-sealed i c our_uid (serve i c our_uid k srv pid uid stream).0 rest h' in
    (last, (w, ws))
