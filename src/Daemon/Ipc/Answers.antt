-- ===== src/Daemon/Ipc/Answers.antt =====
-- What a request of a checked client is answered.
use traffic_cone.Common.{
  ℕ, ◌≤◌, ◌≡◌, refl, ap, ◌∙◌, subst, inl, inr, [], ◌++◌, arith, length, append_nil, Result, ok, err,
  ◌>>=◌, map_err, Result-cases, Text, Bytes,
}
use traffic_cone.Store.Models.{KeyAlgorithm}
use traffic_cone.Store.Handle.{Store}
use traffic_cone.Store.Listing.{get_plaintext_key}
use traffic_cone.Store.Crypto.{Crates}
use traffic_cone.Daemon.Monitor.{Kernel, ProcessEntry}
use traffic_cone.Daemon.Routing.{
  RouteError, ResolvedRoute, resolve_for_pid, verify_traffic_cone_binary,
}
use traffic_cone.Daemon.Wire.{WireError, to_be_bytes}
use traffic_cone.Daemon.Wire.RoundTrip.{read_u32-to_be_bytes, read_exact-append}
use traffic_cone.Daemon.Ipc.{
  end_of_stream, read_sized, sign_with, request_limit, Request, handle_connection, IpcServer,
  sign_data, handle_request, sign_response, read_request, serve, IpcCrates, sign, signature,
}

sized-framed :
    (i : IpcCrates) (json rest : Bytes) (request : Request)
    → i.from_slice json ≡ ok request
    → length json ≤ request_limit
    → read_sized i (length json, json ++ rest) ≡ ok request
sized-framed i json rest request parsed h =
    rw (read_exact-append json rest) (rw parsed (ground (arith, h)))

-- A request of at most 1 MiB that serde_json reads is read from its frame: its length in four bytes,
-- most significant first, and then its bytes.
pub read_request-framed :
    (i : IpcCrates) (json rest : Bytes) (request : Request)
    → i.from_slice json ≡ ok request
    → length json ≤ request_limit
    → read_request i (to_be_bytes (length json) ++ (json ++ rest)) ≡ ok request
unfolding read_request
read_request-framed i json rest request parsed h =
    ap (λ r. map_err (λ (_ : WireError). end_of_stream) r >>= read_sized i)
      (read_u32-to_be_bytes (length json) (json ++ rest) (omega (arith, h)))
    ∙ sized-framed i json rest request parsed h

sign_response-signature :
    (i : IpcCrates) (c : Crates) (s : Store) (str : Bytes)
    (routed : Result RouteError ResolvedRoute) (cert : Text) (bytes : Bytes)
    → sign_response i c s str routed ≡ signature cert bytes
    → (route : ResolvedRoute) × (key : Bytes × KeyAlgorithm) × (routed ≡ ok route)
      × (route.cert_id ≡ cert)
      × (get_plaintext_key c s cert ≡ ok key)
      × (sign_with i str key ≡ ok bytes)
unfolding sign_response sign_data
sign_response-signature i c s str (err e) cert bytes h = cc
sign_response-signature i c s str (ok route) cert bytes h =
    elim (Result-cases (get_plaintext_key c s route.cert_id)) [
      | inr (e, g) ↦ cc (rw (g, sign_response, sign_data) at h)
      | inl (key, g) ↦ elim (Result-cases (sign_with i str key)) [
        | inr (e, w) ↦ cc (rw (g, sign_response, sign_data) at h, w)
        | inl (b, w) ↦
            let es : sign_response i c s str (ok route) ≡ signature route.cert_id b =
              rw (g, sign_response, sign_data) (rw w refl) in
            let ec : route.cert_id ≡ cert = cc (es, h) in
            (
              route,
              key,
              refl,
              ec,
              subst (λ (t : Text). get_plaintext_key c s t ≡ ok key) ec g,
              w ∙ ap ok (cc (es, h)),
            )
      ]
    ]

-- A `Sign` request is answered with a signature only if the process was routed to the certificate
-- of the answer, the store decrypted the key of that certificate, and the signature is that of the
-- request's bytes under that key and its algorithm.
pub handle_request-signature :
    (i : IpcCrates) (c : Crates) (k : Kernel) (srv : IpcServer) (pid : ℕ) (str : Bytes)
    (cert : Text) (bytes : Bytes)
    → (handle_request i c k srv (sign pid str)).1 ≡ signature cert bytes
    → (route : ResolvedRoute) × (key : Bytes × KeyAlgorithm) × ((resolve_for_pid c k srv.store pid
          srv.known_hashes srv.cache).1
        ≡ ok route)
      × (route.cert_id ≡ cert)
      × (get_plaintext_key c srv.store cert ≡ ok key)
      × (sign_with i str key ≡ ok bytes)
unfolding handle_request
handle_request-signature i c k srv pid str cert bytes h =
    sign_response-signature i c srv.store str
      (resolve_for_pid c k srv.store pid srv.known_hashes srv.cache).1 cert bytes h

-- The server once the peer, a process of the daemon's user, has been checked.
abbrev pub checked : Crates → ℕ → Kernel → IpcServer → ℕ → IpcServer
checked c our_uid k srv pid = record srv {
  cache = (verify_traffic_cone_binary c k our_uid pid our_uid srv.known_hashes srv.cache).0;
}

read_request-frame :
    (i : IpcCrates) (json : Bytes) (request : Request)
    → i.from_slice json ≡ ok request
    → length json ≤ request_limit
    → read_request i (to_be_bytes (length json) ++ json) ≡ ok request
read_request-frame i json request parsed h =
    subst (λ (t : Bytes). read_request i (to_be_bytes (length json) ++ t) ≡ ok request)
      (append_nil json) (read_request-framed i json [] request parsed h)

pub serve-handle_request :
    (i : IpcCrates) (c : Crates) (our_uid : ℕ) (k : Kernel) (srv : IpcServer) (pid : ℕ)
    (p : ProcessEntry) (json : Bytes) (request : Request)
    → (verify_traffic_cone_binary c k our_uid pid our_uid srv.known_hashes srv.cache).1 ≡ ok p
    → i.from_slice json ≡ ok request
    → length json ≤ request_limit
    → serve i c our_uid k srv pid our_uid (to_be_bytes (length json) ++ json)
      ≡ handle_request i c k (checked c our_uid k srv pid) request
unfolding serve handle_connection
serve-handle_request i c our_uid k srv pid p json request v parsed h =
    rw (v, serve) (rw (read_request-frame i json request parsed h, handle_connection) refl)
