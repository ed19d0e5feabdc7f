-- ===== src/Daemon/Ipc.antt =====
-- crates/coned/src/ipc.rs: the daemon's socket, one request on each connection, and what a sequence
-- of connections does to the store.
pub mod Answers
pub mod Sessions
pub mod Locking
use traffic_cone.Common.{
  ℕ, ◌+◌, Bool, true, false, List, [], ◌∷◌, ◌++◌, map, ltb, if◌then◌else◌, length, Result, ok, err,
  ◌>>=◌, ◌>>◌, ok_or, map_err, unwrap_or, Text, Bytes,
}
use traffic_cone.Common.Int.{ℤ}
use traffic_cone.Store.Models.{Cert, KeyAlgorithm, StoreError, rsa2048, ec_p256, ec_p384}
use traffic_cone.Store.Handle.{Store, lock, is_unlocked}
use traffic_cone.Store.Listing.{list_certs, get_plaintext_key}
use traffic_cone.Store.Crypto.{Crates}
use traffic_cone.Daemon.Monitor.{ProcessCache, Kernel}
use traffic_cone.Daemon.Routing.{
  KnownHashes, RouteError, ResolvedRoute, resolve_for_pid, verify_traffic_cone_binary,
}
use traffic_cone.Daemon.Wire.{read_u32, read_exact, to_be_bytes}

pub data Request : Type 0 where
  ping list_certs_request status_request lock_request : Request
  sign : ℕ → Bytes → Request

pub record CertSummary : Type 0 where
  pub id : Text
  pub label : Text
  pub fingerprint : Text
  pub subject : Text
  pub not_after : ℤ

-- The errors behind the text of a `Response::Error`.
pub data IpcError : Type 0 where
  store_error retrieve_key : StoreError → IpcError
  route_error : RouteError → IpcError
  parse_ec_key parse_rsa_key parse_request : Text → IpcError
  too_large : ℕ → IpcError
  end_of_stream unauthorized : IpcError

pub data Response : Type 0 where
  pong ok_response : Response
  signature : Text → Bytes → Response
  certs : List CertSummary → Response
  status : Bool → ℕ → Response
  error : IpcError → Response

-- The crates p256 and rsa (`from_pkcs8_der` followed by `sign`), and serde_json.
pub record IpcCrates : Type 0 where
  pub ecdsa : Bytes → Result Text (Bytes → Bytes)
  pub rsa_sha256 : Bytes → Result Text (Bytes → Bytes)
  pub from_slice : Bytes → Result Text Request
  pub to_vec : Response → Bytes

-- `IpcServer`, with the store and the monitor's cache that it shares.
pub record IpcServer : Type 0 where
  pub store : Store
  pub cache : ProcessCache
  pub known_hashes : KnownHashes

abbrev pub request_limit : ℕ
request_limit = 1048576

abbrev pub summary_of : Cert → CertSummary
summary_of c = record {
  id = c.id;
  label = c.label;
  fingerprint = c.fingerprint;
  subject = c.subject;
  not_after = c.not_after;
}

module _ (i : IpcCrates) where
  abbrev pub sign_ecdsa : Bytes → Bytes → Result IpcError Bytes
  sign_ecdsa key_der str = map_err parse_ec_key (i.ecdsa key_der) >>= λ signer. ok (signer str)

  abbrev pub sign_rsa : Bytes → Bytes → Result IpcError Bytes
  sign_rsa key_der str = map_err parse_rsa_key (i.rsa_sha256 key_der) >>= λ signer. ok (signer str)

  -- The dispatch of `sign_data` on the algorithm of the key.
  unfoldable pub sign_with : Bytes → Bytes × KeyAlgorithm → Result IpcError Bytes
  sign_with str (key, KeyAlgorithm.ec_p256) = sign_ecdsa key str
  sign_with str (key, KeyAlgorithm.ec_p384) = sign_ecdsa key str
  sign_with str (key, KeyAlgorithm.rsa2048) = sign_rsa key str
  sign_with str (key, KeyAlgorithm.rsa4096) = sign_rsa key str

  -- The body of `read_request` from its length on.
  abbrev pub read_sized : ℕ × Bytes → Result IpcError Request
  read_sized (len, rest) =
      if ltb request_limit len
      then err (too_large len)
      else (ok_or (read_exact len rest) end_of_stream >>= λ (body, _).
          map_err parse_request (i.from_slice body))

  unfoldable pub read_request : Bytes → Result IpcError Request
  read_request stream = map_err (λ _. end_of_stream) (read_u32 stream) >>= read_sized

  -- The bytes that `send_response` writes.
  unfoldable pub send_response : Response → Bytes
  send_response r = to_be_bytes (length (i.to_vec r)) ++ i.to_vec r

  module _ (c : Crates) where
    unfoldable pub sign_data : Store → Text → Bytes → Result IpcError Bytes
    unfolding sign_with
    sign_data s cert_id str = map_err retrieve_key (get_plaintext_key c s cert_id) >>= sign_with str

    abbrev pub response_of : Result IpcError Response → Response
    response_of (ok r) = r
    response_of (err e) = error e

    -- The store's answer to `ListCerts`.
    abbrev pub certs_response : Store → Response
    certs_response s =
        response_of (map_err store_error (list_certs s) >>= λ cs. ok (certs (map summary_of cs)))

    abbrev pub status_response : Store → Response
    status_response s =
        if is_unlocked s
        then status false (unwrap_or (list_certs s >>= λ cs. ok (length cs)) 0)
        else status true 0

    -- The arm of `Sign` once the process has been resolved.
    unfoldable pub sign_response : Store → Bytes → Result RouteError ResolvedRoute → Response
    unfolding sign_data
    sign_response s str routed = response_of (do
      route ← map_err route_error routed
      bytes ← sign_data s route.cert_id str
      ok (signature route.cert_id bytes))

    module _ (k : Kernel) where
      -- The `match request` of `handle_connection`.
      unfoldable pub handle_request : IpcServer → Request → IpcServer × Response
      unfolding sign_response
      handle_request srv ping = (srv, pong)
      handle_request srv status_request = (srv, status_response srv.store)
      handle_request srv lock_request = (record srv { store = lock srv.store }, ok_response)
      handle_request srv list_certs_request = (srv, certs_response srv.store)
      handle_request srv (sign pid str) =
          let (cache', routed) = resolve_for_pid c k srv.store pid srv.known_hashes srv.cache in
          (record srv { cache = cache' }, sign_response srv.store str routed)

      unfoldable pub handle_connection : IpcServer → Bytes → IpcServer × Result IpcError Response
      unfolding handle_request read_request
      handle_connection srv stream = elim (read_request stream) [
        | err e ↦ (srv, err e)
        | ok request ↦ let (srv', response) = handle_request srv request in (srv', ok response)
      ]

-- What `listener.incoming()` yields: a failure, a connection without peer credentials, or a peer
-- with what it sends and with the kernel's view of it at the time.
pub data Incoming : Type 0 where
  accept_failed no_credentials : Incoming
  peer : ℕ → ℕ → Bytes → Kernel → Incoming

module _ (i : IpcCrates) (c : Crates) (our_uid : ℕ) where
  -- A connection that has peer credentials, to the response that it is sent.
  unfoldable pub serve : Kernel → IpcServer → ℕ → ℕ → Bytes → IpcServer × Response
  unfolding handle_connection
  serve k srv pid uid stream =
      let (cache', verified) =
        verify_traffic_cone_binary c k our_uid pid uid srv.known_hashes srv.cache in
      let known : IpcServer = record srv { cache = cache' } in
      elim verified [
        | err e ↦ (known, error unauthorized)
        | ok process ↦
            let (srv', reply) = handle_connection i c k known stream in
            (srv', response_of i c reply)
      ]

  -- The loop of `run`, which a connection without credentials ends.
  unfoldable pub run : IpcServer → List Incoming → IpcServer × List Response
  unfolding serve
  run srv [] = (srv, [])
  run srv (accept_failed ∷ rest) = run srv rest
  run srv (no_credentials ∷ rest) = (srv, [])
  run srv (peer pid uid stream k ∷ rest) =
      let (srv', response) = serve k srv pid uid stream in
      let (last, responses) = run srv' rest in (last, response ∷ responses)
