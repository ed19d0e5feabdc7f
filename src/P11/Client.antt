-- ===== src/P11/Client.antt =====
-- crates/cone-p11/src/ipc.rs: the module's connection to coned, and the calls of
-- crates/cone-p11/src/pkcs11_impl.rs that use it.
pub mod Unreachable
use traffic_cone.Common.Host.{connect}
use traffic_cone.Common.{
  codes, true, false, if◌then◌else◌, ℕ, suc, ◌+◌, ◌%◌, Bool, Option, none, some, List, [], ◌∷◌,
  ◌++◌, map, length, Result, ok, err, ◌>>=◌, ◌>>◌, ok_or, Text, Bytes,
}
use traffic_cone.Daemon.Wire.{read_u32, read_exact, to_be_bytes}
use traffic_cone.P11.{
  P11Cert, P11Error, ModuleState, Signed, unavailable, protocol, daemon_error, initialize, finalize,
  find_objects_init, sign_init, c_sign,
}

pub data P11Request : Type 0 where
  list_certs_request : P11Request
  sign_request : ℕ → Bytes → P11Request

pub record CertInfo : Type 0 where
  pub id : Text
  pub label : Text
  pub cert_der : Bytes
  pub fingerprint : Text

pub data P11Response : Type 0 where
  certs : List CertInfo → P11Response
  signature : Text → Bytes → P11Response
  error : Text → P11Response
  pong ok_response : P11Response
  status : Bool → ℕ → P11Response

-- serde_json on these types.
pub record P11Crates : Type 0 where
  pub to_vec : P11Request → Bytes
  pub from_slice : Bytes → Option P11Response

-- A stream to coned: the bytes that coned has sent and the module has not read, and whether coned has
-- its end open.
pub record Stream : Type 0 where
  pub incoming : Bytes
  pub peer_open : Bool

-- What coned answers to the bytes of a request, and whether it keeps its end open then, if it runs.
abbrev pub Peer : Type 0
Peer = Option (Bytes → Bytes × Bool)

-- `CONNECTION`
abbrev pub Connected : Type 0
Connected = Option Stream

abbrev pub socket_name : Text
socket_name = 0 ∷ codes "traffic-cone-daemon"

unfoldable pub get_connection : Peer → Connected → Connected × Result P11Error (Unit {0})
unfolding connect
get_connection peer (some stream) = (some stream, ok tt)
get_connection peer none = elim (connect peer socket_name) [
  | none ↦ (none, err unavailable)
  | some answer ↦ (some (record { incoming = []; peer_open = true }), ok tt)
]

unfoldable pub disconnect : Connected → Connected
disconnect conn = none

abbrev pub answered_on :
    (Bytes → Bytes × Bool) → Bytes → Stream → Connected × Result P11Error (Unit {0})
answered_on answer buf stream =
    let (reply, open_still) = answer buf in
    (some (record { incoming = stream.incoming ++ reply; peer_open = open_still }), ok tt)

-- Both `write_all` calls of a request: they fail where coned has closed its end or is gone.
abbrev pub write_all : Peer → Bytes → Connected → Connected × Result P11Error (Unit {0})
write_all peer buf none = (none, err unavailable)
write_all none buf (some stream) = (some (record stream { peer_open = false }), err unavailable)
write_all (some answer) buf (some stream) =
    if stream.peer_open then answered_on answer buf stream else (some stream, err unavailable)

abbrev pub cert_of_info : ℕ × CertInfo → P11Cert
cert_of_info (i, c) = record {
  id = i % 256 ∷ [];
  label = c.label;
  cert_der = c.cert_der;
  fingerprint = c.fingerprint;
}

-- `enumerate`, from a number on.
abbrev pub enumerate_from : ℕ → List CertInfo → List (ℕ × CertInfo)
enumerate_from i [] = []
enumerate_from i (c ∷ cs) = (i, c) ∷ enumerate_from (suc i) cs

module _ (x : P11Crates) where
  unfoldable pub send_request :
      Peer → P11Request → Connected → Connected × Result P11Error (Unit {0})
  unfolding get_connection
  send_request peer r conn =
      let (conn', got) = get_connection peer conn in
      elim got [
        | err e ↦ (conn', err e)
        | ok u ↦ write_all peer (to_be_bytes (length (x.to_vec r)) ++ x.to_vec r) conn'
      ]

  -- Both `read_exact` calls, with the bytes that are left behind them. One that finds too few bytes
  -- has read them when coned closes its end.
  abbrev pub recv_body : Stream → ℕ × Bytes → Connected × Result P11Error P11Response
  recv_body stream (len, rest) = elim (read_exact len rest) [
    | none ↦ (some (record stream { incoming = [] }), err unavailable)
    | some body ↦ (some (record stream { incoming = body.1 }), ok_or (x.from_slice body.0) protocol)
  ]

  unfoldable pub recv_response : Connected → Connected × Result P11Error P11Response
  recv_response none = (none, err unavailable)
  recv_response (some stream) = elim (read_u32 stream.incoming) [
    | err e ↦ (some (record stream { incoming = [] }), err unavailable)
    | ok sized ↦ recv_body stream sized
  ]

  -- A request followed by its response.
  abbrev pub exchange : Peer → P11Request → Connected → Connected × Result P11Error P11Response
  exchange peer r conn =
      let (conn', sent) = send_request peer r conn in
      elim sent [ err e ↦ (conn', err e) | ok u ↦ recv_response conn' ]

  abbrev pub certs_of : P11Response → Result P11Error (List P11Cert)
  certs_of (certs cs) = ok (map cert_of_info (enumerate_from 0 cs))
  certs_of (error message) = err (daemon_error message)
  certs_of other = err protocol

  unfoldable pub list_certs : Peer → Connected → Connected × Result P11Error (List P11Cert)
  unfolding send_request recv_response
  list_certs peer conn =
      let (conn', response) = exchange peer list_certs_request conn in
      (conn', response >>= certs_of)

  abbrev pub signature_of : P11Response → Result P11Error Bytes
  signature_of (signature cert_id str) = ok str
  signature_of (error message) = err (daemon_error message)
  signature_of other = err protocol

  unfoldable pub sign : Peer → ℕ → Bytes → Connected → Connected × Result P11Error Bytes
  unfolding send_request recv_response
  sign peer pid str conn =
      let (conn', response) = exchange peer (sign_request pid str) conn in
      (conn', response >>= signature_of)

-- The statics of both files.
pub record P11Module : Type 0 where
  pub state : ModuleState
  pub connection : Connected

-- A call of the module; the daemon is what it is at the time of the call.
pub data Call : Type 0 where
  initialize_call find_objects_init_call : Peer → Call
  finalize_call : Call
  sign_init_call : ℕ → Call
  sign_call : Peer → ℕ → Bytes → Bool → ℕ → Call

-- What a call gives its caller.
pub data Outcome : Type 0 where
  returned : ℕ → Outcome
  signed : Signed → Outcome

module _ (x : P11Crates) where
  -- `C_Sign` asks coned only once a key has been chosen.
  abbrev pub sign_reply : Peer → ℕ → Bytes → P11Module → Connected × Result P11Error Bytes
  sign_reply peer pid str m = elim m.state.sign_handle [
    | none ↦ (m.connection, err unavailable)
    | some handle ↦ sign x peer pid str m.connection
  ]

  unfoldable pub step : P11Module → Call → P11Module × Outcome
  unfolding initialize finalize find_objects_init sign_init c_sign list_certs sign disconnect
  step m (initialize_call peer) =
      let (conn, reply) = list_certs x peer m.connection in
      let (s, rv) = initialize reply m.state in
      (record { state = s; connection = conn }, returned rv)
  step m finalize_call =
      let (s, rv) = finalize m.state in
      (record { state = s; connection = disconnect m.connection }, returned rv)
  step m (find_objects_init_call peer) =
      let (conn, reply) = list_certs x peer m.connection in
      let (s, rv) = find_objects_init reply m.state in
      (record { state = s; connection = conn }, returned rv)
  step m (sign_init_call handle) =
      let (s, rv) = sign_init handle m.state in (record m { state = s }, returned rv)
  step m (sign_call peer pid str has_buffer len) =
      let (conn, reply) = sign_reply peer pid str m in
      (record m { connection = conn }, signed (c_sign reply has_buffer len m.state))

  unfoldable pub run_calls : P11Module → List Call → P11Module × List Outcome
  unfolding step
  run_calls m [] = (m, [])
  run_calls m (call ∷ calls) =
      let (m', outcome) = step m call in
      let (last, outcomes) = run_calls m' calls in (last, outcome ∷ outcomes)
