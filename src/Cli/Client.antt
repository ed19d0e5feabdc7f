-- ===== src/Cli/Client.antt =====
-- crates/cone-cli/src/client.rs: the client of the daemon's socket. Its requests and certificate
-- summaries have the daemon's fields.
pub mod Calls
use traffic_cone.Common.{
  ℕ, ◌+◌, Bool, List, ◌++◌, length, Result, ok, err, ◌>>=◌, ◌>>◌, ok_or, map_err, Text, Bytes,
}
use traffic_cone.Daemon.Ipc.{
  Request, CertSummary, ping, status_request, lock_request, list_certs_request,
}
use traffic_cone.Daemon.Wire.{read_u32, read_exact, to_be_bytes}

pub data ClientResponse : Type 0 where
  pong ok_response : ClientResponse
  signature : Text → Bytes → ClientResponse
  certs : List CertSummary → ClientResponse
  status : Bool → ℕ → ClientResponse
  error : Text → ClientResponse

pub record DaemonStatus : Type 0 where
  pub locked : Bool
  pub cert_count : ℕ

pub data ClientError : Type 0 where
  end_of_stream : ClientError
  parse_response daemon_error : Text → ClientError
  unexpected : ClientResponse → ClientError

-- serde_json on the client's types.
pub record ClientCrates : Type 0 where
  pub to_vec : Request → Bytes
  pub from_slice : Bytes → Result Text ClientResponse

module _ (j : ClientCrates) where
  -- The bytes that `send` writes.
  unfoldable pub send : Request → Bytes
  send r = to_be_bytes (length (j.to_vec r)) ++ j.to_vec r

  abbrev pub recv_sized : ℕ × Bytes → Result ClientError ClientResponse
  recv_sized (len, rest) = ok_or (read_exact len rest) end_of_stream >>= λ (buf, _).
      map_err parse_response (j.from_slice buf)

  unfoldable pub recv : Bytes → Result ClientError ClientResponse
  recv stream = map_err (λ _. end_of_stream) (read_u32 stream) >>= recv_sized

  -- `exchange` gives what the daemon answers to the bytes of a request.
  module _ (exchange : Bytes → Bytes) where
    unfoldable pub call : Request → Result ClientError ClientResponse
    unfolding send recv
    call r = recv (exchange (send r))

    abbrev expect_pong : ClientResponse → Result ClientError (Unit {0})
    expect_pong pong = ok tt
    expect_pong other = err (unexpected other)

    unfoldable pub ping_daemon : Result ClientError (Unit {0})
    unfolding call
    ping_daemon = call ping >>= expect_pong

    abbrev pub expect_status : ClientResponse → Result ClientError DaemonStatus
    expect_status (status locked n) = ok (record { locked = locked; cert_count = n })
    expect_status (error message) = err (daemon_error message)
    expect_status other = err (unexpected other)

    unfoldable pub status_of_daemon : Result ClientError DaemonStatus
    unfolding call
    status_of_daemon = call status_request >>= expect_status

    abbrev pub expect_ok : ClientResponse → Result ClientError (Unit {0})
    expect_ok ok_response = ok tt
    expect_ok (error message) = err (daemon_error message)
    expect_ok other = err (unexpected other)

    unfoldable pub lock_daemon : Result ClientError (Unit {0})
    unfolding call
    lock_daemon = call lock_request >>= expect_ok

    abbrev pub expect_certs : ClientResponse → Result ClientError (List CertSummary)
    expect_certs (certs cs) = ok cs
    expect_certs (error message) = err (daemon_error message)
    expect_certs other = err (unexpected other)

    unfoldable pub list_certs_of_daemon : Result ClientError (List CertSummary)
    unfolding call
    list_certs_of_daemon = call list_certs_request >>= expect_certs
