-- ===== src/Cli/Client/Calls.antt =====
-- A call over the daemon's socket is the daemon's handling of the request.
use traffic_cone.Common.{
  ℕ, ◌≤◌, ◌<◌, ◌≡◌, refl, ap, ◌∙◌, subst, [], length, ok, ◌>>=◌, map_err, Text, Bytes, append_nil,
}
use traffic_cone.Store.Handle.{lock}
use traffic_cone.Store.Crypto.{Crates}
use traffic_cone.Daemon.Monitor.{Kernel, ProcessEntry}
use traffic_cone.Daemon.Routing.{verify_traffic_cone_binary}
use traffic_cone.Daemon.Wire.{WireError}
use traffic_cone.Daemon.Wire.RoundTrip.{read_u32-to_be_bytes, read_exact-append}
use traffic_cone.Daemon.Ipc.{
  Request, Response, IpcError, IpcCrates, IpcServer, request_limit, serve, handle_request,
  send_response, lock_request,
}
use traffic_cone.Daemon.Ipc.Answers.{checked, serve-handle_request}
use traffic_cone.Cli.Client.{
  expect_ok, send, lock_daemon, call, recv, recv_sized, ClientResponse, ClientError, ClientCrates,
}

-- A response as the client sees it, where `message` is the text of an error.
abbrev pub seen : (IpcError → Text) → Response → ClientResponse
seen message Response.pong = ClientResponse.pong
seen message Response.ok_response = ClientResponse.ok_response
seen message (Response.signature cert str) = ClientResponse.signature cert str
seen message (Response.certs cs) = ClientResponse.certs cs
seen message (Response.status locked n) = ClientResponse.status locked n
seen message (Response.error e) = ClientResponse.error (message e)

module _ (i : IpcCrates) (j : ClientCrates) (message : IpcError → Text) where
  sized-response :
      (body : Bytes) (r : Response)
      → j.from_slice body ≡ ok (seen message r)
      → recv_sized j (length body, body) ≡ ok (seen message r)
  sized-response body r h =
      subst (λ (t : Bytes). recv_sized j (length body, t) ≡ ok (seen message r)) (append_nil body)
        (rw (read_exact-append body []) (rw h refl))

  recv-send_response :
      (r : Response)
      → j.from_slice (i.to_vec r) ≡ ok (seen message r)
      → length (i.to_vec r) < 4294967296
      → recv j (send_response i r) ≡ ok (seen message r)
  unfolding recv send_response
  recv-send_response r reads h =
      ap (λ x. map_err (λ (_ : WireError). ClientError.end_of_stream) x >>= recv_sized j)
        (read_u32-to_be_bytes (length (i.to_vec r)) (i.to_vec r) h)
      ∙ sized-response (i.to_vec r) r reads

  module _ (c : Crates) (our_uid : ℕ) (k : Kernel) (srv : IpcServer) (pid : ℕ) where
    abbrev pub daemon : Bytes → Bytes
    daemon stream = send_response i (serve i c our_uid k srv pid our_uid stream).1

    -- A client of the user that coned has checked gets, to a request of at most 1 MiB whose response
    -- is under 4 GiB, the daemon's answer to that request, read as the client reads it, and the
    -- request has been handled on the server's state after the check: where serde_json reads this
    -- request and this response as they were written.
    pub call-handle_request :
        (p : ProcessEntry) (r : Request)
        → (verify_traffic_cone_binary c k our_uid pid our_uid srv.known_hashes srv.cache).1 ≡ ok p
        → i.from_slice (j.to_vec r) ≡ ok r
        → j.from_slice (i.to_vec (handle_request i c k (checked c our_uid k srv pid) r).1)
          ≡ ok (seen message (handle_request i c k (checked c our_uid k srv pid) r).1)
        → length (j.to_vec r) ≤ request_limit
        → length (i.to_vec (handle_request i c k (checked c our_uid k srv pid) r).1) < 4294967296
        → (call j daemon r
            ≡ ok (seen message (handle_request i c k (checked c our_uid k srv pid) r).1))
          × (serve i c our_uid k srv pid our_uid (send j r)
              ≡ handle_request i c k (checked c our_uid k srv pid) r)
    unfolding call send
    call-handle_request p r v parsed reads h h' =
        let e = serve-handle_request i c our_uid k srv pid p (j.to_vec r) r v parsed h in
        (
          ap (λ (x : IpcServer × Response). recv j (send_response i x.1)) e
              ∙ recv-send_response (handle_request i c k (checked c our_uid k srv pid) r).1 reads
                  h',
          e,
        )

    -- After `cone lock` the daemon's store is locked, and the command reports success: for a client
    -- that coned has checked, whose request is at most 1 MiB and the response under 4 GiB, which
    -- serde_json reads as they were written.
    pub lock_daemon-lock :
        (p : ProcessEntry)
        → (verify_traffic_cone_binary c k our_uid pid our_uid srv.known_hashes srv.cache).1 ≡ ok p
        → i.from_slice (j.to_vec lock_request) ≡ ok lock_request
        → j.from_slice (i.to_vec Response.ok_response) ≡ ok ClientResponse.ok_response
        → length (j.to_vec lock_request) ≤ request_limit
        → length (i.to_vec Response.ok_response) < 4294967296
        → (lock_daemon j daemon ≡ ok tt)
          × ((serve i c our_uid k srv pid our_uid (send j lock_request)).0.store ≡ lock srv.store)
    unfolding lock_daemon handle_request
    lock_daemon-lock p v parsed reads h h' =
        let (e, e') = call-handle_request p lock_request v parsed reads h h' in
        (ap (λ x. x >>= expect_ok j daemon) e, ap (λ (x : IpcServer × Response). x.0.store) e')
