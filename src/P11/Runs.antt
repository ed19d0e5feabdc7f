-- ===== src/P11/Runs.antt =====
-- The module at work: each theorem about it, applied.
mod Calls
use traffic_cone.Common.{
  map, false, ◌*◌, ◌≡◌, refl, true, none, some, List, [], ◌∷◌, length, take, ok, unwrap_or, Bytes,
  codes,
}
use traffic_cone.P11.Client.{
  sign_init_call, P11Crates, P11Response, P11Request, Call, Peer, list_certs_request, sign_request,
  find_objects_init_call, sign_call, initialize_call, run_calls,
}
use traffic_cone.P11.Client.Unreachable.{CutOff, hopeless, run_calls-unreachable}
use traffic_cone.P11.Search.{collect, range, sum, collect-find_objects_init}
use traffic_cone.P11.{start, find_objects_init, P11Cert, P11Error}

abbrev json_of : P11Request → Bytes
json_of list_certs_request = 1 ∷ []
json_of (sign_request pid str) = 2 ∷ str

abbrev one_cert : List P11Cert
one_cert =
    record { id = codes "c1"; label = codes "laptop"; cert_der = 4 ∷ []; fingerprint = [] } ∷ []

collect-find_objects_init_example :
    collect (1 ∷ 3 ∷ []) (find_objects_init (ok one_cert) start).0
    ≡ take (sum (1 ∷ 3 ∷ [])) (range 0 (length (unwrap_or {E = P11Error} (ok one_cert) []) * 2))
collect-find_objects_init_example = collect-find_objects_init (ok one_cert) start (1 ∷ 3 ∷ [])

-- Encodings of no interest, since no byte is ever exchanged.
abbrev sample_p11 : P11Crates
sample_p11 = record {
  to_vec = json_of;
  from_slice = λ buf. some (P11Response.signature (codes "c1") (5 ∷ 8 ∷ []));
}

-- coned, as it answers every request with no bytes and closes its end.
abbrev silent_coned : Peer
silent_coned = some (λ (buf : Bytes). ([], false))

abbrev four_calls : List Call
four_calls =
    initialize_call silent_coned
    ∷ find_objects_init_call silent_coned
    ∷ sign_init_call 1
    ∷ sign_call silent_coned 7 (8 ∷ []) true 64
    ∷ []

run_calls-unreachable_example :
    CutOff (run_calls sample_p11 (record { state = start; connection = none }) four_calls).0
    × ((run_calls sample_p11 (record { state = start; connection = none }) four_calls).1
        ≡ map hopeless four_calls)
run_calls-unreachable_example =
    run_calls-unreachable sample_p11 four_calls (record { state = start; connection = none })
      (refl, refl)
