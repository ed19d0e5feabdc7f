-- ===== src/Daemon/Runs.antt =====
-- The daemon at work on the samples: each theorem about it, applied.
mod Serving
mod Encoding
mod Signing
mod Starting
use traffic_cone.Common.{
  ℕ, ◌+◌, ◌-◌, ◌≡◌, refl, ◌↔◌, ◌⊎◌, true, false, none, some, List, [], ◌∷◌, ◌++◌, map, arith, In,
  ok, Bytes, codes, text_eq, starts_with,
}
use traffic_cone.Store.Models.{SshKey, KeyAlgorithm}
use traffic_cone.Store.Db.{RouteRow}
use traffic_cone.Store.Handle.{conn, lock}
use traffic_cone.Store.Listing.{
  list_apps, list_ssh_keys, route_of_row, ssh_key_of_row, get_plaintext_key,
}
use traffic_cone.Store.Routes.{app_id_of}
use traffic_cone.Store.Routes.Reach.{Passed}
use traffic_cone.Daemon.Numbers.RoundTrip.{print_hex4, print_hex8}
use traffic_cone.Daemon.Address.{Connection, parse_hex_addr, join_groups}
use traffic_cone.Daemon.Address.Ipv4.{word_of, dotted, parse_hex_addr_ipv4}
use traffic_cone.Daemon.Address.Ipv6.{words_of, shown, parse_hex_addr_ipv6}
use traffic_cone.Daemon.Monitor.{
  read_process_start_time, cached, resolve, resolve_fresh, get_connections,
}
use traffic_cone.Daemon.Monitor.Cache.{resolve-current}
use traffic_cone.Daemon.Routing.{
  known_hash, ResolvedRoute, query_of, resolve_for_pid, verify_traffic_cone_binary,
}
use traffic_cone.Daemon.Routing.Laws.{verify_traffic_cone_binary_iff}
use traffic_cone.Daemon.Routing.Routed.{resolve_for_pid-Passed}
use traffic_cone.Daemon.Ipc.{
  sign, signature, handle_request, sign_with, Incoming, peer, accept_failed, run,
}
use traffic_cone.Daemon.Ipc.Locking.{LockedBy, run-store}
use traffic_cone.Daemon.Ipc.Answers.{handle_request-signature}
use traffic_cone.Daemon.Ssh.{converse, handle_request_identities}
use traffic_cone.Daemon.Ssh.Loop.{converse-total}
use traffic_cone.Daemon.Ssh.Identities.{
  read_identities, pair_of, read_identities-handle_request_identities,
}
use traffic_cone.Daemon.Samples.{
  sample_ssh, sample_kernel, curl, sample_known, cone, sample_ipc, open_server, sign_frame,
}
use traffic_cone.Store.Samples.{sample_app, sample_db, sample_ssh_key, sample_crates, sample_store}

abbrev curl_route : ResolvedRoute
curl_route = record {
  cert_id = codes "c1";
  process = curl;
  remote_host = none;
  remote_ip = some (codes "10.0.0.1");
}

opened : conn sample_store ≡ ok sample_db
unfolding conn
opened = refl

listed_apps : list_apps sample_store ≡ ok (sample_app ∷ [])
unfolding list_apps conn traffic_cone.Common.Sort.sort_by
listed_apps = refl

curl_resolves : (resolve sample_crates sample_kernel 7 []).1 ≡ ok curl
unfolding resolve read_process_start_time traffic_cone.Daemon.Monitor.parse_stat
    traffic_cone.Daemon.Fields.after_last traffic_cone.Daemon.Fields.split_whitespace
    traffic_cone.Daemon.Numbers.from_str_radix traffic_cone.Daemon.Numbers.parse_digits
    traffic_cone.Daemon.Numbers.digit_value traffic_cone.Daemon.Monitor.cache_hit cached
    resolve_fresh traffic_cone.Daemon.Monitor.hash_exe traffic_cone.Daemon.Monitor.read_exe_path
    traffic_cone.Daemon.Utf8.is_utf8 traffic_cone.Daemon.Utf8.continues
    traffic_cone.Daemon.Utf8.lead
curl_resolves = refl

curl_routed :
    (resolve_for_pid sample_crates sample_kernel sample_store 7 sample_known []).1 ≡ ok curl_route
unfolding traffic_cone.Daemon.Routing.resolve_for_pid traffic_cone.Daemon.Routing.known_hash
    traffic_cone.Daemon.Routing.check_known traffic_cone.Daemon.Routing.route_process
    traffic_cone.Daemon.Routing.route_connections traffic_cone.Daemon.Monitor.resolve
    traffic_cone.Daemon.Monitor.read_process_start_time traffic_cone.Daemon.Monitor.parse_stat
    traffic_cone.Daemon.Monitor.cache_hit traffic_cone.Daemon.Monitor.cached
    traffic_cone.Daemon.Monitor.resolve_fresh traffic_cone.Daemon.Monitor.hash_exe
    traffic_cone.Daemon.Monitor.get_connections traffic_cone.Daemon.Monitor.insert_entry
    traffic_cone.Daemon.Monitor.invalidate traffic_cone.Daemon.Monitor.parse_u64
    traffic_cone.Daemon.Fields.after_last traffic_cone.Daemon.Fields.split_whitespace
    traffic_cone.Daemon.Fields.lines traffic_cone.Daemon.Fields.split_once
    traffic_cone.Daemon.Numbers.from_str_radix traffic_cone.Daemon.Numbers.parse_digits
    traffic_cone.Daemon.Numbers.digit_value traffic_cone.Daemon.Numbers.lower_digit
    traffic_cone.Daemon.Numbers.show_hex8 traffic_cone.Daemon.Numbers.show_u8
    traffic_cone.Common.text_eq traffic_cone.Common.starts_with traffic_cone.Common.Sort.sort_by
    traffic_cone.Daemon.Address.read_proc_net_tcp traffic_cone.Daemon.Address.parse_hex_addr
    traffic_cone.Daemon.Address.parse_ip traffic_cone.Daemon.Address.read_line
    traffic_cone.Daemon.Address.show_ipv4 traffic_cone.Store.Handle.conn
    traffic_cone.Store.Listing.list_apps traffic_cone.Store.Listing.list_routes
    traffic_cone.Store.Listing.parse_match_type traffic_cone.Store.Routes.app_id_of
    traffic_cone.Store.Routes.app_matches traffic_cone.Store.Routes.best_route
    traffic_cone.Store.Routes.consider traffic_cone.Store.Routes.host_matches
    traffic_cone.Store.Routes.is_candidate traffic_cone.Store.Routes.resolve_route
    traffic_cone.Store.Routes.specificity traffic_cone.Store.Routes.trim_suffix
    traffic_cone.Daemon.Monitor.read_exe_path traffic_cone.Daemon.Utf8.is_utf8
    traffic_cone.Daemon.Utf8.continues traffic_cone.Daemon.Utf8.lead
curl_routed = refl

resolve_for_pid-Passed_example :
    ((resolve sample_crates sample_kernel 7 []).1 ≡ ok curl)
    × ((known_hash sample_known curl.exe_path ≡ none)
        ⊎ (known_hash sample_known curl.exe_path ≡ some curl.exe_hash))
    × ((row : RouteRow) × In row sample_db.routes
        × (row.cert_id ≡ codes "c1")
        × Passed
            (app_id_of (sample_app ∷ []) (some curl.exe_path))
            (query_of curl (some (codes "10.0.0.1")))
            (route_of_row row))
    × ((some (codes "10.0.0.1") ≡ none)
        ⊎ ((p : Connection) × In p (get_connections sample_crates sample_kernel 7)
            × (some (codes "10.0.0.1") ≡ some p.remote_ip)))
resolve_for_pid-Passed_example =
    resolve_for_pid-Passed sample_crates sample_kernel sample_store sample_db (sample_app ∷ []) 7
      sample_known [] curl_route opened listed_apps curl_routed

verify_traffic_cone_binary_iff_example :
    ((verify_traffic_cone_binary sample_crates sample_kernel 1000 9 1000 sample_known []).1
      ≡ ok cone)
    ↔ ((◌≡◌ {A = ℕ} 1000 1000)
        × ((resolve sample_crates sample_kernel 9 []).1 ≡ ok cone)
        × (known_hash sample_known cone.exe_path ≡ some cone.exe_hash))
verify_traffic_cone_binary_iff_example =
    verify_traffic_cone_binary_iff sample_crates sample_kernel 1000 9 1000 sample_known [] cone

resolve-current_example : (curl.pid ≡ 7) × (read_process_start_time sample_kernel 7 ≡ ok 50)
resolve-current_example = resolve-current sample_crates sample_kernel 7 [] curl tt curl_resolves

parse_hex_addr_ipv4_example :
    parse_hex_addr (print_hex8 (word_of 192 168 1 20) ++ b':' ∷ print_hex4 443) false
    ≡ some (dotted 192 168 1 20, 443)
parse_hex_addr_ipv4_example =
    parse_hex_addr_ipv4 192 168 1 20 443 (omega arith) (omega arith) (omega arith) (omega arith)
      (omega arith)

parse_hex_addr_ipv6_example :
    parse_hex_addr (words_of 3087007744 0 0 16777216 ++ b':' ∷ print_hex4 443) true
    ≡ some (join_groups 8 (shown 3087007744 0 0 16777216), 443)
parse_hex_addr_ipv6_example =
    parse_hex_addr_ipv6 3087007744 0 0 16777216 443 (omega arith) (omega arith) (omega arith)
      (omega arith) (omega arith)

-- A `Lock` request.
abbrev lock_frame : Bytes
lock_frame = 0 ∷ 0 ∷ 0 ∷ 1 ∷ 1 ∷ []

abbrev arrivals : List Incoming
arrivals =
    peer 9 1000 sign_frame sample_kernel ∷ accept_failed ∷ peer 9 1000 lock_frame sample_kernel ∷ []

run-store_example :
    ((run sample_ipc sample_crates 1000 open_server arrivals).0.store ≡ open_server.store)
    ⊎ (((run sample_ipc sample_crates 1000 open_server arrivals).0.store ≡ lock open_server.store)
        × LockedBy sample_ipc 1000 arrivals)
run-store_example = run-store sample_ipc sample_crates 1000 open_server arrivals

signed :
    (handle_request sample_ipc sample_crates sample_kernel open_server (sign 7 (8 ∷ []))).1
    ≡ signature (codes "c1") (5 ∷ 8 ∷ [])
unfolding traffic_cone.Daemon.Ipc.handle_request traffic_cone.Daemon.Ipc.sign_response
    traffic_cone.Daemon.Ipc.sign_data traffic_cone.Daemon.Ipc.sign_with
    traffic_cone.Store.Listing.get_plaintext_key traffic_cone.Store.Listing.parse_algorithm
    traffic_cone.Store.Handle.passphrase traffic_cone.Store.Crypto.decrypt_key
    traffic_cone.Store.Crypto.derive_key traffic_cone.Daemon.Routing.resolve_for_pid
    traffic_cone.Daemon.Routing.known_hash traffic_cone.Daemon.Routing.check_known
    traffic_cone.Daemon.Routing.route_process traffic_cone.Daemon.Routing.route_connections
    traffic_cone.Daemon.Monitor.resolve traffic_cone.Daemon.Monitor.read_process_start_time
    traffic_cone.Daemon.Monitor.parse_stat traffic_cone.Daemon.Monitor.cache_hit
    traffic_cone.Daemon.Monitor.cached traffic_cone.Daemon.Monitor.resolve_fresh
    traffic_cone.Daemon.Monitor.hash_exe traffic_cone.Daemon.Monitor.get_connections
    traffic_cone.Daemon.Monitor.insert_entry traffic_cone.Daemon.Monitor.invalidate
    traffic_cone.Daemon.Monitor.parse_u64 traffic_cone.Daemon.Fields.after_last
    traffic_cone.Daemon.Fields.split_whitespace traffic_cone.Daemon.Fields.lines
    traffic_cone.Daemon.Fields.split_once traffic_cone.Daemon.Numbers.from_str_radix
    traffic_cone.Daemon.Numbers.parse_digits traffic_cone.Daemon.Numbers.digit_value
    traffic_cone.Daemon.Numbers.lower_digit traffic_cone.Daemon.Numbers.show_hex8
    traffic_cone.Daemon.Numbers.show_u8 traffic_cone.Common.text_eq traffic_cone.Common.starts_with
    traffic_cone.Common.Sort.sort_by traffic_cone.Daemon.Address.read_proc_net_tcp
    traffic_cone.Daemon.Address.parse_hex_addr traffic_cone.Daemon.Address.parse_ip
    traffic_cone.Daemon.Address.read_line traffic_cone.Daemon.Address.show_ipv4
    traffic_cone.Store.Handle.conn traffic_cone.Store.Listing.list_apps
    traffic_cone.Store.Listing.list_routes traffic_cone.Store.Listing.parse_match_type
    traffic_cone.Store.Routes.app_id_of traffic_cone.Store.Routes.app_matches
    traffic_cone.Store.Routes.best_route traffic_cone.Store.Routes.consider
    traffic_cone.Store.Routes.host_matches traffic_cone.Store.Routes.is_candidate
    traffic_cone.Store.Routes.resolve_route traffic_cone.Store.Routes.specificity
    traffic_cone.Store.Routes.trim_suffix traffic_cone.Daemon.Monitor.read_exe_path
    traffic_cone.Daemon.Utf8.is_utf8 traffic_cone.Daemon.Utf8.continues
    traffic_cone.Daemon.Utf8.lead
signed = refl

handle_request-signature_example :
    (route : ResolvedRoute) × (key : Bytes × KeyAlgorithm) × ((resolve_for_pid sample_crates
        sample_kernel sample_store 7 sample_known []).1
      ≡ ok route)
    × (route.cert_id ≡ codes "c1")
    × (get_plaintext_key sample_crates sample_store (codes "c1") ≡ ok key)
    × (sign_with sample_ipc (8 ∷ []) key ≡ ok (5 ∷ 8 ∷ []))
handle_request-signature_example =
    handle_request-signature sample_ipc sample_crates sample_kernel open_server 7 (8 ∷ [])
      (codes "c1") (5 ∷ 8 ∷ []) signed

abbrev one_key : List SshKey
one_key = ssh_key_of_row sample_ssh_key ∷ []

listed_keys : list_ssh_keys sample_store ≡ ok one_key
unfolding list_ssh_keys conn traffic_cone.Common.Sort.sort_by
listed_keys = refl

read_identities-handle_request_identities_example :
    read_identities (handle_request_identities sample_store) ≡ ok (map pair_of one_key)
read_identities-handle_request_identities_example =
    read_identities-handle_request_identities sample_store one_key listed_keys
      ((omega arith, omega arith), tt) (omega arith)

converse-total_example :
    (output : Bytes) × (converse sample_crates sample_ssh 6 sample_store (0 ∷ 0 ∷ 0 ∷ 1 ∷ 11 ∷ [])
      ≡ some output)
converse-total_example =
    converse-total sample_crates sample_ssh sample_store 6 (0 ∷ 0 ∷ 0 ∷ 1 ∷ 11 ∷ []) (omega arith)
