-- ===== src/Store/Listing.antt =====
-- crates/cone-store/src/list.rs: listing, retrieval and deletion.
use traffic_cone.Common.{
  ℕ, Bool, true, false, not, ◌&&◌, ◌||◌, List, [], ◌∷◌, ◌++◌, map, ltb, ◌==◌, if◌then◌else◌, take,
  find, Result, ok, err, ◌>>=◌, ok_or, Text, Bytes, codes, text_eq,
}
use traffic_cone.Common.Int.{pos, ltb_ℤ, eqb_ℤ}
use traffic_cone.Common.Sort.{sort_by}
use traffic_cone.Store.Models.{
  KeyAlgorithm, rsa2048, ec_p256, ec_p384, SshAlgorithm, MatchType, hostname, ip, ip_cidr, Cert,
  SshKey, CaCert, App, Route, SshRoute, StoreError, crypto, not_found,
}
use traffic_cone.Store.Db.{KeyRow, SshKeyRow, RouteRow, AuditRow}
use traffic_cone.Store.Handle.{Store, conn, passphrase}
use traffic_cone.Store.Crypto.{Crates, decrypt_key}

-- SQLite compares text byte by byte.
unfoldable pub text_le : Text → Text → Bool
text_le [] ys = true
text_le (x ∷ xs) [] = false
text_le (x ∷ xs) (y ∷ ys) = ltb x y || (x == y && text_le xs ys)

unfoldable pub list_certs : Store → Result StoreError (List Cert)
list_certs s = do d ← conn s; ok (sort_by (λ (a b : Cert). text_le a.label b.label) d.certs)

unfoldable pub get_cert_by_label : Store → Text → Result StoreError Cert
get_cert_by_label s label = do
  d ← conn s
  ok_or (find (λ (c : Cert). text_eq c.label label) d.certs)
      (not_found (codes "no certificate with label '" ++ label ++ codes "'"))

unfoldable pub get_cert_by_id : Store → Text → Result StoreError Cert
get_cert_by_id s id = do
  d ← conn s
  ok_or (find (λ (c : Cert). text_eq c.id id) d.certs)
      (not_found (codes "no certificate with id '" ++ id ++ codes "'"))

unfoldable pub parse_algorithm : Text → Result StoreError KeyAlgorithm
parse_algorithm s =
    if text_eq s (codes "Rsa2048")
    then ok rsa2048
    else if text_eq s (codes "Rsa4096")
    then ok KeyAlgorithm.rsa4096
    else if text_eq s (codes "EcP256")
    then ok ec_p256
    else if text_eq s (codes "EcP384")
    then ok ec_p384
    else err (crypto (codes "unknown key algorithm in database: " ++ s))

module _ (c : Crates) where
  unfoldable pub get_plaintext_key : Store → Text → Result StoreError (Bytes × KeyAlgorithm)
  get_plaintext_key s cert_id = do
    d ← conn s
    k ←
        ok_or (find (λ (k : KeyRow). text_eq k.cert_id cert_id) d.keys)
          (not_found (codes "no private key found for cert '" ++ cert_id ++ codes "'"))
    master ← passphrase s
    plaintext ← decrypt_key c k.key_enc k.key_salt k.key_nonce master
    algorithm ← parse_algorithm k.algorithm
    ok (plaintext, algorithm)

  unfoldable pub get_ssh_plaintext_key : Store → Text → Result StoreError Bytes
  get_ssh_plaintext_key s label = do
    d ← conn s
    k ←
        ok_or (find (λ (k : SshKeyRow). text_eq k.label label) d.ssh_keys)
          (not_found (codes "no SSH key with label '" ++ label ++ codes "'"))
    master ← passphrase s
    decrypt_key c k.key_enc k.key_salt k.key_nonce master

-- The column `algorithm` is selected and not read: every key is listed as Ed25519.
abbrev pub ssh_key_of_row : SshKeyRow → SshKey
ssh_key_of_row k = record {
  id = k.id;
  label = k.label;
  public_key = k.public_key;
  algorithm = SshAlgorithm.ed25519;
  key_enc = k.key_enc;
  key_salt = k.key_salt;
  key_nonce = k.key_nonce;
  created_at = k.created_at;
}

unfoldable pub list_ssh_keys : Store → Result StoreError (List SshKey)
list_ssh_keys s = do
  d ← conn s
  ok (map ssh_key_of_row (sort_by (λ (a b : SshKeyRow). text_le a.label b.label) d.ssh_keys))

unfoldable pub list_ca_certs : Store → Result StoreError (List CaCert)
list_ca_certs s = do d ← conn s; ok (sort_by (λ (a b : CaCert). text_le a.label b.label) d.ca_certs)

unfoldable pub list_apps : Store → Result StoreError (List App)
list_apps s = do d ← conn s; ok (sort_by (λ (a b : App). text_le a.label b.label) d.apps)

unfoldable pub get_app_by_exe : Store → Text → Result StoreError App
get_app_by_exe s exe_path = do
  d ← conn s
  ok_or (find (λ (a : App). text_eq a.exe_path exe_path) d.apps)
      (not_found (codes "no registered application at path '" ++ exe_path ++ codes "'"))

unfoldable pub parse_match_type : Text → MatchType
parse_match_type t =
    if text_eq t (codes "ip") then ip else if text_eq t (codes "ip_cidr") then ip_cidr else hostname

abbrev pub route_of_row : RouteRow → Route
route_of_row r = record {
  id = r.id;
  cert_id = r.cert_id;
  app_id = r.app_id;
  match_type = parse_match_type r.match_type;
  pattern = r.pattern;
  require_both = not (eqb_ℤ r.require_both (pos 0));
  priority = r.priority;
  created_at = r.created_at;
}

-- `ORDER BY priority DESC, created_at ASC`
abbrev pub route_before : RouteRow → RouteRow → Bool
route_before a b =
    ltb_ℤ b.priority a.priority
    || (eqb_ℤ a.priority b.priority && not (ltb_ℤ b.created_at a.created_at))

unfoldable pub list_routes : Store → Result StoreError (List Route)
list_routes s = do d ← conn s; ok (map route_of_row (sort_by route_before d.routes))

unfoldable pub list_ssh_routes : Store → Result StoreError (List SshRoute)
list_ssh_routes s = do
  d ← conn s
  ok (sort_by (λ (a b : SshRoute). not (ltb_ℤ b.created_at a.created_at)) d.ssh_routes)

-- `ORDER BY occurred_at DESC LIMIT ?1`
unfoldable pub list_audit_log : Store → ℕ → Result StoreError (List AuditRow)
list_audit_log s limit = do
  d ← conn s
  ok (
      take limit
        (sort_by (λ (a b : AuditRow). not (ltb_ℤ a.occurred_at b.occurred_at)) d.audit_log))
