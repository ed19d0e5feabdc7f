-- ===== src/Store/Samples.antt =====
-- Test data: crates that are simple functions, and a store with one certificate, key and route.
use traffic_cone.Common.{
  true, ◌≡◌, refl, subst, Option, none, some, [], ◌∷◌, ◌++◌, Result, ok, err, Text, Bytes, codes,
  text_eq,
}
use traffic_cone.Common.Int.{pos}
use traffic_cone.Store.Models.{Cert, App, IntegrityRecord}
use traffic_cone.Store.Db.{Db, KeyRow, RouteRow, SshKeyRow}
use traffic_cone.Store.Db.Sound.{IsSound}
use traffic_cone.Store.Handle.{Opening, Store, StoreState, unlocked}
use traffic_cone.Store.Crypto.{Crates, CratesLaws}
use traffic_cone.Store.Import.{Parsers, Draws}
use traffic_cone.Store.Routes.{Query}

abbrev pub strip : Bytes → Result Text Bytes
strip [] = err []
strip (x ∷ xs) = ok xs

abbrev pub sample_crates : Crates
sample_crates = record {
  argon2 = λ passphrase salt. ok (passphrase ++ salt);
  aes_encrypt = λ key nonce plain. ok (7 ∷ plain);
  aes_decrypt = λ key nonce cipher. strip cipher;
  sha256 = λ b. b;
  hex_encode = λ b. b;
  hex_decode = λ t. ok t;
}

stripped :
    (key nonce plain cipher : Bytes)
    → sample_crates.aes_encrypt key nonce plain ≡ ok cipher
    → strip cipher ≡ ok plain
stripped key nonce plain cipher h =
    let e : 7 ∷ plain ≡ cipher = cc h in subst (λ (x : Bytes). strip x ≡ ok plain) e refl

pub sample_laws : CratesLaws sample_crates
sample_laws = record { decrypt-encrypt = stripped; decode-encode = λ b. refl }

abbrev pub sample_cert : Cert
sample_cert = record {
  id = codes "c1";
  label = codes "laptop";
  cert_der = 48 ∷ [];
  fingerprint = 48 ∷ [];
  subject = codes "CN=me";
  issuer = codes "CN=ca";
  not_before = pos 0;
  not_after = pos 9;
  created_at = pos 1;
}

abbrev pub sample_key : KeyRow
sample_key = record {
  id = codes "k1";
  cert_id = codes "c1";
  algorithm = codes "EcP256";
  key_enc = 7 ∷ 5 ∷ [];
  key_salt = 1 ∷ [];
  key_nonce = 2 ∷ [];
}

abbrev pub sample_app : App
sample_app = record {
  id = codes "a1";
  label = codes "curl";
  exe_path = codes "/bin/curl";
  exe_hash = codes "h";
  registered_at = pos 1;
}

-- Under `require_both`: the application and the address.
abbrev pub sample_route : RouteRow
sample_route = record {
  id = codes "r1";
  cert_id = codes "c1";
  app_id = some (codes "a1");
  match_type = codes "ip";
  pattern = some (codes "10.0.0.1");
  require_both = pos 1;
  priority = pos 0;
  created_at = pos 1;
}

-- Neither an application nor a host.
abbrev pub open_route : RouteRow
open_route = record sample_route { app_id = none; pattern = none; require_both = pos 0 }

abbrev pub sample_record : IntegrityRecord
sample_record = record {
  id = codes "i1";
  component = codes "coned";
  path = codes "/bin/coned";
  sha256 = codes "old";
  version = codes "1";
  recorded_at = pos 1;
  verified_at = none;
}

abbrev pub sample_ssh_key : SshKeyRow
sample_ssh_key = record {
  id = codes "s1";
  label = codes "git";
  public_key = codes "ssh-ed25519 AAAA";
  algorithm = codes "Ed25519";
  key_enc = 7 ∷ 6 ∷ [];
  key_salt = 1 ∷ [];
  key_nonce = 2 ∷ [];
  created_at = pos 1;
}

abbrev pub sample_db : Db
sample_db = record {
  certs = sample_cert ∷ [];
  keys = sample_key ∷ [];
  ssh_keys = sample_ssh_key ∷ [];
  ca_certs = [];
  apps = sample_app ∷ [];
  routes = sample_route ∷ [];
  ssh_routes = [];
  integrity = sample_record ∷ [];
  audit_log = [];
}

pub sample-IsSound : IsSound sample_db
unfolding text_eq
sample-IsSound = record {
  keys_owned = (refl, tt);
  routes_owned = (refl, tt);
  ssh_routes_owned = tt;
  certs_distinct = (tt, tt);
  apps_distinct = (tt, tt);
}

abbrev pub store_of : Db → StoreState → Store
store_of d st = record {
  path = codes "db";
  disk = record {
    salt = some (1 ∷ []);
    key = some (1 ∷ []);
    versions = some (pos 1 ∷ []);
    tables = λ t. true;
    db = d;
  };
  state = st;
}

abbrev pub sample_store : Store
sample_store = store_of sample_db (unlocked (codes "pw"))

-- A file whose content is the hash that is recorded, and one whose content is not.
abbrev pub read_old : Text → Option Bytes
read_old path = some (codes "old")

abbrev pub read_new : Text → Option Bytes
read_new path = some (codes "new")

abbrev pub sample_query : Query
sample_query = record {
  exe_path = some (codes "/bin/curl");
  remote_host = none;
  remote_ip = some (codes "10.0.0.1");
}

-- A certificate is any text, and every key an EC key.
abbrev pub sample_parsers : Parsers
sample_parsers = record {
  x509 = λ b. ok (record {
    subject = codes "CN=new";
    issuer = codes "CN=ca";
    not_before = pos 0;
    not_after = pos 5;
  });
  pkcs8_oid = λ b. ok (codes "1.2.840.10045.2.1");
  pem_parse = λ t. ok (record { tag = codes "PRIVATE KEY"; contents = 3 ∷ [] });
  pem_parse_many = λ t. ok (
      record { tag = codes "PRIVATE KEY"; contents = 3 ∷ [] }
      ∷ record { tag = codes "CERTIFICATE"; contents = 4 ∷ [] }
      ∷ []);
  pkcs12 = λ b t. ok (some (((4 ∷ []) ∷ []), 3 ∷ []));
  read_file = λ path. some (4 ∷ []);
  read_to_string = λ path. some [];
}

-- An unlocking that draws this salt, and in which no file fails.
abbrev pub opening_with : Bytes → Opening
opening_with fresh = record {
  fresh = fresh;
  salt_unreadable = none;
  salt_unwritten = none;
  unopened = none;
  stop = none;
}

abbrev pub sample_draws : Draws
sample_draws = record {
  salt = 1 ∷ [];
  nonce = 2 ∷ [];
  cert_id = codes "c2";
  key_id = codes "k2";
  audit_id = codes "e2";
  now = pos 2;
}
