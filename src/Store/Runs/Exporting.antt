-- ===== src/Store/Runs/Exporting.antt =====
-- An export of the sample store, imported again.
use traffic_cone.Common.{
  ◌≡◌, refl, ap, subst, Option, none, some, List, [], ◌∷◌, ◌++◌, length, take, drop, Result, ok,
  err, Text, Bytes, codes, text_eq,
}
use traffic_cone.Common.Int.{pos}
use traffic_cone.Store.Models.{KeyAlgorithm}
use traffic_cone.Store.Db.Sound.{empty_db-IsSound}
use traffic_cone.Store.Db.{Db, empty_db}
use traffic_cone.Store.Handle.{Store, set_db, unlocked}
use traffic_cone.Store.Listing.{get_plaintext_key}
use traffic_cone.Store.Export.{PfxCrate, export_pfx}
use traffic_cone.Store.Export.RoundTrip.{ReadsBack, import_file-export_pfx}
use traffic_cone.Store.Import.{Parsers, ImportResult, ImportFormat, detect_format}
use traffic_cone.Store.Import.File.{import_file}
use traffic_cone.Store.Samples.{
  sample_crates, sample_laws, sample_store, sample_parsers, sample_draws, store_of,
}
use traffic_cone.Store.Runs.Backups.{master}

-- A file of the length of the key, the key and the certificate.
abbrev sample_pfx : PfxCrate
sample_pfx = record {
  check_cert = λ der. ok tt;
  write = λ password key cert. ok (length key ∷ (key ++ cert));
}

abbrev read_pfx : Bytes → Text → Result Text (Option (List Bytes × Bytes))
read_pfx [] password = err []
read_pfx (n ∷ rest) password = ok (some (drop n rest ∷ [], take n rest))

abbrev pfx_file : Bytes
pfx_file = 1 ∷ 5 ∷ 48 ∷ []

abbrev pfx_parsers : Parsers
pfx_parsers = record sample_parsers { pkcs12 = read_pfx; read_file = λ path. some pfx_file }

take_front : (xs ys : Bytes) → take (length xs) (xs ++ ys) ≡ xs
take_front [] ys = refl
take_front (x ∷ xs) ys = ap (λ (t : Bytes). x ∷ t) (take_front xs ys)

drop_front : (xs ys : Bytes) → drop (length xs) (xs ++ ys) ≡ ys
drop_front [] ys = refl
drop_front (x ∷ xs) ys = drop_front xs ys

pfx-ReadsBack : ReadsBack sample_pfx pfx_parsers
pfx-ReadsBack password key cert bytes h =
    let same : length key ∷ (key ++ cert) ≡ bytes = cc h in
    subst (λ (t : Bytes). read_pfx t password ≡ ok (some (cert ∷ [], key))) same
      (rw (take_front key cert) (rw (drop_front key cert) refl))

abbrev new_store : Store
new_store = store_of empty_db (unlocked master)

decrypted :
    get_plaintext_key sample_crates sample_store (codes "c1") ≡ ok (5 ∷ [], KeyAlgorithm.ec_p256)
unfolding get_plaintext_key traffic_cone.Store.Handle.conn text_eq
    traffic_cone.Store.Handle.passphrase traffic_cone.Store.Crypto.decrypt_key
    traffic_cone.Store.Listing.parse_algorithm
decrypted = refl

exported :
    (export_pfx sample_crates sample_pfx
      (codes "e7")
      (pos 4)
      (codes "c1")
      (codes "x")
      sample_store).1
    ≡ ok pfx_file
unfolding export_pfx traffic_cone.Store.Exec.◌>>=◌ traffic_cone.Store.Exec.ask
    traffic_cone.Store.Handle.conn text_eq traffic_cone.Store.Handle.passphrase
    traffic_cone.Store.Exec.sql traffic_cone.Store.Db.insert_audit traffic_cone.Store.Exec.done
exported = refl

abbrev pfx_path : Text
pfx_path = codes "me.p12"

is_pkcs12 : detect_format pfx_path ≡ ok ImportFormat.pkcs12
unfolding detect_format text_eq traffic_cone.Store.Import.Path.extension_lower
is_pkcs12 = refl

abbrev pfx_result : ImportResult
pfx_result = record { cert_id = codes "c2"; ca_chain = [] }

imported :
    (import_file sample_crates pfx_parsers sample_draws pfx_path
      (codes "x")
      (codes "new")
      none
      new_store).1
    ≡ ok pfx_result
unfolding import_file traffic_cone.Store.Exec.◌>>=◌ traffic_cone.Store.Exec.ask
    traffic_cone.Store.Exec.sql traffic_cone.Store.Exec.done detect_format text_eq
    traffic_cone.Store.Import.Path.extension_lower traffic_cone.Store.Import.Path.to_lower
    traffic_cone.Store.Import.Formats.pkcs12_parts traffic_cone.Store.Import.store_cert_and_key
    traffic_cone.Store.Import.detect_key_algorithm traffic_cone.Store.Handle.passphrase
    traffic_cone.Store.Handle.set_db traffic_cone.Store.Crypto.encrypt_key
    traffic_cone.Store.Handle.conn traffic_cone.Store.Db.insert_cert
    traffic_cone.Store.Db.insert_key traffic_cone.Store.Db.insert_audit
    traffic_cone.Store.Crypto.hash_bytes traffic_cone.Store.Crypto.derive_key
    traffic_cone.Store.Import.File.import_as traffic_cone.Store.Import.File.import_pkcs12
    traffic_cone.Store.Import.debug_name
imported = refl

import_file-export_pfx_example :
    (b : KeyAlgorithm) × (get_plaintext_key sample_crates
        (import_file sample_crates pfx_parsers sample_draws pfx_path
          (codes "x")
          (codes "new")
          none
          new_store).0
        (codes "c2")
      ≡ ok (5 ∷ [], b))
import_file-export_pfx_example =
    import_file-export_pfx sample_crates sample_pfx pfx_parsers sample_laws sample_draws
      (codes "e7") (pos 4) (codes "c1") (codes "x") pfx_path (codes "new") none sample_store
      new_store pfx_file (5 ∷ []) KeyAlgorithm.ec_p256 pfx_result pfx-ReadsBack decrypted exported
      refl is_pkcs12 empty_db-IsSound imported
