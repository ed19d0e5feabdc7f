-- ===== src/Store/Keyring/Imported.antt =====
-- What an import does to the keys of the store.
use traffic_cone.Common.{
  ◌≡◌, refl, sym, ap, ◌∙◌, subst, Bool, false, Option, List, [], ◌∷◌, ◌++◌, arith, find, ok, Text,
  Bytes, text_eq,
}
use traffic_cone.Store.Models.{KeyAlgorithm, Cert}
use traffic_cone.Store.Db.{Db, KeyRow, AuditRow, insert_cert, insert_key, insert_audit}
use traffic_cone.Store.Db.Sound.{IsSound}
use traffic_cone.Store.Exec.{◌>>=◌, sql, Exec, done, bind_ok}
use traffic_cone.Store.Handle.{Store}
use traffic_cone.Store.Crypto.{Crates, CratesLaws}
use traffic_cone.Store.Import.{
  Parsers, Draws, store_cert_and_key, key_row, ImportResult, detect_key_algorithm, ImportFormat,
}
use traffic_cone.Store.Import.File.{
  import_file, import_as, import_pkcs12, import_pem, import_der, get_plaintext_key-import_file,
}
use traffic_cone.Store.Keyring.Spared.{Spares, Spares-sql, spares_rules}
use traffic_cone.Store.Keyring.{put_alone, put, keyring, row_of, keyring-seen}

find_append :
    {A : Type 0} (p : A → Bool) (xs : List A) (y : A)
    → p y ≡ false
    → find p (xs ++ y ∷ []) ≡ find p xs
find_append p [] y h = rw h refl
find_append p (x ∷ xs) y h = ground (arith, find_append p xs y h)

insert_cert-row :
    (x : Text) (cert : Cert) (d d' : Db) → insert_cert cert d ≡ ok d' → row_of d' x ≡ row_of d x
unfolding insert_cert
insert_cert-row x cert d d' e =
    let keys : d'.keys ≡ d.keys = ground arith in
    ap (find (λ (k : KeyRow). text_eq k.cert_id x)) keys

pub insert_audit-row :
    (x : Text) (a : AuditRow) (d d' : Db) → insert_audit a d ≡ ok d' → row_of d' x ≡ row_of d x
unfolding insert_audit
insert_audit-row x a d d' e =
    let keys : d'.keys ≡ d.keys = ground arith in
    ap (find (λ (k : KeyRow). text_eq k.cert_id x)) keys

insert_key-row :
    (x : Text) (k : KeyRow) (d d' : Db)
    → text_eq k.cert_id x ≡ false
    → insert_key k d ≡ ok d'
    → row_of d' x ≡ row_of d x
unfolding insert_key
insert_key-row x k d d' other e =
    let keys : d'.keys ≡ d.keys ++ k ∷ [] = ground arith in
    ap (find (λ (y : KeyRow). text_eq y.cert_id x)) keys ∙ find_append _ d.keys k other

module _ (c : Crates) (p : Parsers) (w : Draws) (x : Text)
    (other : text_eq w.cert_id x ≡ false) where
  insert_cert-Spares : (cert : Cert) → Spares x (sql (insert_cert cert))
  insert_cert-Spares cert = Spares-sql _ (insert_cert-row x cert)

  insert_audit-Spares : (a : AuditRow) → Spares x (sql (insert_audit a))
  insert_audit-Spares a = Spares-sql _ (insert_audit-row x a)

  insert_key-Spares :
      (a : KeyAlgorithm) (e : Bytes × Bytes × Bytes)
      → Spares x (sql (insert_key (key_row c p w a e)))
  insert_key-Spares a e = Spares-sql _ (λ d d'. insert_key-row x (key_row c p w a e) d d' other)

  store_cert_and_key-Spares :
      (cert_der key_der : Bytes) (label : Text)
      → Spares x (store_cert_and_key c p w cert_der key_der label)
  unfolding store_cert_and_key
  store_cert_and_key-Spares cert_der key_der label =
      search (spares_rules, insert_cert-Spares, insert_audit-Spares, insert_key-Spares) depth 30

  import_as-Spares :
      (format : ImportFormat) (path file_passphrase label : Text) (key_path : Option Text)
      → Spares x (import_as c p w format path file_passphrase label key_path)
  unfolding import_as import_pkcs12 import_pem import_der
  import_as-Spares ImportFormat.pkcs12 path file_passphrase label key_path =
      search (spares_rules, store_cert_and_key-Spares) depth 10
  import_as-Spares ImportFormat.pem path file_passphrase label key_path =
      search (spares_rules, store_cert_and_key-Spares) depth 10
  import_as-Spares ImportFormat.der path file_passphrase label key_path =
      search (spares_rules, store_cert_and_key-Spares) depth 10

  -- An import, whether it succeeds or fails, leaves the key under every other id as it was.
  pub import_file-Spares :
      (path file_passphrase label : Text) (key_path : Option Text)
      → Spares x (import_file c p w path file_passphrase label key_path)
  unfolding import_file
  import_file-Spares path file_passphrase label key_path =
      search (spares_rules, import_as-Spares) depth 10

-- An import that returns this id.
record Names (id : Text) (m : Exec ImportResult) : Type 0 where
  at : (s : Store) (r : ImportResult) → (m s).1 ≡ ok r → r.cert_id ≡ id

module _ {id : Text} where
  Names-done : (chain : List Bytes) → Names id (done (record { cert_id = id; ca_chain = chain }))
  unfolding done
  Names-done chain = record { at = λ s r h. cc h }

  Names-bind :
      {A : Type 0} (m : Exec A) (f : A → Exec ImportResult)
      → ((a : A) → Names id (f a))
      → Names id (m >>= f)
  Names-bind m f k = record { at = λ s r h. let (a, e, q, h') = bind_ok m f s h in (k a).at _ r h' }

  Names-chain :
      (m : Exec ImportResult) (chain : List Bytes)
      → Names id m
      → Names id (m >>= (λ r. done (record r { ca_chain = chain })))
  unfolding done
  Names-chain m chain k = record {
    at = λ s r h.
        let (r', e, q, h') = bind_ok m _ s h in
        let same : r'.cert_id ≡ r.cert_id = ground arith in sym same ∙ k.at s r' e;
  }

module _ (c : Crates) (p : Parsers) (w : Draws) where
  store_cert_and_key-Names :
      (cert_der key_der : Bytes) (label : Text)
      → Names w.cert_id (store_cert_and_key c p w cert_der key_der label)
  unfolding store_cert_and_key
  store_cert_and_key-Names cert_der key_der label = search (Names-bind, Names-done) depth 30

  import_as-Names :
      (format : ImportFormat) (path file_passphrase label : Text) (key_path : Option Text)
      → Names w.cert_id (import_as c p w format path file_passphrase label key_path)
  unfolding import_as import_pkcs12 import_pem import_der
  import_as-Names ImportFormat.pkcs12 path file_passphrase label key_path =
      Names-bind _ _ λ parts. Names-chain _ parts.ca_chain (store_cert_and_key-Names _ _ label)
  import_as-Names ImportFormat.pem path file_passphrase label key_path =
      Names-bind _ _ λ parts. store_cert_and_key-Names _ _ label
  import_as-Names ImportFormat.der path file_passphrase label key_path =
      Names-bind _ _ λ parts. store_cert_and_key-Names _ _ label

  import_file-Names :
      (path file_passphrase label : Text) (key_path : Option Text)
      → Names w.cert_id (import_file c p w path file_passphrase label key_path)
  unfolding import_file
  import_file-Names path file_passphrase label key_path =
      Names-bind _ _ λ format. import_as-Names format path file_passphrase label key_path

-- A successful import puts one key into the keyring, under the id that it returns, and changes nothing
-- else in it: the keyring of the store afterwards is the one before with that key and its detected
-- algorithm.
pub keyring-import_file :
    (c : Crates) (p : Parsers) (w : Draws) (laws : CratesLaws c) (path file_passphrase label : Text)
    (key_path : Option Text) (s : Store) (r : ImportResult)
    → IsSound s.disk.db
    → (import_file c p w path file_passphrase label key_path s).1 ≡ ok r
    → (key_der : Bytes) × (a : KeyAlgorithm) × (detect_key_algorithm c p key_der ≡ ok a)
      × (keyring c (import_file c p w path file_passphrase label key_path s).0
          ≡ put r.cert_id (key_der, a) (keyring c s))
keyring-import_file c p w laws path file_passphrase label key_path s r sound h =
    let (key_der, a, e, got) =
      get_plaintext_key-import_file c p w laws path file_passphrase label key_path s r sound h in
    let id : r.cert_id ≡ w.cert_id =
      (import_file-Names c p w path file_passphrase label key_path).at s r h in
    (
      key_der,
      a,
      e,
      put_alone _ _ r.cert_id (key_der, a) got
          λ x other. keyring-seen c _ s x (
            (import_file-Spares c p w x (subst (λ i. text_eq i x ≡ false) id other) path
                file_passphrase label key_path).at
              s),
    )
