-- ===== src/Store/Import/Laws.antt =====
-- What an import leaves in the store.
use traffic_cone.Common.{
  ◌≡◌, refl, sym, ap, ◌∙◌, subst, inl, inr, Bool, true, false, ◌||◌, some, List, [], ◌∷◌, ◌++◌,
  arith, Bool-cases, find, any_of, All, ok, ok_or, Text, Bytes, text_eq, text_eq_iff, text_eq_refl,
}
use traffic_cone.Store.Db.Sound.{has_cert, sound_rules, IsSound}
use traffic_cone.Store.Import.{
  key_row, detect_key_algorithm, ImportResult, debug_name, Draws, Parsers, store_cert_and_key,
}
use traffic_cone.Store.Crypto.{
  decrypt_key-encrypt_key, decrypt_key, encrypt_key, CratesLaws, Crates,
}
use traffic_cone.Store.Exec.{sql_ok, ask_ok, done, KeepsDb-sql, keeps_rules, KeepsDb}
use traffic_cone.Store.Listing.{get_plaintext_key, parse_algorithm}
use traffic_cone.Store.Models.{ec_p384, ec_p256, rsa2048, KeyAlgorithm, Cert}
use traffic_cone.Store.Db.{AuditRow, insert_audit, Db, insert_key, insert_cert, KeyRow}
use traffic_cone.Store.Handle.{sealed, passphrase, StoreState, unlocked, Store, set_db, conn}

pub store_cert_and_key-KeepsDb :
    (c : Crates) (p : Parsers) (w : Draws) (cert_der key_der : Bytes) (label : Text)
    → KeepsDb IsSound (store_cert_and_key c p w cert_der key_der label)
unfolding store_cert_and_key
store_cert_and_key-KeepsDb c p w cert_der key_der label =
    search (keeps_rules, KeepsDb-sql, sound_rules) depth 30

parse_algorithm-debug_name : (a : KeyAlgorithm) → parse_algorithm (debug_name a) ≡ ok a
unfolding parse_algorithm debug_name text_eq
parse_algorithm-debug_name rsa2048 = refl
parse_algorithm-debug_name KeyAlgorithm.rsa4096 = refl
parse_algorithm-debug_name ec_p256 = refl
parse_algorithm-debug_name ec_p384 = refl

-- No key has an owner that is not there, so the first key of a new certificate is its own.
find_new :
    (certs : List Cert) (i : Text) (keys : List KeyRow) (k : KeyRow)
    → All (λ (x : KeyRow). has_cert certs x.cert_id ≡ true) keys
    → has_cert certs i ≡ false
    → k.cert_id ≡ i
    → find (λ (x : KeyRow). text_eq x.cert_id i) (keys ++ k ∷ []) ≡ some k
find_new certs i [] k h n e = rw (e, text_eq_refl) refl
find_new certs i (x ∷ xs) k h n e = elim (Bool-cases (text_eq x.cert_id i)) [
  | inl same ↦ cc (h.0, n, ap (has_cert certs) ((text_eq_iff x.cert_id i).0 same))
  | inr other ↦ rw other (find_new certs i xs k h.1 n e)
]

-- The keys after the three statements of an import.
keys_after :
    (x : Cert) (k : KeyRow) (a : AuditRow) (d d1 d2 d3 : Db)
    → insert_cert x d ≡ ok d1
    → insert_key k d1 ≡ ok d2
    → insert_audit a d2 ≡ ok d3
    → (d3.keys ≡ d.keys ++ k ∷ [])
unfolding insert_cert insert_key insert_audit
keys_after x k a d d1 d2 d3 e1 e2 e3 = ground arith

any_of_or :
    {A : Type 0} (p q : A → Bool) (xs : List A)
    → any_of (λ x. p x || q x) xs ≡ false
    → any_of p xs ≡ false
any_of_or p q [] h = refl
any_of_or p q (x ∷ xs) h = ground (arith, any_of_or p q xs)

new_cert : (x : Cert) (d d1 : Db) → insert_cert x d ≡ ok d1 → has_cert d.certs x.id ≡ false
unfolding insert_cert
new_cert x d d1 h =
    any_of_or (λ (y : Cert). text_eq y.id x.id) (λ (y : Cert). text_eq y.fingerprint x.fingerprint)
      d.certs (ground arith)

module _ (c : Crates) (laws : CratesLaws c) (p : Parsers) (w : Draws) where
  retrieve :
      (s : Store) (pass : Bytes) (d : Db) (key_der : Bytes) (a : KeyAlgorithm)
      (e : Bytes × Bytes × Bytes)
      → find (λ (k : KeyRow). text_eq k.cert_id w.cert_id) d.keys ≡ some (key_row c p w a e)
      → decrypt_key c e.0 e.1 e.2 pass ≡ ok key_der
      → get_plaintext_key c (set_db d (record s { state = unlocked pass })) w.cert_id
        ≡ ok (key_der, a)
  unfolding get_plaintext_key conn passphrase set_db
  retrieve s pass d key_der a e found plain =
      rw (found, ok_or) (rw plain (rw (parse_algorithm-debug_name a) refl))

  -- The tables after the three statements, of which the last alone is in the store.
  stored :
      (s : Store) (pass : Bytes) (d0 d1 d2 d3 : Db) (key_der : Bytes) (a : KeyAlgorithm)
      (e : Bytes × Bytes × Bytes) (x : Cert) (audit : AuditRow)
      → IsSound d0
      → x.id ≡ w.cert_id
      → encrypt_key c w.salt w.nonce key_der pass ≡ ok e
      → insert_cert x d0 ≡ ok d1
      → insert_key (key_row c p w a e) d1 ≡ ok d2
      → insert_audit audit d2 ≡ ok d3
      → get_plaintext_key c (set_db d3 (record s { state = unlocked pass })) w.cert_id
        ≡ ok (key_der, a)
  stored s pass d0 d1 d2 d3 key_der a e x audit sound same enc e1 e2 e3 =
      retrieve s pass d3 key_der a e
        (rw (keys_after x (key_row c p w a e) audit d0 d1 d2 d3 e1 e2 e3) (
          find_new d0.certs w.cert_id d0.keys (key_row c p w a e) sound.keys_owned
            (subst (λ i. has_cert d0.certs i ≡ false) same (new_cert x d0 d1 e1)) refl))
        (decrypt_key-encrypt_key c laws w.salt w.nonce key_der pass e enc)

  abbrev Retrieved : Bytes → Bytes → Text → Store → ImportResult → Type 0
  Retrieved cert_der key_der label s r =
      (a : KeyAlgorithm) × (detect_key_algorithm c p key_der ≡ ok a)
      × (get_plaintext_key c (store_cert_and_key c p w cert_der key_der label s).0 r.cert_id
          ≡ ok (key_der, a))

  import_in_state :
      (cert_der key_der : Bytes) (label : Text) (s : Store) (st : StoreState) (r : ImportResult)
      → IsSound s.disk.db
      → (store_cert_and_key c p w cert_der key_der label (record s { state = st })).1 ≡ ok r
      → Retrieved cert_der key_der label (record s { state = st }) r
  unfolding store_cert_and_key set_db done
  import_in_state cert_der key_der label s sealed r sound h =
      let (meta, e1, q1, h1) = ask_ok _ _ _ h in
      let (a, e2, q2, h2) = ask_ok _ _ _ h1 in
      let (master, e3, q3, h3) = ask_ok _ _ _ h2 in unfold passphrase in cc e3
  import_in_state cert_der key_der label s (unlocked pass) r sound h =
      let (meta, e1, q1, h1) = ask_ok _ _ _ h in
      let (a, e2, q2, h2) = ask_ok _ _ _ h1 in
      let (master, e3, q3, h3) = ask_ok _ _ _ h2 in
      let (e, e4, q4, h4) = ask_ok _ _ _ h3 in
      let (d0, e5, q5, h5) = ask_ok _ _ _ h4 in
      let (d1, e6, q6, h6) = sql_ok _ _ _ h5 in
      let (d2, e7, q7, h7) = sql_ok _ _ _ h6 in
      let (d3, e8, q8, h8) = sql_ok _ _ _ h7 in
      let same : pass ≡ master = unfold passphrase in ground arith in
      let named : w.cert_id ≡ r.cert_id = ground arith in
      let path = q1 ∙ q2 ∙ q3 ∙ q4 ∙ q5 ∙ q6 ∙ q7 ∙ q8 in
      (
        a,
        e2,
        subst (λ t. get_plaintext_key c t.0 r.cert_id ≡ ok (key_der, a)) (sym path)
            (subst
              (λ i.
                get_plaintext_key c (set_db d3 (record s { state = unlocked pass })) i
                ≡ ok (key_der, a))
              named
              (stored s pass s.disk.db d1 d2 d3 key_der a e _ _ sound refl
                (subst (λ m. encrypt_key c w.salt w.nonce key_der m ≡ ok e) (sym same) e4) e6 e7
                e8)),
      )

  -- A certificate that has been imported into a sound store is there with its key: the key comes back
  -- decrypted, with the algorithm that was detected, under the id that the import returned.
  pub get_plaintext_key-store_cert_and_key :
      (cert_der key_der : Bytes) (label : Text) (s : Store) (r : ImportResult)
      → IsSound s.disk.db
      → (store_cert_and_key c p w cert_der key_der label s).1 ≡ ok r
      → (a : KeyAlgorithm) × (detect_key_algorithm c p key_der ≡ ok a)
        × (get_plaintext_key c (store_cert_and_key c p w cert_der key_der label s).0 r.cert_id
            ≡ ok (key_der, a))
  get_plaintext_key-store_cert_and_key cert_der key_der label s r sound h =
      import_in_state cert_der key_der label s s.state r sound h

-- The common path of the imports keeps the constraints of `IsSound`, whether it succeeds or fails
-- between two of its statements.
pub store_cert_and_key-IsSound :
    (c : Crates) (p : Parsers) (w : Draws) (cert_der key_der : Bytes) (label : Text) (s : Store)
    → IsSound s.disk.db
    → IsSound (store_cert_and_key c p w cert_der key_der label s).0.disk.db
store_cert_and_key-IsSound c p w cert_der key_der label s h =
    (store_cert_and_key-KeepsDb c p w cert_der key_der label).at s h
