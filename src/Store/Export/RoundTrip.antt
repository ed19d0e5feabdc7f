-- ===== src/Store/Export/RoundTrip.antt =====
-- A key that is exported as PFX and imported from the file is the same key.
use traffic_cone.Common.{
  ◌≡◌, refl, sym, ap, ◌∙◌, subst, Option, some, [], ◌∷◌, find, Result, ok, ok_or, map_err-eq-ok,
  ok_or-eq-ok, >>=-eq-ok, Text, Bytes, text_eq,
}
use traffic_cone.Common.Int.{ℤ}
use traffic_cone.Store.Models.{StoreError, KeyAlgorithm}
use traffic_cone.Store.Db.{Db, KeyRow}
use traffic_cone.Store.Db.Sound.{IsSound}
use traffic_cone.Store.Handle.{Store, conn, passphrase, set_db}
use traffic_cone.Store.Listing.{get_plaintext_key, parse_algorithm}
use traffic_cone.Store.Crypto.{Crates, CratesLaws, decrypt_key}
use traffic_cone.Store.Exec.{done, ask_ok, sql_ok, bind_ok}
use traffic_cone.Store.Export.{PfxCrate, export_pfx}
use traffic_cone.Store.Import.{Parsers, Draws, ImportResult, pkcs12, detect_format}
use traffic_cone.Store.Import.Formats.{pkcs12_parts}
use traffic_cone.Store.Import.File.{import_file, import_as, import_pkcs12, store_parts}
use traffic_cone.Store.Import.Laws.{get_plaintext_key-store_cert_and_key}

-- What p12-keystore documents: a file that was written is read under its password.
abbrev pub ReadsBack : PfxCrate → Parsers → Type 0
ReadsBack x p =
    (password : Text) (key cert bytes : Bytes)
    → x.write password key cert ≡ ok bytes
    → p.pkcs12 bytes password ≡ ok (some (cert ∷ [], key))

some_inj : {A : Type 0} {a b : A} → some a ≡ some b → a ≡ b
some_inj h = cc h

ok_inj : {A : Type 0} {a b : A} → ◌≡◌ {A = Result StoreError A} (ok a) (ok b) → a ≡ b
ok_inj h = cc h

done_ok : {A : Type 0} {b : A} (a : A) (s : Store) → (done a s).1 ≡ ok b → a ≡ b
unfolding done
done_ok a s h = ok_inj h

module _ (c : Crates) (x : PfxCrate) (p : Parsers) where
  -- The row behind a key that has been decrypted.
  get_plaintext_key-parts :
      (s : Store) (cert_id : Text) (key : Bytes) (a : KeyAlgorithm)
      → get_plaintext_key c s cert_id ≡ ok (key, a)
      → (d : Db) × (k : KeyRow) × (master : Bytes) × (conn s ≡ ok d)
        × (find (λ (y : KeyRow). text_eq y.cert_id cert_id) d.keys ≡ some k)
        × (passphrase s ≡ ok master)
        × (decrypt_key c k.key_enc k.key_salt k.key_nonce master ≡ ok key)
  unfolding get_plaintext_key
  get_plaintext_key-parts s cert_id key a g =
      let (d, e0, g0) = >>=-eq-ok (conn s) _ g in
      let (k, e1, g1) =
        >>=-eq-ok (ok_or (find (λ (y : KeyRow). text_eq y.cert_id cert_id) d.keys) _) _ g0 in
      let (master, e2, g2) = >>=-eq-ok (passphrase s) _ g1 in
      let (plain, e3, g3) =
        >>=-eq-ok (decrypt_key c k.key_enc k.key_salt k.key_nonce master) _ g2 in
      let (algorithm, e4, g4) = >>=-eq-ok (parse_algorithm k.algorithm) _ g3 in
      (d, k, master, e0, ok_or-eq-ok _ _ e1, e2, e3 ∙ ap ok (cc g4))

  -- The same row under the same passphrase decrypts to the same key.
  same_plain :
      (s : Store) (cert_id : Text) (d e : Db) (k l : KeyRow) (m n plain key : Bytes)
      → conn s ≡ ok d
      → conn s ≡ ok e
      → find (λ (y : KeyRow). text_eq y.cert_id cert_id) d.keys ≡ some k
      → find (λ (y : KeyRow). text_eq y.cert_id cert_id) e.keys ≡ some l
      → passphrase s ≡ ok m
      → passphrase s ≡ ok n
      → decrypt_key c k.key_enc k.key_salt k.key_nonce m ≡ ok plain
      → decrypt_key c l.key_enc l.key_salt l.key_nonce n ≡ ok key
      → plain ≡ key
  same_plain s cert_id d e k l m n plain key d1 e1 k1 l1 m1 n1 p1 q1 =
      let de : d ≡ e = ok_inj (sym d1 ∙ e1) in
      let kl : k ≡ l = some_inj (
        sym k1
        ∙ ap (λ (z : Db). find (λ (y : KeyRow). text_eq y.cert_id cert_id) z.keys) de
        ∙ l1) in
      let mn : m ≡ n = ok_inj (sym m1 ∙ n1) in
      ok_inj (
        sym p1
        ∙ (ap (λ (z : KeyRow). decrypt_key c z.key_enc z.key_salt z.key_nonce m) kl
            ∙ (ap (λ (z : Bytes). decrypt_key c l.key_enc l.key_salt l.key_nonce z) mn ∙ q1)))

  -- What an export has written: a certificate and the decrypted key.
  export_pfx-written :
      (audit_id : Text) (now : ℤ) (cert_id password : Text) (s : Store) (bytes key : Bytes)
      (a : KeyAlgorithm)
      → get_plaintext_key c s cert_id ≡ ok (key, a)
      → (export_pfx c x audit_id now cert_id password s).1 ≡ ok bytes
      → (cert : Bytes) × (x.write password key cert ≡ ok bytes)
  unfolding export_pfx get_plaintext_key done
  export_pfx-written audit_id now cert_id password s bytes key a g h =
      let (d, e0, q0, h0) = ask_ok _ _ s h in
      let (cert, e1, q1, h1) = ask_ok _ _ s h0 in
      let (k, e2, q2, h2) = ask_ok _ _ s h1 in
      let (master, e3, q3, h3) = ask_ok _ _ s h2 in
      let (plain, e4, q4, h4) = ask_ok _ _ s h3 in
      let (u, e5, q5, h5) = ask_ok _ _ s h4 in
      let (pfx, e6, q6, h6) = ask_ok _ _ s h5 in
      let (d', e7, q7, h7) = sql_ok _ _ s h6 in
      let written : x.write password plain cert.cert_der ≡ ok pfx = map_err-eq-ok _ _ e6 in
      let (d2, k2, m2, f0, f1, f2, f3) = get_plaintext_key-parts s cert_id key a g in
      let same : plain ≡ key =
        same_plain s cert_id d d2 k k2 master m2 plain key e0 f0 (ok_or-eq-ok _ _ e2) f1 e3 f2 e4
          f3 in
      (
        cert.cert_der,
        subst (λ (z : Bytes). x.write password z cert.cert_der ≡ ok bytes) same
            (written ∙ ap ok (done_ok pfx (set_db d' s) h7)),
      )

  read_parts :
      (path password : Text) (cert key bytes : Bytes)
      → p.read_file path ≡ some bytes
      → p.pkcs12 bytes password ≡ ok (some (cert ∷ [], key))
      → pkcs12_parts p path password ≡ ok (record { cert_der = cert; key_der = key; ca_chain = [] })
  unfolding pkcs12_parts
  read_parts path password cert key bytes file parsed = rw file (rw parsed refl)

  module _ (laws : CratesLaws c) (w : Draws) where
    -- An import of a PFX file whose content the parser reads as a certificate and a key.
    import_pkcs12-key :
        (path password label : Text) (cert key : Bytes) (t : Store) (r : ImportResult)
        → pkcs12_parts p path password
          ≡ ok (record { cert_der = cert; key_der = key; ca_chain = [] })
        → IsSound t.disk.db
        → (import_pkcs12 c p w path password label t).1 ≡ ok r
        → (a : KeyAlgorithm) × (get_plaintext_key c
              (import_pkcs12 c p w path password label t).0
              r.cert_id
            ≡ ok (key, a))
    unfolding import_pkcs12 done
    import_pkcs12-key path password label cert key t r parsed sound h =
        let (parts, e, q, h1) = ask_ok _ _ t h in
        let (found, e0, q0, h2) = bind_ok (store_parts c p w label parts) _ t h1 in
        let (a, ea, back) =
          get_plaintext_key-store_cert_and_key c laws p w parts.cert_der parts.key_der label t found
            sound e0 in
        let same : parts.key_der ≡ key = cc (e, parsed) in
        let id : found.cert_id ≡ r.cert_id = cc h2 in
        (
          a,
          subst
              (λ (z : Bytes).
                get_plaintext_key c (import_pkcs12 c p w path password label t).0 r.cert_id
                ≡ ok (z, a))
              same
              (subst (λ (z : Store). get_plaintext_key c z r.cert_id ≡ ok (parts.key_der, a))
                (sym (ap (λ z. z.0) (q ∙ q0)))
                (subst
                  (λ (z : Text).
                    get_plaintext_key c (store_parts c p w label parts t).0 z
                    ≡ ok (parts.key_der, a))
                  id back)),
        )

    -- A key that is in a store, exported under a password and imported from the file into another,
    -- sound store is there under the id of the import.
    pub import_file-export_pfx :
        (audit_id : Text) (now : ℤ) (cert_id password path label : Text) (key_path : Option Text)
        (s t : Store) (bytes key : Bytes) (a : KeyAlgorithm) (r : ImportResult)
        → ReadsBack x p
        → get_plaintext_key c s cert_id ≡ ok (key, a)
        → (export_pfx c x audit_id now cert_id password s).1 ≡ ok bytes
        → p.read_file path ≡ some bytes
        → detect_format path ≡ ok pkcs12
        → IsSound t.disk.db
        → (import_file c p w path password label key_path t).1 ≡ ok r
        → (b : KeyAlgorithm) × (get_plaintext_key c
              (import_file c p w path password label key_path t).0
              r.cert_id
            ≡ ok (key, b))
    unfolding import_file import_as
    import_file-export_pfx audit_id now cert_id password path label key_path s t bytes key a r reads
          g exported file pfx sound h =
        let (cert, written) =
          export_pfx-written audit_id now cert_id password s bytes key a g exported in
        let parsed =
          read_parts path password cert key bytes file (reads password key cert bytes written) in
        let (format, ef, qf, h1) = ask_ok _ _ t h in
        let is_pkcs12 : format ≡ pkcs12 = cc (ef, pfx) in
        let path_run : import_file c p w path password label key_path t
            ≡ import_pkcs12 c p w path password label t =
          qf ∙ ap (λ f. import_as c p w f path password label key_path t) is_pkcs12 in
        let (b, back) =
          import_pkcs12-key path password label cert key t r parsed sound
            (ap (λ z. z.1) (sym path_run) ∙ h) in
        (
          b,
          subst (λ (z : Store). get_plaintext_key c z r.cert_id ≡ ok (key, b))
              (ap (λ z. z.0) (sym path_run)) back,
        )
