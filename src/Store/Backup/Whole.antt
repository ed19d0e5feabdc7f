-- ===== src/Store/Backup/Whole.antt =====
-- A backup file, made and restored.
use traffic_cone.Common.{
  ℕ, ◌≡◌, refl, sym, ap, ◌∙◌, inl, inr, true, Option, none, some, [], ◌∷◌, ◌++◌, map, Option-cases,
  find, Result, ok, err, Result-cases, Text, Bytes, codes, text_eq,
}
use traffic_cone.Common.Int.{ℤ}
use traffic_cone.Store.Models.{StoreError, KeyAlgorithm, not_found}
use traffic_cone.Store.Db.{Db, KeyRow, empty_db, insert_audit}
use traffic_cone.Store.Db.Sound.{IsSound, has_cert}
use traffic_cone.Store.Handle.{Store, conn, passphrase}
use traffic_cone.Store.Listing.{get_plaintext_key, parse_algorithm}
use traffic_cone.Store.Crypto.{Crates, CratesLaws, decrypt_key}
use traffic_cone.Store.Exec.{ask, done, ask_ok, sql_ok}
use traffic_cone.Store.Backup.{
  BackupPayload, BackupCrates, payload_of, seal_backup, collect_backup_payload, age_encrypt,
  age_decrypt, open_payload,
}
use traffic_cone.Store.Backup.Loop.{at_db, bind_run, sql_run}
use traffic_cone.Store.Backup.Steps.{without_file, as_flag}
use traffic_cone.Store.Backup.Pairs.{found, rows-keys}
use traffic_cone.Store.Backup.RoundTrip.{IsComplete, restored, counts}
use traffic_cone.Store.Backup.Restored.{restore_payload_run}
use traffic_cone.Store.Backup.Restore.{
  restored_detail, no_cert_row, restore_backup, RestoreResult, RestoreDraws, create_backup,
}

-- What serde_json, on a payload, and age document.
pub record BackupLaws (b : BackupCrates) (payload : BackupPayload) : Type 0 where
  pub from_slice-to_vec_pretty :
      (json : Bytes) → b.to_vec_pretty payload ≡ ok json → b.from_slice json ≡ ok payload
  pub age_open-age_wrap :
      (password : Text) (plain cipher : Bytes)
      → b.age_wrap password plain ≡ ok cipher
      → (decrypt : Text → Result Text (Result Text Bytes)) × (b.age_open cipher ≡ ok (some decrypt))
        × (decrypt password ≡ ok (ok plain))

module _ (b : BackupCrates) where
  age_decrypt-age_encrypt :
      {payload : BackupPayload} (laws : BackupLaws b payload) (plain cipher : Bytes)
      (password : Text)
      → age_encrypt b plain password ≡ ok cipher
      → age_decrypt b cipher password ≡ ok plain
  unfolding age_encrypt age_decrypt
  age_decrypt-age_encrypt laws plain cipher password h =
      elim (Result-cases (b.age_wrap password plain)) [
        | inr (e, w) ↦ cc (rw w at h)
        | inl (out, w) ↦
            let same : out ≡ cipher = cc (rw w at h) in
            let (decrypt, eo, ed) = laws.age_open-age_wrap password plain cipher (w ∙ ap ok same) in
            rw eo (rw ed refl)
      ]

  open_payload-seal_backup :
      (c : Crates) (password : Text) (now : ℤ) (s : Store) (pass : Bytes) (d : Db)
      (laws : BackupLaws b (payload_of c now d)) (bytes : Bytes)
      → seal_backup c b password now (at_db s pass d) ≡ ok bytes
      → open_payload b bytes password ≡ ok (payload_of c now d)
  unfolding seal_backup open_payload collect_backup_payload conn
  open_payload-seal_backup c password now s pass d laws bytes h =
      elim (Result-cases (b.to_vec_pretty (payload_of c now d))) [
        | inr (e, j) ↦ cc (rw j at h)
        | inl (json, j) ↦
            rw (age_decrypt-age_encrypt laws json bytes password (rw j at h))
              (rw (laws.from_slice-to_vec_pretty json j) refl)
      ]

  create_backup-sealed :
      (c : Crates) (audit_id password : Text) (now : ℤ) (s : Store) (bytes : Bytes)
      → (create_backup c b audit_id password now s).1 ≡ ok bytes
      → seal_backup c b password now s ≡ ok bytes
  unfolding create_backup done
  create_backup-sealed c audit_id password now s bytes h =
      let (made, e, q, h1) = ask_ok _ _ s h in
      let (d, ran, after, h2) = sql_ok _ _ s h1 in e ∙ ap ok (cc h2)

-- The tables after a restoration into a new store.
abbrev pub with_audit : RestoreDraws → RestoreResult → Db → Db
with_audit w r d = record d {
  audit_log = no_cert_row w.audit_id (codes "backup_restored") (restored_detail r) w.now ∷ [];
}

abbrev with_name : Bytes → Result StoreError KeyAlgorithm → Result StoreError (Bytes × KeyAlgorithm)
with_name plaintext (ok a) = ok (plaintext, a)
with_name plaintext (err e) = err e

abbrev with_algorithm : Text → Result StoreError Bytes → Result StoreError (Bytes × KeyAlgorithm)
with_algorithm algorithm (err e) = err e
with_algorithm algorithm (ok plaintext) = with_name plaintext (parse_algorithm algorithm)

-- What `get_plaintext_key` makes of the row that it finds.
abbrev from_material :
    Crates
    → Text
    → Bytes
    → Option (Text × Bytes × Bytes × Bytes)
    → Result StoreError (Bytes × KeyAlgorithm)
from_material c cert_id pass none =
    err (not_found (codes "no private key found for cert '" ++ cert_id ++ codes "'"))
from_material c cert_id pass (some (algorithm, enc, salt, nonce)) =
    with_algorithm algorithm (decrypt_key c enc salt nonce pass)

key_run :
    (c : Crates) (s : Store) (pass : Bytes) (d : Db) (cert_id : Text)
    → get_plaintext_key c (at_db s pass d) cert_id
      ≡ from_material c cert_id pass
          (found (find (λ (k : KeyRow). text_eq k.cert_id cert_id) d.keys))
unfolding get_plaintext_key conn passphrase
key_run c s pass d cert_id =
    elim (Option-cases (find (λ (k : KeyRow). text_eq k.cert_id cert_id) d.keys)) [
      | inl e ↦ rw (e, get_plaintext_key) refl
      | inr (k, e) ↦
          rw (e, get_plaintext_key)
            (elim (Result-cases (decrypt_key c k.key_enc k.key_salt k.key_nonce pass)) [
              | inr (x, dk) ↦ rw dk refl
              | inl (p, dk) ↦ rw dk (elim (Result-cases (parse_algorithm k.algorithm)) [
                | inl (a, pa) ↦ rw pa refl
                | inr (x, pa) ↦ rw pa refl
              ])
            ])
    ]

module _ (c : Crates) (laws : CratesLaws c) (b : BackupCrates) (s t : Store) (pass : Bytes) (d : Db)
    (w : RestoreDraws) (now : ℤ) (b_laws : BackupLaws b (payload_of c now d)) where
  restore_backup_run :
      (audit_id password : Text) (bytes : Bytes)
      → IsSound d
      → IsComplete d
      → ((m n : ℕ) → text_eq (w.key_id m) (w.key_id n) ≡ true → m ≡ n)
      → (create_backup c b audit_id password now (at_db s pass d)).1 ≡ ok bytes
      → restore_backup c b w bytes password (at_db t pass empty_db)
        ≡ (at_db t pass (with_audit w (counts w d) (restored w d)), ok (counts w d))
  unfolding restore_backup done ask conn insert_audit
  restore_backup_run audit_id password bytes sound complete inj h =
      bind_run (ask (λ _. open_payload b bytes password)) _ (at_db t pass empty_db)
        (at_db t pass empty_db)
        (ap (λ r. (at_db t pass empty_db, r))
          (open_payload-seal_backup b c password now s pass d b_laws bytes
            (create_backup-sealed b c audit_id password now (at_db s pass d) bytes h)))
      ∙ (bind_run (ask conn) _ _ _ refl
          ∙ (bind_run _ _ _ _ (restore_payload_run c laws t pass w d sound complete inj now)
              ∙ bind_run _ _ _ _ (sql_run _ t pass _ _ refl)))

  -- A backup of a store whose rows satisfy the schema and whose certificates have a key each, restored
  -- into a new store under distinct fresh ids, succeeds and brings back the certificates, SSH keys,
  -- applications and SSH routes as they were, the CA certificates without their file, and the routes.
  pub restore_backup-create_backup :
      (audit_id password : Text) (bytes : Bytes)
      → IsSound d
      → IsComplete d
      → ((m n : ℕ) → text_eq (w.key_id m) (w.key_id n) ≡ true → m ≡ n)
      → (create_backup c b audit_id password now (at_db s pass d)).1 ≡ ok bytes
      → let (t', result) = restore_backup c b w bytes password (at_db t pass empty_db) in
        (result ≡ ok (counts w d))
        × (t'.disk.db.certs ≡ d.certs)
        × (t'.disk.db.ssh_keys ≡ d.ssh_keys)
        × (t'.disk.db.ca_certs ≡ map without_file d.ca_certs)
        × (t'.disk.db.apps ≡ d.apps)
        × (t'.disk.db.routes ≡ map as_flag d.routes)
        × (t'.disk.db.ssh_routes ≡ d.ssh_routes)
  restore_backup-create_backup audit_id password bytes sound complete inj h =
      let e = restore_backup_run audit_id password bytes sound complete inj h in
      (
        ap (λ r. r.1) e,
        ap (λ r. r.0.disk.db.certs) e,
        ap (λ r. r.0.disk.db.ssh_keys) e,
        ap (λ r. r.0.disk.db.ca_certs) e,
        ap (λ r. r.0.disk.db.apps) e,
        ap (λ r. r.0.disk.db.routes) e,
        ap (λ r. r.0.disk.db.ssh_routes) e,
      )

  -- After such a restoration under the same master passphrase, every certificate has the private key
  -- and the algorithm that it had, or fails to give them with the same error.
  pub get_plaintext_key-restore_backup :
      (audit_id password : Text) (bytes : Bytes) (cert_id : Text)
      → IsSound d
      → IsComplete d
      → ((m n : ℕ) → text_eq (w.key_id m) (w.key_id n) ≡ true → m ≡ n)
      → (create_backup c b audit_id password now (at_db s pass d)).1 ≡ ok bytes
      → has_cert d.certs cert_id ≡ true
      → get_plaintext_key c (restore_backup c b w bytes password (at_db t pass empty_db)).0 cert_id
        ≡ get_plaintext_key c (at_db s pass d) cert_id
  get_plaintext_key-restore_backup audit_id password bytes cert_id sound complete inj h has =
      ap (λ r. get_plaintext_key c r.0 cert_id)
        (restore_backup_run audit_id password bytes sound complete inj h)
      ∙ (key_run c t pass (with_audit w (counts w d) (restored w d)) cert_id
          ∙ (ap (from_material c cert_id pass)
                (rows-keys w.key_id d.keys 0 d.certs cert_id complete.one_key has)
              ∙ sym (key_run c s pass d cert_id)))
