-- ===== src/Store/Keyring/Histories.antt =====
-- A key through a sequence of imports and deletions, failed ones included.
use traffic_cone.Common.{
  codes, Result, codes, ◌≡◌, refl, sym, ap, ◌∙◌, false, Option, some, ◌++◌, find, ok, Result-cases,
  inl, inr, filter_by, Text, text_eq,
}
use traffic_cone.Common.Int.{ℤ}
use traffic_cone.Store.Models.{SqlError, Cert}
use traffic_cone.Store.Db.{Db, KeyRow, delete_cert_row, insert_audit}
use traffic_cone.Store.Handle.{Store}
use traffic_cone.Store.Exec.{ask, sql, ◌>>=◌, ◌>>◌}
use traffic_cone.Store.Crypto.{Crates}
use traffic_cone.Store.Import.{Parsers, Draws}
use traffic_cone.Store.Import.File.{import_file}
use traffic_cone.Store.Listing.{get_cert_by_label}
use traffic_cone.Store.Delete.{delete_cert, audit_row}
use traffic_cone.Store.Keyring.{keyring, row_of, seen, keyring-seen, text_eq_sym}
use traffic_cone.Store.Keyring.Spared.{Spares, Spares-sql, Spares-bind}
use traffic_cone.Store.Keyring.Imported.{import_file-Spares, insert_audit-row}
use traffic_cone.Store.Keyring.Deleted.{find-kept, kept}

-- The label does not stand for the certificate with this id.
abbrev pub Unaimed : Text → Text → Store → Type 0
Unaimed x label s = (cert : Cert) → get_cert_by_label s label ≡ ok cert → text_eq cert.id x ≡ false

-- From one store to another by operations of which none is about the certificate with this id; an
-- operation that fails leaves what it has written.
pub data History (c : Crates) (x : Text) : Store → Store → Type 0 where
  idle : (s : Store) → History c x s s
  importing :
      (s t : Store) (p : Parsers) (w : Draws) (path file_passphrase label : Text)
      (key_path : Option Text)
      → text_eq w.cert_id x ≡ false
      → History c x (import_file c p w path file_passphrase label key_path s).0 t
      → History c x s t
  deleting :
      (s t : Store) (audit_id : Text) (now : ℤ) (label : Text)
      → Unaimed x label s
      → History c x (delete_cert audit_id now label s).0 t
      → History c x s t

deleted-row :
    (i x : Text) (d d' : Db)
    → text_eq i x ≡ false
    → ◌≡◌ {A = Result SqlError Db} (ok (delete_cert_row i d)) (ok d')
    → row_of d' x ≡ row_of d x
unfolding delete_cert_row
deleted-row i x d d' other e =
    let keys : d'.keys ≡ filter_by (kept i) d.keys =
      let same : delete_cert_row i d ≡ d' = cc e in ap (λ (t : Db). t.keys) (sym same) in
    ap (find (λ (k : KeyRow). text_eq k.cert_id x)) keys
    ∙ find-kept i x d.keys (text_eq_sym i x other)

-- What follows once the certificate has been found.
rest-Spares :
    (x i audit_id : Text) (now : ℤ) (label : Text)
    → text_eq i x ≡ false
    → Spares x (
        sql (λ d. ok (delete_cert_row i d))
        >> sql (
            insert_audit (
              audit_row audit_id
                (codes "cert_deleted")
                (some i)
                (codes "Deleted cert: " ++ label)
                now)))
rest-Spares x i audit_id now label other =
    Spares-bind _ _ (Spares-sql _ (λ d d'. deleted-row i x d d' other))
      λ u. Spares-sql _ (insert_audit-row x _)

delete_cert-seen :
    (x audit_id : Text) (now : ℤ) (label : Text) (s : Store)
    → Unaimed x label s
    → seen (delete_cert audit_id now label s).0 x ≡ seen s x
unfolding delete_cert ask ◌>>=◌
delete_cert-seen x audit_id now label s un = elim (Result-cases (get_cert_by_label s label)) [
  | inl (cert, e) ↦ rw e ((rest-Spares x cert.id audit_id now label (un cert e)).at s)
  | inr (why, e) ↦ rw e refl
]

-- A key stays retrievable, and stays the same, through every sequence of imports and deletions,
-- successful or not, of which no import has drawn its id and no deletion is of its certificate.
pub keyring-History :
    (c : Crates) (x : Text) {s t : Store} → History c x s t → keyring c t x ≡ keyring c s x
keyring-History c x (idle s) = refl
keyring-History c x (importing s t p w path file_passphrase label key_path other rest) =
    keyring-History c x rest
    ∙ keyring-seen c _ s x
        ((import_file-Spares c p w x other path file_passphrase label key_path).at s)
keyring-History c x (deleting s t audit_id now label un rest) =
    keyring-History c x rest ∙ keyring-seen c _ s x (delete_cert-seen x audit_id now label s un)
