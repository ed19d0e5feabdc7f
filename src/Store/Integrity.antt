-- ===== src/Store/Integrity.antt =====
-- crates/cone-store/src/integrity.rs: the recorded hashes of the binaries. The file system is the
-- function `read`, which has no bytes for a file that cannot be read.
pub mod Verify
use traffic_cone.Common.{
  ◌+◌, not, Option, none, some, List, [], ◌∷◌, ◌++◌, map, if◌then◌else◌, Result, ok, err, Text,
  Bytes, codes, text_eq,
}
use traffic_cone.Common.Int.{ℤ}
use traffic_cone.Store.Crypto.{Crates}
use traffic_cone.Store.Handle.{conn, Store}
use traffic_cone.Store.Db.{insert_or_replace_integrity, Db}
use traffic_cone.Store.Models.{integrity_failure, io, IntegrityRecord, StoreError}
use traffic_cone.Store.Exec.{sql, ask, ◌>>◌, ◌>>=◌, Exec}
use traffic_cone.Common.Sort.{sort_by}
use traffic_cone.Store.Listing.{text_le}

unfoldable pub hash_file : Crates → (Text → Option Bytes) → Text → Result StoreError Text
hash_file c read path = elim (read path) [
  | none ↦ err io
  | some bytes ↦ ok (c.hex_encode (c.sha256 bytes))
]

-- `INSERT OR REPLACE` with a fresh id. `id` and `now` are what `new_id` and `unix_now` return.
module _ (c : Crates) (read : Text → Option Bytes) where
  unfoldable pub record_component : Text → ℤ → Text → Text → Text → Exec (Unit {0})
  record_component id now component path version = do
    _ ← ask conn
    sha256 ← ask (λ _. hash_file c read path)
    sql (λ d. ok (
        insert_or_replace_integrity
          (record {
            id = id;
            component = component;
            path = path;
            sha256 = sha256;
            version = version;
            recorded_at = now;
            verified_at = none;
          })
          d))

  unfoldable pub verify_record : IntegrityRecord → Result StoreError (Unit {0})
  verify_record r = elim (hash_file c read r.path) [
    | err e ↦ err e
    | ok actual ↦
        if not (text_eq actual r.sha256)
        then err (
            integrity_failure (
              r.component
              ++ (codes " at "
                  ++ (r.path
                      ++ (codes " has been modified (expected "
                          ++ (r.sha256 ++ (codes ", found " ++ (actual ++ codes ")"))))))))
        else ok tt
  ]

  -- The loop of `verify_all`, which stops at the first failure.
  unfoldable pub verify_records : List IntegrityRecord → Result StoreError (Unit {0})
  verify_records [] = ok tt
  verify_records (r ∷ rs) = elim (verify_record r) [ err e ↦ err e | ok _ ↦ verify_records rs ]

-- `list`, ordered by component.
unfoldable pub list_integrity : Store → Result StoreError (List IntegrityRecord)
list_integrity s = elim (conn s) [
  | err e ↦ err e
  | ok d ↦ ok (sort_by (λ (a b : IntegrityRecord). text_le a.component b.component) d.integrity)
]

abbrev pub mark_verified : ℤ → Db → Db
mark_verified now d = record d {
  integrity = map (λ (r : IntegrityRecord). record r { verified_at = some now }) d.integrity;
}

unfoldable pub verify_all : Crates → (Text → Option Bytes) → ℤ → Exec (Unit {0})
verify_all c read now = do
  records ← ask list_integrity
  ask (λ _. verify_records c read records)
  sql (λ d. ok (mark_verified now d))
