-- ===== src/Store/Integrity/Verify.antt =====
-- `verify_all` passes exactly when each recorded hash is the hash of the file, and a record that is
-- out of date stays in its way.
use traffic_cone.Common.{
  ◌≡◌, refl, ◌≢◌, ◌↔◌, inl, inr, Bool, true, false, Option, List, [], ◌∷◌, arith, All, In, All-of,
  In-append_left, In-filter_by, All-In, ok, Result-cases, Text, Bytes, text_eq, text_eq_iff,
  text_eq_refl,
}
use traffic_cone.Common.Int.{ℤ}
use traffic_cone.Store.Integrity.{
  record_component, list_integrity, verify_all, verify_records, verify_record, hash_file,
}
use traffic_cone.Store.Crypto.{Crates}
use traffic_cone.Store.Models.{IntegrityRecord}
use traffic_cone.Store.Listing.{text_le}
use traffic_cone.Store.Exec.{continue, sql, ask, ◌>>=◌}
use traffic_cone.Store.Handle.{
  sealed, StoreState, in_its_state, set_db, unlocked_with, is_unlocked, unlocked, Store, conn,
}
use traffic_cone.Common.Sort.{of_In-sort_by, In-sort_by, sort_by}
use traffic_cone.Store.Db.{insert_or_replace_integrity}

-- The file at the recorded path has the recorded hash.
abbrev pub Matches : Crates → (Text → Option Bytes) → IntegrityRecord → Type 0
Matches c read r = hash_file c read r.path ≡ ok r.sha256

module _ (c : Crates) (read : Text → Option Bytes) where
  verify_record-Matches : (r : IntegrityRecord) → verify_record c read r ≡ ok tt → Matches c read r
  unfolding verify_record
  verify_record-Matches r h = elim (Result-cases (hash_file c read r.path)) [
    | inl (actual, e) ↦ rw e (ground (arith, text_eq_iff actual r.sha256))
    | inr (x, e) ↦ cc (rw (e, verify_record) at h)
  ]

  Matches-verify_record : (r : IntegrityRecord) → Matches c read r → verify_record c read r ≡ ok tt
  unfolding verify_record
  Matches-verify_record r h = rw (h, verify_record) (ground (arith, text_eq_refl r.sha256))

  verify_records-Matches :
      (rs : List IntegrityRecord) → verify_records c read rs ≡ ok tt → All (Matches c read) rs
  unfolding verify_records
  verify_records-Matches [] h = tt
  verify_records-Matches (r ∷ rs) h = elim (Result-cases (verify_record c read r)) [
    | inl (u, e) ↦ (verify_record-Matches r e, verify_records-Matches rs (ground arith))
    | inr (x, e) ↦ cc (rw (e, verify_records) at h)
  ]

  Matches-verify_records :
      (rs : List IntegrityRecord) → All (Matches c read) rs → verify_records c read rs ≡ ok tt
  unfolding verify_records
  Matches-verify_records [] h = refl
  Matches-verify_records (r ∷ rs) h =
      rw (Matches-verify_record r h.0, verify_records) (Matches-verify_records rs h.1)

  abbrev by_component : IntegrityRecord → IntegrityRecord → Bool
  by_component a b = text_le a.component b.component

  sorted-Matches :
      (rs : List IntegrityRecord)
      → All (Matches c read) (sort_by by_component rs) ↔ All (Matches c read) rs
  sorted-Matches rs = (
    λ h.
        All-of _ rs
          (λ r i. All-In _ r (sort_by by_component rs) h (In-sort_by by_component r rs i)),
    λ h. All-of _ _ (λ r i. All-In _ r rs h (of_In-sort_by by_component r rs i)),
  )

  verify_all_in_state :
      (now : ℤ) (s : Store) (p : Bytes)
      → ((verify_all c read now (record s { state = unlocked p })).1 ≡ ok tt)
        ↔ All (Matches c read) s.disk.db.integrity
  unfolding verify_all list_integrity ◌>>=◌ ask sql conn
  verify_all_in_state now s p =
      let rows : List IntegrityRecord = sort_by by_component s.disk.db.integrity in
      elim (Result-cases (verify_records c read rows)) [
        | inl (_, e) ↦ (
          λ _. (sorted-Matches s.disk.db.integrity).0 (verify_records-Matches rows e),
          λ _. rw (e, continue) refl,
        )
        | inr (x, e) ↦ (
          λ h. cc (rw (e, continue) at h),
          λ a. cc (e, Matches-verify_records rows ((sorted-Matches s.disk.db.integrity).1 a)),
        )
      ]

  -- On an unlocked store `verify_all` passes exactly when the file at each recorded path can be read
  -- and has the recorded hash.
  pub verify_all_iff :
      (now : ℤ) (s : Store)
      → is_unlocked s ≡ true
      → ((verify_all c read now s).1 ≡ ok tt) ↔ All (Matches c read) s.disk.db.integrity
  verify_all_iff now s h =
      let (p, e) = unlocked_with s h in
      in_its_state
        (λ t. ((verify_all c read now t).1 ≡ ok tt) ↔ All (Matches c read) t.disk.db.integrity) s e
        (verify_all_in_state now s p)

  record_at_state :
      (id : Text) (now : ℤ) (component path version : Text) (s : Store) (p : Bytes)
      (r : IntegrityRecord)
      → In r s.disk.db.integrity
      → text_eq r.id id ≡ false
      → In r
          (record_component c read id now component path version
            (record s { state = unlocked p })).0.disk.db.integrity
  unfolding record_component ◌>>=◌ ask sql conn set_db insert_or_replace_integrity
  record_at_state id now component path version s p r i h =
      elim (Result-cases (hash_file c read path)) [
        | inl (sha, e) ↦
            rw (e, continue)
              (In-append_left r _ _ (In-filter_by _ r s.disk.db.integrity i (ground arith)))
        | inr (x, e) ↦ rw (e, continue) i
      ]

  still_unlocked :
      (id : Text) (now : ℤ) (component path version : Text) (s : Store) (p : Bytes)
      → is_unlocked
          (record_component c read id now component path version
            (record s { state = unlocked p })).0
        ≡ true
  unfolding record_component ◌>>=◌ ask sql conn set_db is_unlocked
  still_unlocked id now component path version s p = elim (Result-cases (hash_file c read path)) [
    | inl (sha, e) ↦ rw (e, continue) refl
    | inr (x, e) ↦ rw (e, continue) refl
  ]

  -- Recording a component again, under a fresh id, does not displace an earlier record whose file no
  -- longer has the recorded hash: verification fails after it as it did before.
  pub verify_all-record_component :
      (id : Text) (now later : ℤ) (component path version : Text) (s : Store) (r : IntegrityRecord)
      → is_unlocked s ≡ true
      → In r s.disk.db.integrity
      → text_eq r.id id ≡ false
      → ¬ Matches c read r
      → (verify_all c read later (record_component c read id now component path version s).0).1
        ≢ ok tt
  verify_all-record_component id now later component path version s r h i fresh stale e =
      let (p, st) = unlocked_with s h in
      let after : Store → Store =
        λ t. (record_component c read id now component path version t).0 in
      let kept : In r (after s).disk.db.integrity =
        in_its_state (λ t. In r t.disk.db.integrity → In r (after t).disk.db.integrity) s st
          (λ j. record_at_state id now component path version s p r j fresh) i in
      stale (
        All-In (Matches c read) r (after s).disk.db.integrity
          ((verify_all_iff later (after s) (
              in_its_state (λ t. is_unlocked (after t) ≡ true) s st
                (still_unlocked id now component path version s p))).0
            e)
          kept)

  failed_in_state :
      (now : ℤ) (s : Store) (st : StoreState)
      → ((verify_all c read now (record s { state = st })).1 ≢ ok tt)
      → (verify_all c read now (record s { state = st })).0 ≡ record s { state = st }
  unfolding verify_all list_integrity ◌>>=◌ ask sql conn set_db
  failed_in_state now s sealed f = refl
  failed_in_state now s (unlocked p) f =
      elim (Result-cases (verify_records c read (sort_by by_component s.disk.db.integrity))) [
        | inl (_, e) ↦ absurd (f (rw (e, continue) refl))
        | inr (x, e) ↦ rw (e, continue) refl
      ]

  -- A verification that fails leaves the store as it was, locked or unlocked.
  pub verify_all_failed :
      (now : ℤ) (s : Store)
      → ((verify_all c read now s).1 ≢ ok tt)
      → (verify_all c read now s).0 ≡ s
  verify_all_failed now s f = failed_in_state now s s.state f
