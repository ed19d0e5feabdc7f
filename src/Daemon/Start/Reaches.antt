-- ===== src/Daemon/Start/Reaches.antt =====
-- What coned needs to reach its servers.
use traffic_cone.Common.{
  ◌≡◌, refl, ap, ◌∙◌, inl, inr, true, Option, [], All, Result, ok, err, Result-cases, Text, Bytes,
}
use traffic_cone.Common.Int.{ℤ}
use traffic_cone.Store.Models.{StoreError, IntegrityRecord}
use traffic_cone.Store.Crypto.{Crates}
use traffic_cone.Store.Handle.{
  Store, Disk, DeriveKey, open_store, unlock, is_unlocked, conn, unlocked, set_db, unlocked_with,
  in_its_state,
}
use traffic_cone.Store.Exec.{ask, sql, continue, ◌>>=◌}
use traffic_cone.Common.Sort.{sort_by}
use traffic_cone.Store.Listing.{text_le}
use traffic_cone.Store.Integrity.{verify_all, list_integrity, verify_records}
use traffic_cone.Store.Integrity.Verify.{Matches, verify_all_iff}
use traffic_cone.Daemon.Routing.{KnownHashes, load_known_hashes}
use traffic_cone.Daemon.Ipc.{IpcServer}
use traffic_cone.Store.Handle.Lifecycle.{unlock-is_unlocked}
use traffic_cone.Daemon.Start.{
  Host, StartError, prepare, serve_store, start_store, main, Started, and_then,
}

verified_in_state :
    (c : Crates) (read : Text → Option Bytes) (now : ℤ) (s : Store) (p : Bytes)
    → (verify_all c read now (record s { state = unlocked p })).1 ≡ ok tt
    → is_unlocked (verify_all c read now (record s { state = unlocked p })).0 ≡ true
unfolding verify_all list_integrity conn sql ask ◌>>=◌ is_unlocked set_db
verified_in_state c read now s p h =
    elim (Result-cases (
      verify_records c read (
        sort_by (λ (a b : IntegrityRecord). text_le a.component b.component)
          s.disk.db.integrity))) [
            | inl (u, e) ↦ rw (e, continue) refl
            | inr (x, e) ↦ cc (rw (e, continue) at h)
          ]

-- The hashes that an unlocked store's records hold, as coned loads them.
loads :
    (s : Store) (p : Bytes)
    → (known : KnownHashes) × (load_known_hashes (record s { state = unlocked p }) ≡ ok known)
unfolding load_known_hashes list_integrity conn
loads s p = (_, refl)

load_known_hashes-loads :
    (s : Store) → is_unlocked s ≡ true → (known : KnownHashes) × (load_known_hashes s ≡ ok known)
load_known_hashes-loads s h =
    let (p, e) = unlocked_with s h in
    in_its_state (λ t. (known : KnownHashes) × (load_known_hashes t ≡ ok known)) s e (loads s p)

verify_all-is_unlocked :
    (c : Crates) (read : Text → Option Bytes) (now : ℤ) (s : Store)
    → is_unlocked s ≡ true
    → (verify_all c read now s).1 ≡ ok tt
    → is_unlocked (verify_all c read now s).0 ≡ true
verify_all-is_unlocked c read now s h =
    let (p, e) = unlocked_with s h in
    in_its_state
      (λ t. (verify_all c read now t).1 ≡ ok tt → is_unlocked (verify_all c read now t).0 ≡ true) s
      e (verified_in_state c read now s p)

and_then_go :
    (wrap : StoreError → StartError) (r : Store × Result StoreError (Unit {0}))
    (next : Store → Started)
    → r.1 ≡ ok tt
    → and_then wrap r next ≡ next r.0
and_then_go wrap (s, ok u) next h = refl
and_then_go wrap (s, err e) next h = cc

module _ (c : Crates) (derive_key : DeriveKey) where
  -- coned reaches its servers on a host that it does not refuse, when the passphrase opens the store
  -- and the file of every integrity record of the opened store has the recorded hash; nothing else is
  -- asked for, such as a signed manifest.
  pub main-starts :
      (h : Host) (disk : Disk) (path pass : Text)
      → prepare h ≡ ok (path, pass)
      → (unlock derive_key h.opening pass (open_store path disk)).1 ≡ ok tt
      → All
          (Matches c h.files)
          (unlock derive_key h.opening pass (open_store path disk)).0.disk.db.integrity
      → (srv : IpcServer) × ((main c derive_key h disk).1 ≡ ok srv)
  unfolding main start_store
  main-starts h disk path pass p u m =
      let s : Store = (unlock derive_key h.opening pass (open_store path disk)).0 in
      let open_now : is_unlocked s ≡ true =
        unlock-is_unlocked derive_key h.opening pass (open_store path disk) u in
      let verified = (verify_all_iff c h.files h.now s open_now).1 m in
      let (known, e) =
        load_known_hashes-loads (verify_all c h.files h.now s).0
          (verify_all-is_unlocked c h.files h.now s open_now verified) in
      (
        record { store = (verify_all c h.files h.now s).0; cache = []; known_hashes = known },
        rw (p, main)
            (ap (λ (r : Started). r.1)
                (and_then_go StartError.unlock_failed
                    (unlock derive_key h.opening pass (open_store path disk)) _ u
                  ∙ and_then_go StartError.integrity_check (verify_all c h.files h.now s)
                      (serve_store c derive_key) verified)
              ∙ rw e refl),
      )
