-- ===== src/Daemon/Start/Guarded.antt =====
-- What a daemon that has started has been through.
use traffic_cone.Common.{
  ℕ, ◌≡◌, refl, sym, ap, ◌∙◌, subst, ◌≢◌, inl, inr, true, false, Option, some, List, [], ◌∷◌, map,
  arith, Bool-cases, All, Result, ok, err, map_err, map_err-eq-ok, >>=-eq-ok, Result-cases, Text,
  Bytes,
}
use traffic_cone.Common.Int.{ℤ}
use traffic_cone.Common.Host.{Env, is_set}
use traffic_cone.Store.Models.{StoreError, IntegrityRecord, SqlError}
use traffic_cone.Store.Db.{Db}
use traffic_cone.Store.Crypto.{Crates}
use traffic_cone.Store.Handle.{
  Store, Disk, DeriveKey, open_store, unlock, is_unlocked, conn, unlocked, sealed, StoreState,
}
use traffic_cone.Store.Exec.{KeepsDb, KeepsDb-sql, keeps_rules, ask_ok}
use traffic_cone.Store.Integrity.{verify_all, list_integrity, mark_verified}
use traffic_cone.Store.Integrity.Verify.{Matches, verify_all_iff}
use traffic_cone.Daemon.Hardening.{
  check_environment, check_not_root, harden_process, dangerous, check_variables,
}
use traffic_cone.Daemon.Routing.{KnownHashes, load_known_hashes}
use traffic_cone.Daemon.Ipc.{IpcServer}
use traffic_cone.Daemon.Start.{
  Host, StartError, prepare, serve_store, start_store, main, Started, and_then,
}

-- A variable whose value is not set, or is not Unicode.
abbrev pub Unseen : Env → Text → Type 0
Unseen env var = is_set env var ≡ false

check_variables-Unseen :
    (env : Env) (vars : List Text) → check_variables env vars ≡ ok tt → All (Unseen env) vars
check_variables-Unseen env [] h = tt
check_variables-Unseen env (var ∷ rest) h = elim (Bool-cases (is_set env var)) [
  | inl e ↦ cc (rw e at h)
  | inr e ↦ (e, check_variables-Unseen env rest (rw e at h))
]

not_root : (uid : ℕ) → check_not_root uid ≡ ok tt → uid ≢ 0
unfolding check_not_root
not_root uid h e = ground (arith, h, e)

prepare-ok :
    (h : Host) (opened : Text × Text)
    → prepare h ≡ ok opened
    → All (Unseen h.env) dangerous × (h.uid ≢ 0) × (h.calls.set_dumpable false ≡ ok tt)
unfolding prepare check_environment check_not_root harden_process
prepare-ok h opened e =
    let (u, e0, rest0) =
      >>=-eq-ok (map_err StartError.environment_check (check_environment h.env)) _ e in
    let (u1, e1, rest1) =
      >>=-eq-ok (map_err StartError.root_check (check_not_root h.uid)) _ rest0 in
    let (u2, e2, rest2) =
      >>=-eq-ok (map_err StartError.hardening (harden_process h.calls)) _ rest1 in
    (
      check_variables-Unseen h.env dangerous (map_err-eq-ok _ (check_environment h.env) e0),
      not_root h.uid (map_err-eq-ok _ (check_not_root h.uid) e1),
      map_err-eq-ok _ (h.calls.set_dumpable false) (map_err-eq-ok _ (harden_process h.calls) e2),
    )

list_integrity-is_unlocked :
    (s : Store) (rows : List IntegrityRecord) → list_integrity s ≡ ok rows → is_unlocked s ≡ true
unfolding list_integrity conn is_unlocked
list_integrity-is_unlocked s rows h = at_state s.state h
  where
    at_state :
        (st : StoreState)
        → list_integrity (record s { state = st }) ≡ ok rows
        → is_unlocked (record s { state = st }) ≡ true
    at_state sealed e = cc
    at_state (unlocked p) e = refl

module _ (c : Crates) (read : Text → Option Bytes) where
  -- The mark that a verification leaves on the rows changes neither their paths nor their hashes.
  mark_verified-Matches :
      (now : ℤ) (rows : List IntegrityRecord)
      → All (Matches c read) rows
      → All
          (Matches c read)
          (map (λ (r : IntegrityRecord). record r { verified_at = some now }) rows)
  mark_verified-Matches now [] h = tt
  mark_verified-Matches now (r ∷ rows) (m, h) = (m, mark_verified-Matches now rows h)

  abbrev marked : ℤ → Db → Result SqlError Db
  marked now d = ok (mark_verified now d)

  mark_keeps :
      (now : ℤ) (d d' : Db)
      → All (Matches c read) d.integrity
      → marked now d ≡ ok d'
      → All (Matches c read) d'.integrity
  mark_keeps now d d' h e =
      let same : mark_verified now d ≡ d' = cc e in
      subst (λ (t : Db). All (Matches c read) t.integrity) same
        (mark_verified-Matches now d.integrity h)

  verify_all-KeepsDb :
      (now : ℤ) → KeepsDb (λ d. All (Matches c read) d.integrity) (verify_all c read now)
  unfolding verify_all
  verify_all-KeepsDb now = search (keeps_rules, KeepsDb-sql, mark_keeps now)

  verify_all-Matches :
      (now : ℤ) (s : Store)
      → (verify_all c read now s).1 ≡ ok tt
      → All (Matches c read) (verify_all c read now s).0.disk.db.integrity
  unfolding verify_all
  verify_all-Matches now s h =
      let (rows, listed, rest, more) = ask_ok _ _ s h in
      (verify_all-KeepsDb now).at s
        ((verify_all_iff c read now s (list_integrity-is_unlocked s rows listed)).0 h)

and_then_ok :
    (wrap : StoreError → StartError) (r : Store × Result StoreError (Unit {0}))
    (next : Store → Started) {srv : IpcServer}
    → (and_then wrap r next).1 ≡ ok srv
    → (r.1 ≡ ok tt) × ((next r.0).1 ≡ ok srv)
and_then_ok wrap (s, ok u) next h = (refl, h)
and_then_ok wrap (s, err e) next h = cc

load_known_hashes-is_unlocked :
    (s : Store) (known : KnownHashes) → load_known_hashes s ≡ ok known → is_unlocked s ≡ true
unfolding load_known_hashes
load_known_hashes-is_unlocked s known h =
    let (rows, listed, more) = >>=-eq-ok (list_integrity s) _ h in
    list_integrity-is_unlocked s rows listed

module _ (c : Crates) (derive_key : DeriveKey) where
  serve_store-known :
      (s : Store) (srv : IpcServer)
      → (serve_store c derive_key s).1 ≡ ok srv
      → (srv.store ≡ s) × (load_known_hashes s ≡ ok srv.known_hashes)
  serve_store-known s srv h =
      let (known, loaded, made) =
        >>=-eq-ok (map_err StartError.known_hashes_failed (load_known_hashes s)) _ h in
      let same : record { store = s; cache = []; known_hashes = known } ≡ srv = cc made in
      (
        ap (λ (t : IpcServer). t.store) (sym same),
        map_err-eq-ok _ (load_known_hashes s) loaded
            ∙ ap (λ (t : IpcServer). ok t.known_hashes) same,
      )

  start_store-Matches :
      (h : Host) (opened : Text × Text) (disk : Disk) (srv : IpcServer)
      → (start_store c derive_key h opened disk).1 ≡ ok srv
      → All (Matches c h.files) srv.store.disk.db.integrity
        × (load_known_hashes srv.store ≡ ok srv.known_hashes)
  unfolding start_store
  start_store-Matches h opened disk srv e =
      let first : Store × Result StoreError (Unit {0}) =
        unlock derive_key h.opening opened.1 (open_store opened.0 disk) in
      let (opens, e1) =
        and_then_ok StartError.unlock_failed first
          (λ s.
            and_then StartError.integrity_check (verify_all c h.files h.now s)
              (serve_store c derive_key))
          e in
      let (verified, e2) =
        and_then_ok StartError.integrity_check (verify_all c h.files h.now first.0)
          (serve_store c derive_key) e1 in
      let (same, loaded) = serve_store-known (verify_all c h.files h.now first.0).0 srv e2 in
      (
        subst (λ (t : Store). All (Matches c h.files) t.disk.db.integrity) (sym same)
            (verify_all-Matches c h.files h.now first.0 verified),
        subst (λ (t : Store). load_known_hashes t ≡ ok srv.known_hashes) (sym same) loaded,
      )

  -- When the start of coned reaches its servers, none of the linker's variables has a Unicode value,
  -- the process is not root's and is not dumpable, the store is unlocked, the file of every integrity
  -- record has the recorded hash, and the known hashes are those of the store's records.
  pub main-Matches :
      (h : Host) (disk : Disk) (srv : IpcServer)
      → (main c derive_key h disk).1 ≡ ok srv
      → All (Unseen h.env) dangerous
        × (h.uid ≢ 0)
        × (h.calls.set_dumpable false ≡ ok tt)
        × (is_unlocked srv.store ≡ true)
        × All (Matches c h.files) srv.store.disk.db.integrity
        × (load_known_hashes srv.store ≡ ok srv.known_hashes)
  unfolding main
  main-Matches h disk srv e = elim (Result-cases (prepare h)) [
    | inr (why, p) ↦ cc (rw (p, main) at e)
    | inl (opened, p) ↦
        let (unseen, user, dumpable) = prepare-ok h opened p in
        let (matches, loaded) = start_store-Matches h opened disk srv (rw (p, main) at e) in
        (
          unseen,
          user,
          dumpable,
          load_known_hashes-is_unlocked srv.store srv.known_hashes loaded,
          matches,
          loaded,
        )
  ]
