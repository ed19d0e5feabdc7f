-- ===== src/Daemon/Routing/Laws.antt =====
-- What a process has to satisfy before it is given a certificate or served over the socket.
use traffic_cone.Common.{
  ℕ, ◌≡◌, refl, sym, ap, ◌∙◌, subst, ◌↔◌, ◌⊎◌, inl, inr, false, none, some, ◌==◌, ==_iff,
  Bool-cases, Option-cases, Result, ok, err, ◌>>=◌, map_err, map_err-eq-ok, >>=-eq-ok, text_eq,
  text_eq_iff, text_eq_refl,
}
use traffic_cone.Store.Crypto.{Crates}
use traffic_cone.Daemon.Monitor.{resolve, ProcessCache, Kernel, MonitorError, ProcessEntry}
use traffic_cone.Daemon.Routing.{
  uid_mismatch, monitor, known_hash, KnownHashes, verify_traffic_cone_binary, check_known,
  check_binary,
}

-- A hash check that passes returns the entry that it was given, and the recorded hash is its hash.
check_binary-ok :
    (c : Crates) (k : Kernel) (known : KnownHashes) (p q : ProcessEntry)
    → check_binary c k known p ≡ ok q
    → (p ≡ q) × (known_hash known p.exe_path ≡ some p.exe_hash)
unfolding check_binary
check_binary-ok c k known p q h = elim (Option-cases (known_hash known p.exe_path)) [
  | inl e ↦ cc (rw (e, check_binary) at h)
  | inr (x, e) ↦ elim (Bool-cases (text_eq x p.exe_hash)) [
    | inl b ↦ (cc (rw (e, b, check_binary) at h), e ∙ ap some ((text_eq_iff x p.exe_hash).0 b))
    | inr b ↦ cc (rw (e, b, check_binary) at h)
  ]
]

check_binary-accepts :
    (c : Crates) (k : Kernel) (known : KnownHashes) (p : ProcessEntry)
    → known_hash known p.exe_path ≡ some p.exe_hash
    → check_binary c k known p ≡ ok p
unfolding check_binary
check_binary-accepts c k known p h = rw (h, check_binary) (rw (text_eq_refl p.exe_hash) refl)

-- The hash check on a known program.
pub check_known-ok :
    (known : KnownHashes) (p : ProcessEntry) (u : Unit {0})
    → check_known known p ≡ ok u
    → (known_hash known p.exe_path ≡ none) ⊎ (known_hash known p.exe_path ≡ some p.exe_hash)
unfolding check_known
check_known-ok known p u h = elim (Option-cases (known_hash known p.exe_path)) [
  | inl e ↦ inl e
  | inr (x, e) ↦ elim (Bool-cases (text_eq p.exe_hash x)) [
    | inl b ↦ inr (e ∙ ap some (sym ((text_eq_iff p.exe_hash x).0 b)))
    | inr b ↦ cc (rw (e, b, check_known) at h)
  ]
]

-- The daemon's check, where the user is the daemon's, and where it is another.
same_uid :
    (c : Crates) (k : Kernel) (our_uid pid uid : ℕ) (known : KnownHashes) (cache : ProcessCache)
    → uid ≡ our_uid
    → (verify_traffic_cone_binary c k our_uid pid uid known cache).1
      ≡ (map_err monitor (resolve c k pid cache).1 >>= check_binary c k known)
unfolding verify_traffic_cone_binary
same_uid c k our_uid pid uid known cache e =
    rw ((==_iff uid our_uid).1 e, verify_traffic_cone_binary) refl

other_uid :
    (c : Crates) (k : Kernel) (our_uid pid uid : ℕ) (known : KnownHashes) (cache : ProcessCache)
    → (uid == our_uid) ≡ false
    → (verify_traffic_cone_binary c k our_uid pid uid known cache).1
      ≡ err (uid_mismatch uid our_uid)
unfolding verify_traffic_cone_binary
other_uid c k our_uid pid uid known cache e = rw (e, verify_traffic_cone_binary) refl

resolved_first :
    (c : Crates) (k : Kernel) (known : KnownHashes) (r : Result MonitorError ProcessEntry)
    {p : ProcessEntry}
    → (map_err monitor r >>= check_binary c k known) ≡ ok p
    → (r ≡ ok p) × (known_hash known p.exe_path ≡ some p.exe_hash)
resolved_first c k known r {p} h =
    let (a, em, hc) = >>=-eq-ok (map_err monitor r) (check_binary c k known) h in
    let (e, hk) = check_binary-ok c k known a p hc in
    (
      map_err-eq-ok monitor r em ∙ ap ok e,
      subst (λ (x : ProcessEntry). known_hash known x.exe_path ≡ some x.exe_hash) e hk,
    )

-- A process is served over the socket exactly if it runs as the daemon's user, it resolves, and the
-- hash that is recorded for the path of its binary is the hash of its binary.
pub verify_traffic_cone_binary_iff :
    (c : Crates) (k : Kernel) (our_uid pid uid : ℕ) (known : KnownHashes) (cache : ProcessCache)
    (p : ProcessEntry)
    → ((verify_traffic_cone_binary c k our_uid pid uid known cache).1 ≡ ok p) ↔ (
        (uid ≡ our_uid)
        × ((resolve c k pid cache).1 ≡ ok p)
        × (known_hash known p.exe_path ≡ some p.exe_hash))
unfolding verify_traffic_cone_binary
verify_traffic_cone_binary_iff c k our_uid pid uid known cache p = (
  (λ h. elim (Bool-cases (uid == our_uid)) [
    | inl b ↦
        let e = (==_iff uid our_uid).0 b in
        let (r, hk) =
          resolved_first c k known (resolve c k pid cache).1
            (sym (same_uid c k our_uid pid uid known cache e) ∙ h) in
        (e, r, hk)
    | inr b ↦ cc (other_uid c k our_uid pid uid known cache b, h)
  ]),
  λ (e, r, hk).
      same_uid c k our_uid pid uid known cache e
      ∙ (ap (λ x. map_err monitor x >>= check_binary c k known) r
          ∙ check_binary-accepts c k known p hk),
)
