-- ===== src/Daemon/Monitor/Cache.antt =====
-- What the cache answers.
use traffic_cone.Common.{
  ℕ, ◌≡◌, refl, ◌∙◌, ◌≢◌, inl, inr, some, [], ◌∷◌, arith, ==_iff, Option-cases, All, ok,
  Result-cases,
}
use traffic_cone.Daemon.Monitor.{
  invalidate, insert_entry, read_process_start_time, resolve, resolve_fresh, cache_hit, Kernel,
  ProcessEntry, cached, ProcessCache,
}
use traffic_cone.Store.Crypto.{Crates}
use traffic_cone.Common.Tables.{All-filter_by}

-- Each entry stands under its own PID.
abbrev pub IsKeyed : ProcessCache → Type 0
IsKeyed = All (λ (x : ℕ × ProcessEntry). x.1.pid ≡ x.0)

cached-keyed :
    (pid : ℕ) (cache : ProcessCache) (e : ProcessEntry)
    → IsKeyed cache
    → cached pid cache ≡ some e
    → e.pid ≡ pid
unfolding cached
cached-keyed pid [] e h q = cc
cached-keyed pid ((p, x) ∷ rest) e h q = ground (arith, cached-keyed pid rest e)

module _ (c : Crates) (k : Kernel) where
  cache_hit-current :
      (pid start : ℕ) (cache : ProcessCache) (e : ProcessEntry)
      → IsKeyed cache
      → cache_hit pid start cache ≡ some e
      → (e.pid ≡ pid) × (e.start_time ≡ start)
  unfolding cache_hit
  cache_hit-current pid start cache e h q = ground (arith, cached-keyed pid cache e)

  fresh-current :
      (pid start : ℕ) (e : ProcessEntry)
      → resolve_fresh c k pid start ≡ ok e
      → (e.pid ≡ pid) × (e.start_time ≡ start)
  unfolding resolve_fresh
  fresh-current pid start e h = ground arith

  -- Over a keyed cache, what `resolve` returns is an entry of this PID for the process that runs now.
  pub resolve-current :
      (pid : ℕ) (cache : ProcessCache) (e : ProcessEntry)
      → IsKeyed cache
      → (resolve c k pid cache).1 ≡ ok e
      → (e.pid ≡ pid) × (read_process_start_time k pid ≡ ok e.start_time)
  unfolding resolve
  resolve-current pid cache e h q = elim (Result-cases (read_process_start_time k pid)) [
    | inr (x, r) ↦ cc (rw (r, resolve) at q)
    | inl (start, r) ↦
        rw r (ground (arith, r, cache_hit-current pid start cache e h, fresh-current pid start e))
  ]

  pub resolve-IsKeyed :
      (pid : ℕ) (cache : ProcessCache) → IsKeyed cache → IsKeyed (resolve c k pid cache).0
  unfolding resolve insert_entry invalidate
  resolve-IsKeyed pid cache h = elim (Result-cases (read_process_start_time k pid)) [
    | inr (x, r) ↦ rw (r, resolve) h
    | inl (start, r) ↦ elim (Option-cases (cache_hit pid start cache)) [
      | inr (e, hit) ↦ rw (r, resolve) (rw (hit, resolve) h)
      | inl miss ↦ elim (Result-cases (resolve_fresh c k pid start)) [
        | inr (x, f) ↦ rw (r, resolve) (rw (miss, resolve) (rw (f, resolve) h))
        | inl (e, f) ↦
            rw (r, resolve)
              (rw (miss, resolve)
                (rw (f, resolve)
                  (
                    (fresh-current pid start e f).0,
                    All-filter_by _ (λ (x : ℕ × ProcessEntry). x.1.pid ≡ x.0)
                        (λ (x : ℕ × ProcessEntry). x.1.pid ≡ x.0) (λ a p _. p) cache h,
                  )))
      ]
    ]
  ]

  -- An entry of an earlier process under a recycled PID is not returned: the binary is read anew.
  pub resolve-recycled :
      (pid start : ℕ) (cache : ProcessCache) (old : ProcessEntry)
      → cached pid cache ≡ some old
      → read_process_start_time k pid ≡ ok start
      → old.start_time ≢ start
      → (resolve c k pid cache).1 ≡ resolve_fresh c k pid start
  unfolding resolve cache_hit
  resolve-recycled pid start cache old e r ne = elim (Result-cases (resolve_fresh c k pid start)) [
    | inl (x, f) ↦ ground (arith, ==_iff old.start_time start)
    | inr (x, f) ↦ ground (arith, ==_iff old.start_time start)
  ]

same_start :
    (k later : Kernel) (pid : ℕ)
    → later.stat pid ≡ k.stat pid
    → read_process_start_time later pid ≡ read_process_start_time k pid
unfolding read_process_start_time
same_start k later pid same = rw same refl

resolve-hit :
    (c : Crates) (k : Kernel) (pid start : ℕ) (cache : ProcessCache) (e : ProcessEntry)
    → read_process_start_time k pid ≡ ok start
    → cache_hit pid start cache ≡ some e
    → (resolve c k pid cache).1 ≡ ok e
unfolding resolve
resolve-hit c k pid start cache e r hit = rw (r, resolve) (rw (hit, resolve) refl)

fresh_hit :
    (pid start : ℕ) (cache : ProcessCache) (e : ProcessEntry)
    → e.start_time ≡ start
    → cache_hit pid start (insert_entry pid e cache) ≡ some e
unfolding cache_hit insert_entry cached
fresh_hit pid start cache e h = ground (arith, ==_iff pid pid, ==_iff e.start_time start)

-- After a resolution the cache has its answer.
hit_after :
    (c : Crates) (k : Kernel) (pid : ℕ) (cache : ProcessCache) (e : ProcessEntry)
    → (resolve c k pid cache).1 ≡ ok e
    → (start : ℕ) × (read_process_start_time k pid ≡ ok start)
      × (cache_hit pid start (resolve c k pid cache).0 ≡ some e)
unfolding resolve
hit_after c k pid cache e h = elim (Result-cases (read_process_start_time k pid)) [
  | inr (x, r) ↦ cc (rw (r, resolve) at h)
  | inl (start, r) ↦ (
    start,
    r,
    elim (Option-cases (cache_hit pid start cache)) [
      | inr (x, hit) ↦ rw (r, resolve) (rw (hit, resolve) (ground (arith, r, hit)))
      | inl miss ↦ elim (Result-cases (resolve_fresh c k pid start)) [
        | inr (x, f) ↦ absurd (ground (arith, r, miss, f))
        | inl (x, f) ↦
            rw (r, resolve)
              (rw (miss, resolve)
                (rw (f, resolve)
                  (fresh_hit pid start cache x (fresh-current c k pid start x f).1
                    ∙ ground (arith, r, miss, f))))
      ]
    ],
  )
]

-- Once a process has been resolved, it resolves to the same entry as long as it lives, whatever has
-- become of its binary since: the hash in the entry is not compared with the file again.
pub resolve-cached :
    (c : Crates) (k later : Kernel) (pid : ℕ) (cache : ProcessCache) (e : ProcessEntry)
    → (resolve c k pid cache).1 ≡ ok e
    → later.stat pid ≡ k.stat pid
    → (resolve c later pid (resolve c k pid cache).0).1 ≡ ok e
resolve-cached c k later pid cache e h same =
    let (start, r, hit) = hit_after c k pid cache e h in
    resolve-hit c later pid start (resolve c k pid cache).0 e (same_start k later pid same ∙ r) hit
