-- ===== src/Store/Backup/Pairs.antt =====
-- The join of the certificates with their keys, and what it comes back as.
use traffic_cone.Common.{
  ℕ, suc, ◌<◌, ◌≡◌, refl, sym, ap, ◌∙◌, subst, inl, inr, Bool, true, false, ◌||◌, Option, none,
  some, List, [], ◌∷◌, ◌++◌, map, arith, Bool-cases, length, find, filter_by, All, Text, Bytes,
  text_eq, text_eq_iff,
}
use traffic_cone.Common.Tables.{Distinct}
use traffic_cone.Store.Models.{Cert}
use traffic_cone.Store.Db.{KeyRow}
use traffic_cone.Store.Db.Sound.{cert_clash, has_cert}
use traffic_cone.Store.Crypto.{Crates}
use traffic_cone.Store.Backup.{BackupCert, backup_cert, join_keys}
use traffic_cone.Store.Backup.Loop.{rows}
use traffic_cone.Store.Backup.Steps.{pair_row, pair_clash, map_append}

abbrev pub owned_keys : List KeyRow → Cert → List KeyRow
owned_keys keys x = filter_by (λ (k : KeyRow). text_eq k.cert_id x.id) keys

-- Each certificate has one key.
abbrev pub OneKeyEach : List KeyRow → List Cert → Type 0
OneKeyEach keys = All (λ (x : Cert). length (owned_keys keys x) ≡ 1)

abbrev pub pairs_of : List KeyRow → List Cert → List (Cert × KeyRow)
pairs_of keys [] = []
pairs_of keys (x ∷ certs) = map (λ k. (x, k)) (owned_keys keys x) ++ pairs_of keys certs

abbrev pub backup_pair : Crates → Cert × KeyRow → BackupCert
backup_pair c (x, k) = backup_cert c x k

map-map :
    {A B C : Type 0} (g : B → C) (f : A → B) (xs : List A)
    → map g (map f xs) ≡ map (λ a. g (f a)) xs
map-map g f [] = refl
map-map g f (x ∷ xs) = ap (λ ys. g (f x) ∷ ys) (map-map g f xs)

pub join_keys-pairs_of :
    (c : Crates) (keys : List KeyRow) (certs : List Cert)
    → join_keys c keys certs ≡ map (backup_pair c) (pairs_of keys certs)
unfolding join_keys
join_keys-pairs_of c keys [] = refl
join_keys-pairs_of c keys (x ∷ certs) = rw (join_keys-pairs_of c keys certs) (
    rw (map_append (backup_pair c) (map (λ k. (x, k)) (owned_keys keys x)) (pairs_of keys certs))
      (rw (map-map (backup_pair c) (λ k. (x, k)) (owned_keys keys x)) refl))

single : {A : Type 0} (xs : List A) → length xs ≡ 1 → (x : A) × (xs ≡ x ∷ [])
single [] h = absurd (omega (arith, h))
single (x ∷ []) h = (x, refl)
single (x ∷ y ∷ xs) h = absurd (omega (arith, h))

pairs_of-cons :
    (keys : List KeyRow) (x : Cert) (certs : List Cert)
    → length (owned_keys keys x) ≡ 1
    → (k : KeyRow) × (owned_keys keys x ≡ k ∷ [])
      × (pairs_of keys (x ∷ certs) ≡ (x, k) ∷ pairs_of keys certs)
pairs_of-cons keys x certs h =
    let (k, e) = single (owned_keys keys x) h in
    (k, e, ap (λ ks. map (λ k. (x, k)) ks ++ pairs_of keys certs) e)

-- The certificates come back as they were.
pub rows-certs :
    (key_id : ℕ → Text) (keys : List KeyRow) (i : ℕ) (certs : List Cert)
    → OneKeyEach keys certs
    → map (λ (p : Cert × KeyRow). p.0) (rows (pair_row key_id) i (pairs_of keys certs)) ≡ certs
rows-certs key_id keys i [] h = refl
rows-certs key_id keys i (x ∷ certs) h =
    let (k, o, e) = pairs_of-cons keys x certs h.0 in
    ap (λ ps. map (λ (p : Cert × KeyRow). p.0) (rows (pair_row key_id) i ps)) e
    ∙ ap (λ cs. x ∷ cs) (rows-certs key_id keys (suc i) certs h.1)

or_false : {a b : Bool} → a ≡ false → b ≡ false → (a || b) ≡ false
or_false h k = ground arith

other_id :
    (key_id : ℕ → Text)
    → ((m n : ℕ) → text_eq (key_id m) (key_id n) ≡ true → m ≡ n)
    → (j i : ℕ) → j < i
    → text_eq (key_id j) (key_id i) ≡ false
other_id key_id inj j i less = elim (Bool-cases (text_eq (key_id j) (key_id i))) [
  | inl b ↦ let e = inj j i b in absurd (omega (arith, e, less))
  | inr b ↦ b
]

-- The rows before the place `i` and those from it on.
apart_keys :
    (key_id : ℕ → Text) (keys : List KeyRow) (j i : ℕ) (x : Cert) (k : KeyRow) (certs : List Cert)
    → ((m n : ℕ) → text_eq (key_id m) (key_id n) ≡ true → m ≡ n)
    → j < i
    → OneKeyEach keys certs
    → All (λ (y : Cert). cert_clash x y ≡ false) certs
    → All
        (λ (q : Cert × KeyRow). pair_clash (pair_row key_id j (x, k)) q ≡ false)
        (rows (pair_row key_id) i (pairs_of keys certs))
apart_keys key_id keys j i x k [] inj less h a = tt
apart_keys key_id keys j i x k (y ∷ certs) inj less h a =
    let (l, o, e) = pairs_of-cons keys y certs h.0 in
    subst
      (λ ps.
        All (λ (q : Cert × KeyRow). pair_clash (pair_row key_id j (x, k)) q ≡ false)
          (rows (pair_row key_id) i ps))
      (sym e)
      (
        or_false a.0 (other_id key_id inj j i less),
        apart_keys key_id keys j (suc i) x k certs inj (omega (arith, less)) h.1 a.1,
      )

-- No two of the restored pairs clash.
pub rows-Distinct :
    (key_id : ℕ → Text) (keys : List KeyRow) (i : ℕ) (certs : List Cert)
    → ((m n : ℕ) → text_eq (key_id m) (key_id n) ≡ true → m ≡ n)
    → OneKeyEach keys certs
    → Distinct cert_clash certs
    → Distinct pair_clash (rows (pair_row key_id) i (pairs_of keys certs))
rows-Distinct key_id keys i [] inj h d = tt
rows-Distinct key_id keys i (x ∷ certs) inj h d =
    let (k, o, e) = pairs_of-cons keys x certs h.0 in
    subst (λ ps. Distinct pair_clash (rows (pair_row key_id) i ps)) (sym e)
      (
        apart_keys key_id keys i (suc i) x k certs inj (omega arith) h.1 d.0,
        rows-Distinct key_id keys (suc i) certs inj h.1 d.1,
      )

-- What is of use in a row of `keys`.
abbrev pub material : KeyRow → Text × Bytes × Bytes × Bytes
material k = (k.algorithm, k.key_enc, k.key_salt, k.key_nonce)

abbrev pub found : Option KeyRow → Option (Text × Bytes × Bytes × Bytes)
found none = none
found (some k) = some (material k)

find-filter_by :
    {A : Type 0} (p : A → Bool) (xs : List A) (x : A) → filter_by p xs ≡ x ∷ [] → find p xs ≡ some x
find-filter_by p [] x h = cc
find-filter_by p (y ∷ xs) x h = ground (arith, find-filter_by p xs x)

-- The key that is found under the id of a certificate is the one that was found before.
pub rows-keys :
    (key_id : ℕ → Text) (keys : List KeyRow) (i : ℕ) (certs : List Cert) (id : Text)
    → OneKeyEach keys certs
    → has_cert certs id ≡ true
    → found (
        find
          (λ (k : KeyRow). text_eq k.cert_id id)
          (map (λ (p : Cert × KeyRow). p.1) (rows (pair_row key_id) i (pairs_of keys certs))))
      ≡ found (find (λ (k : KeyRow). text_eq k.cert_id id) keys)
rows-keys key_id keys i [] id h has = cc
rows-keys key_id keys i (x ∷ certs) id h has =
    let (k, o, e) = pairs_of-cons keys x certs h.0 in
    ap
      (λ ps. found (
        find (λ (k : KeyRow). text_eq k.cert_id id)
          (map (λ (p : Cert × KeyRow). p.1) (rows (pair_row key_id) i ps))))
      e
    ∙ elim (Bool-cases (text_eq x.id id)) [
      | inl b ↦
          let same : find (λ (l : KeyRow). text_eq l.cert_id id) keys ≡ some k =
            subst (λ (t : Text). find (λ (l : KeyRow). text_eq l.cert_id t) keys ≡ some k)
              ((text_eq_iff x.id id).0 b)
              (find-filter_by (λ (l : KeyRow). text_eq l.cert_id x.id) keys k o) in
          rw b (sym (ap found same))
      | inr b ↦ rw b (rows-keys key_id keys (suc i) certs id h.1 (rw b at has))
    ]
