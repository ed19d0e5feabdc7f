-- ===== src/Store/Keyring.antt =====
-- The private keys of the store as a function of the id of a certificate, and what an operation leaves
-- of it.
pub mod Spared
pub mod Imported
pub mod Deleted
pub mod Histories
use mathlib.Core.Path.{fun_ext}
use traffic_cone.Common.{
  true, false, text_eq_iff, Bool-cases, ◌+◌, ◌-◌, ◌≡◌, refl, sym, ap, ◌∙◌, subst, inl, inr, Bool,
  true, false, Option, ◌++◌, if◌then◌else◌, Bool-cases, find, Result, ok, err, ◌>>=◌, ◌>>◌, ok_or,
  Text, Bytes, codes, text_eq, text_eq_iff,
}
use traffic_cone.Store.Models.{StoreError, KeyAlgorithm, not_found}
use traffic_cone.Store.Db.{Db, KeyRow}
use traffic_cone.Store.Handle.{Store, StoreState, sealed, unlocked, conn, passphrase}
use traffic_cone.Store.Crypto.{Crates, decrypt_key}
use traffic_cone.Store.Listing.{get_plaintext_key, parse_algorithm}

-- The abstract view: a key with its algorithm, or the error of a retrieval.
abbrev pub Keyring : Type 0
Keyring = Text → Result StoreError (Bytes × KeyAlgorithm)

abbrev pub put : Text → Bytes × KeyAlgorithm → Keyring → Keyring
put id key k x = if text_eq x id then ok key else k x

abbrev pub remove : Text → Keyring → Keyring
remove id k x =
    if text_eq x id
    then err (not_found (codes "no private key found for cert '" ++ x ++ codes "'"))
    else k x

abbrev pub keyring : Crates → Store → Keyring
keyring c s x = get_plaintext_key c s x

abbrev pub row_of : Db → Text → Option KeyRow
row_of d x = find (λ (k : KeyRow). text_eq k.cert_id x) d.keys

pub text_eq_sym : (a b : Text) → text_eq a b ≡ false → text_eq b a ≡ false
text_eq_sym a b h = elim (Bool-cases (text_eq b a)) [
  | inr e ↦ e
  | inl e ↦
      let same : text_eq a b ≡ true = (text_eq_iff a b).1 (sym ((text_eq_iff b a).0 e)) in
      absurd (cc (h, same))
]

-- A keyring that has a key under an id, and under the others what another keyring has.
pub put_alone :
    (k k' : Keyring) (id : Text) (key : Bytes × KeyAlgorithm)
    → k' id ≡ ok key
    → ((x : Text) → text_eq id x ≡ false → k' x ≡ k x)
    → k' ≡ put id key k
put_alone k k' id key here there = fun_ext λ x. elim (Bool-cases (text_eq x id)) [
  | inl same ↦ rw same (ap k' ((text_eq_iff x id).0 same) ∙ here)
  | inr other ↦ rw other (there x (text_eq_sym x id other))
]

-- A keyring that has no key under an id.
pub remove_alone :
    (k k' : Keyring) (id : Text)
    → k' id ≡ err (not_found (codes "no private key found for cert '" ++ id ++ codes "'"))
    → ((x : Text) → text_eq x id ≡ false → k' x ≡ k x)
    → k' ≡ remove id k
remove_alone k k' id here there = fun_ext λ x. elim (Bool-cases (text_eq x id)) [
  | inl same ↦ rw same (
      subst
        (λ i. k' i ≡ err (not_found (codes "no private key found for cert '" ++ i ++ codes "'")))
        (sym ((text_eq_iff x id).0 same)) here)
  | inr other ↦ rw other (there x other)
]

-- What a retrieval under one id reads.
abbrev pub seen : Store → Text → StoreState × Option KeyRow
seen s x = (s.state, row_of s.disk.db x)

abbrev from : Crates → Text → StoreState → Option KeyRow → Result StoreError (Bytes × KeyAlgorithm)
from c x sealed row = err StoreError.locked
from c x (unlocked pass) row = do
  k ← ok_or row (not_found (codes "no private key found for cert '" ++ x ++ codes "'"))
  plaintext ← decrypt_key c k.key_enc k.key_salt k.key_nonce pass
  algorithm ← parse_algorithm k.algorithm
  ok (plaintext, algorithm)

retrieved :
    (c : Crates) (s : Store) (st : StoreState) (x : Text)
    → get_plaintext_key c (record s { state = st }) x ≡ from c x st (row_of s.disk.db x)
unfolding get_plaintext_key conn passphrase
retrieved c s sealed x = refl
retrieved c s (unlocked pass) x = refl

pub keyring-seen :
    (c : Crates) (s t : Store) (x : Text) → seen s x ≡ seen t x → keyring c s x ≡ keyring c t x
keyring-seen c s t x e =
    retrieved c s s.state x
    ∙ ap (λ (v : StoreState × Option KeyRow). from c x v.0 v.1) e
    ∙ sym (retrieved c t t.state x)
