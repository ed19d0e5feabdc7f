-- ===== src/Store/Db/Migrate/Again.antt =====
-- A migration that is interrupted, and run again.
use traffic_cone.Common.{
  ℕ, zero, suc, ◌≡◌, refl, sym, ap, ◌∙◌, subst, inl, inr, Bool, true, false, Option, none, some,
  List, [], ◌∷◌, ◌++◌, map, arith, if◌then◌else◌, Bool-cases, get_elem?, take,
}
use traffic_cone.Common.Int.{ℤ, pos, ltb_ℤ}
use native.Mathlib.Decide.{dec_le}
use traffic_cone.Store.Db.Migrate.{
  DbFile, Statement, create_table, set_version, execute_all, version_of, migration_001, all_tables,
  pending, prepared, script, migrate, update_versions, initial_version, create_list,
}
use traffic_cone.Store.Db.Migrate.Created.{
  create_all, create_all-take, execute_all-append, create_all-versions, take-append, take-whole,
  take-map,
}

-- The table `schema_version` is there and has a row.
abbrev Versioned : DbFile → Type 0
Versioned f = initial_version (create_list f.versions) ≡ f.versions

first_row :
    (vs : Option (List ℤ))
    → initial_version (create_list (initial_version (create_list vs)))
      ≡ initial_version (create_list vs)
first_row none = refl
first_row (some []) = refl
first_row (some (v ∷ vs)) = refl

prepared-Versioned : (f : DbFile) → Versioned (prepared f)
unfolding execute_all
prepared-Versioned f = first_row f.versions

prepared-again : (f : DbFile) → Versioned f → prepared f ≡ f
unfolding execute_all
prepared-again f h = ap (λ (vs : Option (List ℤ)). record f { versions = vs }) h

-- What is left of `migrate` once the version is there.
abbrev finish : DbFile → Option DbFile
finish f = elim (version_of f) [ none ↦ none | some v ↦ some (execute_all (pending (some v)) f) ]

migrate-finish : (f : DbFile) → Versioned f → migrate f ≡ finish f
unfolding migrate
migrate-finish f h = ap finish (prepared-again f h)

-- A file that is as good as the one before it: with a version, and with the same outcome.
abbrev Resumes : DbFile → DbFile → Type 0
Resumes f g = Versioned g × (finish g ≡ finish f)

abbrev upgrade : List Statement
upgrade = migration_001 ++ set_version (pos 1) ∷ []

-- `finish`, for a file with these versions.
abbrev resume : Option (List ℤ) → DbFile → Option DbFile
resume vs f = elim (elim vs as (λ _. Option ℤ) [ none ↦ none | some l ↦ get_elem? l 0 ]) [
  | none ↦ none
  | some v ↦ some (execute_all (pending (some v)) f)
]

module _ (v : ℤ) (vs : List ℤ) (old : ltb_ℤ v (pos 1) ≡ true) where
  finish_old : (f : DbFile) → f.versions ≡ some (v ∷ vs) → finish f ≡ some (execute_all upgrade f)
  finish_old f e =
      ap (λ o. resume o f) e
      ∙ ap (λ (b : Bool). some (execute_all (if b then upgrade else []) f)) old

  some_created :
      (k : ℕ) (f : DbFile)
      → f.versions ≡ some (v ∷ vs)
      → Resumes f (create_all (take k all_tables) f)
  some_created k f e =
      let g = create_all (take k all_tables) f in
      let e' : g.versions ≡ some (v ∷ vs) = create_all-versions (take k all_tables) f ∙ e in
      let same : execute_all upgrade g ≡ execute_all upgrade f =
        execute_all-append migration_001 (set_version (pos 1) ∷ []) g
        ∙ ap (execute_all (set_version (pos 1) ∷ [])) (create_all-take k all_tables f)
        ∙ sym (execute_all-append migration_001 (set_version (pos 1) ∷ []) f) in
      (
        ap (λ o. initial_version (create_list o)) e' ∙ sym e',
        finish_old g e' ∙ ap some same ∙ sym (finish_old f e),
      )

  upgraded :
      (f : DbFile)
      → f.versions ≡ some (v ∷ vs)
      → (ws : List ℤ) × ((execute_all upgrade f).versions ≡ some (pos 1 ∷ ws))
  unfolding execute_all
  upgraded f e = (
    map (λ (w : ℤ). pos 1) vs,
    ap (λ (g : DbFile). g.versions) (execute_all-append migration_001 (set_version (pos 1) ∷ []) f)
        ∙ ap (update_versions (pos 1)) (create_all-versions all_tables f ∙ e),
  )

  all_done : (f : DbFile) → f.versions ≡ some (v ∷ vs) → Resumes f (execute_all upgrade f)
  unfolding execute_all
  all_done f e =
      let g = execute_all upgrade f in
      let (ws, e') = upgraded f e in
      (
        ap (λ o. initial_version (create_list o)) e' ∙ sym e',
        ap (λ o. resume o g) e' ∙ sym (finish_old f e),
      )

  stopped_old :
      (k : ℕ) (f : DbFile) → f.versions ≡ some (v ∷ vs) → Resumes f (execute_all (take k upgrade) f)
  stopped_old k f e = elim (dec_le k 9) [
    | yes early ↦
        rw
          (
            take-append k migration_001 (set_version (pos 1) ∷ []) early,
            take-map k create_table all_tables,
          )
          (some_created k f e)
    | no late ↦ rw (take-whole k upgrade (omega arith)) (all_done f e)
  ]

nothing_to_do : (k : ℕ) (f : DbFile) → Versioned f → Resumes f (execute_all (take k []) f)
unfolding execute_all
nothing_to_do zero f h = (h, refl)
nothing_to_do (suc k) f h = (h, refl)

abbrev first_version : Option (List ℤ) → Option ℤ
first_version none = none
first_version (some vs) = get_elem? vs 0

-- `pending`, for a file with these versions, and for an old one or not.
abbrev pending_at : Option (List ℤ) → List Statement
pending_at vs = pending (first_version vs)

stopped_at :
    (k : ℕ) (f : DbFile) (vs : Option (List ℤ))
    → f.versions ≡ vs
    → Versioned f
    → Resumes f (execute_all (take k (pending_at vs)) f)
stopped_at k f none e h = nothing_to_do k f h
stopped_at k f (some []) e h = nothing_to_do k f h
stopped_at k f (some (v ∷ vs)) e h =
    let P : Bool → Type 0 = λ b. Resumes f (execute_all (take k (if b then upgrade else [])) f) in
    elim (Bool-cases (ltb_ℤ v (pos 1))) [
      | inl old ↦ subst P (sym old) (stopped_old v vs old k f e)
      | inr new ↦ subst P (sym new) (nothing_to_do k f h)
    ]

stopped :
    (k : ℕ) (f : DbFile)
    → Versioned f
    → migrate (execute_all (take k (pending (version_of f))) f) ≡ finish f
stopped k f h = let (v, e) = stopped_at k f f.versions refl h in migrate-finish _ v ∙ e

created_twice : (vs : Option (List ℤ)) → create_list (create_list vs) ≡ create_list vs
created_twice none = refl
created_twice (some vs) = refl

resumed : (n : ℕ) (f : DbFile) → migrate (execute_all (take n (script f)) f) ≡ migrate f
unfolding migrate execute_all
resumed zero f = refl
resumed (suc zero) f =
    ap (λ vs. finish (record f { versions = initial_version vs })) (created_twice f.versions)
resumed (suc (suc k)) f = stopped k (prepared f) (prepared-Versioned f)

-- The first row of `schema_version` is not below the newest migration.
abbrev pub Current : DbFile → Type 0
Current f = (v : ℤ) × (version_of f ≡ some v) × (ltb_ℤ v (pos 1) ≡ false)

finish-Current :
    (f : DbFile) (vs : Option (List ℤ))
    → f.versions ≡ vs
    → Versioned f
    → (g : DbFile) × (finish f ≡ some g) × Current g × (migrate g ≡ some g)
unfolding execute_all
finish-Current f none e h = absurd (
    let p : some (pos 0 ∷ []) ≡ none = ap (λ o. initial_version (create_list o)) (sym e) ∙ h ∙ e in
    cc p)
finish-Current f (some []) e h = absurd (
    let p : some (pos 0 ∷ []) ≡ some [] =
      ap (λ o. initial_version (create_list o)) (sym e) ∙ h ∙ e in
    cc p)
finish-Current f (some (v ∷ vs)) e h = elim (Bool-cases (ltb_ℤ v (pos 1))) [
  | inl old ↦
      let g = execute_all upgrade f in
      let (ws, e') = upgraded v vs old f e in
      let (settled, same) = all_done v vs old f e in
      let ends : finish f ≡ some g = finish_old v vs old f e in
      (g, ends, (pos 1, ap first_version e', refl), migrate-finish g settled ∙ same ∙ ends)
  | inr new ↦
      let ends : finish f ≡ some f =
        ap (λ o. resume o f) e
        ∙ ap (λ (b : Bool). some (execute_all (if b then upgrade else []) f)) new in
      (f, ends, (v, ap first_version e, new), migrate-finish f h ∙ ends)
]

-- A migration always comes to its end, with a current version in the file; running it again changes
-- nothing; and one that is cut off after any of its statements, and run again from the start, leaves
-- the same file as one that was not interrupted.
pub migrate-interrupted :
    (n : ℕ) (f : DbFile)
    → (g : DbFile) × (migrate f ≡ some g)
      × Current g
      × (migrate g ≡ some g)
      × (migrate (execute_all (take n (script f)) f) ≡ some g)
unfolding migrate execute_all
migrate-interrupted n f =
    let (g, e, c, again) =
      finish-Current (prepared f) (prepared f).versions refl (prepared-Versioned f) in
    (g, e, c, again, resumed n f ∙ e)

-- A file with a current version is not changed by a migration, whatever its tables hold.
pub migrate-Current :
    (f : DbFile) (vs : Option (List ℤ)) → f.versions ≡ vs → Current f → migrate f ≡ some f
unfolding migrate execute_all
migrate-Current f none e (v, found, new) =
    absurd (let p : none ≡ some v = sym (ap first_version e) ∙ found in cc p)
migrate-Current f (some []) e (v, found, new) =
    absurd (let p : none ≡ some v = sym (ap first_version e) ∙ found in cc p)
migrate-Current f (some (w ∷ ws)) e (v, found, new) =
    let p : some w ≡ some v = sym (ap first_version e) ∙ found in
    let same : w ≡ v = cc p in
    migrate-finish f (ap (λ o. initial_version (create_list o)) e ∙ sym e)
    ∙ ap (λ o. resume o f) e
    ∙ ap (λ (b : Bool). some (execute_all (if b then upgrade else []) f))
        (ap (λ x. ltb_ℤ x (pos 1)) same ∙ new)

-- What a migration ends with has a current version.
pub migrated-Current : (f g : DbFile) → migrate f ≡ some g → Current g
migrated-Current f g e =
    let (h, found, current, again, resumes) = migrate-interrupted 0 f in
    let p : some h ≡ some g = sym found ∙ e in let same : h ≡ g = cc p in subst Current same current
