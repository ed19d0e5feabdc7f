-- ===== src/Store/Db/Migrate/Created.antt =====
-- The tables that a migration has created already.
use traffic_cone.Common.{
  ℕ, zero, suc, ◌≤◌, ◌≡◌, refl, sym, ap, ◌∙◌, true, List, [], ◌∷◌, ◌++◌, map, arith, length, take,
  drop, All,
}
use traffic_cone.Store.Db.Migrate.{
  Table, DbFile, Statement, create_table, create, execute, execute_all,
}

abbrev Has : Table → DbFile → Type 0
Has t f = f.tables t ≡ true

create-Has : (t : Table) (f : DbFile) → Has t (create t f)
unfolding create
create-Has t f = ground arith

create-keeps : (t u : Table) (f : DbFile) → Has t f → Has t (create u f)
unfolding create
create-keeps t u f h = ground arith

create-again : (t : Table) (f : DbFile) → Has t f → create t f ≡ f
unfolding create
create-again t f h = rw h refl

abbrev pub create_all : List Table → DbFile → DbFile
create_all ts f = execute_all (map create_table ts) f

create_all-Has : (t : Table) (ts : List Table) (f : DbFile) → Has t f → Has t (create_all ts f)
unfolding execute_all
create_all-Has t [] f h = h
create_all-Has t (u ∷ ts) f h = create_all-Has t ts (create u f) (create-keeps t u f h)

create_all-All : (ts : List Table) (f : DbFile) → All (λ t. Has t (create_all ts f)) ts
unfolding execute_all
create_all-All [] f = tt
create_all-All (t ∷ ts) f =
    (create_all-Has t ts (create t f) (create-Has t f), create_all-All ts (create t f))

create_all-again : (ts : List Table) (f : DbFile) → All (λ t. Has t f) ts → create_all ts f ≡ f
unfolding execute_all
create_all-again [] f h = refl
create_all-again (t ∷ ts) f (h, hs) =
    ap (create_all ts) (create-again t f h) ∙ create_all-again ts f hs

pub execute_all-append :
    (ss rest : List Statement) (f : DbFile)
    → execute_all (ss ++ rest) f ≡ execute_all rest (execute_all ss f)
unfolding execute_all
execute_all-append [] rest f = refl
execute_all-append (s ∷ ss) rest f = execute_all-append ss rest (execute s f)

create_all-append :
    (ts us : List Table) (f : DbFile) → create_all (ts ++ us) f ≡ create_all us (create_all ts f)
unfolding execute_all
create_all-append [] us f = refl
create_all-append (t ∷ ts) us f = create_all-append ts us (create t f)

take-drop : {A : Type 0} (k : ℕ) (xs : List A) → take k xs ++ drop k xs ≡ xs
take-drop zero xs = refl
take-drop (suc k) [] = refl
take-drop (suc k) (x ∷ xs) = ap (λ l. x ∷ l) (take-drop k xs)

-- Tables of which the first ones have been created already.
pub create_all-take :
    (k : ℕ) (ts : List Table) (f : DbFile)
    → create_all ts (create_all (take k ts) f) ≡ create_all ts f
create_all-take k ts f =
    let first = take k ts in
    let rest = drop k ts in
    let g = create_all first f in
    let split : (h : DbFile) → create_all ts h ≡ create_all rest (create_all first h) =
      λ h. ap (λ l. create_all l h) (sym (take-drop k ts)) ∙ create_all-append first rest h in
    split g
    ∙ ap (create_all rest) (create_all-again first g (create_all-All first f))
    ∙ sym (split f)

create-versions : (t : Table) (f : DbFile) → (create t f).versions ≡ f.versions
unfolding create
create-versions t f = ground arith

pub create_all-versions : (ts : List Table) (f : DbFile) → (create_all ts f).versions ≡ f.versions
unfolding execute_all
create_all-versions [] f = refl
create_all-versions (t ∷ ts) f = create_all-versions ts (create t f) ∙ create-versions t f

pub take-append :
    {A : Type 0} (k : ℕ) (xs ys : List A) → k ≤ length xs → take k (xs ++ ys) ≡ take k xs
take-append zero xs ys h = refl
take-append (suc k) [] ys h = absurd (omega arith)
take-append (suc k) (x ∷ xs) ys h = ap (λ l. x ∷ l) (take-append k xs ys (omega arith))

pub take-whole : {A : Type 0} (k : ℕ) (xs : List A) → length xs ≤ k → take k xs ≡ xs
take-whole zero [] h = refl
take-whole zero (x ∷ xs) h = absurd (omega arith)
take-whole (suc k) [] h = refl
take-whole (suc k) (x ∷ xs) h = ap (λ l. x ∷ l) (take-whole k xs (omega arith))

pub take-map :
    {A B : Type 0} (k : ℕ) (g : A → B) (xs : List A) → take k (map g xs) ≡ map g (take k xs)
take-map zero g xs = refl
take-map (suc k) g [] = refl
take-map (suc k) g (x ∷ xs) = ap (λ l. g x ∷ l) (take-map k g xs)
