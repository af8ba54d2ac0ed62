-- ===== src/Prelude/Predicates.antt =====
-- Predicates on lists, by recursion, so that they compute to tuples.
use Prim.Native.Nat.{ℕ, zero, suc}
use mathlib.Core.Path.{◌≡◌, refl, sym, ap, ◌∙◌}
use mathlib.Core.Logic.{◌⊎◌, inl, inr}
use mathlib.Core.Bool.{Bool, true, false}
use mathlib.Core.List.{List, [], ◌∷◌, ◌++◌, map}
use mathlib.Core.Option.{some}
use native.Mathlib.Omega.{arith}
use document_intelligence_mv.Prelude.Logic.{Bool-cases, if◌then◌else◌, Eq}
use document_intelligence_mv.Prelude.Lists.{take, select, update_where, first, contains, any}

module _ {ℓ} {A : Type ℓ} where
  abbrev pub All : (A → Type 0) → List A → Type 0
  All P [] = Unit
  All P (x ∷ xs) = P x × All P xs

-- `In a xs`: `a` stands in `xs`.
abbrev pub In : {A : Type 0} → A → List A → Type 0
In a [] = ⊥
In a (x ∷ xs) = (a ≡ x) ⊎ In a xs

module _ {ℓ} {A : Type ℓ} {P Q : A → Type 0} where
  pub All-mono : (xs : List A) → ((a : A) → P a → Q a) → All P xs → All Q xs
  All-mono [] h a = tt
  All-mono (x ∷ xs) h (p, ps) = (h x p, All-mono xs h ps)

pub All-In : {A : Type 0} (P : A → Type 0) (xs : List A) {a : A} → All P xs → In a xs → P a
All-In P [] h i = elim i [ ]
All-In P (x ∷ xs) (h, hs) (inl e) = rw e h
All-In P (x ∷ xs) (h, hs) (inr i) = All-In P xs hs i

module _ {ℓ} {A : Type ℓ} (P : A → Type 0) where
  pub All-append : (xs ys : List A) → All P xs → All P ys → All P (xs ++ ys)
  All-append [] ys a b = b
  All-append (x ∷ xs) ys (p, ps) b = (p, All-append xs ys ps b)

  pub All-take : (n : ℕ) (xs : List A) → All P xs → All P (take n xs)
  All-take zero xs a = tt
  All-take (suc n) [] a = tt
  All-take (suc n) (x ∷ xs) (p, ps) = (p, All-take n xs ps)

  pub All-select : (p : A → Bool) (xs : List A) → All P xs → All P (select p xs)
  All-select p [] a = tt
  All-select p (x ∷ xs) (h, hs) = ground (arith, All-select p xs hs)

  -- What passes the test has what the test says.
  pub All-select_test :
      (p : A → Bool) (xs : List A) → ((a : A) → p a ≡ true → P a) → All P (select p xs)
  All-select_test p [] h = tt
  All-select_test p (x ∷ xs) h = elim (Bool-cases (p x)) [
    | inl t ↦ rw t (h x t, All-select_test p xs h)
    | inr f ↦ rw f (All-select_test p xs h)
  ]

  pub All-update_where :
      (p : A → Bool) (f : A → A) (xs : List A)
      → ((a : A) → p a ≡ true → P a → P (f a))
      → All P xs
      → All P (update_where p f xs)
  All-update_where p f [] h a = tt
  All-update_where p f (x ∷ xs) h (q, qs) = elim (Bool-cases (p x)) [
    | inl t ↦ rw t (h x t q, All-update_where p f xs h qs)
    | inr t ↦ rw t (q, All-update_where p f xs h qs)
  ]

  pub first-All : (xs : List A) {a : A} → All P xs → first xs ≡ some a → P a
  first-All [] h e = cc
  first-All (x ∷ xs) (h, hs) e = ground arith

-- What a query returns stands in the table and passes the test.
pub In-select :
    {A : Type 0} (p : A → Bool) (xs : List A) (a : A) → In a (select p xs) → In a xs × (p a ≡ true)
In-select p [] a i = elim i [ ]
In-select {A} p (x ∷ xs) a i = elim (Bool-cases (p x)) [
  | inl t ↦ hit (In-select p xs a) t (rw t at i)
  | inr f ↦ let (j, q) = In-select p xs a (rw f at i) in (inr j, q)
]
  where
    hit :
        (In a (select p xs) → In a xs × (p a ≡ true))
        → p x ≡ true
        → In a (x ∷ select p xs)
        → In a (x ∷ xs) × (p a ≡ true)
    hit rest t (inl e) = (inl e, rw e t)
    hit rest t (inr j) = let (k, q) = rest j in (inr k, q)

pub In-select_intro :
    {A : Type 0} (p : A → Bool) (xs : List A) (a : A) → In a xs → p a ≡ true → In a (select p xs)
In-select_intro p [] a i h = i
In-select_intro p (x ∷ xs) a (inl e) h = rw ((sym (ap p e)) ∙ h) (inl e)
In-select_intro p (x ∷ xs) a (inr i) h = elim (Bool-cases (p x)) [
  | inl t ↦ rw t (inr (In-select_intro p xs a i h))
  | inr t ↦ rw t (In-select_intro p xs a i h)
]

pub In-map :
    {A B : Type 0} (f : A → B) (b : B) (xs : List A)
    → In b (map f xs)
    → (a : A) × In a xs × (f a ≡ b)
In-map f b [] i = elim i [ ]
In-map f b (x ∷ xs) (inl e) = (x, inl refl, sym e)
In-map f b (x ∷ xs) (inr i) = let (a, j, e) = In-map f b xs i in (a, inr j, e)

pub In-map_intro : {A B : Type 0} (f : A → B) (a : A) (xs : List A) → In a xs → In (f a) (map f xs)
In-map_intro f a [] i = elim i [ ]
In-map_intro f a (x ∷ xs) (inl e) = inl (ap f e)
In-map_intro f a (x ∷ xs) (inr i) = inr (In-map_intro f a xs i)

pub In-take : {A : Type 0} (a : A) (n : ℕ) (xs : List A) → In a (take n xs) → In a xs
In-take a zero xs i = elim i [ ]
In-take a (suc n) [] i = i
In-take a (suc n) (x ∷ xs) (inl e) = inl e
In-take a (suc n) (x ∷ xs) (inr i) = inr (In-take a n xs i)

pub In-append_left : {A : Type 0} (a : A) (xs ys : List A) → In a xs → In a (xs ++ ys)
In-append_left a [] ys i = elim i [ ]
In-append_left a (x ∷ xs) ys (inl e) = inl e
In-append_left a (x ∷ xs) ys (inr i) = inr (In-append_left a xs ys i)

pub In-append_right : {A : Type 0} (a : A) (xs ys : List A) → In a ys → In a (xs ++ ys)
In-append_right a [] ys i = i
In-append_right a (x ∷ xs) ys i = inr (In-append_right a xs ys i)

pub In-append : {A : Type 0} (a : A) (xs ys : List A) → In a (xs ++ ys) → In a xs ⊎ In a ys
In-append a [] ys i = inr i
In-append a (x ∷ xs) ys (inl e) = inl (inl e)
In-append a (x ∷ xs) ys (inr i) = elim (In-append a xs ys i) [ inl j ↦ inl (inr j) | inr j ↦ inr j ]

pub contains→In : {A : Type 0} ⦃e : Eq A⦄ (a : A) (xs : List A) → contains xs a ≡ true → In a xs
contains→In a [] h = cc
contains→In ⦃e⦄ a (x ∷ xs) h = elim (e.dec a x) [
  | yes p ↦ inl p
  | no n ↦ inr (contains→In a xs (ground arith))
]

pub In→contains : {A : Type 0} ⦃e : Eq A⦄ (a : A) (xs : List A) → In a xs → contains xs a ≡ true
In→contains a [] i = elim i [ ]
In→contains a (x ∷ xs) (inl p) = ground arith
In→contains a (x ∷ xs) (inr i) = ground (arith, In→contains a xs i)

-- All of a predicate, from a proof for each element that stands in the list.
pub All-of-In : {A : Type 0} (P : A → Type 0) (xs : List A) → ((a : A) → In a xs → P a) → All P xs
All-of-In P [] h = tt
All-of-In P (x ∷ xs) h = (h x (inl refl), All-of-In P xs (λ a i. h a (inr i)))

pub All-update_where-In :
    {A : Type 0} (P Q : A → Type 0) (p : A → Bool) (f : A → A) (xs : List A)
    → ((a : A) → In a xs → p a ≡ true → P a → Q (f a))
    → ((a : A) → In a xs → p a ≡ false → P a → Q a)
    → All P xs
    → All Q (update_where p f xs)
All-update_where-In P Q p f [] h k a = tt
All-update_where-In P Q p f (x ∷ xs) h k (q, qs) = (
  elim (Bool-cases (p x)) [ inl t ↦ rw t (h x (inl refl) t q) | inr t ↦ rw t (k x (inl refl) t q) ],
  All-update_where-In P Q p f xs (λ a i. h a (inr i)) (λ a i. k a (inr i)) qs,
)

-- No two elements at different places stand in the relation.
abbrev pub Pairs : {A : Type 0} → (A → A → Type 0) → List A → Type 0
Pairs R [] = Unit
Pairs R (x ∷ xs) = All (R x) xs × Pairs R xs

-- An update that weakens a relation's demands, row by row, keeps it between all rows.
pub Pairs-update_where :
    {A : Type 0} (R : A → A → Type 0) (p : A → Bool) (f : A → A) (xs : List A)
    → ((a b : A) → In a xs → In b xs → R a b → R (if p a then f a else a) (if p b then f b else b))
    → Pairs R xs
    → Pairs R (update_where p f xs)
Pairs-update_where R p f [] h a = tt
Pairs-update_where {A} R p f (x ∷ xs) h (q, qs) = (
  spread xs (λ b i. h x b (inl refl) (inr i)) q,
  Pairs-update_where R p f xs (λ a b i j. h a b (inr i) (inr j)) qs,
)
  where
    spread :
        (ys : List A)
        → ((b : A) → In b ys → R x b → R (if p x then f x else x) (if p b then f b else b))
        → All (R x) ys
        → All (R (if p x then f x else x)) (update_where p f ys)
    spread [] g a = tt
    spread (y ∷ ys) g (r, rs) = (g y (inl refl) r, spread ys (λ b i. g b (inr i)) rs)

pub any-false :
    {A : Type 0} (p : A → Bool) (xs : List A) → any p xs ≡ false → All (λ x. p x ≡ false) xs
any-false p [] h = tt
any-false p (x ∷ xs) h = (ground arith, any-false p xs (ground arith))

pub Pairs-select :
    {A : Type 0} (R : A → A → Type 0) (p : A → Bool) (xs : List A)
    → Pairs R xs
    → Pairs R (select p xs)
Pairs-select R p [] h = tt
Pairs-select R p (x ∷ xs) (h, hs) = elim (Bool-cases (p x)) [
  | inl t ↦ rw t (All-select (R x) p xs h, Pairs-select R p xs hs)
  | inr f ↦ rw f (Pairs-select R p xs hs)
]
