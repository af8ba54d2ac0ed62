-- ===== src/Prelude/Sort.antt =====
-- `sorted(xs, key=…)` and SQL's ORDER BY: a stable sort by a comparison of keys.
use Prim.Native.Nat.{suc}
use mathlib.Core.Path.{◌≡◌, refl, ap, ◌∙◌}
use mathlib.Core.Logic.{inl, inr}
use mathlib.Core.Bool.{Bool, true, false}
use mathlib.Core.List.{List, [], ◌∷◌}
use native.Mathlib.Omega.{arith}
use document_intelligence_mv.Prelude.Logic.{if◌then◌else◌, Bool-cases}
use document_intelligence_mv.Prelude.Lists.{length}
use document_intelligence_mv.Prelude.Predicates.{All, In, All-mono, Pairs}

module _ {A : Type 0} (le : A → A → Bool) where
  unfoldable pub insert : A → List A → List A
  insert a [] = a ∷ []
  insert a (x ∷ xs) = let rest = insert a xs in if le a x then a ∷ x ∷ xs else x ∷ rest

  -- Equal keys keep their order: an element goes before those that it does not exceed.
  unfoldable pub sort_by : List A → List A
  unfolding insert
  sort_by [] = []
  sort_by (x ∷ xs) = insert x (sort_by xs)

  -- Each element is at most every later one.
  abbrev pub Sorted : List A → Type 0
  Sorted [] = Unit
  Sorted (x ∷ xs) = All (λ y. le x y ≡ true) xs × Sorted xs

  insert-All : (P : A → Type 0) (a : A) (xs : List A) → P a → All P xs → All P (insert a xs)
  unfolding insert
  insert-All P a [] h k = (h, tt)
  insert-All P a (x ∷ xs) h (k, ks) = ground (arith, insert-All P a xs h ks)

  pub sort_by-All : (P : A → Type 0) (xs : List A) → All P xs → All P (sort_by xs)
  unfolding sort_by
  sort_by-All P [] h = tt
  sort_by-All P (x ∷ xs) (h, hs) = insert-All P x (sort_by xs) h (sort_by-All P xs hs)

  In-insert : (a b : A) (xs : List A) → In b (insert a xs) → In b (a ∷ xs)
  unfolding insert
  In-insert a b [] i = i
  In-insert a b (x ∷ xs) i = elim (Bool-cases (le a x)) [
    | inl t ↦ (rw t at i)
    | inr t ↦ later (In-insert a b xs) (rw t at i)
  ]
    where
      later : (In b (insert a xs) → In b (a ∷ xs)) → In b (x ∷ insert a xs) → In b (a ∷ x ∷ xs)
      later rest (inl e) = inr (inl e)
      later rest (inr j) = elim (rest j) [ inl e ↦ inl e | inr k ↦ inr (inr k) ]

  In-insert_intro : (a b : A) (xs : List A) → In b (a ∷ xs) → In b (insert a xs)
  unfolding insert
  In-insert_intro a b [] i = i
  In-insert_intro a b (x ∷ xs) i = elim (Bool-cases (le a x)) [
    | inl t ↦ rw t i
    | inr f ↦ rw f (later (In-insert_intro a b xs) i)
  ]
    where
      later : (In b (a ∷ xs) → In b (insert a xs)) → In b (a ∷ x ∷ xs) → In b (x ∷ insert a xs)
      later rest (inl e) = inr (rest (inl e))
      later rest (inr (inl e)) = inl e
      later rest (inr (inr k)) = inr (rest (inr k))

  Pairs-insert :
      (R : A → A → Type 0) (a : A) (xs : List A)
      → ((x y : A) → R x y → R y x)
      → All (R a) xs
      → Pairs R xs
      → Pairs R (insert a xs)
  unfolding insert
  Pairs-insert R a [] h b p = (tt, tt)
  Pairs-insert R a (x ∷ xs) h (b, bs) (p, ps) = elim (Bool-cases (le a x)) [
    | inl t ↦ rw t ((b, bs), (p, ps))
    | inr t ↦ rw t (insert-All (R x) a xs (h a x b) p, Pairs-insert R a xs h bs ps)
  ]

  -- A symmetric relation between all pairs outlives a sort.
  pub Pairs-sort_by :
      (R : A → A → Type 0) (xs : List A)
      → ((x y : A) → R x y → R y x)
      → Pairs R xs
      → Pairs R (sort_by xs)
  unfolding sort_by
  Pairs-sort_by R [] h p = tt
  Pairs-sort_by R (x ∷ xs) h (p, ps) =
      Pairs-insert R x (sort_by xs) h (sort_by-All (R x) xs p) (Pairs-sort_by R xs h ps)

  -- Sorting brings in nothing new.
  pub In-sort_by : (b : A) (xs : List A) → In b (sort_by xs) → In b xs
  unfolding sort_by
  In-sort_by b [] i = i
  In-sort_by b (x ∷ xs) i = elim (In-insert x b (sort_by xs) i) [
    | inl e ↦ inl e
    | inr j ↦ inr (In-sort_by b xs j)
  ]

  length-insert : (a : A) (xs : List A) → length (insert a xs) ≡ suc (length xs)
  unfolding insert
  length-insert a [] = refl
  length-insert a (x ∷ xs) = ground (arith, length-insert a xs)

  pub In-sort_by_intro : (b : A) (xs : List A) → In b xs → In b (sort_by xs)
  unfolding sort_by
  In-sort_by_intro b [] i = i
  In-sort_by_intro b (x ∷ xs) (inl e) = In-insert_intro x b (sort_by xs) (inl e)
  In-sort_by_intro b (x ∷ xs) (inr i) =
      In-insert_intro x b (sort_by xs) (inr (In-sort_by_intro b xs i))

  pub length-sort_by : (xs : List A) → length (sort_by xs) ≡ length xs
  unfolding sort_by
  length-sort_by [] = refl
  length-sort_by (x ∷ xs) = length-insert x (sort_by xs) ∙ ap suc (length-sort_by xs)

  module _ (total : (a b : A) → le a b ≡ false → le b a ≡ true)
      (trans : (a b c : A) → le a b ≡ true → le b c ≡ true → le a c ≡ true) where
    insert-Sorted : (a : A) (xs : List A) → Sorted xs → Sorted (insert a xs)
    unfolding insert
    insert-Sorted a [] s = (tt, tt)
    insert-Sorted a (x ∷ xs) (h, s) = elim (Bool-cases (le a x)) [
      | inl t ↦ rw t ((t, All-mono xs (λ y k. trans a x y t k) h), (h, s))
      | inr f ↦ rw f (insert-All (λ y. le x y ≡ true) a xs (total a x f) h, insert-Sorted a xs s)
    ]

    -- The result is in order, whatever the input.
    pub sort_by-Sorted : (xs : List A) → Sorted (sort_by xs)
    unfolding sort_by
    sort_by-Sorted [] = tt
    sort_by-Sorted (x ∷ xs) = insert-Sorted x (sort_by xs) (sort_by-Sorted xs)
