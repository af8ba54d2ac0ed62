-- ===== src/Prelude/Keys.antt =====
-- Rows with distinct keys: a query by a list of keys returns at most one row for each key.
use Prim.Native.Nat.{ℕ, suc, ◌≤◌, ◌+◌}
use mathlib.Core.Path.{◌≡◌, refl, sym, ap, ◌∙◌, subst}
use mathlib.Core.Logic.{◌≢◌, ◌↔◌, inl, inr}
use mathlib.Core.Bool.{Bool, true, false}
use mathlib.Core.List.{List, [], ◌∷◌, ◌++◌}
use mathlib.Core.Option.{some}
use document_intelligence_mv.Prelude.Sort.{insert, sort_by}
use native.Mathlib.Omega.{arith}
use document_intelligence_mv.Prelude.Logic.{if◌then◌else◌, ◌==◌, nat_eq, Bool-cases}
use document_intelligence_mv.Prelude.Lists.{length, select, update_where, contains, first}
use document_intelligence_mv.Prelude.Predicates.{All, In, Pairs, All-mono, All-In}

-- The keys less the first `k`.
without : ℕ → List ℕ → List ℕ
without k [] = []
without k (x ∷ xs) = let rest = without k xs in if k == x then xs else x ∷ rest

length-without :
    (k : ℕ) (xs : List ℕ) → contains xs k ≡ true → suc (length (without k xs)) ≡ length xs
unfolding without
length-without k [] h = cc
length-without k (x ∷ xs) h = ground (arith, length-without k xs)

contains-without : (k j : ℕ) (xs : List ℕ) → j ≢ k → contains (without k xs) j ≡ contains xs j
unfolding without
contains-without k j [] h = refl
contains-without k j (x ∷ xs) h = ground (arith, contains-without k j xs h)

select-ext :
    {A : Type 0} (p q : A → Bool) (xs : List A)
    → All (λ x. p x ≡ q x) xs
    → select p xs ≡ select q xs
select-ext p q [] h = refl
select-ext p q (x ∷ xs) (e, h) = rw (e, select-ext p q xs h)

pub length-select_keys :
    {A : Type 0} (key : A → ℕ) (xs : List A) (keys : List ℕ)
    → Pairs (λ a b. key b ≢ key a) xs
    → length (select (λ a. contains keys (key a)) xs) ≤ length keys
length-select_keys key [] keys u = omega arith
length-select_keys key (x ∷ xs) keys (h, u) = elim (Bool-cases (contains keys (key x))) [
  | inl t ↦ rw t (
      rw
        (select-ext (λ a. contains keys (key a)) (λ a. contains (without (key x) keys) (key a)) xs
          (All-mono xs (λ a n. sym (contains-without (key x) (key a) keys n)) h))
        (omega (
          arith,
          length-without (key x) keys t,
          length-select_keys key xs (without (key x) keys) u,
        )))
  | inr f ↦ rw f (length-select_keys key xs keys u)
]

pub In-update_where :
    {A : Type 0} (p : A → Bool) (f : A → A) (xs : List A) (b : A)
    → In b (update_where p f xs)
    → (a : A) × In a xs × (b ≡ (if p a then f a else a))
In-update_where p f [] b i = elim i [ ]
In-update_where p f (x ∷ xs) b (inl e) = (x, inl refl, e)
In-update_where p f (x ∷ xs) b (inr i) = let (a, j, e) = In-update_where p f xs b i in (a, inr j, e)

pub In-update_where_intro :
    {A : Type 0} (p : A → Bool) (f : A → A) (xs : List A) (a : A)
    → In a xs
    → In (if p a then f a else a) (update_where p f xs)
In-update_where_intro p f [] a i = elim i [ ]
In-update_where_intro p f (x ∷ xs) a (inl e) = inl (ap (λ y. if p y then f y else y) e)
In-update_where_intro p f (x ∷ xs) a (inr i) = inr (In-update_where_intro p f xs a i)

-- A query that one row alone passes returns it.
pub first-select :
    {A : Type 0} (p : A → Bool) (xs : List A) (a : A)
    → In a xs
    → p a ≡ true
    → ((b : A) → In b xs → p b ≡ true → b ≡ a)
    → first (select p xs) ≡ some a
first-select p [] a i t u = elim i [ ]
first-select p (x ∷ xs) a i t u = elim (Bool-cases (p x)) [
  | inl h ↦ rw h (ap some (u x (inl refl) h))
  | inr h ↦ rw h (first-select p xs a (later h i) t (λ b k. u b (inr k)))
]
  where
    later : p x ≡ false → In a (x ∷ xs) → In a xs
    later h (inl e) = cc (ap p e, t, h)
    later h (inr k) = k

-- How often a key stands in a list of rows.
abbrev pub count_key : {A : Type 0} → (A → ℕ) → ℕ → List A → ℕ
count_key key k [] = 0
count_key key k (x ∷ xs) = (if key x == k then 1 else 0) + count_key key k xs

module _ {A : Type 0} (key : A → ℕ) (k : ℕ) where
  pub count_key-append :
      (xs ys : List A) → count_key key k (xs ++ ys) ≡ count_key key k xs + count_key key k ys
  count_key-append [] ys = omega arith
  count_key-append (x ∷ xs) ys = omega (arith, count_key-append xs ys)

  count_key-insert :
      (le : A → A → Bool) (a : A) (xs : List A)
      → count_key key k (insert le a xs) ≡ count_key key k (a ∷ xs)
  unfolding insert
  count_key-insert le a [] = refl
  count_key-insert le a (x ∷ xs) = elim (Bool-cases (le a x)) [
    | inl t ↦ rw t
    | inr f ↦ rw f (omega (arith, count_key-insert le a xs))
  ]

  pub count_key-sort_by :
      (le : A → A → Bool) (xs : List A) → count_key key k (sort_by le xs) ≡ count_key key k xs
  unfolding sort_by
  count_key-sort_by le [] = refl
  count_key-sort_by le (x ∷ xs) =
      omega (arith, count_key-insert le x (sort_by le xs), count_key-sort_by le xs)

  pub count_key-select_le :
      (p : A → Bool) (xs : List A) → count_key key k (select p xs) ≤ count_key key k xs
  count_key-select_le p [] = omega arith
  count_key-select_le p (x ∷ xs) = elim (Bool-cases (p x)) [
    | inl t ↦ rw t (omega (arith, count_key-select_le p xs))
    | inr f ↦ rw f (omega (arith, count_key-select_le p xs))
  ]

  pub count_key-absent : (xs : List A) → All (λ x. key x ≢ k) xs → count_key key k xs ≡ 0
  count_key-absent [] h = refl
  count_key-absent (x ∷ xs) (n, h) = ground (arith, count_key-absent xs h)

  pub count_key-Pairs : (xs : List A) → Pairs (λ a b. key b ≢ key a) xs → count_key key k xs ≤ 1
  count_key-Pairs [] u = omega arith
  count_key-Pairs (x ∷ xs) (h, u) = elim (nat_eq.dec (key x) k) [
    | yes p ↦ ground (arith, count_key-absent xs (All-mono xs (λ a n e. n (e ∙ sym p)) h))
    | no n ↦ ground (arith, count_key-Pairs xs u)
  ]

-- With unique keys a row is known by its key.
pub row_of_key :
    {A K : Type 0} (key : A → K) (xs : List A) (a b : A)
    → Pairs (λ a b. key b ≢ key a) xs
    → In a xs
    → In b xs
    → key a ≡ key b
    → a ≡ b
row_of_key key [] a b u i k e = elim i [ ]
row_of_key key (x ∷ xs) a b (h, u) (inl p) (inl q) e = p ∙ sym q
row_of_key key (x ∷ xs) a b (h, u) (inl p) (inr k) e =
    absurd (All-In (λ b. key b ≢ key x) xs h k (sym e ∙ ap key p))
row_of_key key (x ∷ xs) a b (h, u) (inr i) (inl q) e =
    absurd (All-In (λ b. key b ≢ key x) xs h i (e ∙ ap key q))
row_of_key key (x ∷ xs) a b (h, u) (inr i) (inr k) e = row_of_key key xs a b u i k e

-- An update of the rows of one key, which keeps it, leaves the rows of other keys.
pub update_where-others :
    {A : Type 0} (key : A → ℕ) (k : ℕ) (p : A → Bool) (f : A → A) (xs : List A) (b : A)
    → ((a : A) → p a ≡ true → key a ≡ k)
    → ((a : A) → key (f a) ≡ key a)
    → key b ≢ k
    → In b xs ↔ In b (update_where p f xs)
update_where-others {A} key k p f xs b of_key same_key other = (into, back)
  where
    into : In b xs → In b (update_where p f xs)
    into i = elim (Bool-cases (p b)) [
      | inl t ↦ absurd (other (of_key b t))
      | inr t ↦
          let kept : (if p b then f b else b) ≡ b = rw t refl in
          subst (λ x. In x (update_where p f xs)) kept (In-update_where_intro p f xs b i)
    ]

    from_row : (a : A) → In a xs → b ≡ (if p a then f a else a) → In b xs
    from_row a j became = elim (Bool-cases (p a)) [
      | inl t ↦
          let kept : (if p a then f a else a) ≡ f a = rw t refl in
          absurd (other (ap key (became ∙ kept) ∙ same_key a ∙ of_key a t))
      | inr t ↦
          let kept : (if p a then f a else a) ≡ a = rw t refl in
          subst (λ x. In x xs) (sym (became ∙ kept)) j
    ]

    back : In b (update_where p f xs) → In b xs
    back i = let (a, j, became) = In-update_where p f xs b i in from_row a j became
