-- ===== src/Metrics/Bounds.antt =====
-- `_unique` and `recall_at_k` of app/evaluation/metrics.py: what is counted, and how recall grows with `k`.
use document_intelligence_mv.Prelude.{
  ℕ, zero, suc, ◌≤◌, ◌≡◌, ◌≢◌, ◌↔◌, ◌⊎◌, refl, true, false, List, [], ◌∷◌, Text, is_empty, take,
  length, length-select-le, contains, text_eq, ltb, All, All-mono, Pairs, In, In→contains,
  contains→In, Bool-cases, inl, inr, arith,
}
use document_intelligence_mv.Errors.{returns, value_error, raise_if-returns}
use document_intelligence_mv.Metrics.{Ratio, unique_from, unique, common, recall_at_k}

-- What the loop keeps is new and kept once.
unique_from-Pairs :
    (seen items : List Text)
    → All (λ x. contains seen x ≡ false) (unique_from seen items)
      × Pairs (λ a b. b ≢ a) (unique_from seen items)
unfolding unique_from
unique_from-Pairs seen [] = (tt, tt)
unique_from-Pairs seen (item ∷ items) = elim (Bool-cases (contains seen item)) [
  | inl t ↦ rw (unique_from, t) (unique_from-Pairs seen items)
  | inr t ↦
      let (a, p) = unique_from-Pairs (item ∷ seen) items in
      rw (unique_from, t)
        (
          (t, All-mono (unique_from (item ∷ seen) items) older a),
          (All-mono (unique_from (item ∷ seen) items) other a, p),
        )
]
  where
    older : (x : Text) → contains (item ∷ seen) x ≡ false → contains seen x ≡ false
    older x h = ground arith

    other : (x : Text) → contains (item ∷ seen) x ≡ false → x ≢ item
    other x h e = ground arith

unique_from-In :
    (seen items : List Text) (x : Text) → In x items → In x seen ⊎ In x (unique_from seen items)
unfolding unique_from
unique_from-In seen [] x i = elim i [ ]
unique_from-In seen (item ∷ items) x i = elim (Bool-cases (contains seen item)) [
  | inl t ↦ rw (unique_from, t) (skipped t i (unique_from-In seen items x))
  | inr t ↦ rw (unique_from, t) (kept i (unique_from-In (item ∷ seen) items x))
]
  where
    skipped :
        contains seen item ≡ true
        → In x (item ∷ items)
        → (In x items → In x seen ⊎ In x (unique_from seen items))
        → In x seen ⊎ In x (unique_from seen items)
    skipped t (inl e) rest = inl (rw e (contains→In item seen t))
    skipped t (inr j) rest = rest j

    kept :
        In x (item ∷ items)
        → (In x items → In x (item ∷ seen) ⊎ In x (unique_from (item ∷ seen) items))
        → In x seen ⊎ In x (item ∷ unique_from (item ∷ seen) items)
    kept (inl e) rest = inr (inl e)
    kept (inr j) rest = elim (rest j) [
      | inl k ↦ elim k [ inl e ↦ inr (inl e) | inr m ↦ inl m ]
      | inr k ↦ inr (inr k)
    ]

unique_from-Out : (seen items : List Text) (x : Text) → In x (unique_from seen items) → In x items
unfolding unique_from
unique_from-Out seen [] x i = i
unique_from-Out seen (item ∷ items) x i = elim (Bool-cases (contains seen item)) [
  | inl t ↦ inr (unique_from-Out seen items x (rw (unique_from, t) at i))
  | inr t ↦ kept (rw (unique_from, t) at i) (unique_from-Out (item ∷ seen) items x)
]
  where
    kept :
        In x (item ∷ unique_from (item ∷ seen) items)
        → (In x (unique_from (item ∷ seen) items) → In x items)
        → In x (item ∷ items)
    kept (inl e) rest = inl e
    kept (inr j) rest = inr (rest j)

-- What is scored is each retrieved source once: no item of the unique list stands twice in it, and it has
-- exactly the items of the retrieved list.
pub unique_lem :
    (retrieved : List Text)
    → Pairs (λ a b. b ≢ a) (unique retrieved)
      × ((x : Text) → In x (unique retrieved) ↔ In x retrieved)
unfolding unique
unique_lem retrieved = (
  (unique_from-Pairs [] retrieved).1,
  λ x. (unique_from-Out [] retrieved x, λ i. found x (unique_from-In [] retrieved x i)),
)
  where
    found : (x : Text) → In x [] ⊎ In x (unique_from [] retrieved) → In x (unique_from [] retrieved)
    found x (inl i) = elim i [ ]
    found x (inr i) = i

In-take_more : (j k : ℕ) (xs : List Text) (x : Text) → j ≤ k → In x (take j xs) → In x (take k xs)
In-take_more zero k xs x h i = elim i [ ]
In-take_more (suc j) zero xs x h i = absurd (omega (arith, h))
In-take_more (suc j) (suc k) [] x h i = i
In-take_more (suc j) (suc k) (y ∷ ys) x h (inl e) = inl e
In-take_more (suc j) (suc k) (y ∷ ys) x h (inr i) = inr (In-take_more j k ys x (omega (arith, h)) i)

common_more :
    (hits more relevant : List Text)
    → ((x : Text) → In x hits → In x more)
    → common relevant hits ≤ common relevant more
common_more hits more [] h = omega arith
common_more hits more (x ∷ xs) h = elim (Bool-cases (contains hits x)) [
  | inl t ↦
      rw (t, In→contains x more (h x (contains→In x hits t)))
        (omega (arith, common_more hits more xs h))
  | inr t ↦ elim (Bool-cases (contains more x)) [
    | inl u ↦ rw (t, u) (omega (arith, common_more hits more xs h))
    | inr u ↦ rw (t, u) (common_more hits more xs h)
  ]
]

-- Two recalls of one retrieved list that are defined are fractions of one number of relevant sources, at least
-- one, of which none counts more than all; and the recall at the greater `k` is not the smaller one.
pub recall_at_k-le :
    (relevant retrieved : List Text) (j k : ℕ) (r s : Ratio)
    → j ≤ k
    → recall_at_k relevant retrieved j ≡ returns r
    → recall_at_k relevant retrieved k ≡ returns s
    → (1 ≤ r.bottom) × (s.bottom ≡ r.bottom) × (r.top ≤ s.top) × (s.top ≤ s.bottom)
unfolding recall_at_k
recall_at_k-le relevant retrieved j k r s le h1 h2 =
    let (full, a1) = raise_if-returns (is_empty relevant) value_error _ r h1 in
    let (full', b1) = raise_if-returns (is_empty relevant) value_error _ s h2 in
    let (_, a2) = raise_if-returns (ltb j 1) value_error (returns (at j)) r a1 in
    let (_, b2) = raise_if-returns (ltb k 1) value_error (returns (at k)) s b1 in
    let p : at j ≡ r = cc a2 in
    let q : at k ≡ s = cc b2 in
    rw (← p, ← q)
      (
        filled relevant full,
        refl,
        common_more (take j (unique retrieved)) (take k (unique retrieved)) relevant
            (λ x i. In-take_more j k (unique retrieved) x le i),
        length-select-le (contains (take k (unique retrieved))) relevant,
      )
  where
    at : ℕ → Ratio
    at n = record { top = common relevant (take n (unique retrieved)); bottom = length relevant }

    filled : (xs : List Text) → is_empty xs ≡ false → 1 ≤ length xs
    filled [] e = cc e
    filled (x ∷ xs) e = omega arith
