-- ===== src/Profiling/Cleaning.antt =====
-- `_clean` of app/services/profiling.py: what is kept of a list of the model's strings.
use document_intelligence_mv.Prelude.{
  ◌≡◌, ◌≢◌, ◌⊎◌, refl, sym, ap, ◌∙◌, true, false, not, ◌&&◌, List, [], ◌∷◌, Text, Bool-cases, inl,
  inr, All, All-mono, All-of-In, In, Pairs, contains, contains→In, In→contains, is_empty, strip,
  strip_idem, text_eq, arith,
}
use document_intelligence_mv.Profiling.{clean_from, clean}

-- A kept string is stripped and not blank.
abbrev pub IsTidy : Text → Type 0
IsTidy v = (is_empty v ≡ false) × (strip v ≡ v)

module _ (lower : Text → Text) where
  -- A string of this key is kept.
  abbrev pub IsKept : List Text → Text → Type 0
  IsKept kept key = (k : Text) × In k kept × (lower k ≡ key)

  record Cleaned (seen values kept : List Text) : Type 0 where
    tidy : All IsTidy kept
    unseen : All (λ k. contains seen (lower k) ≡ false) kept
    apart : Pairs (λ a b. lower b ≢ lower a) kept
    complete :
        (v : Text)
        → In v values
        → is_empty (strip v) ≡ false
        → (contains seen (lower (strip v)) ≡ true) ⊎ IsKept kept (lower (strip v))

  clean_from-Cleaned :
      (seen values : List Text) → Cleaned seen values (clean_from lower seen values)
  unfolding clean_from
  clean_from-Cleaned seen [] = record {
    tidy = tt;
    unseen = tt;
    apart = tt;
    complete = λ v i. elim i [ ];
  }
  clean_from-Cleaned seen (value ∷ values) =
      elim (Bool-cases
        (not (is_empty (strip value)) && not (contains seen (lower (strip value))))) [
          | inl t ↦ rw t (kept t (clean_from-Cleaned (lower (strip value) ∷ seen) values))
          | inr f ↦ rw f (passed f (clean_from-Cleaned seen values))
        ]
    where
      kept :
          (not (is_empty (strip value)) && not (contains seen (lower (strip value)))) ≡ true
          → Cleaned
              (lower (strip value) ∷ seen)
              values
              (clean_from lower (lower (strip value) ∷ seen) values)
          → Cleaned seen
              (value ∷ values)
              (strip value ∷ clean_from lower (lower (strip value) ∷ seen) values)
      kept t c = record {
        tidy = ((ground arith, strip_idem value), c.tidy);
        unseen = (
          ground arith,
          All-mono (clean_from lower (lower (strip value) ∷ seen) values) (λ k n. ground arith)
              c.unseen,
        );
        apart = (
          All-mono (clean_from lower (lower (strip value) ∷ seen) values) (λ k n e. ground arith)
              c.unseen,
          c.apart,
        );
        complete = λ v i full. covered v full i;
      }
        where
          found :
              (v : Text)
              → (contains (lower (strip value) ∷ seen) (lower (strip v)) ≡ true)
                ⊎ IsKept (clean_from lower (lower (strip value) ∷ seen) values) (lower (strip v))
              → (contains seen (lower (strip v)) ≡ true)
                ⊎ IsKept
                    (strip value ∷ clean_from lower (lower (strip value) ∷ seen) values)
                    (lower (strip v))
          found v (inl h) = elim (contains→In (lower (strip v)) (lower (strip value) ∷ seen) h) [
            | inl e ↦ inr (strip value, inl refl, sym e)
            | inr j ↦ inl (In→contains (lower (strip v)) seen j)
          ]
          found v (inr (k, j, e)) = inr (k, inr j, e)

          covered :
              (v : Text)
              → is_empty (strip v) ≡ false
              → In v (value ∷ values)
              → (contains seen (lower (strip v)) ≡ true)
                ⊎ IsKept
                    (strip value ∷ clean_from lower (lower (strip value) ∷ seen) values)
                    (lower (strip v))
          covered v full (inl e) = inr (strip value, inl refl, ap (λ x. lower (strip x)) (sym e))
          covered v full (inr j) = found v (c.complete v j full)

      passed :
          (not (is_empty (strip value)) && not (contains seen (lower (strip value)))) ≡ false
          → Cleaned seen values (clean_from lower seen values)
          → Cleaned seen (value ∷ values) (clean_from lower seen values)
      passed f c = record {
        tidy = c.tidy;
        unseen = c.unseen;
        apart = c.apart;
        complete = λ v i full. covered v full i;
      }
        where
          known : is_empty (strip value) ≡ false → contains seen (lower (strip value)) ≡ true
          known full = ground arith

          covered :
              (v : Text)
              → is_empty (strip v) ≡ false
              → In v (value ∷ values)
              → (contains seen (lower (strip v)) ≡ true)
                ⊎ IsKept (clean_from lower seen values) (lower (strip v))
          covered v full (inl e) = inl (
              ap (λ x. contains seen (lower (strip x))) e
              ∙ known (ap (λ x. is_empty (strip x)) (sym e) ∙ full))
          covered v full (inr j) = c.complete v j full

  -- The cleaned list has stripped strings that are not blank, no two of one key in lower case, and for each string of
  -- the list that is not blank one of the same key.
  pub clean_lem :
      (values : List Text)
      → All IsTidy (clean lower values)
        × Pairs (λ a b. lower b ≢ lower a) (clean lower values)
        × All
            (λ v. is_empty (strip v) ≡ false → IsKept (clean lower values) (lower (strip v)))
            values
  unfolding clean
  clean_lem values =
      let c = clean_from-Cleaned [] values in
      (
        c.tidy,
        c.apart,
        All-of-In (λ v. is_empty (strip v) ≡ false → IsKept (clean lower values) (lower (strip v)))
            values (λ v i full. elim (c.complete v i full) [ inl e ↦ absurd (cc e) | inr k ↦ k ]),
      )
