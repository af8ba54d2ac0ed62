-- ===== src/Pipeline/Failures.antt =====
-- `classify_failure` of app/services/pipeline.py: what a view tells of a failure.
use document_intelligence_mv.Prelude.{
  ℕ, ◌≡◌, ◌≢◌, ◌↔◌, refl, Bool, false, ◌||◌, arith, [], ◌∷◌, Text, codes, Option, none, some, All,
  is_space, strip, is_empty, any, any-false, Bool-cases, inl, inr, lstrip_by, rstrip_by, nat_eq,
  subst, Option-cases,
}
use document_intelligence_mv.Models.{Document, DocumentStatus, IngestionJob, document_status_eq}
use document_intelligence_mv.Pipeline.{
  build_pipeline, classify_failure, error_type_of, last_word, before_colon,
}
use mathlib.Core.Option.{some-injective}

-- A token: no whitespace and no colon in it.
abbrev pub IsToken : Text → Type 0
IsToken s = All (λ c. (is_space c ≡ false) × (c ≢ 58)) s

before_colon-All : (s : Text) → All (λ c. c ≢ 58) (before_colon s)
unfolding before_colon
before_colon-All [] = tt
before_colon-All (c ∷ s) = ground (arith, before_colon-All s)

module _ (P : ℕ → Type 0) where
  lstrip_by-All : (p : ℕ → Bool) (s : Text) → All P s → All P (lstrip_by p s)
  unfolding lstrip_by
  lstrip_by-All p [] a = tt
  lstrip_by-All p (c ∷ s) (h, a) = ground (arith, lstrip_by-All p s a)

  rstrip_by-All : (p : ℕ → Bool) (s : Text) → All P s → All P (rstrip_by p s)
  unfolding rstrip_by
  rstrip_by-All p [] a = tt
  rstrip_by-All p (c ∷ s) (h, a) = ground (arith, rstrip_by-All p s a)

  last_word-All : (s : Text) → All P s → All P (last_word s)
  unfolding last_word
  last_word-All [] a = tt
  last_word-All (c ∷ s) (h, a) = elim (Bool-cases (any is_space s || is_space c)) [
    | inl t ↦ rw t (last_word-All s a)
    | inr t ↦ rw t (h, a)
  ]

last_word-no_space : (s : Text) → All (λ c. is_space c ≡ false) (last_word s)
unfolding last_word
last_word-no_space [] = tt
last_word-no_space (c ∷ s) = elim (Bool-cases (any is_space s || is_space c)) [
  | inl t ↦ rw t (last_word-no_space s)
  | inr t ↦ rw t (ground arith, any-false is_space s (ground arith))
]

All-both : (P Q : ℕ → Type 0) (s : Text) → All P s → All Q s → All (λ c. P c × Q c) s
All-both P Q [] p q = tt
All-both P Q (c ∷ s) (p, ps) (q, qs) = ((p, q), All-both P Q s ps qs)

Error-IsToken : IsToken (codes "Error")
unfolding is_space
Error-IsToken = ground arith

error_type_of-IsToken : (reason : Text) → IsToken (error_type_of reason)
unfolding error_type_of
error_type_of-IsToken reason = elim (Bool-cases (is_empty (strip (before_colon reason)))) [
  | inl t ↦ rw (t, error_type_of) Error-IsToken
  | inr t ↦
      rw (t, error_type_of)
        (All-both (λ c. is_space c ≡ false) (λ c. c ≢ 58) (last_word (strip (before_colon reason)))
          (last_word-no_space (strip (before_colon reason)))
          (last_word-All (λ c. c ≢ 58) (strip (before_colon reason))
            (rstrip_by-All (λ c. c ≢ 58) is_space (lstrip_by is_space (before_colon reason))
              (lstrip_by-All (λ c. c ≢ 58) is_space (before_colon reason)
                (before_colon-All reason)))))
]

-- Whatever the stored reason, an error type that is shown is one token, with no whitespace and no
-- colon; a class is shown exactly when an error type is.
pub classify_failure-IsToken :
    (lower : Text → Text) (reason : Option Text)
    → ((e : Text) → (classify_failure lower reason).1 ≡ some e → IsToken e)
      × (((classify_failure lower reason).0 ≡ none) ↔ ((classify_failure lower reason).1 ≡ none))
unfolding classify_failure
classify_failure-IsToken lower none = (λ e h. cc, (λ h. refl, λ h. refl))
classify_failure-IsToken lower (some reason) = elim (Bool-cases (is_empty reason)) [
  | inl t ↦ rw t (λ e h. cc, (λ h. refl, λ h. refl))
  | inr t ↦ rw t (
    λ e h. subst IsToken (some-injective _ _ h) (error_type_of-IsToken reason),
    (λ h. cc, λ h. cc),
  )
]

-- A view shows a failure class only for a failed document whose job has stored a reason.
pub failure_class_needs :
    (lower : Text → Text) (d : Document) (chunks : ℕ) (job : Option IngestionJob)
    → (build_pipeline lower d chunks job).failure_class ≢ none
    → (d.status ≡ DocumentStatus.failed)
      × (j : IngestionJob) × (job ≡ some j)
      × (r : Text) × (j.last_error ≡ some r)
      × (r ≢ [])
unfolding build_pipeline classify_failure
failure_class_needs lower d chunks none h = absurd (ground arith)
failure_class_needs lower d chunks (some j) h = elim (Option-cases j.last_error) [
  | inl e ↦ absurd (ground arith)
  | inr (r, e) ↦ (ground arith, j, refl, r, e, λ p. ground arith)
]
