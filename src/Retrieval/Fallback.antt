-- ===== src/Retrieval/Fallback.antt =====
-- `search` of app/services/retrieval.py with a reranker that fails.
use document_intelligence_mv.Prelude.{
  ℕ, zero, suc, ◌*◌, ◌≤◌, ◌≡◌, ◌≢◌, ◌⊎◌, ◌∙◌, refl, sym, ap, Option, none, some, List, [], ◌∷◌,
  Text, take, length, length-map, map, max, min, is_empty, sort_by, strip, Bool-cases, inl, inr,
  ◌==◌, nat_eq, eq_of_==, arith,
}
use document_intelligence_mv.Errors.{Error, Result, returns, raises, ◌>>=◌}
use document_intelligence_mv.Floats.{Floats}
use document_intelligence_mv.Database.{Db}
use document_intelligence_mv.Providers.{EmbeddingProvider, RerankerProvider}
use document_intelligence_mv.Retrieval.{
  SearchHit, RerankerSettings, hits_of, rerank_hits, refine, ranks_before, respond, answered,
  search_by, search,
}

take-take : {A : Type 0} (n m : ℕ) (xs : List A) → n ≤ m → take n xs ≡ take n (take m xs)
take-take zero m xs h = refl
take-take (suc n) zero xs h = absurd (omega (arith, h))
take-take (suc n) (suc m) [] h = refl
take-take (suc n) (suc m) (x ∷ xs) h = ap (λ ys. x ∷ ys) (take-take n m xs (omega (arith, h)))

take_nil : {A : Type 0} (n : ℕ) → [] ≡ take {A = A} n []
take_nil zero = refl
take_nil (suc n) = refl

module _ (𝓕 : Floats) {V : Type 0} (db : Db 𝓕.Float) (e : EmbeddingProvider V) (tenant : ℕ) where
  -- A reranker fails on some passages: it raises, or returns another number of scores.
  abbrev pub Fails : RerankerProvider 𝓕.Float → Text → List Text → Type 0
  Fails r query texts =
      ((x : Error) × (r.rerank query texts ≡ raises x))
      ⊎ ((scores : List 𝓕.Float) × (r.rerank query texts ≡ returns scores)
          × (length scores ≢ length texts))

  kept :
      (r : RerankerProvider 𝓕.Float) (query : Text) (hits : List (SearchHit 𝓕.Float))
      → Fails r query (map (λ h. h.text) hits)
      → rerank_hits 𝓕 r query hits ≡ hits
  unfolding rerank_hits
  kept r query hits (inl (x, p)) = rw (rerank_hits, p)
  kept r query hits (inr (scores, p, n)) =
      rw (rerank_hits, p)
        (elim (Bool-cases (length scores == length hits)) [
          | inl t ↦ absurd (
              n (
                eq_of_== (length scores) (length hits) t
                ∙ sym (length-map (λ (h : SearchHit 𝓕.Float). h.text) hits)))
          | inr t ↦ rw t
        ])

  module _ (s : RerankerSettings)
      (nearest : ℕ → V → ℕ → Option (List ℕ) → Result (List (ℕ × 𝓕.Float)))
      (r : RerankerProvider 𝓕.Float) (raw : Text) (limit : ℕ) (document_ids : Option (List ℕ))
      (fails : (texts : List Text) → Fails r (strip raw) texts) where
    unchanged : (hits : List (SearchHit 𝓕.Float)) → refine 𝓕 (some r) (strip raw) hits ≡ hits
    unchanged hits = elim (Bool-cases (is_empty hits)) [
      | inl t ↦ rw t
      | inr t ↦ rw t (kept r (strip raw) hits (fails (map (λ h. h.text) hits)))
    ]

    abbrev wide : ℕ
    wide = max limit (min (limit * s.reranker_candidate_multiplier) s.reranker_max_candidates)

    within : limit ≤ wide
    within = ground arith

    responses :
        (scored : List (ℕ × 𝓕.Float))
        → answered 𝓕 db e (some r) tenant (strip raw) limit scored
          ≡ take limit (answered 𝓕 db e none tenant (strip raw) wide scored)
    unfolding respond
    responses [] = take_nil limit
    responses (x ∷ scored) = ap (take limit) (unchanged hits) ∙ take-take limit wide hits within
      where
        hits : List (SearchHit 𝓕.Float)
        hits = sort_by (ranks_before 𝓕) (hits_of e tenant (x ∷ scored) db.documents db.chunks)

    abbrev shortened : List (SearchHit 𝓕.Float) → Result (List (SearchHit 𝓕.Float))
    shortened hits = returns (take limit hits)

    -- A reranker that fails on the query, whatever the passages, by raising or by a wrong number of scores, leaves
    -- the search with the first `limit` hits of the search without a reranker for the wider number of candidates; errors
    -- of the embedding and of the store are the same.
    pub search_fallback : search 𝓕 s nearest db e (some r) tenant raw limit document_ids ≡ (
        search 𝓕 s nearest db e none tenant raw
          (max limit (min (limit * s.reranker_candidate_multiplier) s.reranker_max_candidates))
          document_ids
        >>= λ hits. returns (take limit hits))
    unfolding search
    search_fallback = elim (Bool-cases (is_empty (strip raw))) [
      | inl t ↦ rw t (ap returns (take_nil limit))
      | inr t ↦ rw t (by_vectors (e.embed (strip raw ∷ [])))
    ]
      where
        by_scored :
            (m : Result (List (ℕ × 𝓕.Float)))
            → (m >>= λ scored. returns (answered 𝓕 db e (some r) tenant (strip raw) limit scored))
              ≡ ((m >>= λ scored. returns (answered 𝓕 db e none tenant (strip raw) wide scored))
                  >>= shortened)
        by_scored (raises problem) = refl
        by_scored (returns scored) = ap returns (responses scored)

        by_vectors :
            (m : Result (List V))
            → (m >>= search_by 𝓕 s nearest db e (some r) tenant (strip raw) limit document_ids) ≡ (
                (m >>= search_by 𝓕 s nearest db e none tenant (strip raw) wide document_ids)
                >>= shortened)
        by_vectors (raises problem) = refl
        by_vectors (returns []) = ap returns (take_nil limit)
        by_vectors (returns (v ∷ vs)) = by_scored (nearest tenant v wide document_ids)
