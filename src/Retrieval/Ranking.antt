-- ===== src/Retrieval/Ranking.antt =====
-- `search` and `_rerank` of app/services/retrieval.py: the order of a response.
use document_intelligence_mv.Prelude.{
  ℕ, ◌≡◌, refl, true, Option, none, some, List, [], ◌∷◌, Text, take, length, sort_by,
  sort_by-Sorted, Sorted, All-take, Bool-cases, inl, inr, ◌==◌, nat_eq, map, is_empty, zero, suc,
}
use document_intelligence_mv.Errors.{Result, returns, raises}
use document_intelligence_mv.Floats.{Floats, IsOrdered}
use document_intelligence_mv.Database.{Db}
use document_intelligence_mv.Providers.{EmbeddingProvider, RerankerProvider}
use document_intelligence_mv.Retrieval.{
  SearchHit, hits_of, rescore, rerank_hits, refine, ranks_before, respond,
}

module _ (𝓕 : Floats) {V : Type 0} (db : Db 𝓕.Float) (e : EmbeddingProvider V) (tenant : ℕ) where
  Sorted-take :
      (n : ℕ) (hits : List (SearchHit 𝓕.Float))
      → Sorted (ranks_before 𝓕) hits
      → Sorted (ranks_before 𝓕) (take n hits)
  Sorted-take zero hits s = tt
  Sorted-take (suc n) [] s = tt
  Sorted-take (suc n) (h ∷ hits) (a, s) =
      (All-take (λ y. ranks_before 𝓕 h y ≡ true) n hits a, Sorted-take n hits s)

  rerank_hits-Sorted :
      IsOrdered 𝓕
      → (r : RerankerProvider 𝓕.Float) (query : Text) (hits : List (SearchHit 𝓕.Float))
      → Sorted (ranks_before 𝓕) hits
      → Sorted (ranks_before 𝓕) (rerank_hits 𝓕 r query hits)
  unfolding rerank_hits
  rerank_hits-Sorted o r query hits s = by_answer (r.rerank query (map (λ h. h.text) hits)) refl
    where
      by_answer :
          (a : Result (List 𝓕.Float))
          → r.rerank query (map (λ h. h.text) hits) ≡ a
          → Sorted (ranks_before 𝓕) (rerank_hits 𝓕 r query hits)
      by_answer (raises x) p = rw (p, rerank_hits) s
      by_answer (returns scores) p = elim (Bool-cases (length scores == length hits)) [
        | inl t ↦ rw (p, rerank_hits, t) (in_order (rescore hits scores))
        | inr t ↦ rw (p, rerank_hits, t) s
      ]
        where
          in_order :
              (xs : List (SearchHit 𝓕.Float))
              → Sorted (ranks_before 𝓕) (sort_by (ranks_before 𝓕) xs)
          in_order xs =
              sort_by-Sorted (ranks_before 𝓕) (λ a b h. o.total b.score a.score h)
                (λ a b c h k. o.trans c.score b.score a.score k h) xs

  -- The hits of a response stand in the order of their scores, the greatest first, with a reranker or
  -- without one, if scores are ordered.
  pub respond-Sorted :
      IsOrdered 𝓕
      → (r : Option (RerankerProvider 𝓕.Float)) (query : Text) (limit : ℕ)
        (scored : List (ℕ × 𝓕.Float))
      → Sorted (ranks_before 𝓕) (respond 𝓕 db e r tenant query limit scored)
  unfolding respond
  respond-Sorted o r query limit scored = Sorted-take limit _ (refined r)
    where
      ranked :
          Sorted
            (ranks_before 𝓕)
            (sort_by (ranks_before 𝓕) (hits_of e tenant scored db.documents db.chunks))
      ranked =
          sort_by-Sorted (ranks_before 𝓕) (λ a b h. o.total b.score a.score h)
            (λ a b c h k. o.trans c.score b.score a.score k h)
            (hits_of e tenant scored db.documents db.chunks)

      refined :
          (q : Option (RerankerProvider 𝓕.Float))
          → Sorted (ranks_before 𝓕) (
              refine 𝓕 q query
                (sort_by (ranks_before 𝓕) (hits_of e tenant scored db.documents db.chunks)))
      refined none = ranked
      refined (some q) =
          elim (Bool-cases (
            is_empty (sort_by (ranks_before 𝓕) (hits_of e tenant scored db.documents db.chunks)))) [
              | inl t ↦ rw t ranked
              | inr t ↦ rw t (rerank_hits-Sorted o q query _ ranked)
            ]
