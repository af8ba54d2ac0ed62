-- ===== src/Retrieval/Isolation.antt =====
-- `search` of app/services/retrieval.py: which rows it shows.
use document_intelligence_mv.Prelude.{
  ℕ, ◌≤◌, ◌≡◌, refl, ap, true, ◌&&◌, Option, none, some, List, [], ◌∷◌, Text, strip, is_empty,
  length, length-take-le, sort_by, sort_by-All, All, All-append, All-take, In, Bool-cases,
  Option-cases, inl, inr, arith, ◌==◌, nat_eq, map,
}
use document_intelligence_mv.Errors.{Result, returns, raises, >>=-returns}
use document_intelligence_mv.Floats.{Floats}
use document_intelligence_mv.Models.{Document, Chunk}
use document_intelligence_mv.Database.{Db}
use document_intelligence_mv.Providers.{EmbeddingProvider, RerankerProvider, is_current_embedding}
use document_intelligence_mv.Retrieval.{
  SearchHit, RerankerSettings, hit_of, is_joined, last_score, hits_of_chunk, hits_of, rescore,
  rerank_hits, refine, ranks_before, respond, search, fetch_limit, search_by, answered,
}

-- A hit is a chunk of the tenant, with its own text and provenance, of a document that is live and
-- whose vectors are of the provider's space.
pub record Shows {F V : Type 0} (db : Db F) (e : EmbeddingProvider V) (tenant : ℕ) (h : SearchHit F)
    : Type 0 where
  pub chunk : Chunk
  pub document : Document
  pub chunk_stored : In chunk db.chunks
  pub document_stored : In document db.documents
  pub of_tenant : chunk.tenant_id ≡ tenant
  pub of_document : document.id ≡ chunk.document_id
  pub live : document.deleted_at ≡ none
  pub current : is_current_embedding document e ≡ true
  pub same : h ≡ hit_of chunk document h.score

module _ {F V : Type 0} (db : Db F) (e : EmbeddingProvider V) (tenant : ℕ) where
  hits_of_chunk-Shows :
      (scored : List (ℕ × F)) (c : Chunk)
      → In c db.chunks
      → (ds : List Document) → ((d : Document) → In d ds → In d db.documents)
      → All (Shows db e tenant) (hits_of_chunk e tenant scored c ds)
  unfolding hits_of_chunk
  hits_of_chunk-Shows scored c i [] sub = tt
  hits_of_chunk-Shows scored c i (d ∷ ds) sub = elim (Option-cases (last_score scored c.id)) [
    | inl n ↦ rw (n, hits_of_chunk) (hits_of_chunk-Shows scored c i ds (λ x k. sub x (inr k)))
    | inr (s, n) ↦ elim (Bool-cases (is_joined tenant c d && is_current_embedding d e)) [
      | inl t ↦
          rw (n, hits_of_chunk, t)
            (shown s t, hits_of_chunk-Shows scored c i ds (λ x k. sub x (inr k)))
      | inr t ↦ rw (n, hits_of_chunk, t) (hits_of_chunk-Shows scored c i ds (λ x k. sub x (inr k)))
    ]
  ]
    where
      shown :
          (s : F)
          → (is_joined tenant c d && is_current_embedding d e) ≡ true
          → Shows db e tenant (hit_of c d s)
      shown s t = record {
        chunk = c;
        document = d;
        chunk_stored = i;
        document_stored = sub d (inl refl);
        of_tenant = ground arith;
        of_document = ground arith;
        live = ground arith;
        current = ground arith;
        same = refl;
      }

  hits_of-Shows :
      (scored : List (ℕ × F)) (cs : List Chunk)
      → ((c : Chunk) → In c cs → In c db.chunks)
      → All (Shows db e tenant) (hits_of e tenant scored db.documents cs)
  unfolding hits_of
  hits_of-Shows scored [] sub = tt
  hits_of-Shows scored (c ∷ cs) sub =
      All-append (Shows db e tenant) (hits_of_chunk e tenant scored c db.documents)
        (hits_of e tenant scored db.documents cs)
        (hits_of_chunk-Shows scored c (sub c (inl refl)) db.documents (λ d k. k))
        (hits_of-Shows scored cs (λ x k. sub x (inr k)))

  rescore-Shows :
      (hits : List (SearchHit F)) (scores : List F)
      → All (Shows db e tenant) hits
      → All (Shows db e tenant) (rescore hits scores)
  unfolding rescore
  rescore-Shows [] scores a = tt
  rescore-Shows (h ∷ hits) [] a = tt
  rescore-Shows (h ∷ hits) (s ∷ scores) (v, a) = (
    record {
      chunk = v.chunk;
      document = v.document;
      chunk_stored = v.chunk_stored;
      document_stored = v.document_stored;
      of_tenant = v.of_tenant;
      of_document = v.of_document;
      live = v.live;
      current = v.current;
      same = ap (λ (x : SearchHit F). record x { score = s }) v.same;
    },
    rescore-Shows hits scores a,
  )

module _ (𝓕 : Floats) {V : Type 0} (db : Db 𝓕.Float) (e : EmbeddingProvider V) (tenant : ℕ) where
  rerank_hits-Shows :
      (r : RerankerProvider 𝓕.Float) (query : Text) (hits : List (SearchHit 𝓕.Float))
      → All (Shows db e tenant) hits
      → All (Shows db e tenant) (rerank_hits 𝓕 r query hits)
  unfolding rerank_hits
  rerank_hits-Shows r query hits a = by_answer (r.rerank query (map (λ h. h.text) hits)) refl
    where
      by_answer :
          (o : Result (List 𝓕.Float))
          → r.rerank query (map (λ h. h.text) hits) ≡ o
          → All (Shows db e tenant) (rerank_hits 𝓕 r query hits)
      by_answer (raises x) p = rw (p, rerank_hits) a
      by_answer (returns scores) p = elim (Bool-cases (length scores == length hits)) [
        | inl t ↦
            rw (p, rerank_hits, t)
              (sort_by-All (ranks_before 𝓕) (Shows db e tenant) (rescore hits scores)
                (rescore-Shows db e tenant hits scores a))
        | inr t ↦ rw (p, rerank_hits, t) a
      ]

  refine-Shows :
      (r : Option (RerankerProvider 𝓕.Float)) (query : Text) (hits : List (SearchHit 𝓕.Float))
      → All (Shows db e tenant) hits
      → All (Shows db e tenant) (refine 𝓕 r query hits)
  refine-Shows none query hits a = a
  refine-Shows (some r) query hits a = elim (Bool-cases (is_empty hits)) [
    | inl t ↦ rw t a
    | inr t ↦ rw t (rerank_hits-Shows r query hits a)
  ]

  respond-Shows :
      (r : Option (RerankerProvider 𝓕.Float)) (query : Text) (limit : ℕ)
      (scored : List (ℕ × 𝓕.Float))
      → All (Shows db e tenant) (respond 𝓕 db e r tenant query limit scored)
        × (length (respond 𝓕 db e r tenant query limit scored) ≤ limit)
  unfolding respond
  respond-Shows r query limit scored =
      let ranked = sort_by (ranks_before 𝓕) (hits_of e tenant scored db.documents db.chunks) in
      (
        All-take (Shows db e tenant) limit (refine 𝓕 r query ranked) (
            refine-Shows r query ranked (
              sort_by-All (ranks_before 𝓕) (Shows db e tenant)
                (hits_of e tenant scored db.documents db.chunks)
                (hits_of-Shows db e tenant scored db.chunks (λ c k. k)))),
        length-take-le limit (refine 𝓕 r query ranked),
      )

  -- Every hit of a search is a stored chunk of the caller's tenant, with its own text and provenance, of a
  -- live document whose vectors are current, and there are at most `limit`, whatever the vector store,
  -- the embedding provider and the reranker answer.
  pub search-Shows :
      (s : RerankerSettings) (nearest : ℕ → V → ℕ → Option (List ℕ) → Result (List (ℕ × 𝓕.Float)))
      (r : Option (RerankerProvider 𝓕.Float)) (raw : Text) (limit : ℕ)
      (document_ids : Option (List ℕ)) (hits : List (SearchHit 𝓕.Float))
      → search 𝓕 s nearest db e r tenant raw limit document_ids ≡ returns hits
      → All (Shows db e tenant) hits × (length hits ≤ limit)
  unfolding search
  search-Shows s nearest r raw limit document_ids hits h =
      elim (Bool-cases (is_empty (strip raw))) [
        | inl t ↦ rw (← answer-nil (rw t at h)) (tt, omega arith)
        | inr t ↦
            let (vs, p, k) =
              >>=-returns (e.embed (strip raw ∷ []))
                (search_by 𝓕 s nearest db e r tenant (strip raw) limit document_ids) hits
                (rw t at h) in
            by_vectors vs k
      ]
    where
      answer-nil :
          ◌≡◌ {A = Result (List (SearchHit 𝓕.Float))} (returns []) (returns hits) → [] ≡ hits
      answer-nil p = cc

      by_vectors :
          (vs : List V)
          → search_by 𝓕 s nearest db e r tenant (strip raw) limit document_ids vs ≡ returns hits
          → All (Shows db e tenant) hits × (length hits ≤ limit)
      by_vectors [] k = rw (← answer-nil k) (tt, omega arith)
      by_vectors (v ∷ vs) k =
          let (scored, p, q) =
            >>=-returns (nearest tenant v (fetch_limit 𝓕 s r limit) document_ids)
              (λ scored. returns (answered 𝓕 db e r tenant (strip raw) limit scored)) hits k in
          shown scored (cc q)
        where
          shown :
              (scored : List (ℕ × 𝓕.Float))
              → answered 𝓕 db e r tenant (strip raw) limit scored ≡ hits
              → All (Shows db e tenant) hits × (length hits ≤ limit)
          shown [] q = rw (← q) (tt, omega arith)
          shown (x ∷ xs) q = rw (← q) (respond-Shows r (strip raw) limit (x ∷ xs))
