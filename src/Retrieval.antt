-- ===== src/Retrieval.antt =====
-- app/services/retrieval.py: semantic search over a tenant's chunks. The vector store's answer is the
-- parameter `nearest`: nothing that it returns is trusted.
pub mod Isolation
pub mod Ranking
pub mod Fallback
use document_intelligence_mv.Prelude.{
  ℕ, zero, suc, ◌*◌, ◌≡◌, Bool, true, false, not, ◌&&◌, Option, none, some, List, [], ◌∷◌, ◌++◌,
  map, max, min, Text, strip, is_empty, select, take, length, contains, sort_by, ◌==◌, nat_eq,
  text_eq, if◌then◌else◌,
}
use document_intelligence_mv.Errors.{Result, returns, raises, ◌>>=◌}
use document_intelligence_mv.Floats.{Floats}
use document_intelligence_mv.Models.{Document, Chunk, is_live_document}
use document_intelligence_mv.Database.{Db}
use document_intelligence_mv.Providers.{EmbeddingProvider, RerankerProvider, is_current_embedding}

pub record SearchHit (F : Type 0) : Type 0 where
  pub chunk_id : ℕ
  pub document_id : ℕ
  pub document_filename : Text
  pub source_id : Text
  pub text : Text
  pub score : F
  pub ordinal : ℕ
  pub page_number : Option ℕ
  pub section_title : Option Text
  pub source_metadata : Text

pub record RerankerSettings : Type 0 where
  pub reranker_candidate_multiplier : ℕ
  pub reranker_max_candidates : ℕ

-- `dict(scored)[key]`: the last entry of a key counts.
unfoldable pub last_score : {F : Type 0} → List (ℕ × F) → ℕ → Option F
last_score [] key = none
last_score ((k, s) ∷ scored) key = elim (last_score scored key) [
  | some later ↦ some later
  | none ↦ if k == key then some s else none
]

-- The hit of one joined row, if the chunk has a score and the document's vectors are current.
abbrev pub hit_of : {F : Type 0} → Chunk → Document → F → SearchHit F
hit_of c d score = record {
  chunk_id = c.id;
  document_id = c.document_id;
  document_filename = d.filename;
  source_id = c.source_id;
  text = c.text;
  score = score;
  ordinal = c.ordinal;
  page_number = c.page_number;
  section_title = c.section_title;
  source_metadata = c.source_metadata;
}

abbrev pub is_joined : ℕ → Chunk → Document → Bool
is_joined tenant c d = d.id == c.document_id && (c.tenant_id == tenant && is_live_document d)

module _ {F V : Type 0} where
  -- The rows of one chunk in the join, less those of another embedding space.
  unfoldable pub hits_of_chunk :
      EmbeddingProvider V → ℕ → List (ℕ × F) → Chunk → List Document → List (SearchHit F)
  unfolding last_score
  hits_of_chunk e tenant scored c [] = []
  hits_of_chunk e tenant scored c (d ∷ ds) =
      let rest = hits_of_chunk e tenant scored c ds in
      elim (last_score scored c.id) [
        | none ↦ rest
        | some score ↦
            if is_joined tenant c d && is_current_embedding d e
            then hit_of c d score ∷ rest
            else rest
      ]

  unfoldable pub hits_of :
      EmbeddingProvider V → ℕ → List (ℕ × F) → List Document → List Chunk → List (SearchHit F)
  unfolding hits_of_chunk
  hits_of e tenant scored documents [] = []
  hits_of e tenant scored documents (c ∷ cs) =
      hits_of_chunk e tenant scored c documents ++ hits_of e tenant scored documents cs

module _ {F : Type 0} where
  -- `replace(hit, score=score)` for each pair of the zip.
  unfoldable pub rescore : List (SearchHit F) → List F → List (SearchHit F)
  rescore [] scores = []
  rescore (h ∷ hits) [] = []
  rescore (h ∷ hits) (s ∷ scores) = record h { score = s } ∷ rescore hits scores

module _ (𝓕 : Floats) where
  open 𝓕 use {Float, le}

  -- `sort(key=score, reverse=True)` keeps equal scores in their order.
  abbrev pub ranks_before : SearchHit Float → SearchHit Float → Bool
  ranks_before a b = le b.score a.score

  -- `_rerank`: any failure gives the first ranking back.
  unfoldable pub rerank_hits :
      RerankerProvider Float → Text → List (SearchHit Float) → List (SearchHit Float)
  unfolding rescore
  rerank_hits r query hits = elim (r.rerank query (map (λ h. h.text) hits)) [
    | raises e ↦ hits
    | returns scores ↦
        if length scores == length hits then sort_by ranks_before (rescore hits scores) else hits
  ]

  abbrev pub refine :
      Option (RerankerProvider Float) → Text → List (SearchHit Float) → List (SearchHit Float)
  refine none query hits = hits
  refine (some r) query hits = if is_empty hits then hits else rerank_hits r query hits

  abbrev pub fetch_limit : RerankerSettings → Option (RerankerProvider Float) → ℕ → ℕ
  fetch_limit s none limit = limit
  fetch_limit s (some r) limit =
      max limit (min (limit * s.reranker_candidate_multiplier) s.reranker_max_candidates)

module _ (𝓕 : Floats) {V : Type 0} where
  open 𝓕 use {Float}

  -- From the store's answer to the response.
  unfoldable pub respond :
      Db Float
      → EmbeddingProvider V
      → Option (RerankerProvider Float)
      → ℕ
      → Text
      → ℕ
      → List (ℕ × Float)
      → List (SearchHit Float)
  unfolding hits_of rerank_hits
  respond db e r tenant query limit scored =
      take limit (
        refine 𝓕 r query
          (sort_by (ranks_before 𝓕) (hits_of e tenant scored db.documents db.chunks)))

  -- The response for a list of scored ids.
  abbrev pub answered :
      Db Float
      → EmbeddingProvider V
      → Option (RerankerProvider Float)
      → ℕ
      → Text
      → ℕ
      → List (ℕ × Float)
      → List (SearchHit Float)
  answered db e r tenant query limit scored =
      if is_empty scored then [] else respond db e r tenant query limit scored

  abbrev pub search_by :
      RerankerSettings
      → (ℕ → V → ℕ → Option (List ℕ) → Result (List (ℕ × Float)))
      → Db Float
      → EmbeddingProvider V
      → Option (RerankerProvider Float)
      → ℕ
      → Text
      → ℕ
      → Option (List ℕ)
      → List V
      → Result (List (SearchHit Float))
  search_by s nearest db e r tenant query limit document_ids [] = returns []
  search_by s nearest db e r tenant query limit document_ids (v ∷ vs) = do
    scored ← nearest tenant v (fetch_limit 𝓕 s r limit) document_ids
    returns (answered db e r tenant query limit scored)

  unfoldable pub search :
      RerankerSettings
      → (ℕ → V → ℕ → Option (List ℕ) → Result (List (ℕ × Float)))
      → Db Float
      → EmbeddingProvider V
      → Option (RerankerProvider Float)
      → ℕ
      → Text
      → ℕ
      → Option (List ℕ)
      → Result (List (SearchHit Float))
  search s nearest db e r tenant raw limit document_ids =
      let query = strip raw in
      if is_empty query then returns [] else (do
        vectors ← e.embed (query ∷ [])
        search_by s nearest db e r tenant query limit document_ids vectors)
