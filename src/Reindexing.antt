-- ===== src/Reindexing.antt =====
-- app/services/reindexing.py: the vectors of stored chunks are computed again, for one document or for a
-- tenant's. The mean of the chunk vectors (`combine`) is a parameter.
pub mod Current
pub mod Worklist
pub mod Counting
use document_intelligence_mv.Prelude.{
  ℕ, ◌+◌, Bool, true, false, not, ◌&&◌, Option, none, some, List, [], ◌∷◌, ◌++◌, Text, first,
  select, length, sort_by, leb, ◌==◌, nat_eq, if◌then◌else◌,
}
use document_intelligence_mv.Errors.{
  Error, Result, raises, returns, indexing_error, vector_store_error, reindex_error,
  reindex_not_found, no_stored_chunks,
}
use document_intelligence_mv.Models.{Document, DocumentStatus, document_status_eq, is_live_document}
use document_intelligence_mv.Floats.{Floats}
use document_intelligence_mv.Providers.{EmbeddingProvider, is_current_embedding}
use document_intelligence_mv.VectorStore.{Client, ensure_collection, delete_document, upsert_vector}
use document_intelligence_mv.Actions.{
  Action, pure, raise, or_raise, from_result, attempt, stop_if, ◌>>=◌, ◌>>◌,
}
use document_intelligence_mv.Indexing.{IndexingOutcome, index_document}
use document_intelligence_mv.World.{World, on_index, query}

pub record ReindexOutcome : Type 0 where
  pub document_id : ℕ
  pub indexed : ℕ
  pub stale_before : Bool

pub record TenantReindexOutcome : Type 0 where
  pub tenant_id : ℕ
  pub reindexed : ℕ
  pub skipped : ℕ
  pub failed : ℕ
  pub documents : List ReindexOutcome

abbrev pub is_live_of : ℕ → ℕ → Document → Bool
is_live_of tenant document d = d.id == document && (d.tenant_id == tenant && is_live_document d)

abbrev pub is_ready_of : ℕ → Document → Bool
is_ready_of tenant d =
    d.tenant_id == tenant && (is_live_document d && d.status == DocumentStatus.ready)

-- What the loop over a tenant's documents has counted.
pub record Tally : Type 0 where
  pub results : List ReindexOutcome
  pub skipped : ℕ
  pub failed : ℕ

-- The `except` clauses of the loop.
pub data Fate : Type 0 where
  skips ends fails : Fate

abbrev pub fate_of : Error → Fate
fate_of no_stored_chunks = skips
fate_of vector_store_error = ends
fate_of e = fails

abbrev pub counted_as : Tally → Error → Fate → Result Tally
counted_as t e skips = returns (record t { skipped = t.skipped + 1 })
counted_as t e ends = raises e
counted_as t e fails = returns (record t { failed = t.failed + 1 })

-- The counts after one document, or the exception that ends the loop.
abbrev pub counted : Tally → Result ReindexOutcome → Result Tally
counted t (returns o) = returns (record t { results = t.results ++ (o ∷ []) })
counted t (raises e) = counted_as t e (fate_of e)

abbrev pub ready_documents : ℕ → List Document → List Document
ready_documents tenant documents =
    sort_by (λ a b. leb a.created_at b.created_at) (select (is_ready_of tenant) documents)

abbrev pub outcome_of : ℕ → Tally → TenantReindexOutcome
outcome_of tenant t = record {
  tenant_id = tenant;
  reindexed = length t.results;
  skipped = t.skipped;
  failed = t.failed;
  documents = t.results;
}

abbrev pub nothing_counted : Tally
nothing_counted = record { results = []; skipped = 0; failed = 0 }

-- `except IndexingError … raise ReindexError`
abbrev pub renamed : Error → Error
renamed indexing_error = reindex_error
renamed e = e

module _ (𝓕 : Floats) {O S : Type 0} (client : Client S 𝓕.Float)
    (e : EmbeddingProvider (List 𝓕.Float)) (vector_store : Text) (document_vectors : Option Text)
    (combine : List (List 𝓕.Float) → Result (Option (List 𝓕.Float))) where
  open 𝓕 use {Float}

  abbrev pub ensure_vectors : Option Text → Action (World O S Float) (Unit {0})
  ensure_vectors none = pure tt
  ensure_vectors (some collection) =
      on_index (ensure_collection client collection e.dimensions) >> pure tt

  abbrev pub as_reindex_error : {A : Type 0} → Error → Action (World O S Float) A
  as_reindex_error problem = raise (renamed problem)

  abbrev pub keep_vector : ℕ → ℕ → Text → Option (List Float) → Action (World O S Float) (Unit {0})
  keep_vector tenant document collection none =
      on_index (delete_document client collection tenant document)
  keep_vector tenant document collection (some v) =
      on_index (upsert_vector 𝓕 client collection tenant document v)

  abbrev pub rewrite_vector :
      ℕ → ℕ → List (List Float) → Option Text → Action (World O S Float) (Unit {0})
  rewrite_vector tenant document vectors none = pure tt
  rewrite_vector tenant document vectors (some collection) = do
    on_index (ensure_collection client collection e.dimensions)
    from_result (combine vectors) >>= keep_vector tenant document collection

  -- From the document that was found on.
  abbrev pub reindex_found : ℕ → ℕ → Document → Action (World O S Float) ReindexOutcome
  reindex_found tenant document d = do
    ensure_vectors document_vectors
    outcome ← attempt (index_document client vector_store e tenant document) as_reindex_error
    stop_if (outcome.indexed == 0) no_stored_chunks
    rewrite_vector tenant document outcome.chunk_vectors document_vectors
    pure (record {
      document_id = document;
      indexed = outcome.indexed;
      stale_before = not (is_current_embedding d e);
    })

  unfoldable pub reindex_document : ℕ → ℕ → Action (World O S Float) ReindexOutcome
  unfolding is_current_embedding
  reindex_document tenant document = do
    found ← query (λ db. first (select (is_live_of tenant document) db.documents))
    d ← or_raise found reindex_not_found
    reindex_found tenant document d

  abbrev recounted :
      Tally → World O S Float × Result ReindexOutcome → World O S Float × Result Tally
  recounted t (w, r) = (w, counted t r)

  -- One turn of the loop.
  unfoldable pub count_one : ℕ → Tally → Document → Action (World O S Float) Tally
  count_one tenant t d w = recounted t (reindex_document tenant d.id w)

  unfoldable pub count_all : ℕ → Tally → List Document → Action (World O S Float) Tally
  unfolding count_one
  count_all tenant t [] = pure t
  count_all tenant t (d ∷ ds) = count_one tenant t d >>= λ u. count_all tenant u ds

  unfoldable pub reindex_tenant : ℕ → Action (World O S Float) TenantReindexOutcome
  unfolding count_all
  reindex_tenant tenant = do
    documents ← query (λ db. ready_documents tenant db.documents)
    t ← count_all tenant nothing_counted documents
    pure (outcome_of tenant t)
