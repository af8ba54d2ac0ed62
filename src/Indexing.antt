-- ===== src/Indexing.antt =====
-- app/services/indexing.py: a document's chunks as vectors in the index.
use document_intelligence_mv.Prelude.{
  ℕ, not, some, List, [], ◌∷◌, map, Text, length, ◌==◌, nat_eq, text_eq,
}
use document_intelligence_mv.Errors.{Result, raises, returns, indexing_error}
use document_intelligence_mv.Models.{Document, Chunk}
use document_intelligence_mv.Providers.{EmbeddingProvider}
use document_intelligence_mv.VectorStore.{Client, ensure_collection, delete_document, upsert_chunks}
use document_intelligence_mv.Actions.{Action, pure, raise, or_raise, stop_if, ◌>>=◌, ◌>>◌}
use document_intelligence_mv.Ingestion.{get_document, list_chunks}
use document_intelligence_mv.World.{World, on_index, query, assign}

pub record IndexingOutcome (F : Type 0) : Type 0 where
  pub document_id : ℕ
  pub indexed : ℕ
  pub chunk_vectors : List (List F)

-- `_record_provider`
abbrev pub with_provider : {V : Type 0} → EmbeddingProvider V → Document → Document
with_provider e d = record d {
  embedding_provider = some e.provider;
  embedding_model = some e.model;
  embedding_version = some e.version;
  embedding_dimensions = some e.dimensions;
}

-- `zip(chunks, vectors, strict=True)`, of lists of one length
abbrev pub points_of : {F : Type 0} → List Chunk → List (List F) → List (ℕ × List F × Text)
points_of [] vectors = []
points_of (c ∷ cs) [] = []
points_of (c ∷ cs) (v ∷ vs) = (c.id, v, c.source_id) ∷ points_of cs vs

module _ {O S F : Type 0} where
  -- The provider's failure, under this module's name.
  abbrev pub embedded : Result (List (List F)) → Action (World O S F) (List (List F))
  embedded (raises e) = raise indexing_error
  embedded (returns vectors) = pure vectors

  module _ (client : Client S F) (collection : Text) (e : EmbeddingProvider (List F)) where
    -- The embedding of some chunks, and their points.
    abbrev pub index_vectors :
        ℕ → ℕ → List Chunk → List (List F) → Action (World O S F) (IndexingOutcome F)
    index_vectors tenant document chunks vectors = do
      stop_if (not (length vectors == length chunks)) indexing_error
      indexed ←
          on_index (upsert_chunks client collection tenant document (points_of chunks vectors))
      assign document (with_provider e)
      pure (record { document_id = document; indexed = indexed; chunk_vectors = vectors })

    abbrev pub index_chunks : ℕ → ℕ → List Chunk → Action (World O S F) (IndexingOutcome F)
    index_chunks tenant document [] = do
      on_index (delete_document client collection tenant document)
      assign document (with_provider e)
      pure (record { document_id = document; indexed = 0; chunk_vectors = [] })
    index_chunks tenant document (c ∷ cs) =
        embedded (e.embed (map (λ (x : Chunk). x.text) (c ∷ cs)))
        >>= index_vectors tenant document (c ∷ cs)

    -- From the document that was found on.
    abbrev pub index_found : ℕ → ℕ → Document → Action (World O S F) (IndexingOutcome F)
    index_found tenant document d = do
      chunks ← query (λ db. list_chunks db tenant document)
      on_index (ensure_collection client collection e.dimensions)
      index_chunks tenant document chunks

    unfoldable pub index_document : ℕ → ℕ → Action (World O S F) (IndexingOutcome F)
    index_document tenant document = do
      found ← query (λ db. get_document db tenant document)
      d ← or_raise found indexing_error
      index_found tenant document d
