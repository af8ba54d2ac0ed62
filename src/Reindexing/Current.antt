-- ===== src/Reindexing/Current.antt =====
-- `reindex_document` of app/services/reindexing.py: the identity of the embedding that the document's row tells.
use document_intelligence_mv.Prelude.{
  ℕ, ◌≡◌, refl, ap, subst, true, not, Option, none, some, List, [], ◌∷◌, Text, map, length, first,
  select, update_where, In, In-select, All-of-In, first-All, ◌≤◌, In-update_where_intro, ◌==◌,
  nat_eq, text_eq, option_eq, arith, if◌then◌else◌,
}
use document_intelligence_mv.Errors.{
  Result, raises, returns, indexing_error, no_stored_chunks, reindex_not_found,
}
use document_intelligence_mv.Models.{Document, Chunk}
use document_intelligence_mv.Floats.{Floats}
use document_intelligence_mv.Database.{Db}
use document_intelligence_mv.Providers.{EmbeddingProvider, is_current_embedding}
use document_intelligence_mv.VectorStore.{Client, upsert_chunks, delete_document, ensure_collection}
use document_intelligence_mv.Actions.{
  bind-returns, pure-returns, stop_if-returns, attempt-renamed, or_raise, ◌>>=◌,
}
use document_intelligence_mv.Indexing.{
  IndexingOutcome, with_provider, points_of, embedded, index_vectors, index_chunks, index_document,
}
use document_intelligence_mv.Ingestion.{get_document, list_chunks}
use document_intelligence_mv.World.{
  World, assign, Keeps, Keeps-bind, Keeps-pure, Keeps-on_index, Keeps-from_result, Keeps-stop_if,
  Keeps-raise, Keeps-query, Keeps-or_raise,
}
use document_intelligence_mv.Processing.Holding.{IsSameDocument}
use document_intelligence_mv.Reindexing.{
  ReindexOutcome, is_live_of, ensure_vectors, renamed, keep_vector, rewrite_vector, reindex_found,
  reindex_document,
}

-- A row of the document, live if the document is, whose vectors were made by the provider.
abbrev pub IsCurrent : {F V : Type 0} → EmbeddingProvider V → Document → Db F → Type 0
IsCurrent e d db =
    (x : Document) × In x db.documents × IsSameDocument d x × (is_current_embedding x e ≡ true)

provider_current :
    {V : Type 0} (e : EmbeddingProvider V) (x : Document)
    → is_current_embedding (with_provider e x) e ≡ true
unfolding is_current_embedding
provider_current e x = ground arith

abbrev IsHeld : {F : Type 0} → Document → Db F → Type 0
IsHeld d db = (x : Document) × In x db.documents × IsSameDocument d x

module _ {O S F : Type 0} (client : Client S F) (collection : Text) (e : EmbeddingProvider (List F))
    (d : Document) where
  assign-IsCurrent :
      (w w' : World O S F)
      → IsHeld d w.db
      → assign d.id (with_provider e) w ≡ (w', returns tt)
      → IsCurrent e d w'.db
  assign-IsCurrent w w' (x, i, same) h =
      let own : (x.id == d.id) ≡ true = ground arith in
      let kept : (if x.id == d.id then with_provider e x else x) ≡ with_provider e x =
        rw own refl in
      (
        with_provider e x,
        subst (λ (db : Db F). In (with_provider e x) db.documents) (ap (λ z. z.0.db) h)
            (subst (λ y. In y (update_where (λ y. y.id == d.id) (with_provider e) w.db.documents))
              kept
              (In-update_where_intro (λ y. y.id == d.id) (with_provider e) w.db.documents x i)),
        same,
        provider_current e x,
      )

  index_vectors-IsCurrent :
      (tenant : ℕ) (chunks : List Chunk) (vectors : List (List F)) (w w' : World O S F)
      (o : IndexingOutcome F)
      → IsHeld d w.db
      → index_vectors client collection e tenant d.id chunks vectors w ≡ (w', returns o)
      → IsCurrent e d w'.db
  index_vectors-IsCurrent tenant chunks vectors w w' o held h =
      let (_, w1, p1, h1) = bind-returns _ _ w w' o h in
      let (n, w2, p2, h2) = bind-returns _ _ w1 w' o h1 in
      let (_, w3, p3, h3) = bind-returns _ _ w2 w' o h2 in
      let held1 =
        Keeps-stop_if (IsHeld d) (not (length vectors == length chunks)) indexing_error w w1 tt p1
          held in
      let held2 =
        Keeps-on_index (IsHeld d)
          (upsert_chunks client collection tenant d.id (points_of chunks vectors)) w1 w2 n p2
          held1 in
      subst (IsCurrent e d) (ap (λ z. z.0.db) h3) (assign-IsCurrent w2 w3 held2 p3)

  index_chunks-IsCurrent :
      (tenant : ℕ) (chunks : List Chunk) (w w' : World O S F) (o : IndexingOutcome F)
      → IsHeld d w.db
      → index_chunks client collection e tenant d.id chunks w ≡ (w', returns o)
      → IsCurrent e d w'.db
  index_chunks-IsCurrent tenant [] w w' o held h =
      let (_, w1, p1, h1) = bind-returns _ _ w w' o h in
      let (_, w2, p2, h2) = bind-returns _ _ w1 w' o h1 in
      let held1 =
        Keeps-on_index (IsHeld d) (delete_document client collection tenant d.id) w w1 tt p1 held in
      subst (IsCurrent e d) (ap (λ z. z.0.db) h2) (assign-IsCurrent w1 w2 held1 p2)
  index_chunks-IsCurrent tenant (c ∷ cs) w w' o held h =
      let (vectors, w1, p1, h1) = bind-returns _ _ w w' o h in
      index_vectors-IsCurrent tenant (c ∷ cs) vectors w1 w' o
        (embedded-Keeps (e.embed (map (λ (x : Chunk). x.text) (c ∷ cs))) w w1 vectors p1 held) h1
    where
      embedded-Keeps : (r : Result (List (List F))) → Keeps {O = O} {S = S} (IsHeld d) (embedded r)
      embedded-Keeps (raises problem) = Keeps-raise (IsHeld d) indexing_error
      embedded-Keeps (returns vectors) = Keeps-pure (IsHeld d) vectors

  -- A document that was held is held as current once its chunks are indexed.
  pub index_document-IsCurrent :
      (tenant : ℕ) (w w' : World O S F) (o : IndexingOutcome F)
      → IsHeld d w.db
      → index_document client collection e tenant d.id w ≡ (w', returns o)
      → IsCurrent e d w'.db
  unfolding index_document
  index_document-IsCurrent tenant w w' o held h =
      let (found, w1, p1, h1) = bind-returns _ _ w w' o h in
      let (x, w2, p2, h2) = bind-returns _ _ w1 w' o h1 in
      let (chunks, w3, p3, h3) = bind-returns _ _ w2 w' o h2 in
      let (_, w4, p4, h4) = bind-returns _ _ w3 w' o h3 in
      let held1 = Keeps-query (IsHeld d) (λ db. get_document db tenant d.id) w w1 found p1 held in
      let held2 = Keeps-or_raise (IsHeld d) found indexing_error w1 w2 x p2 held1 in
      let held3 = Keeps-query (IsHeld d) (λ db. list_chunks db tenant d.id) w2 w3 chunks p3 held2 in
      let held4 =
        Keeps-on_index (IsHeld d) (ensure_collection client collection e.dimensions) w3 w4 _ p4
          held3 in
      index_chunks-IsCurrent tenant chunks w4 w' o held4 h4

module _ (𝓕 : Floats) {O S : Type 0} (client : Client S 𝓕.Float)
    (e : EmbeddingProvider (List 𝓕.Float)) (vector_store : Text) (document_vectors : Option Text)
    (combine : List (List 𝓕.Float) → Result (Option (List 𝓕.Float))) where
  open 𝓕 use {Float}

  module _ (I : Db Float → Type 0) where
    ensure_vectors-Keeps :
        (vectors : Option Text)
        → Keeps {O = O} I (ensure_vectors 𝓕 client e vector_store document_vectors combine vectors)
    ensure_vectors-Keeps none = Keeps-pure I tt
    ensure_vectors-Keeps (some c) = Keeps-bind I _ _ (Keeps-on_index I _) (λ _. Keeps-pure I tt)

    rewrite_vector-Keeps :
        (tenant document : ℕ) (chunk_vectors : List (List Float)) (vectors : Option Text)
        → Keeps {O = O} I (
            rewrite_vector 𝓕 client e vector_store document_vectors combine tenant document
              chunk_vectors vectors)
    rewrite_vector-Keeps tenant document chunk_vectors none = Keeps-pure I tt
    rewrite_vector-Keeps tenant document chunk_vectors (some c) =
        Keeps-bind I _ _ (Keeps-on_index I _)
          (λ _. Keeps-bind I _ _ (Keeps-from_result I (combine chunk_vectors)) kept)
      where
        kept :
            (v : Option (List Float))
            → Keeps {O = O} I
                (keep_vector 𝓕 client e vector_store document_vectors combine tenant document c v)
        kept none = Keeps-on_index I _
        kept (some v) = Keeps-on_index I _

  reindex_found-IsCurrent :
      (tenant : ℕ) (d : Document) (w w' : World O S Float) (o : ReindexOutcome)
      → In d w.db.documents
      → reindex_found 𝓕 client e vector_store document_vectors combine tenant d.id d w
        ≡ (w', returns o)
      → IsCurrent e d w'.db × (1 ≤ o.indexed)
  reindex_found-IsCurrent tenant d w w' o i h =
      let (_, w1, p1, h1) = bind-returns _ _ w w' o h in
      let (x, w2, p2, h2) = bind-returns _ _ w1 w' o h1 in
      let (_, w3, p3, h3) = bind-returns _ _ w2 w' o h2 in
      let (_, w4, p4, h4) = bind-returns _ _ w3 w' o h3 in
      let held =
        ensure_vectors-Keeps (IsHeld d) document_vectors w w1 tt p1 (d, i, (refl, refl, refl)) in
      let current =
        index_document-IsCurrent client vector_store e d tenant w1 w2 x held
          (attempt-renamed (index_document client vector_store e tenant d.id) renamed w1 w2 x p2) in
      let (_, some_indexed) = stop_if-returns (x.indexed == 0) no_stored_chunks w2 w3 tt p3 in
      let current3 =
        Keeps-stop_if (IsCurrent e d) (x.indexed == 0) no_stored_chunks w2 w3 tt p3 current in
      let current4 =
        rewrite_vector-Keeps (IsCurrent e d) tenant d.id x.chunk_vectors document_vectors w3 w4 tt
          p4 current3 in
      let same = pure-returns _ o w4 w' h4 in
      (
        subst (IsCurrent e d) (ap (λ z. z.0.db) h4) current4,
        subst (λ (y : ReindexOutcome). 1 ≤ y.indexed) same (ground (arith, some_indexed)),
      )

  -- A reindexing that returns has found a live document of the tenant, has indexed at least one chunk of it, and
  -- leaves a row of that document, still live and of the tenant, that tells the provider's identity: a
  -- search with this provider takes its vectors for current.
  pub reindex_document-IsCurrent :
      (tenant document : ℕ) (w w' : World O S Float) (o : ReindexOutcome)
      → reindex_document 𝓕 client e vector_store document_vectors combine tenant document w
        ≡ (w', returns o)
      → (d : Document) × In d w.db.documents
        × (is_live_of tenant document d ≡ true)
        × IsCurrent e d w'.db
        × (1 ≤ o.indexed)
  unfolding reindex_document ◌>>=◌
  reindex_document-IsCurrent tenant document w w' o h =
      by_row (first (select (is_live_of tenant document) w.db.documents)) refl h
    where
      by_row :
          (found : Option Document)
          → first (select (is_live_of tenant document) w.db.documents) ≡ found
          → (or_raise found reindex_not_found
                >>= reindex_found 𝓕 client e vector_store document_vectors combine tenant document)
              w
            ≡ (w', returns o)
          → (d : Document) × In d w.db.documents
            × (is_live_of tenant document d ≡ true)
            × IsCurrent e d w'.db
            × (1 ≤ o.indexed)
      by_row none k m = cc m
      by_row (some d) k m =
          let (i, t) =
            first-All (λ x. In x w.db.documents × (is_live_of tenant document x ≡ true))
              (select (is_live_of tenant document) w.db.documents)
              (All-of-In (λ x. In x w.db.documents × (is_live_of tenant document x ≡ true))
                (select (is_live_of tenant document) w.db.documents)
                (λ x j. In-select (is_live_of tenant document) w.db.documents x j))
              k in
          let own : document ≡ d.id = ground arith in
          let (current, indexed) = reindex_found-IsCurrent tenant d w w' o i (
            subst
              (λ n.
                reindex_found 𝓕 client e vector_store document_vectors combine tenant n d w
                ≡ (w', returns o))
              own m) in
          (d, i, t, current, indexed)
