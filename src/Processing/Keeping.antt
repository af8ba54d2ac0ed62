-- ===== src/Processing/Keeping.antt =====
-- What the steps of app/services/processing.py after the chunks keep of the tables: they write the
-- attributes of documents, profiles and relations alone.
use document_intelligence_mv.Prelude.{
  ℕ, ◌≡◌, refl, subst, Option, none, some, List, [], ◌∷◌, map, Text, update_where, ◌==◌, nat_eq,
}
use document_intelligence_mv.Errors.{Result, raises, returns, indexing_error, profiling_error}
use document_intelligence_mv.Models.{Document, DocumentStatus, Chunk, DocumentProfile}
use document_intelligence_mv.Floats.{Floats}
use document_intelligence_mv.Database.{Db}
use document_intelligence_mv.Providers.{EmbeddingProvider}
use document_intelligence_mv.VectorStore.{Client}
use document_intelligence_mv.Relations.{DocumentRelation, detect_relations}
use document_intelligence_mv.Indexing.{
  with_provider, embedded, index_vectors, index_chunks, index_document,
}
use document_intelligence_mv.Profiling.{
  ExtractedProfile, empty_profile, extracted, extract_from, profile_document, headlines,
  store_profile,
}
use document_intelligence_mv.Processing.{
  Services, ParsedDocument, index_with, profile_with, keep_vector, similar_to, relate_from,
  with_relations, relate_with, with_status, derive,
}
use document_intelligence_mv.World.{
  assign, Keeps, Keeps-bind, Keeps-on_index, Keeps-query, Keeps-execute, Keeps-execute_checked,
  Keeps-pure, Keeps-raise, Keeps-or_raise, Keeps-stop_if, Keeps-from_result,
}

-- Attributes are assigned that no key is made of, and not the time of a deletion.
abbrev pub KeepsIdentity : (Document → Document) → Type 0
KeepsIdentity f =
    (d : Document)
    → ((f d).id ≡ d.id) × ((f d).tenant_id ≡ d.tenant_id) × ((f d).deleted_at ≡ d.deleted_at)

-- A property of the tables that no step after the chunks touches.
pub record IsStable {F : Type 0} (I : Db F → Type 0) : Type 0 where
  pub documents :
      (db : Db F) (id : ℕ) (f : Document → Document)
      → KeepsIdentity f
      → I db
      → I (record db { documents = update_where (λ d. d.id == id) f db.documents })
  pub profiles : (db : Db F) (ps : List DocumentProfile) → I db → I (record db { profiles = ps })
  pub relations :
      (db : Db F) (rs : List (DocumentRelation F)) → I db → I (record db { relations = rs })

module _ {O S F : Type 0} (I : Db F → Type 0) (stable : IsStable I) where
  pub Keeps-assign :
      (id : ℕ) (f : Document → Document) → KeepsIdentity f → Keeps {O = O} {S = S} I (assign id f)
  Keeps-assign id f k =
      Keeps-execute I
        (λ db. record db { documents = update_where (λ d. d.id == id) f db.documents })
        (λ db. stable.documents db id f k)

  module _ (client : Client S F) (collection : Text) (e : EmbeddingProvider (List F)) where
    index_vectors-Keeps :
        (tenant document : ℕ) (chunks : List Chunk) (vectors : List (List F))
        → Keeps {O = O} I (index_vectors client collection e tenant document chunks vectors)
    index_vectors-Keeps tenant document chunks vectors =
        Keeps-bind I _ _ (Keeps-stop_if I _ _) (λ _.
          Keeps-bind I _ _ (Keeps-on_index I _) (λ indexed.
            Keeps-bind I _ _ (Keeps-assign document (with_provider e) (λ d. (refl, refl, refl)))
              (λ _. Keeps-pure I _)))

    index_chunks-Keeps :
        (tenant document : ℕ) (chunks : List Chunk)
        → Keeps {O = O} I (index_chunks client collection e tenant document chunks)
    index_chunks-Keeps tenant document [] = Keeps-bind I _ _ (Keeps-on_index I _) (λ _.
        Keeps-bind I _ _ (Keeps-assign document (with_provider e) (λ d. (refl, refl, refl)))
          (λ _. Keeps-pure I _))
    index_chunks-Keeps tenant document (c ∷ cs) =
        Keeps-bind I _ _ (embedded-Keeps (e.embed (map (λ (x : Chunk). x.text) (c ∷ cs))))
          (λ vectors. index_vectors-Keeps tenant document (c ∷ cs) vectors)
      where
        embedded-Keeps : (r : Result (List (List F))) → Keeps {O = O} {S = S} I (embedded r)
        embedded-Keeps (raises problem) = Keeps-raise I indexing_error
        embedded-Keeps (returns vectors) = Keeps-pure I vectors

    pub index_document-Keeps :
        (tenant document : ℕ) → Keeps {O = O} I (index_document client collection e tenant document)
    unfolding index_document
    index_document-Keeps tenant document = Keeps-bind I _ _ (Keeps-query I _) (λ found.
        Keeps-bind I _ _ (Keeps-or_raise I found indexing_error) (λ d.
          Keeps-bind I _ _ (Keeps-query I _) (λ chunks.
            Keeps-bind I _ _ (Keeps-on_index I _)
              (λ _. index_chunks-Keeps tenant document chunks))))

  module _ (lower : Text → Text) (extract : Text → Result ExtractedProfile)
      (max_characters : ℕ) where
    extract_from-Keeps :
        (texts : List Text)
        → Keeps {O = O} {S = S} I (extract_from lower extract max_characters texts)
    extract_from-Keeps [] = Keeps-pure I empty_profile
    extract_from-Keeps (text ∷ texts) = extracted-Keeps _
      where
        extracted-Keeps :
            (r : Result ExtractedProfile)
            → Keeps {O = O} {S = S} I (extracted lower extract max_characters r)
        extracted-Keeps (raises problem) = Keeps-raise I profiling_error
        extracted-Keeps (returns x) = Keeps-pure I x

    pub profile_document-Keeps :
        (id tenant document : ℕ)
        → Keeps {O = O} {S = S} I (profile_document lower extract max_characters id tenant document)
    unfolding profile_document
    profile_document-Keeps id tenant document = Keeps-bind I _ _ (Keeps-query I _) (λ found.
        Keeps-bind I _ _ (Keeps-or_raise I found profiling_error) (λ d.
          Keeps-bind I _ _ (Keeps-query I _) (λ chunks.
            Keeps-bind I _ _ (extract_from-Keeps (map (λ (c : Chunk). c.text) chunks)) (λ x.
              Keeps-bind I _ _
                (Keeps-execute I _
                  (λ db. stable.profiles db (store_profile lower id tenant document x db.profiles)))
                (λ _. Keeps-assign document (headlines lower x) (λ d. (refl, refl, refl)))))))

module _ (𝓕 : Floats) {O S : Type 0} (s : Services O S 𝓕.Float) (I : Db 𝓕.Float → Type 0)
    (stable : IsStable I) (d : Document) where
  index_with-Keeps :
      (e : Option (EmbeddingProvider (List 𝓕.Float))) (collection : Option Text)
      → Keeps I (index_with 𝓕 s d e collection)
  index_with-Keeps (some e) (some collection) =
      Keeps-bind I _ _ (index_document-Keeps I stable s.client collection e d.tenant_id d.id)
        (λ o. Keeps-pure I _)
  index_with-Keeps (some e) none = Keeps-pure I _
  index_with-Keeps none collection = Keeps-pure I _

  profile_with-Keeps :
      (id : ℕ) (llm : Option (Text → Result ExtractedProfile)) → Keeps I (profile_with 𝓕 s d id llm)
  profile_with-Keeps id none = Keeps-pure I _
  profile_with-Keeps id (some extract) =
      Keeps-bind I _ _
        (profile_document-Keeps I stable s.lower extract s.max_excerpt_characters id d.tenant_id
          d.id)
        (λ _. Keeps-pure I _)

  keep_vector-Keeps :
      (collection : Text) (v : Option (List 𝓕.Float)) → Keeps I (keep_vector 𝓕 s d collection v)
  keep_vector-Keeps collection none = Keeps-on_index I _
  keep_vector-Keeps collection (some v) = Keeps-on_index I _

  similar_to-Keeps :
      (collection : Text) (v : Option (List 𝓕.Float)) → Keeps I (similar_to 𝓕 s d collection v)
  similar_to-Keeps collection none = Keeps-pure I _
  similar_to-Keeps collection (some v) = Keeps-on_index I _

  relate_from-Keeps :
      (v : Option (List 𝓕.Float)) (similarities : List (ℕ × 𝓕.Float))
      → Keeps I (relate_from 𝓕 s d v similarities)
  relate_from-Keeps v similarities = Keeps-bind I _ _ (Keeps-query I _) (λ gathered.
      Keeps-bind I _ _ (Keeps-from_result I gathered) (λ cs.
        Keeps-bind I _ _
          (Keeps-execute_checked I _ (λ db db' p.
            written db db' (detect_relations 𝓕 s.settings d.tenant_id d.id cs db.relations) p))
          (λ _. Keeps-pure I _)))
    where
      written :
          (db db' : Db 𝓕.Float) (r : Result (List (DocumentRelation 𝓕.Float)))
          → with_relations 𝓕 s db r ≡ returns db'
          → I db
          → I db'
      written db db' (raises e) p i = cc p
      written db db' (returns rows) p i =
          let same : record db { relations = rows } ≡ db' = cc p in
          subst I same (stable.relations db rows i)

  relate_with-Keeps :
      (vectors : List (List 𝓕.Float)) (collection : Option Text)
      (e : Option (EmbeddingProvider (List 𝓕.Float)))
      → Keeps I (relate_with 𝓕 s d vectors collection e)
  relate_with-Keeps vectors (some collection) (some e) =
      Keeps-bind I _ _ (Keeps-from_result I _) (λ v. Keeps-bind I _ _ (Keeps-on_index I _) (λ _.
        Keeps-bind I _ _ (keep_vector-Keeps collection v) (λ _.
          Keeps-bind I _ _ (similar_to-Keeps collection v)
            (λ similarities. relate_from-Keeps v similarities))))
  relate_with-Keeps vectors (some collection) none = Keeps-pure I _
  relate_with-Keeps vectors none e = Keeps-pure I _

  -- From the index to the status of the document.
  pub derive-Keeps :
      (fresh : ℕ → ℕ) (profile_id now : ℕ) (parsed : ParsedDocument) (duplicate : Option ℕ)
      → Keeps I (derive 𝓕 s fresh profile_id now d parsed duplicate)
  derive-Keeps fresh profile_id now parsed duplicate =
      Keeps-bind I _ _ (index_with-Keeps s.embeddings s.vector_store) (λ indexed.
        Keeps-bind I _ _ (profile_with-Keeps profile_id s.llm) (λ profiled.
          Keeps-bind I _ _ (relate_with-Keeps indexed.1 s.document_vectors s.embeddings)
            (λ relations.
              Keeps-bind I _ _
                (Keeps-assign I stable d.id (with_status 𝓕 s DocumentStatus.ready)
                  (λ x. (refl, refl, refl)))
                (λ _. Keeps-pure I _))))
