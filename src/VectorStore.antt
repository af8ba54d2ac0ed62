-- ===== src/VectorStore.antt =====
-- app/services/vector_store.py: the points of chunks and of documents in Qdrant. The client of Qdrant is a
-- parameter over a state of its own. An id in a payload is the text of a UUID, here the UUID.
pub mod Laws
pub mod Index
pub mod Search
use document_intelligence_mv.Prelude.{
  ℕ, suc, ◌+◌, Bool, true, false, not, ◌&&◌, ◌==◌, Option, none, some, List, [], ◌∷◌, ◌++◌, map,
  Text, codes, is_empty, any, contains, length, select, take, nat_eq, text_eq, if◌then◌else◌,
}
use document_intelligence_mv.Errors.{Error, Result, returns, raises, vector_store_error}
use document_intelligence_mv.Floats.{Floats}
use document_intelligence_mv.Actions.{
  Action, pure, raise, from_result, attempt, stop_if, ◌>>=◌, ◌>>◌,
}

pub record Payload : Type 0 where
  pub tenant_id : ℕ
  pub document_id : ℕ
  pub chunk_id : Option ℕ
  pub source_id : Option Text

pub record Point (F : Type 0) : Type 0 where
  pub id : ℕ
  pub vector : List F
  pub payload : Payload

pub record ScoredPoint (F : Type 0) : Type 0 where
  pub id : ℕ
  pub payload : Option Payload
  pub score : F

-- FieldCondition: a match of one value, or of any of a list.
pub data Condition : Type 0 where
  tenant_is : ℕ → Condition
  document_among : List ℕ → Condition

abbrev pub Filter : Type 0
Filter = List Condition

-- `models.Filter(must=…)`, as Qdrant reads it
abbrev pub holds_of : Payload → Condition → Bool
holds_of p (tenant_is t) = p.tenant_id == t
holds_of p (document_among ds) = contains ds p.document_id

abbrev pub matches : Filter → Payload → Bool
matches [] p = true
matches (c ∷ cs) p = holds_of p c && matches cs p

-- The calls of `AsyncQdrantClient` that are made, with the name of the collection first.
pub record Client (S F : Type 0) : Type 0 where
  pub get_collections : Action S (List Text)
  pub get_collection : Text → Action S (Option ℕ)  -- the size of its vectors
  pub create_collection : Text → ℕ → Action S (Unit {0})
  pub create_payload_index : Text → Text → Action S (Unit {0})
  pub upsert : Text → List (Point F) → Action S (Unit {0})
  pub delete : Text → Filter → Action S (Unit {0})
  pub query_points : Text → List F → ℕ → Filter → Action S (List (ScoredPoint F))

-- `_filter`: the tenant is never optional.
unfoldable pub filter_of : ℕ → Option (List ℕ) → Filter
filter_of tenant none = tenant_is tenant ∷ []
filter_of tenant (some []) = tenant_is tenant ∷ []
filter_of tenant (some (d ∷ ds)) = tenant_is tenant ∷ document_among (d ∷ ds) ∷ []

module _ {S F : Type 0} (client : Client S F) (collection : Text) where
  abbrev pub not_among : List Text → Action S Bool
  not_among names = pure (not (contains names collection))

  unfoldable pub collection_is_absent : Action S Bool
  collection_is_absent = attempt (client.get_collections >>= not_among) (λ e. pure false)

  unfoldable pub collection_dimensions : Action S (Option ℕ)
  collection_dimensions = attempt (client.get_collection collection) (λ e. pure none)

  abbrev pub check_dimensions : ℕ → Option ℕ → Action S Bool
  check_dimensions dimensions none = raise vector_store_error
  check_dimensions dimensions (some actual) =
      if actual == dimensions then pure false else raise vector_store_error

  abbrev create_if_missing : ℕ → List Text → Action S Bool
  create_if_missing dimensions names =
      if contains names collection
      then collection_dimensions >>= check_dimensions dimensions
      else client.create_collection collection dimensions >> pure true

  abbrev index_field : Text → Action S (Unit {0})
  index_field field = attempt (client.create_payload_index collection field) (λ e. pure tt)

  abbrev index_fields : Bool → Action S Bool
  index_fields false = pure false
  index_fields true = do
    index_field (codes "tenant_id")
    index_field (codes "document_id")
    pure true

  -- Whether the collection was created.
  unfoldable pub ensure_collection : ℕ → Action S Bool
  unfolding collection_dimensions
  ensure_collection dimensions =
      attempt (client.get_collections >>= create_if_missing dimensions)
        (λ e. raise vector_store_error)
      >>= index_fields

  abbrev pub unless_absent : {A : Type 0} → A → Bool → Action S A
  unless_absent a true = pure a
  unless_absent a false = raise vector_store_error

  unfoldable pub delete_matching : ℕ → Option (List ℕ) → Action S (Unit {0})
  unfolding collection_is_absent filter_of
  delete_matching tenant documents =
      attempt (client.delete collection (filter_of tenant documents))
        (λ e. collection_is_absent >>= unless_absent tt)

  unfoldable pub delete_document : ℕ → ℕ → Action S (Unit {0})
  delete_document tenant document = delete_matching tenant (some (document ∷ []))

  unfoldable pub delete_tenant : ℕ → Action S (Unit {0})
  delete_tenant tenant = delete_matching tenant none

  -- A chunk's id, vector and source id, as a point.
  abbrev pub point_of : ℕ → ℕ → ℕ × List F × Text → Point F
  point_of tenant document (chunk, vector, source) = record {
    id = chunk;
    vector = vector;
    payload = record {
      tenant_id = tenant;
      document_id = document;
      chunk_id = some chunk;
      source_id = some source;
    };
  }

  abbrev pub write_points : ℕ → ℕ → List (ℕ × List F × Text) → Action S ℕ
  write_points tenant document [] = pure 0
  write_points tenant document (p ∷ ps) = do
    stop_if (any (λ q. not (length q.1 == length p.1)) (p ∷ ps)) vector_store_error
    attempt (client.upsert collection (map (point_of tenant document) (p ∷ ps)))
          (λ e. raise vector_store_error)
        >> pure (length (p ∷ ps))

  unfoldable pub upsert_chunks : ℕ → ℕ → List (ℕ × List F × Text) → Action S ℕ
  upsert_chunks tenant document points =
      delete_document tenant document >> write_points tenant document points

-- `payload.get("chunk_id") or point.id`
abbrev pub or_id : ℕ → Option ℕ → ℕ
or_id id none = id
or_id id (some chunk) = chunk

abbrev pub chunk_of : ℕ → Option Payload → ℕ
chunk_of id none = id
chunk_of id (some p) = or_id id p.chunk_id

module _ (𝓕 : Floats) where
  open 𝓕 use {Float, le, one, zero_float}

  -- `a > b` of floats, which is false if one of them is a NaN.
  abbrev above : Float → Float → Bool
  above a b = le b a && not (le a b)

  unfoldable pub bounded_similarity : Float → Float
  bounded_similarity score = if above score one then one else score

  unfoldable pub bounded_relation_score : Float → Float
  bounded_relation_score score =
      if above zero_float score then zero_float else (if above score one then one else score)

  abbrev pub scored_chunk : ScoredPoint Float → ℕ × Float
  scored_chunk r = (chunk_of r.id r.payload, bounded_similarity r.score)

  abbrev pub document_of : ScoredPoint Float → ℕ
  document_of r = elim r.payload [ none ↦ r.id | some p ↦ p.document_id ]

  module _ {S : Type 0} (client : Client S Float) (collection : Text) where
    unfoldable pub search : ℕ → List Float → ℕ → Option (List ℕ) → Action S (List (ℕ × Float))
    unfolding bounded_similarity filter_of collection_is_absent
    search tenant vector limit documents =
        attempt
          (client.query_points collection vector limit (filter_of tenant documents) >>= λ found.
            pure (map scored_chunk found))
          (λ e. collection_is_absent client collection >>= unless_absent client collection [])

    -- DocumentVectorStore
    unfoldable pub upsert_vector : ℕ → ℕ → List Float → Action S (Unit {0})
    upsert_vector tenant document vector =
        attempt
          (client.upsert collection (
            record {
              id = document;
              vector = vector;
              payload = record {
                tenant_id = tenant;
                document_id = document;
                chunk_id = none;
                source_id = none;
              };
            }
            ∷ []))
          (λ e. raise vector_store_error)

    abbrev pub is_excluded : Option ℕ → ScoredPoint Float → Bool
    is_excluded none r = false
    is_excluded (some d) r = document_of r == d

    abbrev pub scored_documents :
        ℕ → Option ℕ → List (ScoredPoint Float) → Action S (List (ℕ × Float))
    scored_documents limit exclude found = pure (
        take limit (
          map (λ r. (document_of r, bounded_relation_score r.score))
            (select (λ r. not (is_excluded exclude r)) found)))

    unfoldable pub similar : ℕ → List Float → ℕ → Option ℕ → Action S (List (ℕ × Float))
    unfolding bounded_relation_score filter_of collection_is_absent
    similar tenant vector limit exclude =
        attempt
          (client.query_points collection vector (limit + 1) (filter_of tenant none)
            >>= scored_documents limit exclude)
          (λ e. collection_is_absent client collection >>= unless_absent client collection [])
