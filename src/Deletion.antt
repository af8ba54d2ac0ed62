-- ===== src/Deletion.antt =====
-- app/services/deletion.py: a document of a tenant is deleted, with all that was derived from it. What the
-- adapters and the engineering tables lose is behind parameters.
pub mod Gone
pub mod Again
pub mod Late
pub mod Unindexed
use document_intelligence_mv.Prelude.{
  ℕ, Bool, true, false, not, ◌&&◌, ◌||◌, Option, none, some, List, Text, first, select,
  update_where, is_empty, ◌==◌, nat_eq, if◌then◌else◌, [], ◌∷◌, ◌++◌, codes,
}
use document_intelligence_mv.Errors.{Error, object_not_found}
use document_intelligence_mv.Models.{
  Document, Chunk, DocumentProfile, IngestionJob, is_live_document,
}
use document_intelligence_mv.Database.{Db}
use document_intelligence_mv.Relations.{DocumentRelation}
use document_intelligence_mv.VectorStore.{Client}
use document_intelligence_mv.VectorStore as V
use document_intelligence_mv.Actions.{Action, pure, raise, attempt, ◌>>=◌, ◌>>◌}
use document_intelligence_mv.World.{World, StorageBackend, on_index, on_objects, query, execute}

pub record DeletionOutcome : Type 0 where
  pub document_id : ℕ
  pub already_deleted : Bool

abbrev pub adapter_key_for : Document → Text
adapter_key_for d = d.storage_key ++ codes ".adapter.json"

-- What an adapter has recorded of a package: only strings are read of its lists.
pub record AdapterPayload : Type 0 where
  pub package_id : Option Text
  pub member_storage_keys : List Text

-- The arguments of a call, and what it calls outside of the modelled code.
pub record Services (O S F : Type 0) : Type 0 where
  pub storage : StorageBackend O
  pub client : Client S F
  pub vector_store : Option Text  -- the name of its collection
  pub document_vectors : Option Text
  pub json_loads : Text → AdapterPayload  -- of what is no JSON object, one without entries
  pub drop_document_evidence : ℕ → ℕ → Action O (Unit {0})
  pub drop_package_rows : ℕ → ℕ → AdapterPayload → Action O (Unit {0})

module _ (tenant document : ℕ) where
  abbrev pub is_its_chunk : Chunk → Bool
  is_its_chunk c = c.tenant_id == tenant && c.document_id == document

  abbrev pub is_its_profile : DocumentProfile → Bool
  is_its_profile p = p.tenant_id == tenant && p.document_id == document

  abbrev pub is_its_relation : {F : Type 0} → DocumentRelation F → Bool
  is_its_relation r =
      r.edge.tenant_id == tenant
      && (r.edge.source_document_id == document || r.edge.target_document_id == document)

  abbrev pub is_its_job : IngestionJob → Bool
  is_its_job j = j.tenant_id == tenant && j.document_id == document

  -- The four DELETE statements.
  unfoldable pub drop_derived : {F : Type 0} → Db F → Db F
  drop_derived db = record db {
    chunks = select (λ c. not (is_its_chunk c)) db.chunks;
    profiles = select (λ p. not (is_its_profile p)) db.profiles;
    relations = select (λ r. not (is_its_relation r)) db.relations;
    jobs = select (λ j. not (is_its_job j)) db.jobs;
  }

-- The first deletion's time stays.
abbrev pub stamped : ℕ → Document → Document
stamped now d =
    if is_live_document d then record d { deleted_at = some now; updated_at = now } else d

unfoldable pub mark_deleted : {F : Type 0} → ℕ → ℕ → Db F → Db F
mark_deleted document now db = record db {
  documents = update_where (λ d. d.id == document) (stamped now) db.documents;
}

module _ {O S F : Type 0} (s : Services O S F) where
  abbrev pub none_recorded : AdapterPayload
  none_recorded = record { package_id = none; member_storage_keys = [] }

  unfoldable pub delete_members : List Text → Action O (Unit {0})
  delete_members [] = pure tt
  delete_members (key ∷ keys) = s.storage.delete key >> delete_members keys

  abbrev pub delete_recorded : Text → Option Text → Action O AdapterPayload
  delete_recorded key none = pure none_recorded
  delete_recorded key (some raw) = do
    delete_members (s.json_loads raw).member_storage_keys
    s.storage.delete key
    pure (s.json_loads raw)

  abbrev pub or_missing : Error → Action O (Option Text)
  or_missing object_not_found = pure none
  or_missing e = raise e

  unfoldable pub delete_adapter_artifacts : Document → Action O AdapterPayload
  unfolding delete_members
  delete_adapter_artifacts d =
      attempt (s.storage.get (adapter_key_for d) >>= λ raw. pure (some raw)) or_missing
      >>= delete_recorded (adapter_key_for d)

  abbrev pub delete_vectors : ℕ → ℕ → Option Text → Action (World O S F) (Unit {0})
  delete_vectors tenant document none = pure tt
  delete_vectors tenant document (some collection) =
      on_index (V.delete_document s.client collection tenant document)

  -- `if document.normalized_key`
  abbrev pub delete_normalized : Option Text → Action (World O S F) (Unit {0})
  delete_normalized none = pure tt
  delete_normalized (some key) = if is_empty key then pure tt else on_objects (s.storage.delete key)

  -- From the document that was found on.
  abbrev pub delete_found : ℕ → ℕ → ℕ → Document → Action (World O S F) (Option DeletionOutcome)
  delete_found now tenant document d = do
    delete_vectors tenant document s.vector_store
    delete_vectors tenant document s.document_vectors
    on_objects (s.storage.delete d.storage_key)
    delete_normalized d.normalized_key
    payload ← on_objects (delete_adapter_artifacts d)
    on_objects (s.drop_document_evidence tenant document)
    execute (drop_derived tenant document)
    on_objects (s.drop_package_rows tenant document payload)
    execute (mark_deleted document now)
    pure (some (record { document_id = document; already_deleted = not (is_live_document d) }))

  abbrev pub delete_if_found :
      ℕ → ℕ → ℕ → Option Document → Action (World O S F) (Option DeletionOutcome)
  delete_if_found now tenant document none = pure none
  delete_if_found now tenant document (some d) = delete_found now tenant document d

  abbrev pub is_wanted : ℕ → ℕ → Document → Bool
  is_wanted tenant document d = d.id == document && d.tenant_id == tenant

  unfoldable pub delete_document : ℕ → ℕ → ℕ → Action (World O S F) (Option DeletionOutcome)
  unfolding drop_derived mark_deleted delete_adapter_artifacts
  delete_document now tenant document =
      query (λ db. first (select (is_wanted tenant document) db.documents))
      >>= delete_if_found now tenant document
