-- ===== src/Processing/Holding.antt =====
-- The tables that a run of app/services/processing.py on one document starts from, and what its later steps
-- leave of them.
use document_intelligence_mv.Prelude.{
  ℕ, ◌≡◌, ◌≢◌, refl, sym, ◌∙◌, List, update_where, Bool-cases, inl, inr, In, Pairs-update_where,
  In-update_where_intro, ◌==◌, nat_eq, if◌then◌else◌,
}
use document_intelligence_mv.Models.{Document, Chunk}
use document_intelligence_mv.Database.{Db, IsKeyed}
use document_intelligence_mv.Processing.Keeping.{KeepsIdentity, IsStable}

-- The same row, whatever else was assigned to it.
abbrev pub IsSameDocument : Document → Document → Type 0
IsSameDocument d x = (x.id ≡ d.id) × (x.tenant_id ≡ d.tenant_id) × (x.deleted_at ≡ d.deleted_at)

-- Keyed tables that hold the document and the given chunks.
pub record Holds {F : Type 0} (d : Document) (chunks : List Chunk) (db : Db F) : Type 0 where
  pub keyed : IsKeyed db
  pub same_chunks : db.chunks ≡ chunks
  pub document : Document
  pub stored : In document db.documents
  pub same_document : IsSameDocument d document

pub assign-IsKeyed :
    {F : Type 0} (db : Db F) (id : ℕ) (f : Document → Document)
    → KeepsIdentity f
    → IsKeyed db
    → IsKeyed (record db { documents = update_where (λ d. d.id == id) f db.documents })
assign-IsKeyed db id f k h = record {
  document_ids =
      Pairs-update_where (λ a b. b.id ≢ a.id) (λ d. d.id == id) f db.documents
        (λ a b i j apart same. apart (sym (id_kept b) ∙ same ∙ id_kept a)) h.document_ids;
  chunk_ids = h.chunk_ids;
  source_ids = h.source_ids;
}
  where
    id_kept : (d : Document) → (if d.id == id then f d else d).id ≡ d.id
    id_kept d = elim (Bool-cases (d.id == id)) [ inl t ↦ rw t ((k d).0) | inr t ↦ rw t refl ]

assign_row :
    (id : ℕ) (f : Document → Document) (d x : Document)
    → KeepsIdentity f
    → IsSameDocument d x
    → IsSameDocument d (if x.id == id then f x else x)
assign_row id f d x k (a, b, c) = elim (Bool-cases (x.id == id)) [
  | inl t ↦ rw t ((k x).0 ∙ a, (k x).1 ∙ b, (k x).2 ∙ c)
  | inr t ↦ rw t (a, b, c)
]

pub Holds-IsStable :
    {F : Type 0} (d : Document) (chunks : List Chunk) → IsStable {F = F} (Holds d chunks)
Holds-IsStable d chunks = record {
  documents = λ db id f k h. record {
    keyed = assign-IsKeyed db id f k h.keyed;
    same_chunks = h.same_chunks;
    document = if h.document.id == id then f h.document else h.document;
    stored = In-update_where_intro (λ x. x.id == id) f db.documents h.document h.stored;
    same_document = assign_row id f d h.document k h.same_document;
  };
  profiles = λ db ps h. record {
    keyed = record {
      document_ids = h.keyed.document_ids;
      chunk_ids = h.keyed.chunk_ids;
      source_ids = h.keyed.source_ids;
    };
    same_chunks = h.same_chunks;
    document = h.document;
    stored = h.stored;
    same_document = h.same_document;
  };
  relations = λ db rs h. record {
    keyed = record {
      document_ids = h.keyed.document_ids;
      chunk_ids = h.keyed.chunk_ids;
      source_ids = h.keyed.source_ids;
    };
    same_chunks = h.same_chunks;
    document = h.document;
    stored = h.stored;
    same_document = h.same_document;
  };
}
