-- ===== src/Reindexing/Worklist.antt =====
-- `reindex_tenant` of app/services/reindexing.py: which documents it goes through.
use document_intelligence_mv.Prelude.{
  ℕ, ◌≡◌, ◌≢◌, ◌↔◌, sym, none, List, leb, In, In-select, In-select_intro, In-sort_by,
  In-sort_by_intro, Pairs, Pairs-select, Pairs-sort_by, Sorted, sort_by-Sorted, select, arith,
  nat_eq,
}
use document_intelligence_mv.Models.{Document, DocumentStatus, document_status_eq}
use document_intelligence_mv.Reindexing.{is_ready_of, ready_documents}

-- The documents of the loop: the tenant's live and ready ones, each once, from the oldest on.
pub record IsWorklist (tenant : ℕ) (documents ds : List Document) : Type 0 where
  pub members :
      (d : Document)
      → In d ds ↔ (
          In d documents
          × (d.tenant_id ≡ tenant)
          × (d.deleted_at ≡ none)
          × (d.status ≡ DocumentStatus.ready))
  pub once : Pairs (λ a b. b.id ≢ a.id) ds
  pub oldest_first : Sorted (λ (a : Document) b. leb a.created_at b.created_at) ds

pub ready_documents-IsWorklist :
    (tenant : ℕ) (documents : List Document)
    → Pairs (λ a b. b.id ≢ a.id) documents
    → IsWorklist tenant documents (ready_documents tenant documents)
ready_documents-IsWorklist tenant documents k = record {
  members = λ d. (
    (λ i.
        let (j, t) = In-select (is_ready_of tenant) documents d (
          In-sort_by (λ (a : Document) b. leb a.created_at b.created_at) d
            (select (is_ready_of tenant) documents) i) in
        (j, ground arith, ground arith, ground arith)),
    (λ (j, t, l, r).
        In-sort_by_intro (λ (a : Document) b. leb a.created_at b.created_at) d
          (select (is_ready_of tenant) documents)
          (In-select_intro (is_ready_of tenant) documents d j (ground arith))),
  );
  once =
      Pairs-sort_by (λ (a : Document) b. leb a.created_at b.created_at) (λ a b. b.id ≢ a.id)
        (select (is_ready_of tenant) documents) (λ x y n p. n (sym p))
        (Pairs-select (λ a b. b.id ≢ a.id) (is_ready_of tenant) documents k);
  oldest_first =
      sort_by-Sorted (λ (a : Document) b. leb a.created_at b.created_at) (λ a b h. ground arith)
        (λ a b c h i. ground arith) (select (is_ready_of tenant) documents);
}
