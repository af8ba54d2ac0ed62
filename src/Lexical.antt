-- ===== src/Lexical.antt =====
-- app/services/lexical.py: search for the literal, and the way from a citation to its passage.
-- PostgreSQL's full text search (`matches_tokens`, `ts_rank_cd`, the floor of a rank) is a parameter.
pub mod Isolation
use document_intelligence_mv.Prelude.{
  ℕ, Bool, true, false, ◌&&◌, ◌||◌, Option, none, some, List, [], ◌∷◌, ◌++◌, map, Text, strip,
  is_empty, has_part, select, take, first, contains, sort_by, ◌==◌, nat_eq, text_eq, if◌then◌else◌,
  leb, ltb,
}
use document_intelligence_mv.Floats.{Floats}
use document_intelligence_mv.Models.{Document, Chunk, is_live_document}
use document_intelligence_mv.Database.{Db}

pub record LexicalHit (F : Type 0) : Type 0 where
  pub chunk_id : ℕ
  pub document_id : ℕ
  pub document_filename : Text
  pub source_id : Text
  pub text : Text
  pub rank : F
  pub ordinal : ℕ
  pub page_number : Option ℕ
  pub section_title : Option Text
  pub source_metadata : Text

-- What PostgreSQL computes for a query and a text.
pub record TextSearch (F : Type 0) : Type 0 where
  pub matches_tokens : Text → Text → Bool
  pub rank : Text → Text → F  -- greatest(ts_rank_cd(…), 0.0001)
  pub filename_le : Text → Text → Bool  -- the collation of `Document.filename`

abbrev pub hit_of : {F : Type 0} → Chunk → Document → F → LexicalHit F
hit_of c d rank = record {
  chunk_id = c.id;
  document_id = c.document_id;
  document_filename = d.filename;
  source_id = c.source_id;
  text = c.text;
  rank = rank;
  ordinal = c.ordinal;
  page_number = c.page_number;
  section_title = c.section_title;
  source_metadata = c.source_metadata;
}

-- `if document_ids: … in_(document_ids)`: no list and the empty list narrow nothing.
abbrev pub in_documents : Option (List ℕ) → ℕ → Bool
in_documents none d = true
in_documents (some []) d = true
in_documents (some (x ∷ xs)) d = contains (x ∷ xs) d

-- The WHERE clause, of a chunk and the document that it is joined with.
abbrev pub is_match :
    {F : Type 0} → TextSearch F → ℕ → Text → Option (List ℕ) → Chunk → Document → Bool
is_match t tenant query document_ids c d =
    d.id == c.document_id
    && (c.tenant_id == tenant
        && (is_live_document d
            && (in_documents document_ids c.document_id
                && (t.matches_tokens query c.text || has_part c.text query))))

module _ {F : Type 0} where
  unfoldable pub join_chunk :
      (Chunk → Document → Bool)
      → (Chunk → Document → F)
      → Chunk
      → List Document
      → List (LexicalHit F)
  join_chunk p rank c [] = []
  join_chunk p rank c (d ∷ ds) =
      let rest = join_chunk p rank c ds in if p c d then hit_of c d (rank c d) ∷ rest else rest

  -- SELECT … JOIN … WHERE, in the order of the tables.
  unfoldable pub join :
      (Chunk → Document → Bool)
      → (Chunk → Document → F)
      → List Document
      → List Chunk
      → List (LexicalHit F)
  unfolding join_chunk
  join p rank documents [] = []
  join p rank documents (c ∷ cs) = join_chunk p rank c documents ++ join p rank documents cs

module _ (𝓕 : Floats) where
  open 𝓕 use {Float, le, one}

  -- ORDER BY rank DESC, filename, ordinal
  abbrev pub comes_before : TextSearch Float → LexicalHit Float → LexicalHit Float → Bool
  comes_before t a b =
      if le b.rank a.rank && le a.rank b.rank
      then (if t.filename_le a.document_filename b.document_filename
            && t.filename_le b.document_filename a.document_filename
          then leb a.ordinal b.ordinal
          else t.filename_le a.document_filename b.document_filename)
      else le b.rank a.rank

  unfoldable pub search :
      TextSearch Float → Db Float → ℕ → Text → ℕ → Option (List ℕ) → List (LexicalHit Float)
  unfolding join
  search t db tenant raw limit document_ids =
      let query = strip raw in
      if is_empty query
      then []
      else take limit (
          sort_by (comes_before t) (
            join (is_match t tenant query document_ids) (λ c d. t.rank query c.text) db.documents
              db.chunks))

  abbrev pub is_source : ℕ → ℕ → Text → Chunk → Document → Bool
  is_source tenant document source c d =
      d.id == c.document_id
      && (c.tenant_id == tenant
          && (c.document_id == document && (c.source_id == source && is_live_document d)))

  unfoldable pub resolve_source : Db Float → ℕ → ℕ → Text → Option (LexicalHit Float)
  unfolding join
  resolve_source db tenant document source =
      first (join (is_source tenant document source) (λ c d. one) db.documents db.chunks)
