-- ===== src/Models.antt =====
-- app/models.py: the rows of the durable store. A UUID and a timestamp are numbers, a JSON value is
-- the text of it. Scores are floats, of a type `F` that the users of a relation fix.
use document_intelligence_mv.Prelude.{ℕ, Bool, true, false, Option, List, Text, Eq}

pub data DocumentStatus : Type 0 where
  queued processing ready failed : DocumentStatus

pub data JobStatus : Type 0 where
  queued processing finished failed : JobStatus

pub data RelationType : Type 0 where
  exact_duplicate content_duplicate possible_version same_case same_entity related : RelationType

pub DocumentStatus-discrete : Discrete DocumentStatus
DocumentStatus-discrete = hlevel

pub JobStatus-discrete : Discrete JobStatus
JobStatus-discrete = hlevel

pub RelationType-discrete : Discrete RelationType
RelationType-discrete = hlevel

instance unfoldable pub document_status_eq : Eq DocumentStatus
unfolding DocumentStatus-discrete
document_status_eq = record { dec = DocumentStatus-discrete }

instance unfoldable pub job_status_eq : Eq JobStatus
unfolding JobStatus-discrete
job_status_eq = record { dec = JobStatus-discrete }

instance unfoldable pub relation_type_eq : Eq RelationType
unfolding RelationType-discrete
relation_type_eq = record { dec = RelationType-discrete }

pub record Document : Type 0 where
  pub id : ℕ
  pub tenant_id : ℕ
  pub filename : Text
  pub mime_type : Text
  pub storage_key : Text
  pub file_hash : Text
  pub content_hash : Option Text
  pub normalized_key : Option Text
  pub parser_name : Option Text
  pub status : DocumentStatus
  pub title : Option Text
  pub document_type : Option Text
  pub summary : Option Text
  pub embedding_provider : Option Text
  pub embedding_model : Option Text
  pub embedding_version : Option Text
  pub embedding_dimensions : Option ℕ
  pub created_at : ℕ
  pub updated_at : ℕ
  pub deleted_at : Option ℕ

pub record Chunk : Type 0 where
  pub id : ℕ
  pub tenant_id : ℕ
  pub document_id : ℕ
  pub ordinal : ℕ
  pub text : Text
  pub page_number : Option ℕ
  pub section_title : Option Text
  pub source_id : Text
  pub source_metadata : Text
  pub created_at : ℕ

pub record DocumentProfile : Type 0 where
  pub id : ℕ
  pub tenant_id : ℕ
  pub document_id : ℕ
  pub language : Option Text
  pub summary : Option Text
  pub organizations : List Text
  pub persons : List Text
  pub dates : List Text
  pub identifiers : List Text
  pub topics : List Text

pub record IngestionJob : Type 0 where
  pub id : ℕ
  pub tenant_id : ℕ
  pub document_id : ℕ
  pub status : JobStatus
  pub attempts : ℕ
  pub max_attempts : ℕ
  pub last_error : Option Text
  pub available_at : ℕ
  pub claimed_at : Option ℕ
  pub claimed_by : Option Text
  pub created_at : ℕ
  pub updated_at : ℕ

-- `deleted_at IS NULL`
abbrev pub is_live_document : Document → Bool
is_live_document d = elim d.deleted_at [ Option.none ↦ true | Option.some _ ↦ false ]
