-- ===== src/Profiling.antt =====
-- app/services/profiling.py: what a document is, as the model extracts it. The model's reply is the parameter
-- `extract`, of the prompt; `lower` is Python's `str.lower`.
pub mod Cleaning
use document_intelligence_mv.Prelude.{
  ℕ, ◌-◌, Bool, not, ◌&&◌, Option, none, some, List, [], ◌∷◌, ◌++◌, map, Text, codes, first, select,
  length, take, is_empty, contains, update_where, strip, join_with, ltb, ◌==◌, nat_eq, text_eq,
  if◌then◌else◌,
}
use document_intelligence_mv.Errors.{Result, raises, returns, profiling_error}
use document_intelligence_mv.Models.{Document, Chunk, DocumentProfile}
use document_intelligence_mv.Actions.{Action, pure, raise, or_raise, ◌>>=◌, ◌>>◌}
use document_intelligence_mv.Ingestion.{get_document, list_chunks}
use document_intelligence_mv.World.{World, query, execute, assign}

pub record ExtractedProfile : Type 0 where
  pub title : Option Text
  pub document_type : Option Text
  pub language : Option Text
  pub summary : Option Text
  pub organizations : List Text
  pub persons : List Text
  pub dates : List Text
  pub identifiers : List Text
  pub topics : List Text

abbrev pub empty_profile : ExtractedProfile
empty_profile = record {
  title = none;
  document_type = none;
  language = none;
  summary = none;
  organizations = [];
  persons = [];
  dates = [];
  identifiers = [];
  topics = [];
}

-- The loop of `build_excerpt`: whole chunks while they fit into what remains.
unfoldable pub fitting : ℕ → List Text → List Text
fitting remaining [] = []
fitting remaining (text ∷ texts) =
    let rest = fitting (remaining - length text) texts in
    if ltb remaining (length text) then [] else text ∷ rest

abbrev pub or_opening : ℕ → List Text → List Text → List Text
or_opening max_characters [] [] = []
or_opening max_characters (text ∷ texts) [] = take max_characters text ∷ []
or_opening max_characters texts (part ∷ parts) = part ∷ parts

unfoldable pub build_excerpt : List Text → ℕ → Text
unfolding fitting
build_excerpt texts max_characters =
    join_with (10 ∷ 10 ∷ []) (or_opening max_characters texts (fitting max_characters texts))

-- `value or None`
abbrev pub or_none : Text → Option Text
or_none s = if is_empty s then none else some s

-- `(value or "")`
abbrev pub or_blank : Option Text → Text
or_blank none = []
or_blank (some s) = s

module _ (lower : Text → Text) where
  -- The loop of `_clean`, from the keys that it has seen.
  unfoldable pub clean_from : List Text → List Text → List Text
  clean_from seen [] = []
  clean_from seen (value ∷ values) =
      let kept = clean_from (lower (strip value) ∷ seen) values in
      let rest = clean_from seen values in
      if not (is_empty (strip value)) && not (contains seen (lower (strip value)))
      then strip value ∷ kept
      else rest

  unfoldable pub clean : List Text → List Text
  clean values = clean_from [] values

  abbrev pub filled_profile : ExtractedProfile → DocumentProfile → DocumentProfile
  filled_profile x p = record p {
    language = or_none (or_blank x.language);
    summary = or_none (or_blank x.summary);
    organizations = clean x.organizations;
    persons = clean x.persons;
    dates = clean x.dates;
    identifiers = clean x.identifiers;
    topics = clean x.topics;
  }

  abbrev pub headlines : ExtractedProfile → Document → Document
  headlines x d = record d {
    title = or_none (strip (or_blank x.title));
    document_type = or_none (lower (strip (or_blank x.document_type)));
    summary = or_none (or_blank x.summary);
  }

  abbrev pub is_profile : ℕ → ℕ → DocumentProfile → Bool
  is_profile tenant document p = p.tenant_id == tenant && p.document_id == document

  abbrev blank_row : ℕ → ℕ → ℕ → DocumentProfile
  blank_row id tenant document = record {
    id = id;
    tenant_id = tenant;
    document_id = document;
    language = none;
    summary = none;
    organizations = [];
    persons = [];
    dates = [];
    identifiers = [];
    topics = [];
  }

  -- The first profile of the document is filled, or a new row; `id` is its fresh id.
  unfoldable pub store_profile :
      ℕ → ℕ → ℕ → ExtractedProfile → List DocumentProfile → List DocumentProfile
  store_profile id tenant document x profiles =
      elim (first (select (is_profile tenant document) profiles)) [
        | none ↦ filled_profile x (blank_row id tenant document) ∷ profiles
        | some p ↦ update_where (λ q. q.id == p.id) (filled_profile x) profiles
      ]

  module _ {O S F : Type 0} (extract : Text → Result ExtractedProfile) (max_characters : ℕ) where
    abbrev pub extracted : Result ExtractedProfile → Action (World O S F) ExtractedProfile
    extracted (raises e) = raise profiling_error
    extracted (returns x) = pure x

    abbrev pub extract_from : List Text → Action (World O S F) ExtractedProfile
    extract_from [] = pure empty_profile
    extract_from (text ∷ texts) = extracted (
        extract (codes "Document text:" ++ (10 ∷ 10 ∷ build_excerpt (text ∷ texts) max_characters)))

    abbrev pub profile_found : ℕ → ℕ → ℕ → Document → Action (World O S F) (Unit {0})
    profile_found id tenant document d = do
      chunks ← query (λ db. list_chunks db tenant document)
      x ← extract_from (map (λ (c : Chunk). c.text) chunks)
      execute (λ db. record db { profiles = store_profile id tenant document x db.profiles })
      assign document (headlines x)

    unfoldable pub profile_document : ℕ → ℕ → ℕ → Action (World O S F) (Unit {0})
    profile_document id tenant document = do
      found ← query (λ db. get_document db tenant document)
      d ← or_raise found profiling_error
      profile_found id tenant document d
