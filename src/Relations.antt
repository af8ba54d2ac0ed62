-- ===== src/Relations.antt =====
-- app/services/relations.py: which relation two documents of a tenant have, and the edges that are
-- written for it. `lower` is Python's `str.lower`.
pub mod Rules
pub mod Overlap
pub mod Edges
pub mod Checks
pub mod Gathering
use native.Mathlib.Decide.{ℕ_discrete}
use document_intelligence_mv.Prelude.{
  ℕ, zero, suc, ◌+◌, ◌≡◌, refl, Bool, true, false, not, ◌&&◌, ◌||◌, Option, none, some, List, [],
  ◌∷◌, ◌++◌, map, Text, codes, ltb, leb, ◌==◌, nat_eq, text_eq, if◌then◌else◌, Eq, strip, is_empty,
  any, contains, length, update_where, first, select,
}
use document_intelligence_mv.Models.{
  RelationType, exact_duplicate, content_duplicate, possible_version, same_case, same_entity,
  related, relation_type_eq, RelationType-discrete,
}
use document_intelligence_mv.Errors.{Result, returns, raises, integrity_error, ◌>>=◌}
use document_intelligence_mv.Floats.{Floats}

-- Texts of `right` that are not blank, stripped and lowered: the set `lowered` of `_overlap`.
module _ (lower : Text → Text) where
  abbrev pub folded : Text → Text
  folded value = lower (strip value)

  unfoldable pub lowered_set : List Text → List Text
  lowered_set [] = []
  lowered_set (value ∷ values) =
      let rest = lowered_set values in if is_empty (strip value) then rest else folded value ∷ rest

  -- The loop over `left`, with the keys that it has seen.
  unfoldable pub shared_from : List Text → List Text → List Text → List Text
  shared_from right seen [] = []
  shared_from right seen (value ∷ values) =
      let key = folded value in
      let hit = not (is_empty key) && (contains right key && not (contains seen key)) in
      let rest = shared_from right (if hit then key ∷ seen else seen) values in
      if hit then strip value ∷ rest else rest

  unfoldable pub overlap : List Text → List Text → List Text
  unfolding lowered_set shared_from
  overlap left right =
      if is_empty left || is_empty right then [] else shared_from (lowered_set right) [] left

pub record Settings (F : Type 0) : Type 0 where
  pub relation_version_similarity : F
  pub relation_related_similarity : F
  pub relation_min_shared_entities : ℕ
  pub relation_min_shared_identifiers : ℕ
  pub relation_max_candidates : ℕ

pub record Candidate (F : Type 0) : Type 0 where
  pub document_id : ℕ
  pub similarity : Option F
  pub same_file_hash : Bool
  pub same_content_hash : Bool
  pub shared_identifiers : List Text
  pub shared_organizations : List Text
  pub shared_persons : List Text
  pub shared_dates : List Text
  pub shared_topics : List Text

abbrev pub shared_entities : {F : Type 0} → Candidate F → ℕ
shared_entities c = length c.shared_organizations + length c.shared_persons + length c.shared_dates

-- The dict `reason`: a constructor for each set of signals.
pub data Reason (F : Type 0) : Type 0 where
  file_hash content_hash : Reason F
  document_vector_and_entities :
      (similarity threshold : F) (organizations persons dates : List Text) → Reason F
  identifiers : (shared : List Text) (similarity : Option F) → Reason F
  entities : (organizations persons : List Text) (similarity : Option F) → Reason F
  document_vector : (similarity threshold : F) → Reason F

pub record Decision (F : Type 0) : Type 0 where
  pub relation_type : RelationType
  pub score : Option F
  pub reason : Reason F

module _ (𝓕 : Floats) where
  open 𝓕 use {Float, le, one, round4}

  -- `similarity is not None and similarity >= threshold`
  abbrev pub reaches : Option Float → Float → Bool
  reaches none threshold = false
  reaches (some s) threshold = le threshold s

  abbrev pub rounded : Option Float → Option Float
  rounded none = none
  rounded (some s) = some (round4 s)

  -- The two rules that speak of the similarity put it in the reason; without one they do not apply, so
  -- that the clauses for `none` are not used.
  abbrev version_reason : Settings Float → Candidate Float → Option Float → Reason Float
  version_reason s c none = file_hash
  version_reason s c (some x) =
      document_vector_and_entities (round4 x) s.relation_version_similarity c.shared_organizations
        c.shared_persons c.shared_dates

  abbrev related_reason : Settings Float → Option Float → Reason Float
  related_reason s none = file_hash
  related_reason s (some x) = document_vector (round4 x) s.relation_related_similarity

  unfoldable pub classify : Candidate Float → Settings Float → Option (Decision Float)
  classify c s =
      if c.same_file_hash
      then some (record { relation_type = exact_duplicate; score = some one; reason = file_hash })
      else if c.same_content_hash
      then some
          (record { relation_type = content_duplicate; score = some one; reason = content_hash })
      else if reaches c.similarity s.relation_version_similarity
          && leb s.relation_min_shared_entities (shared_entities c)
      then some (record {
        relation_type = possible_version;
        score = c.similarity;
        reason = version_reason s c c.similarity;
      })
      else if leb s.relation_min_shared_identifiers (length c.shared_identifiers)
      then some (record {
        relation_type = same_case;
        score = c.similarity;
        reason = identifiers c.shared_identifiers (rounded c.similarity);
      })
      else if (not (is_empty c.shared_organizations) || not (is_empty c.shared_persons))
          && leb s.relation_min_shared_entities (shared_entities c)
      then some (record {
        relation_type = same_entity;
        score = c.similarity;
        reason = entities c.shared_organizations c.shared_persons (rounded c.similarity);
      })
      else if reaches c.similarity s.relation_related_similarity
      then some (record {
        relation_type = related;
        score = c.similarity;
        reason = related_reason s c.similarity;
      })
      else none

-- app/models.py, DocumentRelation: the columns of `uq_document_relations_edge` are its `edge`. Its id
-- and creation time, which nothing reads, are left out.
pub record Edge : Type 0 where
  pub tenant_id : ℕ
  pub source_document_id : ℕ
  pub target_document_id : ℕ
  pub relation_type : RelationType

Edge-discrete : Discrete Edge
Edge-discrete = hlevel ℕ_discrete

instance unfoldable pub edge_eq : Eq Edge
unfolding Edge-discrete ℕ_discrete
edge_eq = record { dec = Edge-discrete }

pub record DocumentRelation (F : Type 0) : Type 0 where
  pub edge : Edge
  pub score : Option F
  pub reason : Reason F

abbrev pub edge_of : {F : Type 0} → ℕ → ℕ → ℕ → Decision F → Edge
edge_of tenant source target d = record {
  tenant_id = tenant;
  source_document_id = source;
  target_document_id = target;
  relation_type = d.relation_type;
}

-- INSERT … ON CONFLICT DO UPDATE, of a row that keeps to the constraints.
unfoldable pub insert_or_update :
    {F : Type 0} → Edge → Decision F → List (DocumentRelation F) → List (DocumentRelation F)
insert_or_update e d rows =
    if any (λ r. r.edge == e) rows
    then update_where (λ r. r.edge == e) (λ r. record r { score = d.score; reason = d.reason }) rows
    else record { edge = e; score = d.score; reason = d.reason } ∷ rows

module _ (𝓕 : Floats) where
  open 𝓕 use {Float, le, one, zero_float}

  -- `ck_document_relations_score_range`
  abbrev pub is_in_range : Option Float → Bool
  is_in_range none = true
  is_in_range (some x) = le zero_float x && le x one

  -- The CHECK constraints of the table: `ck_document_relations_no_self_edge` and the range. Its foreign keys
  -- are met, as both documents are read from the table of documents in the same transaction.
  abbrev pub is_allowed : Edge → Option Float → Bool
  is_allowed e score = not (e.source_document_id == e.target_document_id) && is_in_range score

  unfoldable pub upsert_relation :
      Edge → Decision Float → List (DocumentRelation Float) → Result (List (DocumentRelation Float))
  unfolding insert_or_update
  upsert_relation e d rows =
      if is_allowed e d.score then returns (insert_or_update e d rows) else raises integrity_error

  -- The two edges of one decision.
  abbrev pub write_edges :
      ℕ
      → ℕ
      → ℕ
      → Option (Decision Float)
      → List (DocumentRelation Float)
      → Result (List (DocumentRelation Float))
  write_edges tenant document other none rows = returns rows
  write_edges tenant document other (some d) rows =
      upsert_relation (edge_of tenant document other d) d rows
      >>= upsert_relation (edge_of tenant other document d) d

  -- The loop of `detect_relations` over the gathered candidates.
  unfoldable pub detect_relations :
      Settings Float
      → ℕ
      → ℕ
      → List (Candidate Float)
      → List (DocumentRelation Float)
      → Result (List (DocumentRelation Float))
  unfolding upsert_relation classify
  detect_relations settings tenant document [] rows = returns rows
  detect_relations settings tenant document (c ∷ cs) rows =
      write_edges tenant document c.document_id (classify 𝓕 c settings) rows
      >>= detect_relations settings tenant document cs
