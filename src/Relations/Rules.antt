-- ===== src/Relations/Rules.antt =====
-- The rules of `classify` (app/services/relations.py), stated one by one, and their order.
use document_intelligence_mv.Prelude.{
  ◌≡◌, ◌⊎◌, Bool, true, not, ◌&&◌, arith, List, [], ◌∷◌, Option, none, some, is_empty, leb, length,
  first, select, subst, inl, inr,
}
use document_intelligence_mv.Models.{
  RelationType, exact_duplicate, content_duplicate, possible_version, same_case, same_entity,
  related,
}
use document_intelligence_mv.Floats.{Floats, IsOrdered}
use document_intelligence_mv.Relations.{
  Settings, Candidate, Decision, shared_entities, classify, reaches,
}

module _ (𝓕 : Floats) where
  open 𝓕 use {Float, le, one, zero_float}

  -- When each relation holds of a pair of documents, whatever the other rules say.
  pub holds : Candidate Float → Settings Float → RelationType → Bool
  holds c s exact_duplicate = c.same_file_hash
  holds c s content_duplicate = c.same_content_hash
  holds c s possible_version =
      reaches 𝓕 c.similarity s.relation_version_similarity
      && leb s.relation_min_shared_entities (shared_entities c)
  holds c s same_case = leb s.relation_min_shared_identifiers (length c.shared_identifiers)
  holds c s same_entity =
      not (is_empty c.shared_organizations && is_empty c.shared_persons)
      && leb s.relation_min_shared_entities (shared_entities c)
  holds c s related = reaches 𝓕 c.similarity s.relation_related_similarity

  -- From the most certain to the least, as the enum `RelationType` lists them.
  abbrev pub certainty : List RelationType
  certainty =
      exact_duplicate ∷ content_duplicate ∷ possible_version ∷ same_case ∷ same_entity ∷ related
      ∷ []

  abbrev pub type_of : Option (Decision Float) → Option RelationType
  type_of none = none
  type_of (some d) = some d.relation_type

  -- The decision is the most certain relation that holds, and there is none exactly when none holds.
  pub classify_most_certain :
      (c : Candidate Float) (s : Settings Float)
      → type_of (classify 𝓕 c s) ≡ first (select (holds c s) certainty)
  unfolding classify holds
  classify_most_certain c s = ground arith

  abbrev pub InUnit : Option Float → Type 0
  InUnit none = Unit
  InUnit (some x) = (le zero_float x ≡ true) × (le x one ≡ true)

  classify-score :
      (c : Candidate Float) (s : Settings Float) (d : Decision Float)
      → classify 𝓕 c s ≡ some d
      → (some one ≡ d.score) ⊎ (c.similarity ≡ d.score)
  unfolding classify
  classify-score c s d h = ground arith

  -- A score that is written keeps to the range that the table's CHECK demands, if the similarity does.
  pub classify-InUnit :
      IsOrdered 𝓕
      → (c : Candidate Float) (s : Settings Float) (d : Decision Float) → InUnit c.similarity
      → classify 𝓕 c s ≡ some d
      → InUnit d.score
  classify-InUnit o c s d u h = elim (classify-score c s d h) [
    | inl e ↦ subst InUnit e (o.zero_le_one, o.one_refl)
    | inr e ↦ subst InUnit e u
  ]
