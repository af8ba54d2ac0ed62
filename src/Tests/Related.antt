-- ===== src/Tests/Related.antt =====
-- app/services/relations.py on two invoices of one customer.
use document_intelligence_mv.Prelude.{
  ℕ, ◌≡◌, ◌≢◌, ◌⊎◌, List, All, In, refl, none, some, [], ◌∷◌, codes, inl, arith, false, nat_eq,
  text_eq, first, select, strip,
}
use document_intelligence_mv.Models.{relation_type_eq, possible_version}
use document_intelligence_mv.Relations.{
  Candidate, Settings, Decision, DocumentRelation, edge_eq, upsert_relation, overlap, classify,
  detect_relations, edge_of, document_vector_and_entities,
}
use document_intelligence_mv.Relations.Rules.{holds, certainty, type_of, classify_most_certain}
use document_intelligence_mv.Relations.Edges.{find, verdict, detect_relations-stale}
use document_intelligence_mv.Relations.Checks.{
  IsRefused, detect_relations_cases, detect_relations-both_ways,
}
use document_intelligence_mv.Errors.{returns, raises, integrity_error}
use document_intelligence_mv.Tests.Samples.{percents, percents-IsOrdered, ascii_lower}

abbrev settings : Settings ℕ
settings = record {
  relation_version_similarity = 92;
  relation_related_similarity = 75;
  relation_min_shared_entities = 2;
  relation_min_shared_identifiers = 1;
  relation_max_candidates = 20;
}

abbrev twin : Candidate ℕ
twin = record {
  document_id = 71;
  similarity = some 95;
  same_file_hash = false;
  same_content_hash = false;
  shared_identifiers = codes "INV-1" ∷ [];
  shared_organizations = codes "Acme" ∷ [];
  shared_persons = [];
  shared_dates = codes "2024-01-01" ∷ [];
  shared_topics = [];
}

abbrev version : Decision ℕ
version = record {
  relation_type = possible_version;
  score = some 95;
  reason = document_vector_and_entities 95 92 (codes "Acme" ∷ []) [] (codes "2024-01-01" ∷ []);
}

overlap_runs :
    overlap ascii_lower
      (codes " ACME " ∷ codes "Bob" ∷ codes "acme" ∷ codes "" ∷ [])
      (codes "acme" ∷ codes "" ∷ [])
    ≡ codes "ACME" ∷ []
unfolding overlap nat_eq text_eq strip
overlap_runs = refl

classify_runs : classify percents twin settings ≡ some version
unfolding classify
classify_runs = refl

classify_most_certain_example :
    type_of percents (classify percents twin settings)
    ≡ first (select (holds percents twin settings) (certainty percents))
classify_most_certain_example = classify_most_certain percents twin settings

both_ways_example :
    (rows' : List (DocumentRelation ℕ)) × (detect_relations percents settings 7 70 (twin ∷ []) []
      ≡ returns rows')
    × (find (edge_of 7 70 71 version) rows' ≡ some (verdict version))
    × (find (edge_of 7 71 70 version) rows' ≡ some (verdict version))
both_ways_example =
    detect_relations-both_ways percents settings 7 70 percents-IsOrdered (twin ∷ []) [] (tt, tt)
      (ground arith, tt) ((refl, refl), tt) twin version (inl refl) classify_runs

-- The document itself among the candidates.
abbrev self : Candidate ℕ
self = record twin { document_id = 70 }

detect_relations_cases_example :
    ((rows' : List (DocumentRelation ℕ)) × (detect_relations percents settings 7 70
          (twin ∷ self ∷ [])
          []
        ≡ returns rows')
      × All (λ c. IsRefused percents settings 7 70 c → ⊥) (twin ∷ self ∷ []))
    ⊎ ((detect_relations percents settings 7 70 (twin ∷ self ∷ []) [] ≡ raises integrity_error)
        × (c : Candidate ℕ) × In c (twin ∷ self ∷ [])
        × IsRefused percents settings 7 70 c)
detect_relations_cases_example = detect_relations_cases percents settings 7 70 (twin ∷ self ∷ []) []

refused_runs :
    detect_relations percents settings 7 70 (twin ∷ self ∷ []) [] ≡ raises integrity_error
unfolding detect_relations upsert_relation classify edge_eq nat_eq
refused_runs = refl

abbrev old_edge : DocumentRelation ℕ
old_edge = record { edge = edge_of 7 70 71 version; score = version.score; reason = version.reason }

old_edge_found : find (edge_of 7 70 71 version) (old_edge ∷ []) ≢ none
unfolding find edge_eq
old_edge_found h = cc

abbrev drawn : ℕ → ℕ → DocumentRelation ℕ
drawn source target = record {
  edge = edge_of 7 source target version;
  score = version.score;
  reason = version.reason;
}

abbrev other : Candidate ℕ
other = record twin { document_id = 72 }

later_runs :
    detect_relations percents settings 7 70 (other ∷ []) (old_edge ∷ [])
    ≡ returns (drawn 72 70 ∷ drawn 70 72 ∷ old_edge ∷ [])
unfolding detect_relations upsert_relation classify edge_eq nat_eq
later_runs = refl

-- A later run that no more finds the other document leaves the edge that an earlier run has drawn.
stale_example :
    find (edge_of 7 70 71 version) (drawn 72 70 ∷ drawn 70 72 ∷ old_edge ∷ [])
    ≡ find (edge_of 7 70 71 version) (old_edge ∷ [])
stale_example =
    detect_relations-stale percents settings 7 70 (other ∷ []) (old_edge ∷ [])
      (drawn 72 70 ∷ drawn 70 72 ∷ old_edge ∷ []) (edge_of 7 70 71 version) later_runs
      ((ground arith, ground arith), tt)
