-- ===== src/Tests/Scored.antt =====
-- app/evaluation/metrics.py on a list that repeats a source.
use document_intelligence_mv.Prelude.{◌≡◌, refl, List, [], ◌∷◌, Text, codes, text_eq}
use document_intelligence_mv.Errors.{returns}
use document_intelligence_mv.Metrics.{
  Ratio, unique, unique_from, recall_at_k, precision_at_k, mean_reciprocal_rank, reciprocal_from,
}

abbrev retrieved : List Text
retrieved = codes "b" ∷ codes "b" ∷ codes "a" ∷ []

abbrev relevant : List Text
relevant = codes "a" ∷ codes "c" ∷ []

abbrev none_found : Ratio
none_found = record { top = 0; bottom = 2 }

abbrev half_found : Ratio
half_found = record { top = 1; bottom = 2 }

recall_one_runs : recall_at_k relevant retrieved 1 ≡ returns none_found
unfolding recall_at_k unique unique_from text_eq
recall_one_runs = refl

recall_two_runs : recall_at_k relevant retrieved 2 ≡ returns half_found
unfolding recall_at_k unique unique_from text_eq
recall_two_runs = refl

precision_runs : precision_at_k relevant retrieved 2 ≡ returns half_found
unfolding precision_at_k unique unique_from text_eq
precision_runs = refl

reciprocal_runs : mean_reciprocal_rank relevant retrieved ≡ returns half_found
unfolding mean_reciprocal_rank reciprocal_from unique unique_from text_eq
reciprocal_runs = refl
