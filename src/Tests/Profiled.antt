-- ===== src/Tests/Profiled.antt =====
-- The cleaning of a model's list.
use document_intelligence_mv.Prelude.{
  ◌≡◌, ◌≢◌, refl, false, List, [], ◌∷◌, Text, codes, All, Pairs, is_empty, strip, nat_eq, text_eq,
}
use document_intelligence_mv.Profiling.{clean, clean_from}
use document_intelligence_mv.Profiling.Cleaning.{IsTidy, IsKept, clean_lem}
use document_intelligence_mv.Tests.Samples.{ascii_lower}

abbrev organizations : List Text
organizations = codes " Acme" ∷ codes "  " ∷ codes "ACME " ∷ codes "Bolt" ∷ []

clean_runs : clean ascii_lower organizations ≡ codes "Acme" ∷ codes "Bolt" ∷ []
unfolding clean clean_from strip text_eq nat_eq
clean_runs = refl

clean_lem_example :
    All IsTidy (clean ascii_lower organizations)
    × Pairs (λ a b. ascii_lower b ≢ ascii_lower a) (clean ascii_lower organizations)
    × All
        (λ v.
          is_empty (strip v) ≡ false
          → IsKept ascii_lower (clean ascii_lower organizations) (ascii_lower (strip v)))
        organizations
clean_lem_example = clean_lem ascii_lower organizations
