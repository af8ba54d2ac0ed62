-- ===== src/Metrics.antt =====
-- app/evaluation/metrics.py: the ranking metrics of one retrieved list. A quotient of two counts is kept as
-- the fraction that it is, and a set of source ids is the list of its elements.
pub mod Bounds
use document_intelligence_mv.Prelude.{
  ℕ, suc, Bool, true, false, List, [], ◌∷◌, Text, is_empty, select, take, length, contains, text_eq,
  if◌then◌else◌, ltb,
}
use document_intelligence_mv.Errors.{Result, returns, raises, value_error, raise_if, ◌>>=◌, ◌>>◌}

-- `top / bottom`
pub record Ratio : Type 0 where
  pub top : ℕ
  pub bottom : ℕ

-- The loop of `_unique`, from the items that it has seen.
unfoldable pub unique_from : List Text → List Text → List Text
unique_from seen [] = []
unique_from seen (item ∷ items) =
    let skipped = unique_from seen items in
    let kept = unique_from (item ∷ seen) items in
    if contains seen item then skipped else item ∷ kept

unfoldable pub unique : List Text → List Text
unique retrieved = unique_from [] retrieved

-- `len(relevant & hits)`
abbrev pub common : List Text → List Text → ℕ
common relevant hits = length (select (contains hits) relevant)

unfoldable pub recall_at_k : List Text → List Text → ℕ → Result Ratio
recall_at_k relevant retrieved k = do
  raise_if (is_empty relevant) value_error
  raise_if (ltb k 1) value_error
  returns (record { top = common relevant (take k (unique retrieved)); bottom = length relevant })

unfoldable pub precision_at_k : List Text → List Text → ℕ → Result Ratio
precision_at_k relevant retrieved k = do
  raise_if (ltb k 1) value_error
  returns (
      if is_empty (take k (unique retrieved))
      then record { top = 0; bottom = 1 }
      else record { top = common relevant (take k (unique retrieved)); bottom = k })

-- The loop of `mean_reciprocal_rank` over the enumeration from `rank` on.
unfoldable pub reciprocal_from : List Text → ℕ → List Text → Ratio
reciprocal_from relevant rank [] = record { top = 0; bottom = 1 }
reciprocal_from relevant rank (item ∷ items) =
    let rest = reciprocal_from relevant (suc rank) items in
    if contains relevant item then record { top = 1; bottom = rank } else rest

unfoldable pub mean_reciprocal_rank : List Text → List Text → Result Ratio
mean_reciprocal_rank relevant retrieved = do
  raise_if (is_empty relevant) value_error
  returns (reciprocal_from relevant 1 (unique retrieved))
