-- ===== src/Floats.antt =====
-- Python's floats, of which the services read an order, a few constants and roundings. They are a
-- parameter: nothing is said of their values.
use document_intelligence_mv.Prelude.{Bool, true, false, ◌≡◌}

pub record Floats : Type 1 where
  pub Float : Type 0
  pub le : Float → Float → Bool  -- a <= b
  pub zero_float : Float
  pub one : Float
  pub round4 : Float → Float  -- round(x, 4)

-- What the theorems that compare scores ask of the order. It is true of floats that are no NaN.
pub record IsOrdered (𝓕 : Floats) : Type 0 where
  pub total : (a b : 𝓕.Float) → 𝓕.le a b ≡ false → 𝓕.le b a ≡ true
  pub trans : (a b c : 𝓕.Float) → 𝓕.le a b ≡ true → 𝓕.le b c ≡ true → 𝓕.le a c ≡ true
  pub zero_le_one : 𝓕.le 𝓕.zero_float 𝓕.one ≡ true
  pub one_refl : 𝓕.le 𝓕.one 𝓕.one ≡ true
  pub zero_refl : 𝓕.le 𝓕.zero_float 𝓕.zero_float ≡ true
