-- ===== src/Funds/Float.antt =====
-- What the book does with a `float64`. Its type and operations are a parameter: no law of them is
-- assumed except where a theorem says so.
use stockastic.Prelude.{Bool}
use stockastic.Prelude.Int.{ℤ}

pub record Float (W : Type 0) : Type 0 where
  pub zero_float : W
  pub one_float : W
  pub hundred : W
  pub add : W → W → W
  pub sub : W → W → W
  pub mul : W → W → W
  pub div : W → W → W
  pub lt : W → W → Bool
  pub le : W → W → Bool
  pub max : W → W → W
  pub min : W → W → W
  pub floor : W → W
  pub ceil : W → W
  -- Neither NaN nor an infinity.
  pub is_finite : W → Bool
  -- 1e6, 1e-9, 1e-6 and 1.001
  pub million : W
  pub billionth : W
  pub millionth : W
  pub spare : W
  pub of_int : ℤ → W
  -- `int64(x)`
  pub to_int : W → ℤ
  -- `int64(math.Round(x))`
  pub round : W → ℤ

-- `money.FromRupees`
unfoldable pub from_rupees : {W : Type 0} ⦃f : Float W⦄ → W → ℤ
from_rupees ⦃f⦄ r = f.round (f.mul r f.hundred)

-- `Paise.Rupees`
unfoldable pub rupees : {W : Type 0} ⦃f : Float W⦄ → ℤ → W
rupees ⦃f⦄ p = f.div (f.of_int p) f.hundred
