-- ===== src/Scoring/Pairing.antt =====
-- Mirror pairing (apps/api/internal/scoring/pairing.go): rank k with rank N + 1 - k.
pub mod Mirror
use stockastic.Prelude.{
  refl, ℕ, List, Option, length, some, if◌then◌else◌, [], ◌==◌, ◌||◌, suc, get_elem?, not, ◌%◌,
  none, ◌-◌, ◌/◌, ◌+◌, ◌∷◌, zero,
}

pub record FundPairing {ℓ} (T : Type ℓ) : Type ℓ where
  pub fund_number : ℕ
  pub stronger : T
  pub weaker : T

-- How the pairing can end: an error with the number of teams, a read out of range, or the pairs.
pub data Paired {ℓ} (T : Type ℓ) : Type ℓ where
  odd_or_empty : ℕ → Paired T
  out_of_range : Paired T
  pairs : List (FundPairing T) → Paired T

module _ {ℓ} {T : Type ℓ} where
  -- `for k := from; k < from+count; k++`, with the two elements that iteration k reads; `none` is an
  -- index out of range.
  unfoldable pub pair_up : List T → ℕ → ℕ → Option (List (FundPairing T))
  pair_up best_first from zero = some []
  pair_up best_first from (suc count) = elim (get_elem? best_first from) [
    | none ↦ none
    | some s ↦ elim (get_elem? best_first (length best_first - 1 - from)) [
      | none ↦ none
      | some w ↦ elim (pair_up best_first (from + 1) count) [
        | none ↦ none
        | some rest ↦ some (record { fund_number = from + 1; stronger = s; weaker = w } ∷ rest)
      ]
    ]
  ]

  unfoldable pub mirror_pairing : List T → Paired T
  unfolding pair_up
  mirror_pairing best_first =
      let n = length best_first in
      if n == 0 || not (n % 2 == 0)
      then odd_or_empty n
      else elim (pair_up best_first 0 (n / 2)) [ none ↦ out_of_range | some ps ↦ pairs ps ]
