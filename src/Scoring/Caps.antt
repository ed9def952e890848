-- ===== src/Scoring/Caps.antt =====
-- The equal-cap rule of an allocation window (apps/api/internal/scoring/funds.go, `AllocationCaps`).
pub mod Level
use stockastic.Prelude.Int64.{sub64, mul64, add64, max_int64}
use stockastic.Prelude.Int.{ℤ, max_ℤ, quot, pos, leb_ℤ, ltb_ℤ, eqb_ℤ}
use stockastic.Prelude.Str.{Str}
use stockastic.Prelude.{ℕ, Bool, List, if◌then◌else◌, Option, not, some, ◌∷◌, [], none, map}

pub record CapFund : Type 0 where
  pub fund_id : Str
  pub headcount : ℤ
  pub inflow_this_window : ℤ
  pub active : Bool

pub record CapState : Type 0 where
  pub fund_id : Str
  pub tranche : ℤ
  pub allowance : ℤ
  pub room : ℤ

module _ (pool fund_count standard_headcount min_ticket : ℤ) where
  unfoldable pub tolerance : ℤ
  tolerance = max_ℤ (sub64 min_ticket (pos 1)) (pos 0)

  unfoldable pub tranche : CapFund → ℤ
  tranche f = quot (mul64 pool f.headcount) (mul64 fund_count standard_headcount)

  -- The whole tranches that a fund has filled.
  unfoldable pub filled : CapFund → ℤ
  unfolding tolerance tranche
  filled f = quot (add64 f.inflow_this_window tolerance) (tranche f)

  -- The fewest, where a fund with no tranche ends the loop.
  unfoldable pub min_filled : ℤ → List CapFund → ℤ
  unfolding filled
  min_filled least [] = least
  min_filled least (f ∷ fs) =
      let rest = min_filled (if ltb_ℤ (filled f) least then filled f else least) fs in
      if leb_ℤ (tranche f) (pos 0) then pos 0 else rest

  unfoldable pub active_funds : List CapFund → List CapFund
  active_funds [] = []
  active_funds (f ∷ fs) = if f.active then f ∷ active_funds fs else active_funds fs

  abbrev pub level_of : List CapFund → ℤ
  level_of [] = pos 1
  level_of (f ∷ fs) = add64 (min_filled max_int64 (f ∷ fs)) (pos 1)

  unfoldable pub level : List CapFund → ℤ
  unfolding min_filled active_funds
  level funds = level_of (active_funds funds)

  unfoldable pub cap_state : ℤ → CapFund → CapState
  unfolding tranche
  cap_state level f =
      let t = tranche f in
      let none_left : CapState = record {
        fund_id = f.fund_id;
        tranche = t;
        allowance = pos 0;
        room = pos 0;
      } in
      if not f.active
      then none_left
      else if leb_ℤ t (pos 0)
      then record none_left { allowance = max_int64; room = max_int64 }
      else let allowance = mul64 level t in
        if ltb_ℤ f.inflow_this_window allowance
        then record none_left { allowance = allowance; room = sub64 allowance f.inflow_this_window }
        else record none_left { allowance = allowance }

  -- `none`: the division by zero of a fund's tranche panics.
  unfoldable pub allocation_caps : List CapFund → Option (ℤ × List CapState)
  unfolding level cap_state
  allocation_caps [] = some (level [], [])
  allocation_caps (f ∷ fs) =
      if eqb_ℤ (mul64 fund_count standard_headcount) (pos 0)
      then none
      else some (level (f ∷ fs), map (cap_state (level (f ∷ fs))) (f ∷ fs))
