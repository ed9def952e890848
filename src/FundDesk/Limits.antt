-- ===== src/FundDesk/Limits.antt =====
-- What may be put into a fund now (apps/api/internal/app/funds.go, `OpenWindow`, `investorCheck`,
-- `floorUnits` and `capRooms`; apps/api/internal/scoring/funds.go, `MinInvestment` and `MandatoryPool`).
use stockastic.Prelude.Int64.{wrap}
use stockastic.Prelude.Dict.{Dict, insert, str_key}
use stockastic.Prelude.Str.{Str}
use stockastic.Funds.Events.{Fund}
use stockastic.Ledger.State.{Ledger}
use stockastic.Funds.Float.{Float, from_rupees}
use stockastic.Prelude.{
  Bool, List, Option, true, ℕ, false, if◌then◌else◌, ◌∷◌, none, not, length, [], some, ◌||◌, ◌&&◌,
  map, suc,
}
use stockastic.Prelude.Int.{ℤ, pos, ltb_ℤ}
use stockastic.FundDesk.{
  User, Role, investor, OrderError, investors_only, disqualified_user, funds_not_formed, FundRules,
  total_value,
}
use stockastic.EventClock.State.{Clock}
use stockastic.EventClock.Access.{window_open}
use stockastic.Scoring.Caps.{CapFund, CapState, allocation_caps}
use stockastic.Funds.Book.{Book, taken_in}

-- The first of the windows, from the `w`-th, that is open.
unfoldable pub first_open : Clock → ℤ → List (Option Bool) → ℕ → Option ℤ
first_open c now [] w = none
first_open c now (_ ∷ ws) w =
    if window_open c now (pos w) then some (pos w) else first_open c now ws (suc w)

unfoldable pub open_window : Clock → ℤ → Option ℤ
unfolding first_open
open_window c now = first_open c now c.ov.windows 0

abbrev pub is_investor : Role → Bool
is_investor investor = true
is_investor _ = false

-- `out[s.FundID] = s.Room` for every state; the last one counts.
unfoldable pub rooms_from : Dict Str ℤ → List CapState → Dict Str ℤ
rooms_from d [] = d
rooms_from d (s ∷ ss) = rooms_from (insert s.fund_id s.room d) ss

module _ {W : Type 0} ⦃f : Float W⦄ where
  unfoldable pub investor_check : {G : Type 0} → Book W → User → Option (OrderError G)
  investor_check b u =
      if not (is_investor u.role) || u.is_admin
      then some investors_only
      else if u.disqualified
      then some disqualified_user
      else if not b.formed
      then some funds_not_formed
      else none

  unfoldable pub floor_units : W → W
  floor_units x = f.div (f.floor (f.mul x f.million)) f.million

  abbrev pub percent_of : ℤ → W → ℤ
  percent_of amount pct = f.round (f.div (f.mul (f.of_int amount) pct) f.hundred)

  unfoldable pub min_investment : ℤ → FundRules W → ℤ
  min_investment wallet r =
      let smallest = from_rupees r.min_investment_absolute in
      let pct = percent_of wallet r.min_investment_wallet_percent in
      if ltb_ℤ pct smallest then pct else smallest

  unfoldable pub pool_from : W → List ℤ → W → W
  pool_from total [] pct = total
  pool_from total (v ∷ vs) pct =
      pool_from (f.add total (f.div (f.mul (f.of_int v) pct) f.hundred)) vs pct

  unfoldable pub mandatory_pool : List ℤ → W → ℤ
  unfolding pool_from
  mandatory_pool values pct = f.round (pool_from f.zero_float values pct)

  module _ (l : Ledger) (price : Str → Option ℤ) (b : Book W) (navs : Dict Str W) where
    unfoldable pub wallets : List User → List ℤ
    wallets [] = []
    wallets (u ∷ us) =
        let rest = wallets us in
        if not u.is_admin && (is_investor u.role && not u.disqualified)
        then total_value l price b u.id navs ∷ rest
        else rest

  abbrev pub cap_fund : Book W → ℤ → Fund W → CapFund
  cap_fund b window fd = record {
    fund_id = fd.formed.id;
    headcount = pos 1;
    inflow_this_window = taken_in b.inflow window fd.formed.id;
    active = not fd.disqualified;
  }

  -- `none`: `AllocationCaps` divides by zero, where the number of funds is zero in an `int64`.
  unfoldable pub cap_rooms :
      Ledger
      → (Str → Option ℤ)
      → Book W
      → FundRules W
      → List User
      → ℤ
      → Dict Str W
      → Option (Dict Str ℤ)
  unfolding mandatory_pool wallets rooms_from
  cap_rooms l price b rules users window navs =
      let pool = mandatory_pool (wallets l price b navs users) rules.mandatory_allocation_percent in
      elim (allocation_caps pool (wrap (pos (length b.funds))) (pos 1)
        (from_rupees rules.min_investment_absolute) (map (cap_fund b window) b.funds)) [
          | none ↦ none
          | some (_, states) ↦ some (rooms_from [] states)
        ]
