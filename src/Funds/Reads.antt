-- ===== src/Funds/Reads.antt =====
-- What the book tells (funds.go, the reads), and the figures of a checkpoint (`PlanCheckpoint`).
use stockastic.Prelude.Int64.{add64}
use stockastic.Prelude.Sort.{sort_by}
use stockastic.Prelude.Int.{ℤ, pos, leb_ℤ, ltb_ℤ}
use stockastic.Prelude.Dict.{Dict, lookup, str_key}
use stockastic.Prelude.Str.{Str, str_eq, str_lt, is_empty}
use stockastic.Prelude.{
  ℕ, List, Bool, Option, false, if◌then◌else◌, map, none, ◌∷◌, ◌||◌, some, [], ◌++◌, not, ◌==◌, ltb,
  length, get_elem?, ◌&&◌, suc,
}
use stockastic.Funds.Float.{Float, from_rupees}
use stockastic.Funds.Book.{Book, taken_in, no_holding, holding_at}
use stockastic.Funds.Events.{Fund, Holding, FundCheckpoint, Checkpoint, StrategyLog}

unfoldable pub logs_of : Str → List StrategyLog → List StrategyLog
logs_of account [] = []
logs_of account (l ∷ ls) =
    let rest = logs_of account ls in
    if is_empty account || str_eq l.account account then l ∷ rest else rest

abbrev aum_of : Dict Str ℤ → Str → ℤ
aum_of d id = elim (lookup id d) [ none ↦ pos 0 | some a ↦ a ]

module _ {W : Type 0} ⦃f : Float W⦄ where
  unfoldable pub fund : Book W → Str → Option (Fund W)
  fund b id = elim (lookup id b.by_id) [ none ↦ none | some i ↦ get_elem? b.funds i ]

  abbrev has_member : Str → Fund W → Bool
  has_member account fd = str_eq fd.formed.member account || str_eq fd.formed.other_member account

  unfoldable pub first_with : Str → List (Fund W) → Option (Fund W)
  first_with account [] = none
  first_with account (fd ∷ fs) = if has_member account fd then some fd else first_with account fs

  unfoldable pub fund_of_member : Book W → Str → Option (Fund W)
  unfolding first_with
  fund_of_member b account = first_with account b.funds

  unfoldable pub holding : Book W → Str → Str → Holding W
  holding b investor id = holding_at b.holdings investor id (no_holding false)

  abbrev investor_in : Str → Str × Dict Str (Holding W) → List (Str × Holding W)
  investor_in id (investor, m) = elim (lookup id m) [
    | none ↦ []
    | some h ↦ if h.seed then [] else (investor, h) ∷ []
  ]

  unfoldable pub holders : Str → Dict Str (Dict Str (Holding W)) → List (Str × Holding W)
  holders id [] = []
  holders id (e ∷ d) = investor_in id e ++ holders id d

  unfoldable pub investors_of : Book W → Str → List (Str × Holding W)
  unfolding holders
  investors_of b id = sort_by (λ x y. str_lt x.0 y.0) (holders id b.holdings)

  abbrev has_own : Dict Str (Holding W) → Bool
  has_own [] = false
  has_own ((_, h) ∷ m) = not h.seed || has_own m

  unfoldable pub own_investors : Dict Str (Dict Str (Holding W)) → List Str
  own_investors [] = []
  own_investors ((id, m) ∷ d) = let rest = own_investors d in if has_own m then id ∷ rest else rest

  unfoldable pub investors : Book W → List Str
  unfolding own_investors
  investors b = sort_by str_lt (own_investors b.holdings)

  unfoldable pub inflow : Book W → ℤ → Str → ℤ
  inflow b window id = taken_in b.inflow window id

  unfoldable pub risk : Book W → Str → Option (ℤ × ℤ × W)
  risk b investor = elim (lookup investor b.risks) [
    | none ↦ none
    | some r ↦ some (r.first, r.peak, r.max_dd)
  ]

  unfoldable pub avg_diversification : Book W → Str → Option W
  avg_diversification b investor = elim (lookup investor b.risks) [
    | none ↦ none
    | some r ↦ if r.div_n == 0 then none else some (f.div r.div_sum (f.of_int (pos r.div_n)))
  ]

  unfoldable pub max_drawdown : Book W → Str → W
  unfolding fund
  max_drawdown b id = elim (fund b id) [ none ↦ f.zero_float | some fd ↦ fd.max_dd ]

  unfoldable pub retention : Book W → Str → W
  unfolding fund
  retention b id = elim (fund b id) [
    | none ↦ f.one_float
    | some fd ↦
        if f.le fd.minted_units f.zero_float
        then f.one_float
        else f.max f.zero_float (f.sub f.one_float (f.div fd.redeemed_units fd.minted_units))
  ]

  -- How many count, and how many of them are in profit.
  unfoldable pub count_profits : Str → W → Dict Str (Dict Str (Holding W)) → ℕ × ℕ
  count_profits id nav [] = (0, 0)
  count_profits id nav ((_, m) ∷ d) =
      let (total, won) = count_profits id nav d in
      elim (lookup id m) [
        | none ↦ (total, won)
        | some h ↦ if leb_ℤ h.contributed (pos 0) || h.seed then (total, won) else (
          suc total,
          if ltb_ℤ h.contributed (add64 (from_rupees (f.mul h.units nav)) h.redeemed)
              then suc won
              else won,
        )
      ]

  unfoldable pub profitability : Book W → Str → W → W
  unfolding count_profits
  profitability b id nav =
      let (total, won) = count_profits id nav b.holdings in
      if total == 0 then f.zero_float else f.div (f.of_int (pos won)) (f.of_int (pos total))

  unfoldable pub has_investors : Str → Dict Str (Dict Str (Holding W)) → Bool
  has_investors id [] = false
  has_investors id ((_, m) ∷ d) =
      let rest = has_investors id d in
      elim (lookup id m) [
        | none ↦ rest
        | some h ↦ not h.seed && ltb_ℤ (pos 0) h.contributed || rest
      ]

  abbrev nav_of : Dict Str W → Str → W
  nav_of d id = elim (lookup id d) [ none ↦ f.zero_float | some a ↦ a ]

  abbrev pub nav_at : W → Dict Str W → Str → W
  nav_at launch d id = if f.le (nav_of d id) f.zero_float then launch else nav_of d id

  -- The figures of one fund; `first` is whether this is the first checkpoint, which charges no
  -- management fee.
  unfoldable pub plan_fund : W → Bool → Dict Str W → Dict Str ℤ → W → W → Fund W → FundCheckpoint W
  plan_fund launch first navs aums mgmt_pct perf_pct fd =
      let id = fd.formed.id in
      let nav = nav_at launch navs id in
      let avg =
        if ltb 0 fd.aum_n
        then f.div fd.aum_sum (f.of_int (pos fd.aum_n))
        else f.of_int (aum_of aums id) in
      let pct =
        if f.lt f.zero_float fd.profile.management_fee_percent
        then fd.profile.management_fee_percent
        else mgmt_pct in
      let profit = f.lt fd.hwm nav in
      record {
        fund_id = id;
        nav = nav;
        aum = aum_of aums id;
        avg_aum = f.round avg;
        units = fd.units;
        mgmt_fee = if first then pos 0 else f.round (f.div (f.mul avg pct) f.hundred);
        perf_fee =
            if profit
            then from_rupees (f.mul (f.div (f.mul (f.sub nav fd.hwm) perf_pct) f.hundred) fd.units)
            else pos 0;
        hwm_before = fd.hwm;
        hwm_after = if profit then nav else fd.hwm;
      }

  unfoldable pub plan_checkpoint : Book W → Str → ℤ → Dict Str W → Dict Str ℤ → W → W → Checkpoint W
  unfolding plan_fund
  plan_checkpoint b name at navs aums mgmt_pct perf_pct = record {
    name = name;
    at = at;
    funds = map (plan_fund b.launch_nav (length b.checks == 0) navs aums mgmt_pct perf_pct) b.funds;
  }
