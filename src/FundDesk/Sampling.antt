-- ===== src/FundDesk/Sampling.antt =====
-- Checkpoints and the once-a-minute series (apps/api/internal/app/funds.go, from `fundAUMs` to
-- `sampleSeries`, and `effectiveHoldings`; apps/api/internal/scoring/herfindahl.go).
use stockastic.Funds.Book.{Book, at_key}
use stockastic.Prelude.Int.{ℤ}
use stockastic.FundDesk.Allocating.{navs_at}
use stockastic.Funds.Events.{Fund, Checkpoint, Holding, Event, op_checkpoint, op_series}
use stockastic.Prelude.Dict.{Dict, str_key}
use stockastic.Prelude.{
  List, Option, Bool, if◌then◌else◌, map, false, ◌&&◌, not, ◌∷◌, ◌||◌, none, [], some, ◌++◌,
}
use stockastic.Prelude.Str.{Str, str_eq}
use stockastic.Funds.Float.{Float}
use stockastic.FundDesk.{FundDesk, Around, User, fund_value, nav_in, total_value}
use stockastic.FundDesk.Orders.{no_event}
use stockastic.FundDesk.Limits.{is_investor}
use stockastic.FundDesk.Logs.{store_and_apply}
use stockastic.Funds.Reads.{plan_checkpoint}
use stockastic.Ledger.Valuation.{snapshot}
use stockastic.Ledger.State.{Position, Ledger}
use stockastic.EventClock.State.{Clock, position}

module _ {W : Type 0} ⦃f : Float W⦄ where
  unfoldable pub positive_sum : W → List W → W
  positive_sum total [] = total
  positive_sum total (v ∷ vs) =
      positive_sum (if f.lt f.zero_float v then f.add total v else total) vs

  unfoldable pub squares : W → W → List W → W
  squares total h [] = h
  squares total h (v ∷ vs) =
      squares total
        (if f.lt f.zero_float v then f.add h (f.mul (f.div v total) (f.div v total)) else h) vs

  unfoldable pub herfindahl : List W → W
  unfolding positive_sum squares
  herfindahl vs =
      let total = positive_sum f.zero_float vs in
      if f.le total f.zero_float then f.one_float else squares total f.zero_float vs

  unfoldable pub share_values : (Str → Option ℤ) → List Position → List W
  share_values price [] = []
  share_values price (p ∷ ps) =
      let rest = share_values price ps in
      elim (price p.symbol) [ none ↦ rest | some px ↦ f.mul (f.of_int px) (f.of_int p.qty) ∷ rest ]

  unfoldable pub unit_values : Dict Str W → Dict Str (Holding W) → List W
  unit_values navs [] = []
  unit_values navs ((id, h) ∷ hs) =
      let rest = unit_values navs hs in
      if f.lt f.zero_float h.units
      then f.mul (f.mul h.units (nav_in navs id)) f.hundred ∷ rest
      else rest

  unfoldable pub sum_of : W → List W → W
  sum_of total [] = total
  sum_of total (v ∷ vs) = sum_of (f.add total v) vs

  unfoldable pub effective_holdings : Ledger → (Str → Option ℤ) → Book W → Str → Dict Str W → W
  unfolding share_values unit_values sum_of herfindahl
  effective_holdings l price b id navs =
      let shares : List W = elim (snapshot l id) [
        | none ↦ []
        | some s ↦ share_values price s.positions
      ] in
      let vals = shares ++ unit_values navs (at_key id b.holdings) in
      if f.le (sum_of f.zero_float vals) f.zero_float
      then f.zero_float
      else f.div f.one_float (herfindahl vals)

  unfoldable pub fund_aums : Ledger → (Str → Option ℤ) → List (Fund W) → Dict Str ℤ
  fund_aums l price fs = map (λ fd. (fd.formed.id, fund_value l price fd)) fs

  -- The management fee of a fund, or the rulebook's.
  unfoldable pub fund_fee : Fund W → W → W
  fund_fee fd otherwise =
      if f.lt f.zero_float fd.profile.management_fee_percent
      then fd.profile.management_fee_percent
      else otherwise

unfoldable pub is_taken : {W : Type 0} → Str → List (Checkpoint W) → Bool
is_taken name [] = false
is_taken name (c ∷ cs) = str_eq c.name name || is_taken name cs

module _ {J W G : Type 0} ⦃f : Float W⦄ (a : Around J W G) where
  abbrev pub checkpoint_event : Checkpoint W → Event W
  checkpoint_event c = record (no_event a) { op = op_checkpoint; at = c.at; checkpoint = some c }

  -- An error is logged, and no more. `mgmt` and `perf` are the rulebook's percentages.
  unfoldable pub take_checkpoint : FundDesk J W → Str → W → W → FundDesk J W
  unfolding is_taken store_and_apply fund_aums
  take_checkpoint d name mgmt perf =
      let c =
        plan_checkpoint d.book name a.at (navs_at a d)
          (fund_aums d.exec.ledger a.setup.price d.book.funds) mgmt perf in
      if not d.book.formed
      then d
      else if is_taken name d.book.checks
      then d
      else (store_and_apply a d (checkpoint_event c)).0

  abbrev pub is_running : Clock → ℤ → Bool
  is_running c now = let p = position c now in p.started && (not p.paused && not p.ended)

  abbrev pub counts : User → Bool
  counts u = not u.is_admin && (is_investor u.role && not u.disqualified)

  unfoldable pub investors_among : List User → List Str
  investors_among [] = []
  investors_among (u ∷ us) = let rest = investors_among us in if counts u then u.id ∷ rest else rest

  unfoldable pub sample_series : FundDesk J W → Bool → Clock → FundDesk J W
  unfolding store_and_apply fund_aums effective_holdings investors_among
  sample_series d phase2 c =
      let at_navs = navs_at a d in
      let ids = investors_among a.users in
      if not d.book.formed || not phase2
      then d
      else if not (is_running c a.now)
      then d
      else (store_and_apply a d (record (no_event a) {
        op = op_series;
        navs = at_navs;
        aums = fund_aums d.exec.ledger a.setup.price d.book.funds;
        values = map (λ id. (id, total_value d.exec.ledger a.setup.price d.book id at_navs)) ids;
        div =
            map (λ id. (id, effective_holdings d.exec.ledger a.setup.price d.book id at_navs)) ids;
      })).0
