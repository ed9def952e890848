-- ===== src/Funds/Book.antt =====
-- The book and how an event changes it (funds.go, `Book` and `Apply`). A pointer to a fund is the
-- place of the fund in the list of funds: a write through it is seen through the list too.
use stockastic.Prelude.Int64.{add64}
use stockastic.Prelude.Int.{ℤ, pos, negsuc}
use stockastic.Prelude.Str.{Str, is_empty, codes}
use stockastic.Prelude.Dict.{int_key, Eq, Dict, lookup, insert, str_key, found-cases}
use stockastic.Prelude.{
  ℕ, List, [], Option, if◌then◌else◌, Bool, true, false, none, some, suc, ◌∷◌, ◌/◌, ◌++◌, update,
  ◌+◌, length, ◌%◌, ltb, zero, ◌≡◌,
}
use stockastic.Funds.Float.{Float}
use stockastic.Funds.Events.{
  Event, Fund, Formed, Profile, Holding, Risk, Move, SeedUnits, RankRow, Checkpoint, StrategyLog,
  FundError, unknown_fund, bad_event,
}

pub record Book (W : Type 0) : Type 0 where
  pub launch_nav : W
  pub funds : List (Fund W)
  pub by_id : Dict Str ℕ
  pub holdings : Dict Str (Dict Str (Holding W))
  pub inflow : Dict ℤ (Dict Str ℤ)
  pub ranking : List RankRow
  pub seed : ℤ
  pub formed : Bool
  pub risks : Dict Str (Risk W)
  pub checks : List (Checkpoint W)
  pub logs : List StrategyLog
  pub scores : Dict Str (Dict Str W)
  pub seed_moves : List Move

unfoldable pub new_book : {W : Type 0} → W → Book W
new_book launch_nav = record {
  launch_nav = launch_nav;
  funds = [];
  by_id = [];
  holdings = [];
  inflow = [];
  ranking = [];
  seed = pos 0;
  formed = false;
  risks = [];
  checks = [];
  logs = [];
  scores = [];
  seed_moves = [];
}

unfoldable pub reset_locked : {W : Type 0} → Book W → Book W
reset_locked b = new_book b.launch_nav

abbrev pub Outcome : Type 0 → Type 0
Outcome W = Book W × Option FundError

abbrev pub at_key {ℓ} : {K : Type 0} {V : Type ℓ} ⦃e : Eq K⦄ → K → Dict K (Dict Str V) → Dict Str V
at_key k d = elim (lookup k d) [ none ↦ [] | some m ↦ m ]

abbrev pub taken_in : Dict ℤ (Dict Str ℤ) → ℤ → Str → ℤ
taken_in d window fund = elim (lookup fund (at_key window d)) [ none ↦ pos 0 | some a ↦ a ]

-- `fmt.Sprintf("%d", n)`, digit by digit from the last; a number has no more digits than it is.
unfoldable pub digits : ℕ → ℕ → Str → Str
digits zero n s = s
digits (suc fuel) n s =
    let rest = digits fuel (n / 10) ((48 + n % 10) ∷ s) in
    if ltb n 10 then (48 + n % 10) ∷ s else rest

abbrev pub decimal : ℤ → Str
decimal (pos n) = digits (suc n) n []
decimal (negsuc n) = 45 ∷ digits (suc (suc n)) (suc n) []

module _ {W : Type 0} ⦃f : Float W⦄ where
  abbrev no_profile : Profile W
  no_profile = record {
    name = [];
    philosophy = [];
    risk = [];
    strategy = [];
    management_fee_percent = f.zero_float;
  }

  unfoldable pub new_fund : W → Formed → Fund W
  unfolding digits
  new_fund launch_nav g = record {
    formed = if is_empty g.trader then record g { trader = g.member } else g;
    profile = record no_profile { name = codes "Fund " ++ decimal g.number };
    units = f.zero_float;
    minted_units = f.zero_float;
    redeemed_units = f.zero_float;
    seed_units = f.zero_float;
    hwm = launch_nav;
    disqualified = false;
    peak_nav = launch_nav;
    max_dd = f.zero_float;
    aum_sum = f.zero_float;
    aum_n = 0;
    first_nav = launch_nav;
  }

  unfoldable pub add_funds : Book W → List Formed → Book W
  unfolding new_fund
  add_funds b [] = b
  add_funds b (g ∷ gs) =
      add_funds
        (record b {
          funds = b.funds ++ new_fund b.launch_nav g ∷ [];
          by_id = insert g.id (length b.funds) b.by_id;
        })
        gs

  abbrev pub no_holding : Bool → Holding W
  no_holding seed = record {
    units = f.zero_float;
    contributed = pos 0;
    redeemed = pos 0;
    seed = seed;
  }

  abbrev pub holding_at : Dict Str (Dict Str (Holding W)) → Str → Str → Holding W → Holding W
  holding_at d investor fund fresh = elim (lookup fund (at_key investor d)) [
    | none ↦ fresh
    | some h ↦ h
  ]

  abbrev pub set_holding :
      Dict Str (Dict Str (Holding W)) → Str → Str → Holding W → Dict Str (Dict Str (Holding W))
  set_holding d investor fund h = insert investor (insert fund h (at_key investor d)) d

  abbrev pub seeded : Book W → SeedUnits W → ℕ → Book W
  seeded b s i =
      let h = holding_at b.holdings s.team s.fund_id (no_holding true) in
      record b {
        holdings = set_holding b.holdings s.team s.fund_id (record h {
          units = f.add h.units s.units;
          contributed = add64 h.contributed s.amount;
        });
        funds = update b.funds i (λ fd. record fd {
          units = f.add fd.units s.units;
          seed_units = f.add fd.seed_units s.units;
        });
      }

  abbrev pub if_fund : Book W → Str → (ℕ → Outcome W) → Outcome W
  if_fund b id act = elim (lookup id b.by_id) [ none ↦ (b, some unknown_fund) | some i ↦ act i ]

  -- The first seed for an unknown fund ends the event, and what was done before it stays.
  unfoldable pub add_seeds : Book W → List (SeedUnits W) → Outcome W
  add_seeds b [] = (b, none)
  add_seeds b (s ∷ ss) = if_fund b s.fund_id λ i. add_seeds (seeded b s i) ss

  unfoldable pub form : Book W → Event W → Outcome W
  unfolding add_funds add_seeds
  form b ev =
      if b.formed
      then (b, some bad_event)
      else let b' = add_funds b ev.funds in
        add_seeds
          (record b' { ranking = ev.ranking; seed = ev.seed; formed = true; seed_moves = ev.moves })
          ev.seeds

  unfoldable pub set_profile : Book W → Event W → Outcome W
  set_profile b ev = if_fund b ev.fund_id λ i. elim ev.profile [
    | none ↦ (b, some unknown_fund)
    | some p ↦ (record b { funds = update b.funds i (λ fd. record fd { profile = p }) }, none)
  ]

  unfoldable pub alloc : Book W → Event W → Outcome W
  alloc b ev = if_fund b ev.fund_id λ i.
      let h = holding_at b.holdings ev.investor ev.fund_id (no_holding false) in
      let sum = add64 (taken_in b.inflow ev.window ev.fund_id) ev.amount in
      (
        record b {
          holdings = set_holding b.holdings ev.investor ev.fund_id (record h {
            units = f.add h.units ev.units;
            contributed = add64 h.contributed ev.amount;
          });
          funds = update b.funds i (λ fd. record fd {
            units = f.add fd.units ev.units;
            minted_units = f.add fd.minted_units ev.units;
          });
          inflow = insert ev.window (insert ev.fund_id sum (at_key ev.window b.inflow)) b.inflow;
        },
        none,
      )

  unfoldable pub redeem : Book W → Event W → Outcome W
  redeem b ev = if_fund b ev.fund_id λ i.
      let h = holding_at b.holdings ev.investor ev.fund_id (no_holding false) in
      (
        record b {
          holdings = set_holding b.holdings ev.investor ev.fund_id (record h {
            units = f.max f.zero_float (f.sub h.units ev.units);
            redeemed = add64 h.redeemed ev.amount;
          });
          funds = update b.funds i (λ fd. record fd {
            units = f.max f.zero_float (f.sub fd.units ev.units);
            redeemed_units = f.add fd.redeemed_units ev.units;
          });
          inflow = insert ev.window (at_key ev.window b.inflow) b.inflow;
        },
        none,
      )

  -- What holds of a refusal, and of what is done for each fund that the id finds, holds.
  pub if_fund-cases {ℓ} :
      (P : Outcome W → Type ℓ) (b : Book W) (id : Str) (act : ℕ → Outcome W)
      → P (b, some unknown_fund)
      → ((i : ℕ) → lookup id b.by_id ≡ some i → P (act i))
      → P (if_fund b id act)
  if_fund-cases P b id act refused done =
      found-cases P (lookup id b.by_id) (b, some unknown_fund) act (λ _. refused) done
