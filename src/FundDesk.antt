-- ===== src/FundDesk.antt =====
-- The funds as people use them (apps/api/internal/app/funds.go, with `MinInvestment` and `MandatoryPool` of
-- apps/api/internal/scoring/funds.go): the book, the ledger, the executor and the limiter together. The
-- locks `evMu` and `fundMu` are held for the whole of an operation, so it is one step. The journal and
-- what it does with an event are parameters.
pub mod Limits
pub mod Orders
pub mod Redeeming
pub mod Carrying
pub mod Allocating
pub mod Logs
pub mod LogBounds
pub mod Sampling
pub mod Once
pub mod Forming
pub mod Teams
pub mod Replay
pub mod Refusals
pub mod Redemptions
pub mod Rooms
pub mod Bounds
use stockastic.Prelude.{Bool, Option, List, ℕ, some, none, if◌then◌else◌, [], ◌∷◌, ◌&&◌, map}
use stockastic.Prelude.Int.{ℤ, pos}
use stockastic.Prelude.Int64.{add64}
use stockastic.Prelude.Str.{Str}
use stockastic.Prelude.Dict.{Dict, lookup, str_key}
use stockastic.Funds.Float.{Float, from_rupees, rupees}
use stockastic.Funds.Events.{Event, Fund, Holding, FundError}
use stockastic.Funds.Book.{Book, at_key}
use stockastic.Funds.Reads.{fund_of_member}
use stockastic.Ledger.State.{Ledger, Error}
use stockastic.Ledger.Valuation.{direct_value}
use stockastic.RateLimit.{Limiter}
use stockastic.Trading.{State, Setup, TradeError}

pub data Role : Type 0 where
  investor fund_manager other_role : Role

pub record User : Type 0 where
  pub id : Str
  pub role : Role
  pub is_admin : Bool
  pub disqualified : Bool

-- The rulebook's `Fund`.
pub record FundRules (W : Type 0) : Type 0 where
  pub min_investment_absolute : W
  pub min_investment_wallet_percent : W
  pub max_single_fund_wallet_percent : W
  pub mandatory_allocation_percent : W
  pub seed_capital : W

pub record FundDesk (J W : Type 0) : Type 0 where
  pub exec : State J
  pub book : Book W
  pub limiter : Limiter

-- What an operation finds around it: the users, the executor's setup, whose price source is the market, the
-- rules, the journal's answer to an event (`fundAppend`), the open window, whether the event is
-- paused, the time, in nanoseconds and in milliseconds, the stage, and the new ids: of a forced sale,
-- of its trade, and its time.
pub record Around (J W G : Type 0) : Type 0 where
  pub users : List User
  pub setup : Setup J G
  pub rules : FundRules W
  pub append : Event W → J → J × Option Str
  pub window : Option ℤ
  pub paused : Bool
  pub now : ℤ
  pub at : ℤ
  pub stage : Str
  pub fresh : ℕ → Str × Str × ℤ

pub data OrderError (G : Type 0) : Type 0 where
  limit_panicked investors_only disqualified_user funds_not_formed : OrderError G
  invalid_amount while_paused window_closed fund_unavailable no_ledger_account : OrderError G
  short_of_cash below_minimum exceeds_single_fund_cap fund_at_cap : OrderError G
  nothing_to_redeem below_mandatory fund_illiquid divided_by_zero : OrderError G
  rate_limited : ℤ → OrderError G
  book_error : FundError → OrderError G
  move_error : Error → OrderError G
  sale_error : TradeError G → OrderError G

pub record Receipt (W : Type 0) : Type 0 where
  pub fund_id : Str
  pub units : W
  pub nav : W
  pub amount : W

module _ {W : Type 0} ⦃f : Float W⦄ where
  -- The account that a person trades with.
  unfoldable pub acct_of : Book W → User → Str
  unfolding fund_of_member
  acct_of b u = elim u.role [
    | fund_manager ↦ elim (fund_of_member b u.id) [ none ↦ u.id | some fd ↦ fd.formed.account ]
    | _ ↦ u.id
  ]

  abbrev pub nav_in : Dict Str W → Str → W
  nav_in d id = elim (lookup id d) [ none ↦ f.zero_float | some nav ↦ nav ]

  -- The order of the sum does not matter in an `int64`.
  unfoldable pub units_value : Dict Str (Holding W) → Dict Str W → ℤ
  units_value [] d = pos 0
  units_value ((id, h) ∷ hs) d =
      let rest = units_value hs d in
      if f.lt f.zero_float h.units
      then add64 rest (from_rupees (f.mul h.units (nav_in d id)))
      else rest

  module _ (l : Ledger) (price : Str → Option ℤ) where
    unfoldable pub fund_value : Fund W → ℤ
    fund_value fd = elim (direct_value l fd.formed.account price) [ none ↦ pos 0 | some v ↦ v ]

    unfoldable pub nav_of : W → Fund W → W
    unfolding fund_value
    nav_of launch_nav fd =
        if f.le fd.units f.zero_float then launch_nav else f.div (rupees (fund_value fd)) fd.units

    unfoldable pub navs : W → List (Fund W) → Dict Str W
    unfolding nav_of
    navs launch_nav fs = map (λ fd. (fd.formed.id, nav_of launch_nav fd)) fs

    unfoldable pub total_value : Book W → Str → Dict Str W → ℤ
    unfolding units_value
    total_value b id d = elim (direct_value l id price) [
      | none ↦ pos 0
      | some v ↦ add64 v (units_value (at_key id b.holdings) d)
    ]
