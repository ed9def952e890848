-- ===== src/Funds/Events.antt =====
-- The events that change the book, and its records (funds.go, from `Profile` to `Holding`). `W` is the
-- type of a `float64`.
use stockastic.Prelude.Dict.{Dict}
use stockastic.Prelude.Int.{ℤ}
use stockastic.Prelude.Str.{Str}
use stockastic.Prelude.{ℕ, Bool, List, Option}

pub data FundError : Type 0 where
  unknown_fund bad_event : FundError

pub data Op : Type 0 where
  op_formed op_profile op_alloc op_redeem op_series op_checkpoint op_log op_score : Op
  op_fund_dq op_trader op_dissolve op_other : Op

pub record Profile (W : Type 0) : Type 0 where
  pub name : Str
  pub philosophy : Str
  pub risk : Str
  pub strategy : Str
  pub management_fee_percent : W

pub record MovedShares : Type 0 where
  pub symbol : Str
  pub qty : ℤ
  pub cost : ℤ

pub record Move : Type 0 where
  pub from : Str
  pub to : Str
  pub cash : ℤ
  pub shares : List MovedShares

pub record SeedUnits (W : Type 0) : Type 0 where
  pub fund_id : Str
  pub team : Str
  pub amount : ℤ
  pub units : W

pub record Formed : Type 0 where
  pub id : Str
  pub number : ℤ
  pub account : Str
  pub member : Str
  pub other_member : Str
  pub trader : Str
  pub ranks : ℤ × ℤ

pub record RankRow : Type 0 where
  pub account : Str
  pub rank : ℤ
  pub value : ℤ
  pub decided_by : Str

pub record FundCheckpoint (W : Type 0) : Type 0 where
  pub fund_id : Str
  pub nav : W
  pub aum : ℤ
  pub avg_aum : ℤ
  pub units : W
  pub mgmt_fee : ℤ
  pub perf_fee : ℤ
  pub hwm_before : W
  pub hwm_after : W

pub record Checkpoint (W : Type 0) : Type 0 where
  pub name : Str
  pub at : ℤ
  pub funds : List (FundCheckpoint W)

pub record StrategyLog : Type 0 where
  pub account : Str
  pub checkpoint : ℤ
  pub text : Str
  pub at : ℤ

-- Only the fields for its operation are set.
pub record Event (W : Type 0) : Type 0 where
  pub op : Op
  pub at : ℤ
  pub funds : List Formed
  pub ranking : List RankRow
  pub seed : ℤ
  pub fund_id : Str
  pub profile : Option (Profile W)
  pub window : ℤ
  pub investor : Str
  pub amount : ℤ
  pub units : W
  pub nav : W
  pub values : Dict Str ℤ
  pub navs : Dict Str W
  pub aums : Dict Str ℤ
  pub div : Dict Str W
  pub checkpoint : Option (Checkpoint W)
  pub moves : List Move
  pub seeds : List (SeedUnits W)
  pub log : Option StrategyLog
  pub scores : Dict Str W

pub record Fund (W : Type 0) : Type 0 where
  pub formed : Formed
  pub profile : Profile W
  pub units : W
  pub minted_units : W
  pub redeemed_units : W
  pub seed_units : W
  pub hwm : W
  pub disqualified : Bool
  pub peak_nav : W
  pub max_dd : W
  pub aum_sum : W
  pub aum_n : ℕ
  pub first_nav : W

pub record Holding (W : Type 0) : Type 0 where
  pub units : W
  pub contributed : ℤ
  pub redeemed : ℤ
  pub seed : Bool

pub record Risk (W : Type 0) : Type 0 where
  pub first : ℤ
  pub peak : ℤ
  pub max_dd : W
  pub div_sum : W
  pub div_n : ℕ
