-- ===== src/Tests/LedgerRuns.antt =====
-- The ledger at work.
use stockastic.Ledger.Moves.Conservation.{total-move, total-move_shares}
use mathlib.Core.Path.{subst}
use stockastic.Ledger.Trades.Effect.{LeavesLedger, replay_trade-trade, trade_failed_unchanged}
use stockastic.Prelude.Int64.{wrap}
use stockastic.Ledger.Moves.{move, move_shares}
use stockastic.Ledger.Valuation.{total, shares_of}
use stockastic.Prelude.Int.{◌+ℤ◌, pos, ◌*ℤ◌, quot, ◌-ℤ◌}
use stockastic.Prelude.Dict.{lookup, insert, Every-insert, Every-nil, str_key}
use stockastic.Ledger.Trades.Solvency.{IsSolvent, AllSolvent, IsHeld, trade-AllSolvent, NoOverflow}
use stockastic.Ledger.State.{Position, Acct, Ledger, position, Kind, insufficient_shares}
use stockastic.Prelude.Str.{Str, codes, str_eq}
use stockastic.Prelude.{refl, arith, true, [], none, ◌≡◌, false, some}
use stockastic.Ledger.Trades

abbrev acme : Str
acme = codes "ACME"

abbrev a_id : Str
a_id = codes "a"

abbrev b_id : Str
b_id = codes "b"

abbrev ten_acme : Position
ten_acme = record { symbol = acme; qty = pos 10; cost = pos 1000 }

abbrev team_a : Acct
team_a = record {
  account = record { id = a_id; name = a_id; kind = Kind.team };
  cash = pos 5000;
  positions = insert acme ten_acme [];
}

abbrev team_b : Acct
team_b = record {
  account = record { id = b_id; name = b_id; kind = Kind.team };
  cash = pos 70;
  positions = [];
}

abbrev two_teams : Ledger
two_teams = insert b_id team_b (insert a_id team_a [])

team_a-IsSolvent : IsSolvent team_a
team_a-IsSolvent = record {
  cash_amount = omega arith;
  shares_amount = Every-insert IsHeld acme ten_acme [] (Every-nil IsHeld) (omega arith);
}

team_b-IsSolvent : IsSolvent team_b
team_b-IsSolvent = record { cash_amount = omega arith; shares_amount = Every-nil IsHeld }

two_teams-AllSolvent : AllSolvent two_teams
two_teams-AllSolvent =
    Every-insert IsSolvent b_id team_b (insert a_id team_a [])
      (Every-insert IsSolvent a_id team_a [] (Every-nil IsSolvent) team_a-IsSolvent)
      team_b-IsSolvent

found_a : (a : Acct) → lookup a_id two_teams ≡ some a → team_a ≡ a
unfolding lookup insert str_eq
found_a a h = cc

here_a : lookup a_id two_teams ≡ some team_a
unfolding lookup insert str_eq
here_a = refl

-- Half of the shares leave at half of their cost.
sells_at_average_cost :
    lookup acme (Trades.apply_trade team_a acme false (pos 5) (pos 300)).positions
    ≡ some (record { symbol = acme; qty = pos 5; cost = pos 500 })
unfolding Trades.apply_trade lookup insert str_eq wrap quot ◌+ℤ◌ ◌-ℤ◌ ◌*ℤ◌
sells_at_average_cost = refl

fits_a : NoOverflow acme true (pos 2) (pos 100) team_a
unfolding position lookup insert str_eq ◌+ℤ◌ ◌*ℤ◌
fits_a = omega arith

trade-AllSolvent_example :
    AllSolvent (Trades.trade two_teams a_id acme true (pos 2) (pos 100) none (pos 0)).0
trade-AllSolvent_example =
    trade-AllSolvent two_teams a_id acme true (pos 2) (pos 100) none (pos 0) two_teams-AllSolvent
      (λ a h. subst (NoOverflow acme true (pos 2) (pos 100)) (found_a a h) fits_a)

-- A sale of shares that the team does not hold.
trade_failed_unchanged_example :
    LeavesLedger two_teams b_id acme false
      (pos 2)
      (pos 100)
      none
      (pos 0)
      insufficient_shares
      (Trades.trade two_teams b_id acme false (pos 2) (pos 100) none (pos 0))
unfolding Trades.trade lookup insert str_eq
trade_failed_unchanged_example =
    trade_failed_unchanged two_teams b_id acme false (pos 2) (pos 100) none (pos 0)
      insufficient_shares refl

replay_trade-trade_example :
    Trades.replay_trade two_teams a_id acme true (pos 2) (pos 100)
    ≡ ((Trades.trade two_teams a_id acme true (pos 2) (pos 100) none (pos 0)).0, none)
unfolding Trades.trade lookup insert str_eq wrap ◌*ℤ◌
replay_trade-trade_example =
    replay_trade-trade two_teams a_id acme true (pos 2) (pos 100) none (pos 0) refl

total-move_example :
    (total (move two_teams a_id b_id (pos 30) none (pos 0)).0).0 ≡ (total two_teams).0
total-move_example = total-move two_teams a_id b_id (pos 30) none (pos 0)

total-move_shares_example :
    shares_of (total (move_shares two_teams a_id b_id acme (pos 4) (pos 400)).0).1 acme
    ≡ shares_of (total two_teams).1 acme
unfolding lookup insert str_eq
total-move_shares_example =
    total-move_shares two_teams a_id b_id acme acme (pos 4) (pos 400) team_a ten_acme refl refl
      (omega arith) (omega arith)
