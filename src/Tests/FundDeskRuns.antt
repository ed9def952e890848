-- ===== src/Tests/FundDeskRuns.antt =====
-- An investor's orders on a fund, accepted and refused.
use stockastic.Prelude.Sort.{sort_by}
use stockastic.Prelude.Int.{quot, ◌-ℤ◌}
use stockastic.Funds.Float.{from_rupees, rupees}
use stockastic.Ledger.Moves.{move, shift_cash}
use stockastic.Scoring.Caps.{
  allocation_caps, level, active_funds, min_filled, filled, tranche, tolerance, cap_state,
}
use stockastic.Ledger.Valuation.{snapshot, held, direct_value, value, value_from}
use stockastic.FundDesk.Limits.{
  investor_check, min_investment, cap_rooms, mandatory_pool, pool_from, wallets, rooms_from,
  floor_units,
}
use stockastic.RateLimit.{allow, prune, skip, hits_of}
use stockastic.Prelude.Int64.{wrap}
use stockastic.Prelude.Dict.{lookup, insert}
use stockastic.Funds.Apply.{apply}
use stockastic.Funds.Book
use stockastic.Funds.Book.{new_book, form, add_funds, new_fund, add_seeds, alloc}
use stockastic.Funds.Inflow.{apply_all}
use stockastic.Prelude.Int.{ℤ, pos, ◌+ℤ◌, ◌*ℤ◌, ◌≤ℤ◌}
use stockastic.Prelude.{ℕ, inr, ◌≡◌, [], false, ◌∷◌, none, suc, some, refl, arith, ◌≡◌, inr}
use stockastic.Prelude.Str.{Str, codes, str_eq}
use stockastic.Tests.FundRuns.{
  f1, account1, formed_book, formed_fund, formed_book-IsIndexed, formed_book-Owns, whole_float,
}
use stockastic.FundDesk.{
  FundDesk, Around, User, investor, fund_at_cap, navs, nav_of, total_value, units_value,
}
use stockastic.FundDesk.Orders.{order_event, Asked, allocate, put_in_fund, too_much, carry_out}
use stockastic.FundDesk.Redeeming.{
  redeem, take_from_fund, units_out, raise_fund_cash, allocate_limited,
}
use stockastic.FundDesk.Redemptions.{Redeems, redeem-Redeems}
use stockastic.FundDesk.Refusals.{
  NothingSpent, allocate_limited-refused, allocate_limited-IsReplayable,
}
use stockastic.FundDesk.Replay.{IsReplayable}
use stockastic.FundDesk.Bounds.{cap_at, allocate-within_allowance}
use stockastic.Funds.Reads.{inflow, fund, holding}
use stockastic.Funds.Events.{Event, op_alloc}
use stockastic.Funds.Indexed.{apply-IsIndexed}
use stockastic.Ledger.State.{Acct, Kind}

abbrev pub acct : Str → Kind → ℤ → Acct
acct id kind cash = record {
  account = record { id = id; name = id; kind = kind };
  cash = cash;
  positions = [];
}

abbrev pub someone : User
someone = record { id = codes "c"; role = investor; is_admin = false; disqualified = false }

abbrev pub around : Around ℕ ℤ Unit
around = record {
  users = someone ∷ [];
  setup = record { price = λ s. none; guard = none; commit = λ t j. (suc j, none) };
  rules = record {
    min_investment_absolute = pos 1;
    min_investment_wallet_percent = pos 1;
    max_single_fund_wallet_percent = pos 60;
    mandatory_allocation_percent = pos 5;
    seed_capital = pos 0;
  };
  append = λ ev j. (suc j, none);
  window = some (pos 0);
  paused = false;
  now = pos 0;
  at = pos 0;
  stage = codes "phase2";
  fresh = λ n. (codes "id", codes "t", pos 0);
}

abbrev pub desk : FundDesk ℕ ℤ
desk = record {
  exec = record {
    ledger =
        (codes "c", acct (codes "c") Kind.team (pos 500000))
        ∷ (account1, acct account1 Kind.fund (pos 0))
        ∷ [];
    journal = 0;
    seen = [];
  };
  book = formed_book;
  limiter = record { n = pos 30; window = pos 60000000000; hits = [] };
}

abbrev asking : ℤ → Asked ℤ
asking amount = record { amount = amount; all = false }

allocate_limited-IsReplayable_example :
    IsReplayable around desk (allocate_limited around desk someone f1 (asking (pos 100))).0
unfolding apply_all new_book apply form add_funds new_fund add_seeds alloc lookup insert str_eq wrap
    ◌+ℤ◌ ◌*ℤ◌ allocate_limited allocate put_in_fund allow prune skip hits_of investor_check fund
    navs nav_of snapshot held too_much total_value direct_value value value_from units_value holding
    min_investment cap_rooms mandatory_pool pool_from wallets rooms_from allocation_caps level
    active_funds min_filled filled tranche tolerance cap_state floor_units carry_out move shift_cash
    from_rupees rupees quot sort_by ◌-ℤ◌
allocate_limited-IsReplayable_example =
    allocate_limited-IsReplayable around desk _ someone f1 (asking (pos 100))
      (record { fund_id = f1; units = pos 10; nav = pos 10; amount = pos 100 })
      formed_book-IsIndexed refl

-- The fund's share of the window is 250.00.
allocate_limited-refused_example :
    NothingSpent around desk
      (codes "c")
      (allocate_limited around desk someone f1 (asking (pos 251))).0
unfolding apply_all new_book apply form add_funds new_fund add_seeds alloc lookup insert str_eq wrap
    ◌+ℤ◌ ◌*ℤ◌ allocate_limited allocate put_in_fund allow prune skip hits_of investor_check fund
    navs nav_of snapshot held too_much total_value direct_value value value_from units_value holding
    min_investment cap_rooms mandatory_pool pool_from wallets rooms_from allocation_caps level
    active_funds min_filled filled tranche tolerance cap_state floor_units carry_out move shift_cash
    from_rupees rupees quot sort_by ◌-ℤ◌
allocate_limited-refused_example =
    allocate_limited-refused around desk _ someone f1 (asking (pos 251)) fund_at_cap
      formed_book-IsIndexed refl

allocate-within_allowance_example :
    inflow (allocate around desk someone f1 (asking (pos 100))).0.book (pos 0) f1
    ≤ℤ (cap_at around desk (pos 0) formed_fund).allowance
unfolding apply_all new_book apply form add_funds new_fund add_seeds alloc lookup insert str_eq wrap
    ◌+ℤ◌ ◌*ℤ◌ inflow allocate put_in_fund investor_check fund navs nav_of snapshot held too_much
    total_value direct_value value value_from units_value holding min_investment cap_rooms
    mandatory_pool pool_from wallets rooms_from allocation_caps level active_funds min_filled filled
    tranche tolerance cap_state floor_units carry_out move shift_cash from_rupees rupees quot
    sort_by ◌-ℤ◌
allocate-within_allowance_example =
    allocate-within_allowance around desk _ someone f1 (asking (pos 100))
      (record { fund_id = f1; units = pos 10; nav = pos 10; amount = pos 100 }) (pos 0) formed_fund
      formed_book-IsIndexed formed_book-Owns refl refl (omega arith) refl

-- The investor has put in 1,000.00, which the fund still has in cash, and takes 100.00 out.
abbrev investment : Event ℤ
investment = order_event around op_alloc f1 (codes "c") (pos 0) (pos 100000) (pos 100) (pos 10)

abbrev invested : FundDesk ℕ ℤ
invested = record desk {
  book = (apply formed_book investment).0;
  exec = record {
    ledger =
        (codes "c", acct (codes "c") Kind.team (pos 400000))
        ∷ (account1, acct account1 Kind.fund (pos 100000))
        ∷ [];
    journal = 1;
    seen = [];
  };
}

redeemed :
    (redeem around invested someone f1 (asking (pos 100))).1
    ≡ inr (record { fund_id = f1; units = pos 10; nav = pos 10; amount = pos 100 })
unfolding apply_all new_book apply form add_funds new_fund add_seeds alloc lookup insert str_eq wrap
    ◌+ℤ◌ ◌*ℤ◌ redeem take_from_fund units_out raise_fund_cash investor_check fund navs nav_of
    snapshot held total_value direct_value value value_from units_value holding floor_units
    carry_out move shift_cash from_rupees rupees quot sort_by ◌-ℤ◌ Book.redeem
redeemed = refl

redeem-Redeems_example :
    Redeems around invested someone f1
      (apply-IsIndexed formed_book investment formed_book-IsIndexed)
      (redeem around invested someone f1 (asking (pos 100)))
redeem-Redeems_example =
    redeem-Redeems around invested someone f1
      (apply-IsIndexed formed_book investment formed_book-IsIndexed) (asking (pos 100))
