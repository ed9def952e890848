-- ===== src/Tests/DeskRuns.antt =====
-- Trades at an open and at a frozen market.
use stockastic.Prelude.Dict.{lookup}
use stockastic.Prelude.Int64.{wrap}
use stockastic.Prelude.Int.{pos, ◌+ℤ◌, ◌-ℤ◌, ◌*ℤ◌}
use stockastic.EventClock.Blocks.{Block, zero_block}
use stockastic.Prelude.Str.{Str, codes, str_eq}
use stockastic.Prelude.{ℕ, true, some, ◌∷◌, false, none, [], suc, ◌≡◌, refl}
use stockastic.Ledger.Trades
use stockastic.Ledger.Trades.{refusal, apply_trade}
use stockastic.Desk.{is_paused, Desk, trade_at_desk, closed_because}
use stockastic.Desk.Refusals.{NothingLeft, trade_at_desk-NothingLeft, trade_at_desk-IsOpen}
use stockastic.EventClock.State.{
  Clock, position, locate, elapsed, index, index_from, start_of, start_from, time_sub,
}
use stockastic.EventClock.Access.{market_open}
use stockastic.Trading.{
  Setup, Request, buy, execute, is_invalid, quote, place, commit_trade, guard_error, seen_before,
}
use stockastic.RateLimit.{allow, allowed, hits_of, skip, prune}
use stockastic.Ledger.State.{Acct, Kind}

abbrev team : Str
team = codes "a"

abbrev trading : Block
trading = record zero_block {
  id = codes "x";
  label = codes "Trading";
  duration_min = pos 10;
  market_open = true;
}

abbrev open_day : Clock
open_day = record {
  started = true;
  started_at = pos 0;
  offset = pos 0;
  paused = false;
  paused_at = pos 0;
  durations = pos 600_000_000_000 ∷ [];
  ov = record { market_open = none; windows = []; frozen = false };
  last = pos 0;
  listeners = [];
  blocks = trading ∷ [];
}

abbrev frozen_day : Clock
frozen_day = record open_day { ov = let o = open_day.ov in record o { frozen = true } }

abbrev setup : Setup ℕ Unit
setup = record { price = λ s. some (pos 100); guard = none; commit = λ t j. (suc j, none) }

abbrev rich : Acct
rich = record {
  account = record { id = team; name = team; kind = Kind.team };
  cash = pos 5000;
  positions = [];
}

abbrev desk : Desk ℕ
desk = record {
  exec = record { ledger = (team, rich) ∷ []; journal = 0; seen = [] };
  limiter = record { n = pos 2; window = pos 60_000_000_000; hits = [] };
}

abbrev buy_two : Request
buy_two = record {
  client_trade_id = codes "t1";
  account_id = team;
  symbol = codes "ACME";
  side = buy;
  qty = pos 2;
  expected_price = pos 0;
  stage = [];
}

trade_at_desk-NothingLeft_example :
    NothingLeft desk
      (trade_at_desk setup desk frozen_day team true false buy_two (codes "1") (pos 5)).0
      team
      (pos 5)
unfolding trade_at_desk closed_because is_paused
trade_at_desk-NothingLeft_example =
    trade_at_desk-NothingLeft setup desk frozen_day team true false buy_two (codes "1") (pos 5)
      (λ h. h)

trade_at_desk-IsOpen_example :
    (market_open open_day (pos 5) ≡ true)
    × (open_day.ov.frozen ≡ false)
    × (false ≡ false)
    × ((allow desk.limiter team (pos 5)).1 ≡ allowed)
unfolding trade_at_desk closed_because is_paused position locate elapsed index index_from start_of
    start_from time_sub market_open wrap ◌+ℤ◌ ◌-ℤ◌ ◌*ℤ◌ seen_before lookup allow prune hits_of skip
    execute is_invalid quote guard_error place commit_trade str_eq Trades.trade refusal apply_trade
trade_at_desk-IsOpen_example =
    trade_at_desk-IsOpen setup desk open_day team true false buy_two (codes "1") (pos 5) refl tt
