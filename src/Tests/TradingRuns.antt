-- ===== src/Tests/TradingRuns.antt =====
-- The executor at work, over a file log whose second sync fails.
use stockastic.Prelude.Int64.{wrap}
use stockastic.Trading.Once.{IsOnce, run-IsOnce}
use stockastic.Prelude.Dict.{insert, lookup, str_key}
use stockastic.Prelude.Int.{pos, ℤ, ◌*ℤ◌, ◌-ℤ◌}
use stockastic.Trading.Idempotence.{AtQuotedPrice, execute-AtQuotedPrice}
use stockastic.Ledger.State.{Acct, Kind}
use stockastic.Trading.Recovery.{
  Rebuilt, run, restore_trades, Call, IsRecoverable, run-IsRecoverable,
}
use stockastic.Trading.{Trade, Request, State, Setup, execute, new_trade, buy, key, completed}
use stockastic.Prelude.Str.{Str, codes, str_eq}
use stockastic.Ledger.Trades
use stockastic.Log.{Json}
use stockastic.Log.FileLog
use stockastic.Log.Crashes.{opened-IsInOrder}
use stockastic.Trading.FileJournal.Doubt.{stored, in_doubt}
use stockastic.Trading.FileJournal.{Moment, IsAtRest}
use stockastic.Trading.FileJournal.Durable.{Journal, commit, file_journal}
use stockastic.Prelude.{
  false, ◌==◌, inl, refl, List, ◌≡◌, Option, [], ℕ, if◌then◌else◌, none, ◌∷◌, some,
}

-- A line is the client's trade id.
abbrev lines_of : Json Trade
lines_of = record { marshal = λ e. some e.v.client_trade_id; unmarshal = λ _. none }

abbrev second_sync_fails : ℕ → Moment
second_sync_fails n = record {
  at = pos n;
  disk_low = false;
  cut = none;
  flush_fails = false;
  sync_fails = n == 1;
}

opened-IsAtRest : IsAtRest lines_of (FileLog.opened [], [])
unfolding FileLog.opened
opened-IsAtRest = record { idle = refl; whole = λ _. (refl, refl) }

abbrev empty_log : Journal lines_of []
empty_log = record {
  log = (FileLog.opened [], []);
  at_rest = opened-IsAtRest;
  in_order = opened-IsInOrder lines_of [];
  ahead = second_sync_fails;
}

abbrev acme : Str
acme = codes "ACME"

abbrev team : Str
team = codes "a"

abbrev prices : Str → Option ℤ
prices s = if str_eq s acme then some (pos 100) else none

abbrev account : Acct
account = record {
  account = record { id = team; name = team; kind = Kind.team };
  cash = pos 5000;
  positions = [];
}

abbrev buy_two : Request
buy_two = record {
  client_trade_id = codes "t1";
  account_id = team;
  symbol = acme;
  side = buy;
  qty = pos 2;
  expected_price = pos 100;
  stage = [];
}

abbrev buy_three : Request
buy_three = record buy_two { qty = pos 3 }

abbrev opened : Rebuilt
opened = record { ledger = insert team account []; seen = [] }

abbrev start : State (Journal lines_of [])
start = record { ledger = opened.ledger; journal = empty_log; seen = [] }

abbrev no_guard : Setup (Journal lines_of []) ℕ
no_guard = record { price = prices; guard = none; commit = commit lines_of [] }

abbrev made : Trade
made = new_trade no_guard buy_two (pos 100) (codes "x") (pos 7)

completes : (execute no_guard start buy_two (codes "x") (pos 7)).1 ≡ completed made
unfolding execute Trades.trade lookup insert str_eq wrap ◌*ℤ◌ key commit FileLog.append
    FileLog.opened FileLog.look FileLog.run FileLog.end_sync
completes = refl

abbrev call : Request → Call ℕ
call r = record { request = r; price = prices; guard = none; id = codes "x"; at = pos 7 }

abbrev buy_other : Request
buy_other = record buy_two { client_trade_id = codes "t2" }

-- A retry and a reused id, then a trade whose sync fails, and its retry.
abbrev calls_made : List (Call ℕ)
calls_made = call buy_two ∷ call buy_two ∷ call buy_three ∷ call buy_other ∷ call buy_other ∷ []

abbrev journal_after : Journal lines_of []
journal_after = (run (file_journal lines_of []) start calls_made).journal

one_stored_one_in_doubt :
    (stored lines_of journal_after.log ≡ made ∷ [])
    × (in_doubt lines_of journal_after.log
        ≡ new_trade no_guard buy_other (pos 100) (codes "x") (pos 7) ∷ [])
unfolding run file_journal commit execute Trades.trade lookup insert str_eq wrap ◌*ℤ◌ ◌-ℤ◌ key
    FileLog.opened FileLog.append FileLog.run FileLog.look FileLog.end_sync
one_stored_one_in_doubt = (refl, refl)

nothing_yet : IsOnce (file_journal lines_of []) opened start
unfolding file_journal restore_trades FileLog.opened
nothing_yet = ((refl, inl refl), tt)

run-IsRecoverable_example :
    IsRecoverable
      (file_journal lines_of [])
      opened
      (run (file_journal lines_of []) start calls_made)
run-IsRecoverable_example =
    run-IsRecoverable (file_journal lines_of []) opened start calls_made (nothing_yet.0)

run-IsOnce_example :
    IsOnce (file_journal lines_of []) opened (run (file_journal lines_of []) start calls_made)
run-IsOnce_example = run-IsOnce (file_journal lines_of []) opened start calls_made nothing_yet

execute-AtQuotedPrice_example : AtQuotedPrice no_guard start buy_two (codes "x") (pos 7) made
execute-AtQuotedPrice_example =
    execute-AtQuotedPrice no_guard start buy_two (codes "x") (pos 7) made completes
