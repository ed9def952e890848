-- ===== src/Tests/FormingRuns.antt =====
-- A fund formed from a chosen pair, a strategy log and a checkpoint.
use stockastic.FundDesk.Replay.{apply_fund_event}
use stockastic.Ledger.Valuation.{snapshot}
use stockastic.Ledger.State.{open_account}
use stockastic.Ledger.Moves.{replay_move}
use stockastic.Funds.Float.{from_rupees}
use stockastic.Prelude.Int.{◌*ℤ◌}
use stockastic.Prelude.Sort.{sort_by}
use stockastic.Prelude.Dict.{insert}
use stockastic.Funds.Reads.{logs_of}
use stockastic.Prelude.Dict.{lookup, insert}
use stockastic.Funds.Apply.{apply}
use stockastic.Prelude.Int.{ℤ, pos}
use stockastic.Funds.Inflow.{apply_all}
use stockastic.Prelude.{ℕ, [], List, false, none, ◌∷◌, refl, true, arith}
use stockastic.Prelude.Str.{Str, codes, str_eq}
use stockastic.Tests.FundRuns.{whole_float}
use stockastic.Tests.FundDeskRuns.{around, desk, acct, someone}
use stockastic.FundDesk.{FundDesk, Around, User, investor}
use stockastic.FundDesk.Forming.{Qualifying, form_funds}
use stockastic.FundDesk.Teams.{FormedFairly, form_funds-FormedFairly}
use stockastic.FundDesk.LogBounds.{IsWithinLimits, submit_log-IsWithinLimits}
use stockastic.FundDesk.Logs.{submit_log, count_at}
use stockastic.FundDesk.Sampling.{take_checkpoint}
use stockastic.FundDesk.Once.{AreDistinct, take_checkpoint-AreDistinct}
use stockastic.Funds.Book.{new_book, form, add_funds, new_fund, add_seeds}
use stockastic.Ledger.State.{Kind}

abbrev team : Str → User
team id = record { id = id; role = investor; is_admin = false; disqualified = false }

abbrev field : Around ℕ ℤ Unit
field = record around { users = team (codes "a") ∷ team (codes "b") ∷ [] }

abbrev start : FundDesk ℕ ℤ
start = record desk {
  exec = record {
    ledger =
        (codes "a", acct (codes "a") Kind.team (pos 500))
        ∷ (codes "b", acct (codes "b") Kind.team (pos 300))
        ∷ [];
    journal = 0;
    seen = [];
  };
  book = new_book (pos 10);
}

abbrev rules : Qualifying
rules = record {
  qualifying_teams = 2;
  fund_count = 1;
  tie_break = [];
  frozen = none;
  new_seed = pos 7;
  coin_key = λ n s. pos 0;
}

abbrev chosen : List (List Str)
chosen = (codes "a" ∷ codes "b" ∷ []) ∷ []

form_funds-FormedFairly_example :
    FormedFairly field start rules (form_funds field start rules chosen).0
unfolding form_funds new_book str_eq lookup insert apply_fund_event apply form snapshot open_account
    from_rupees ◌*ℤ◌ replay_move sort_by
form_funds-FormedFairly_example = form_funds-FormedFairly field start _ rules chosen refl

submit_log-IsWithinLimits_example :
    IsWithinLimits (submit_log around desk someone (codes "up") 2 true (pos 3)).0.book.logs
unfolding apply_all new_book apply form add_funds new_fund add_seeds lookup insert str_eq logs_of
    count_at
submit_log-IsWithinLimits_example =
    submit_log-IsWithinLimits around desk someone (codes "up") 2 true (pos 3)
      (λ account named. (λ n. omega arith, omega arith))

take_checkpoint-AreDistinct_example :
    AreDistinct (take_checkpoint around desk (codes "window 0") (pos 1) (pos 2)).book.checks
unfolding apply_all new_book apply form add_funds new_fund add_seeds lookup insert str_eq
take_checkpoint-AreDistinct_example =
    take_checkpoint-AreDistinct around desk (codes "window 0") (pos 1) (pos 2) tt
