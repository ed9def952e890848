-- ===== src/Desk.antt =====
-- A trade from end to end (apps/api/internal/app/trades.go, `Trade`, from the point at which the user may
-- trade and the request is well formed): the market's state, the limit, then the executor. The
-- statistics, peaks and messages that follow a trade are left out.
pub mod Refusals
use stockastic.Prelude.Str.{Str}
use stockastic.Prelude.Int.{ℤ}
use stockastic.Prelude.{ℕ, Bool, Option, some, if◌then◌else◌, not, none, ◌&&◌, true, false}
use stockastic.EventClock.State.{Clock, position}
use stockastic.EventClock.Access.{market_open}
use stockastic.Ledger.State.{Error}
use stockastic.Trading.{
  Setup, State, Request, Trade, TradeError, Result, completed, deduped, failed, execute,
  seen_before, ledger_error,
}
use stockastic.RateLimit.{Limiter, Answer, allowed, denied, panicked, allow, refund}

pub record Desk (J : Type 0) : Type 0 where
  pub exec : State J
  pub limiter : Limiter

pub data Closed : Type 0 where
  unknown_symbol_asked trading_frozen event_paused market_closed symbol_paused : Closed

-- `limit_panicked`: the limiter panics when it allows nothing.
pub data Reply (G : Type 0) : Type 0 where
  traded : Trade → Reply G
  repeat_of : Trade → Reply G
  closed : Closed → Reply G
  rate_limited : ℤ → Reply G
  limit_panicked : Reply G
  no_account : Reply G
  refused_trade : TradeError G → Reply G

-- `Paused`, of apps/api/internal/app/schedule.go
unfoldable pub is_paused : Clock → ℤ → Bool
is_paused c now = (position c now).started && (position c now).paused

-- Why nothing trades now, by the clock and by whether the company is known and paused.
unfoldable pub closed_because : Clock → ℤ → Bool → Bool → Option Closed
closed_because c now known paused =
    if not known
    then some unknown_symbol_asked
    else if c.ov.frozen
    then some trading_frozen
    else if is_paused c now
    then some event_paused
    else if not (market_open c now)
    then some market_closed
    else if paused
    then some symbol_paused
    else none

abbrev pub refused_as : {G : Type 0} → TradeError G → Reply G
refused_as (ledger_error Error.unknown_account) = no_account
refused_as e = refused_trade e

module _ {J G : Type 0} (s : Setup J G) where
  -- What follows the execution of a trade that the limiter counted.
  abbrev pub after_counted : Desk J → Str → State J × Result G → Desk J × Reply G
  after_counted d key (e, completed t) = (record d { exec = e }, traded t)
  after_counted d key (e, deduped t) =
      (record { exec = e; limiter = refund d.limiter key }, repeat_of t)
  after_counted d key (e, failed err) =
      (record { exec = e; limiter = refund d.limiter key }, refused_as err)

  -- And of one that it did not count, since the trade had been seen.
  abbrev pub after_seen : Desk J → State J × Result G → Desk J × Reply G
  after_seen d (e, completed t) = (record d { exec = e }, traded t)
  after_seen d (e, deduped t) = (record d { exec = e }, repeat_of t)
  after_seen d (e, failed err) = (record d { exec = e }, refused_as err)

  abbrev pub if_allowed : Desk J → Str → Request → Str → ℤ → Limiter × Answer → Desk J × Reply G
  if_allowed d key r id now (l, allowed) =
      after_counted (record d { limiter = l }) key (execute s d.exec r id now)
  if_allowed d key r id now (l, denied retry) = (record d { limiter = l }, rate_limited retry)
  if_allowed d key r id now (l, panicked) = (record d { limiter = l }, limit_panicked)

  -- A repeat of a trade that was made is a retry, and does not use up a trade.
  abbrev pub if_open : Desk J → Str → Request → Str → ℤ → Option Closed → Bool → Desk J × Reply G
  if_open d key r id now (some why) seen = (d, closed why)
  if_open d key r id now none true = after_seen d (execute s d.exec r id now)
  if_open d key r id now none false = if_allowed d key r id now (allow d.limiter key now)

  -- `key` is the account that shares the limit: a fund's for its members.
  unfoldable pub trade_at_desk :
      Desk J → Clock → Str → Bool → Bool → Request → Str → ℤ → Desk J × Reply G
  trade_at_desk d c key known paused r id now =
      if_open d key r id now (closed_because c now known paused)
        (seen_before d.exec r.account_id r.client_trade_id)
