-- ===== src/Lib.antt =====
-- Stockastic: a live trading game. Teams buy and sell shares at simulated prices; later some of them
-- run funds. The server is one Go process (apps/api); every change that is acknowledged is in a
-- durable log first, and a restart rebuilds the state in memory from it.
--
-- The parts and their files:
--   Ledger       apps/api/internal/ledger/ledger.go: cash and shares of every account. `State` has
--                the records and `Open`, `Reset`, `Remove`; `Trades` has `Trade`, `ReplayTrade` and
--                `applyTrade`; `Corrections` has `Grant`, `Revoke`, `AdjustCash`; `Moves` has `Move`,
--                `ReplayMove`, `MoveShares`; `Valuation` has `Snapshot`, `Value`, `Accounts`, `Total`.
--   Trading      apps/api/internal/trading/trading.go: the executor, which checks a request, asks the
--                price source and the guard, and has the ledger make the trade once the journal has
--                it. `Recovery` also has the trade records of `restore` in apps/api/internal/app/app.go.
--                `FileJournal` is `Journal.Commit` of apps/api/internal/store/store.go over the file log.
--   RateLimit    apps/api/internal/ratelimit/ratelimit.go: the rolling-window limit on trades.
--   EventClock   apps/api/internal/eventclock/eventclock.go: where the event is in its schedule.
--                `Blocks` has `validateBlocks` and `Block` of apps/api/internal/rulebook/rulebook.go;
--                `State` has the records, `New` and `positionLocked`; `Control` has the organiser's
--                controls, from `Start` to `Reset`; `Schedule` has `Schedule`, `SetSchedule`,
--                `Snapshot` and `Restore`; `Access` has `MarketOpen` and `WindowOpen`; `Ticking` has
--                `Tick` and `deliver`.
--   Market       apps/api/internal/market/market.go: current prices, their history, snapshots.
--   Desk         apps/api/internal/app/trades.go: `Trade` from the check of the symbol on, which asks
--                the clock and the limiter before it lets the executor work, and gives a trade back
--                to the limiter where none was made.
--   LoginGuard   apps/api/internal/httpapi/loginguard.go: locks against password guessing.
--   Disputes     apps/api/internal/disputes/disputes.go: what a raised dispute says.
--   Scoring      apps/api/internal/scoring: `Caps` is `AllocationCaps` of funds.go, `Pairing` is
--                pairing.go, `Ranking` is ranking.go.
--   Funds        apps/api/internal/funds/funds.go: the book of phase 2. `Float` is what the code does with
--                a float64, and apps/api/internal/money/money.go; `Events` has the records, `Book` and
--                `Apply` have the cases of `Apply`, `Reads` has the reads and `PlanCheckpoint`.
--   FundDesk     apps/api/internal/app/funds.go: money into and out of funds. The root has the values
--                (`navOf`, `totalValue`), `Limits` has `OpenWindow`, `capRooms`, and `MinInvestment` and
--                `MandatoryPool` of apps/api/internal/scoring/funds.go; `Orders` has `allocate`,
--                `Redeeming` has `redeem`, `raiseFundCash`, `Allocate` and `Redeem`; `Replay` has
--                `applyFundEvent` and `applyMoves`; `Forming` has `seedFunds`, `FormFunds` and
--                `DissolveFunds`; `Logs` has `SubmitLog`, `SetFundTrader` and `DisqualifyFund`;
--                `Sampling` has `takeCheckpoint`, `sampleSeries`, and `Herfindahl` of
--                apps/api/internal/scoring/herfindahl.go.
--   News         apps/api/internal/news/news.go: the dispatcher that gives news to fund managers first.
--   Log          apps/api/internal/store/store.go: the write-ahead file. The root has `OpenFile`,
--                `validLength` and `Replay`; `FileLog` has `Append`, the sync that appends share, and
--                `Close`; `Kinds` has the kinds of records. `Compaction` is compact.go: the root has the
--                first pass and the plan, `Rewriting` the second pass and `Compact`; `Rules` is
--                `CompactRules` of apps/api/internal/app/app.go.
--   Prelude      lists, integers, Go's int64, strings and maps, the stable sort.
--   Tests        runs at concrete inputs, and instances of the theorems.
--
-- How the parts interact: the desk asks the clock whether the market is open and the limiter whether the
-- account may trade; the executor asks the market for a price and hands the ledger the function that
-- commits a trade to the log. An order on a fund asks the limiter, the clock's window and the equal-cap
-- rule, then has the ledger move the cash with a commit that stores an event, and applies that event to
-- the book; a redemption may have the executor sell first. The market's snapshots and the ledger's
-- valuation give the values that the ranking sorts. What the executor and the desk store goes through
-- `Append` of the log, and a restart compacts the log, opens it and replays it.
--
-- How the code is modelled. An operation on a shared object holds the object's lock, so it is one step:
-- a function from the old state to the new one and the result. A write through a pointer into a
-- map is a write of the map's entry. An int64 (`money.Paise`, share counts, `time.Duration`) is an
-- integer, and each sum, difference and product is wrapped as Go wraps it (`Prelude.Int64`); a division
-- by zero and an index out of range are results of their own. A time is an integer of nanoseconds, and
-- a difference of two times saturates in the clock, as `Time.Sub` does; in the limiter, and at the
-- ends of the range of `time.Time`, the saturation is left out. A call that reads the time more than
-- once is given one time for all of its readings. A Go string is its list of bytes. A Go map is an
-- association list, and no theorem depends on the order of its entries. Loops recur on the lists that
-- they range over, so no fuel is needed. Error values are constructors; their texts are left out.
-- What the code takes from outside is an argument: prices, the guard, the commit function, new ids,
-- the time. `Trading.Recovery.DurableJournal` says what the executor relies on in its journal: a commit
-- that fails may have written its record all the same, and the log is broken then and writes nothing more.
-- `Trading.FileJournal.Durable.file_journal` is the file log as such a journal, with no law assumed: the
-- disk guard, the write, the flush and the sync of any commit may fail. There, one commit runs at a time,
-- from its call to its return, and only trades are written; with group commit, a failing sync can leave
-- the trades of several accounts in doubt, one of each, which is not modelled. A listener of the clock is
-- known by a number, and a tick's result lists the calls of listeners in order.
--
-- A call of `Trade`, `Allocate` or `Redeem` of apps/api/internal/app is one step as well, though no one
-- lock is held all through it: `evMu` is held for reading, and the limiter is asked, and given the trade
-- back, outside `fundMu`. So two requests of one account that overlap are modelled one after the other.
-- A step of the news reads `Held` once, where the source may read it up to three times.
--
-- A float64 is a type with operations (`Funds.Float`), of which no law is assumed. A pointer to a fund is
-- its place in the book's list of funds, and one to a release is its place in the list of releases. A timer
-- of the news is an entry of a list that may run once its wait is over; stopping it removes it, unless
-- its function has begun.
--
-- A file is its bytes. What `Append` does between getting the lock and giving it up is one step, and a run
-- is any sequence of such steps, with any of them failing, so it has every order in which goroutines can
-- get the lock. Of the bytes that were not synced, a crash leaves any beginning. JSON is a parameter
-- (`Log.Json`), of which `IsJson` says that a record's text has no line feed and reads back. A fault of the
-- disk during a compaction is a flag for each of its calls; the lock that keeps a second server out is not
-- modelled further.
--
-- Not modelled: HTTP, WebSocket and log-in code, the PostgreSQL store, the guard against a full disk,
-- the price simulation, the funds' profiles (a regular expression refuses the names of real companies)
-- and views, users, their roles and privileges, the statistics and messages that follow a trade, and
-- the web app.
pub mod Prelude
pub mod Ledger
pub mod Trading
pub mod RateLimit
pub mod Disputes
pub mod Desk
pub mod LoginGuard
pub mod Funds
pub mod FundDesk
pub mod News
pub mod Log
pub mod Market
pub mod Scoring
pub mod EventClock
mod Tests
