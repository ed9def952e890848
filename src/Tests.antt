-- ===== src/Tests.antt =====
-- Runs at concrete inputs, and the theorems at inputs that meet their hypotheses.
mod LedgerRuns
mod TradingRuns
mod LimitRuns
mod ScoringRuns
mod ClockRuns
mod MarketRuns
mod GuardRuns
mod DeskRuns
mod DisputeRuns
mod FundRuns
mod FundDeskRuns
mod NewsRuns
mod LogRuns
mod FormingRuns
