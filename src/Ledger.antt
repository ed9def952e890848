-- ===== src/Ledger.antt =====
-- The ledger of cash and shares (apps/api/internal/ledger/ledger.go).
pub mod State
pub mod Trades
pub mod Corrections
pub mod Moves
pub mod Valuation
