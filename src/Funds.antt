-- ===== src/Funds.antt =====
-- The funds' book of phase 2 (apps/api/internal/funds/funds.go): pure state that events change.
pub mod Float
pub mod Events
pub mod Book
pub mod Apply
pub mod Reads
pub mod Inflow
pub mod Pointers
pub mod Indexed
pub mod Marks
