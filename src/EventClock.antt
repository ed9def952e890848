-- ===== src/EventClock.antt =====
-- The event clock (apps/api/internal/eventclock/eventclock.go).
pub mod Blocks
pub mod State
pub mod Control
pub mod Schedule
pub mod Access
pub mod Ticking
