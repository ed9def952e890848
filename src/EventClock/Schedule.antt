-- ===== src/EventClock/Schedule.antt =====
-- The schedule as the organiser sets it, and the clock's saved state (eventclock.go, `Schedule`,
-- `Blocks`, `SetSchedule`, `Snapshot` and `Restore`).
pub mod Lengths
use stockastic.EventClock.State.{index}
use stockastic.Prelude.Int64.{add64}
use stockastic.EventClock.Control.{ClockError, bad_schedule, wrong_durations}
use stockastic.EventClock.State.{Clock, Overrides, elapsed}
use stockastic.Prelude.Int.{ℤ, pos, min_ℤ, ◌-ℤ◌, negsuc}
use stockastic.EventClock.Blocks.{Block, window_count, zero_block, validate_blocks, duration}
use stockastic.Prelude.{
  ℕ, List, Option, Bool, if◌then◌else◌, some, ◌∷◌, [], none, false, length, true, ◌==◌, suc, map,
  zero,
}

pub record ScheduledBlock : Type 0 where
  pub block : Block
  pub start : ℤ
  pub duration : ℤ

unfoldable pub schedule_from : ℤ → List Block → List ℤ → List ScheduledBlock
schedule_from at bs [] = []
schedule_from at [] (d ∷ ds) =
    record { block = zero_block; start = at; duration = d } ∷ schedule_from (add64 at d) [] ds
schedule_from at (b ∷ bs) (d ∷ ds) =
    record { block = b; start = at; duration = d } ∷ schedule_from (add64 at d) bs ds

unfoldable pub schedule : Clock → List ScheduledBlock
schedule c = schedule_from (pos 0) c.blocks c.durations

-- `copy` into as many places as there are windows.
unfoldable pub fit_windows : ℕ → List (Option Bool) → List (Option Bool)
fit_windows zero ws = []
fit_windows (suc n) [] = none ∷ fit_windows n []
fit_windows (suc n) (w ∷ ws) = w ∷ fit_windows n ws

abbrev refit : Overrides → List Block → Overrides
refit o blocks = record o { windows = fit_windows (window_count blocks) o.windows }

-- Blocks that are already behind are not announced again.
abbrev caught_up : Clock → ℤ → ℤ
caught_up c now =
    if c.started
    then min_ℤ (pos (index c (elapsed c now))) (pos (length c.blocks) -ℤ pos 1)
    else negsuc 0

unfoldable pub set_schedule : Clock → ℤ → List Block → Clock × Option ClockError
set_schedule c now blocks = elim (validate_blocks blocks) [
  | some e ↦ (c, some (bad_schedule e))
  | none ↦
      let c' = record c {
        blocks = blocks;
        durations = map duration blocks;
        ov = refit c.ov blocks;
      } in
      (record c' { last = caught_up c' now }, none)
]

-- What is saved. `blocks` is empty in a state that an older version saved.
pub record Saved : Type 0 where
  pub started_at : Option ℤ
  pub offset : ℤ
  pub paused_at : Option ℤ
  pub durations : List ℤ
  pub overrides : Overrides
  pub last_notified : ℤ
  pub blocks : List Block

unfoldable pub snapshot : Clock → Saved
snapshot c = record {
  started_at = if c.started then some c.started_at else none;
  offset = c.offset;
  paused_at = if c.paused then some c.paused_at else none;
  durations = c.durations;
  overrides = c.ov;
  last_notified = c.last;
  blocks = c.blocks;
}

abbrev is_set : Option ℤ → Bool
is_set none = false
is_set (some t) = true

abbrev or_else : Option ℤ → ℤ → ℤ
or_else none t = t
or_else (some u) t = u

unfoldable pub reinstate : Clock → Saved → List Block → List ℤ → Clock
reinstate c s blocks durations = record c {
  started = is_set s.started_at;
  started_at = or_else s.started_at c.started_at;
  offset = s.offset;
  paused = is_set s.paused_at;
  paused_at = or_else s.paused_at c.paused_at;
  durations = durations;
  ov = refit s.overrides blocks;
  last = s.last_notified;
  blocks = blocks;
}

unfoldable pub restore : Clock → Saved → Clock × Option ClockError
restore c s =
    if length s.blocks == 0
    then if length s.durations == length c.blocks
      then (reinstate c s c.blocks s.durations, none)
      else (c, some wrong_durations)
    else elim (validate_blocks s.blocks) [
      | some e ↦ (c, some (bad_schedule e))
      | none ↦
          if length s.durations == length s.blocks
          then (reinstate c s s.blocks s.durations, none)
          else (reinstate c s s.blocks (map duration s.blocks), none)
    ]
