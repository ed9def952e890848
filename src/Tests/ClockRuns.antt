-- ===== src/Tests/ClockRuns.antt =====
-- A day of two blocks: ten minutes of trading, then five minutes of rest.
use stockastic.EventClock.Schedule.Lengths.{IsScheduled, set_schedule-IsScheduled}
use stockastic.EventClock.Schedule.{set_schedule}
use stockastic.Prelude.Str.{str_eq, codes}
use stockastic.Prelude.Int64.{wrap}
use stockastic.Prelude.Int.{ℤ, pos, ◌+ℤ◌, ◌-ℤ◌, negsuc, ◌*ℤ◌}
use stockastic.EventClock.Blocks.{
  Block, zero_block, validate_blocks, blocks_error, block_error, contains, window_refused, is_stage,
  duration,
}
use stockastic.Prelude.{ℕ, true, ◌≡◌, false, List, none, ◌*◌, ◌∷◌, arith, [], refl}
use stockastic.EventClock.State.{
  Clock, elapsed, position, block_index, time_sub, find_from, index, index_from,
}
use stockastic.EventClock.State.Index.{position-InBlock, InBlock, Lengths}
use stockastic.EventClock.Control.{pause, resume, jump_to, absorb, run_on}
use stockastic.EventClock.Control.Jumping.{AtStart, jump_to-AtStart}
use stockastic.EventClock.Control.Pausing.{elapsed-resume-pause, resume-Absorbs, Absorbs}
use stockastic.EventClock.Ticking.Announcing.{run-Continues, Continues, run, Act, ticks, jumps}

abbrev trading : Block
trading = record zero_block {
  id = codes "a";
  label = codes "Trading";
  duration_min = pos 10;
  market_open = true;
}

abbrev rest : Block
rest = record zero_block { id = codes "b"; label = codes "Rest"; duration_min = pos 5 }

abbrev minutes : ℕ → ℤ
minutes n = pos (n * 60_000_000_000)

-- Started at minute 100, with one listener.
abbrev day : Clock
day = record {
  started = true;
  started_at = pos 6_000_000_000_000;
  offset = pos 0;
  paused = false;
  paused_at = pos 0;
  durations = pos 600_000_000_000 ∷ pos 300_000_000_000 ∷ [];
  ov = record { market_open = none; windows = []; frozen = false };
  last = negsuc 0;
  listeners = 7 ∷ [];
  blocks = trading ∷ rest ∷ [];
}

-- Minute 112, two minutes into the second block.
abbrev later : ℤ
later = pos 6_720_000_000_000

position-InBlock_example : InBlock day (elapsed day later) (position day later)
unfolding elapsed time_sub wrap ◌+ℤ◌ ◌-ℤ◌
position-InBlock_example = position-InBlock day later (omega arith) refl (omega arith)

jump_to-AtStart_example :
    ((jump_to day later (codes "b")).1 ≡ none)
    × AtStart day 1 (position (jump_to day later (codes "b")).0 later)
unfolding block_index find_from str_eq
jump_to-AtStart_example = jump_to-AtStart day later (codes "b") 1 (omega arith) refl refl refl

abbrev before : Clock
before = record day { started = false }

-- Paused at minute 104 and resumed at minute 112, with the rest giving way.
elapsed-resume-pause_example :
    elapsed (resume (pause day (pos 6_240_000_000_000)).0 later (codes "b")).0 later
    ≡ elapsed day (later -ℤ (later -ℤ pos 6_240_000_000_000))
unfolding pause resume block_index find_from str_eq elapsed time_sub wrap index index_from absorb
    ◌-ℤ◌ ◌+ℤ◌
elapsed-resume-pause_example =
    elapsed-resume-pause day (pos 6_240_000_000_000) later later (codes "b") refl refl (omega arith)
      tt

abbrev held : Clock
held = record day { paused = true; paused_at = pos 6_240_000_000_000 }

resume-Absorbs_example : Absorbs held (pos 480_000_000_000) (resume held later (codes "b"))
unfolding resume block_index find_from str_eq elapsed time_sub wrap index index_from absorb ◌-ℤ◌
    ◌+ℤ◌
resume-Absorbs_example =
    resume-Absorbs held later 480_000_000_000 (codes "b") (omega arith) (omega arith) refl refl
      (omega arith) tt

abbrev acts : List (ℤ × Act)
acts =
    (pos 6_060_000_000_000, ticks)
    ∷ (pos 6_120_000_000_000, jumps (codes "b"))
    ∷ (pos 6_180_000_000_000, ticks)
    ∷ (pos 6_240_000_000_000, jumps (codes "a"))
    ∷ (pos 6_300_000_000_000, ticks)
    ∷ []

run-Continues_example : Continues 7 day (run day acts)
run-Continues_example = run-Continues 7 day acts refl

-- The rest is shortened by the four minutes that it has to spare.
rest_gives_way :
    (resume held later (codes "b")).0.durations ≡ pos 600_000_000_000 ∷ pos 60_000_000_000 ∷ []
unfolding resume block_index find_from str_eq elapsed time_sub wrap index index_from absorb run_on
    ◌-ℤ◌ ◌+ℤ◌
rest_gives_way = refl

abbrev staged : Block → Block
staged b = record b { stage = codes "phase1" }

set_schedule-IsScheduled_example :
    IsScheduled (set_schedule day later (staged rest ∷ [])).0
    × Lengths (set_schedule day later (staged rest ∷ [])).0.durations
unfolding set_schedule validate_blocks blocks_error block_error contains window_refused is_stage
    str_eq duration wrap ◌*ℤ◌
set_schedule-IsScheduled_example = set_schedule-IsScheduled day later (staged rest ∷ []) refl

day-IsScheduled : IsScheduled day
day-IsScheduled = record { allotted = omega arith; each_block = refl; not_many = omega arith }
