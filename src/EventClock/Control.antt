-- ===== src/EventClock/Control.antt =====
-- The organiser's controls (eventclock.go): start, pause, resume, jump, nudge, end, the length of a
-- block, the overrides and the reset. Each call reads the time once.
pub mod Pausing
pub mod Jumping
use stockastic.Prelude.Str.{Str, is_empty}
use stockastic.Prelude.Int64.{add64, sub64}
use stockastic.EventClock.State.{index}
use stockastic.EventClock.State.{position}
use stockastic.EventClock.State.{total}
use stockastic.Prelude.Int.{ℤ, ◌+ℤ◌, pos, max_ℤ, ltb_ℤ, ◌-ℤ◌, negsuc, min_ℤ, eqb_ℤ, leb_ℤ, pos_part}
use stockastic.EventClock.State.{Clock, time_sub, elapsed, block_index, start_of, no_windows}
use stockastic.EventClock.Blocks.{ScheduleError, min_block, max_block}
use stockastic.Prelude.{
  ℕ, Option, false, get_or, Bool, true, if◌then◌else◌, none, some, not, ◌||◌, leb, set, ◌&&◌,
  length,
}

pub data ClockError : Type 0 where
  not_started already_started not_paused already_paused unknown_block not_later : ClockError
  block_in_past length_out_of_range shorter_than_run window_out_of_range : ClockError
  bad_schedule : ScheduleError → ClockError
  wrong_durations : ClockError

unfoldable pub start : Clock → ℤ → Clock × Option ClockError
start c now =
    if c.started
    then (c, some already_started)
    else (record c { started = true; started_at = now }, none)

unfoldable pub pause : Clock → ℤ → Clock × Option ClockError
pause c now =
    if not c.started
    then (c, some not_started)
    else if c.paused
    then (c, some already_paused)
    else (record c { paused = true; paused_at = now }, none)

-- The result of `Resume`: how much was absorbed and how much overruns, or why it was refused.
pub data Resumed : Type 0 where
  resumed : ℤ → ℤ → Resumed
  refused : ClockError → Resumed

unfoldable pub run_on : Clock → ℤ → Clock
run_on c now = record c { paused = false; started_at = c.started_at +ℤ time_sub now c.paused_at }

-- Block `i` gives up to the lost time, and keeps a minute.
unfoldable pub absorb : Clock → ℕ → ℤ → Clock × Resumed
absorb c i lost =
    let d = get_or c.durations i (pos 0) in
    let room = max_ℤ (sub64 d min_block) (pos 0) in
    let absorbed = min_ℤ lost room in
    (
      record c { durations = set c.durations i (sub64 d absorbed) },
      resumed absorbed (sub64 lost absorbed),
    )

unfoldable pub resume : Clock → ℤ → Str → Clock × Resumed
resume c now compress =
    if not c.started
    then (c, refused not_started)
    else if not c.paused
    then (c, refused not_paused)
    else if is_empty compress
    then (run_on c now, resumed (pos 0) (time_sub now c.paused_at))
    else elim (block_index c compress) [
      | none ↦ (c, refused unknown_block)
      | some i ↦
          if leb i (index c (elapsed c now))
          then (c, refused not_later)
          else absorb (run_on c now) i (time_sub now c.paused_at)
    ]

-- The offset at which the elapsed time is `target`.
unfoldable pub move_to : Clock → ℤ → ℤ → Clock
move_to c now target = record c { offset = add64 c.offset (sub64 target (elapsed c now)) }

unfoldable pub jump_to : Clock → ℤ → Str → Clock × Option ClockError
jump_to c now id = if not c.started then (c, some not_started) else elim (block_index c id) [
  | none ↦ (c, some unknown_block)
  | some i ↦ (move_to c now (start_of c i), none)
]

unfoldable pub nudge : Clock → ℤ → Clock × Option ClockError
nudge c d =
    if c.started then (record c { offset = add64 c.offset d }, none) else (c, some not_started)

unfoldable pub finish : Clock → ℤ → Clock × Option ClockError
finish c now = if c.started then (move_to c now (total c), none) else (c, some not_started)

-- Why a block of a running event cannot be given the length.
unfoldable pub length_refused : Clock → ℤ → ℕ → ℤ → Option ClockError
length_refused c now i d =
    let p = position c now in
    if not c.started
    then none
    else if p.ended || ltb_ℤ (pos i) p.index
    then some block_in_past
    else if eqb_ℤ (pos i) p.index && ltb_ℤ d p.into
    then some shorter_than_run
    else none

unfoldable pub set_block_duration : Clock → ℤ → Str → ℤ → Clock × Option ClockError
set_block_duration c now id d = elim (block_index c id) [
  | none ↦ (c, some unknown_block)
  | some i ↦
      if ltb_ℤ d min_block || ltb_ℤ max_block d
      then (c, some length_out_of_range)
      else elim (length_refused c now i d) [
        | some e ↦ (c, some e)
        | none ↦ (record c { durations = set c.durations i d }, none)
      ]
]

unfoldable pub set_frozen : Clock → Bool → Clock
set_frozen c v = record c { ov = let o = c.ov in record o { frozen = v } }

unfoldable pub set_market_override : Clock → Option Bool → Clock
set_market_override c v = record c { ov = let o = c.ov in record o { market_open = v } }

unfoldable pub set_window_override : Clock → ℤ → Option Bool → Clock × Option ClockError
set_window_override c w v =
    if ltb_ℤ w (pos 0) || leb_ℤ (pos (length c.ov.windows)) w
    then (c, some window_out_of_range)
    else let o = c.ov in
      (record c { ov = record o { windows = set o.windows (pos_part w) v } }, none)

-- Block `i` is the first: those before it are not announced.
unfoldable pub begin_at : Clock → ℤ → ℕ → Clock
begin_at c now i = record c {
  started = true;
  paused = false;
  started_at = now;
  offset = start_of c i;
  last = pos i -ℤ pos 1;
}

unfoldable pub start_at : Clock → ℤ → Str → Clock × Option ClockError
start_at c now id =
    if c.started
    then (c, some already_started)
    else if is_empty id
    then (begin_at c now 0, none)
    else elim (block_index c id) [
      | none ↦ (c, some unknown_block)
      | some i ↦ (begin_at c now i, none)
    ]

unfoldable pub reset : Clock → Clock
reset c = record c {
  started = false;
  paused = false;
  offset = pos 0;
  last = negsuc 0;
  ov = record { market_open = none; windows = no_windows c.blocks; frozen = false };
}
