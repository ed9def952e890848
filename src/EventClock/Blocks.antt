-- ===== src/EventClock/Blocks.antt =====
-- The blocks of a schedule and their validation (eventclock.go, `windowCount` and `validateBlocks`;
-- `Block` and `Duration` of apps/api/internal/rulebook/rulebook.go).
use stockastic.Prelude.Int64.{mul64}
use stockastic.Prelude.Str.{Str, str_eq, is_empty, codes}
use stockastic.Prelude.Int.{ℤ, pos, ltb_ℤ, ◌+ℤ◌, eqb_ℤ, pos_part}
use stockastic.Prelude.{
  ℕ, [], Option, List, Bool, if◌then◌else◌, none, some, ◌∷◌, false, length, ◌||◌, ◌==◌, ltb, not,
}

-- A minute in nanoseconds.
abbrev pub minute : ℤ
minute = pos 60_000_000_000

-- The shortest that a compressed block may become.
abbrev pub min_block : ℤ
min_block = minute

-- 366 days
abbrev pub max_block : ℤ
max_block = pos 31_622_400_000_000_000

abbrev pub max_blocks : ℕ
max_blocks = 60

pub record Block : Type 0 where
  pub id : Str
  pub label : Str
  pub public_label : Str
  pub duration_min : ℤ
  pub stage : Str
  pub market_open : Bool
  pub allocation_window : Option ℤ
  pub freeze_snapshot : Str
  pub regime_event : Bool

unfoldable pub duration : Block → ℤ
duration b = mul64 b.duration_min minute

-- The block of a position that is in no block.
abbrev pub zero_block : Block
zero_block = record {
  id = [];
  label = [];
  public_label = [];
  duration_min = pos 0;
  stage = [];
  market_open = false;
  allocation_window = none;
  freeze_snapshot = [];
  regime_event = false;
}

abbrev next_count : ℕ → Option ℤ → ℕ
next_count n none = n
next_count n (some w) = if ltb_ℤ (pos n) (w +ℤ pos 1) then pos_part (w +ℤ pos 1) else n

unfoldable pub count_windows : ℕ → List Block → ℕ
count_windows n [] = n
count_windows n (b ∷ bs) = count_windows (next_count n b.allocation_window) bs

unfoldable pub window_count : List Block → ℕ
unfolding count_windows
window_count blocks = count_windows 0 blocks

pub data ScheduleError : Type 0 where
  bad_length bad_id bad_label bad_duration unknown_stage bad_window bad_snapshot : ScheduleError

unfoldable pub contains : List Str → Str → Bool
contains [] s = false
contains (t ∷ ts) s = str_eq t s || contains ts s

unfoldable pub contains_window : List ℤ → ℤ → Bool
contains_window [] w = false
contains_window (v ∷ vs) w = eqb_ℤ v w || contains_window vs w

unfoldable pub is_stage : Str → Bool
is_stage s =
    str_eq s (codes "phase1")
    || (str_eq s (codes "transition") || (str_eq s (codes "phase2") || str_eq s (codes "closing")))

unfoldable pub window_refused : List ℤ → Option ℤ → Bool
unfolding contains_window
window_refused seen none = false
window_refused seen (some w) = ltb_ℤ w (pos 0) || (ltb_ℤ (pos 20) w || contains_window seen w)

abbrev pub see_window : Option ℤ → List ℤ → List ℤ
see_window none seen = seen
see_window (some w) seen = w ∷ seen

-- What is wrong with one block, given the ids and windows of those before it.
unfoldable pub block_error : List Str → List ℤ → Block → Option ScheduleError
unfolding contains duration is_stage window_refused
block_error ids windows b =
    if is_empty b.id || (ltb 40 (length b.id) || contains ids b.id)
    then some bad_id
    else if is_empty b.label || ltb 120 (length b.label)
    then some bad_label
    else if ltb_ℤ (duration b) min_block || ltb_ℤ max_block (duration b)
    then some bad_duration
    else if not (is_stage b.stage)
    then some unknown_stage
    else if window_refused windows b.allocation_window
    then some bad_window
    else if ltb 30 (length b.freeze_snapshot)
    then some bad_snapshot
    else none

unfoldable pub blocks_error : List Str → List ℤ → List Block → Option ScheduleError
unfolding block_error
blocks_error ids windows [] = none
blocks_error ids windows (b ∷ bs) =
    let rest = blocks_error (b.id ∷ ids) (see_window b.allocation_window windows) bs in
    elim (block_error ids windows b) [ some e ↦ some e | none ↦ rest ]

unfoldable pub validate_blocks : List Block → Option ScheduleError
unfolding blocks_error
validate_blocks blocks =
    if length blocks == 0 || ltb max_blocks (length blocks)
    then some bad_length
    else blocks_error [] [] blocks
