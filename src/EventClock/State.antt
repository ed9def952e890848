-- ===== src/EventClock/State.antt =====
-- The clock's state and where the event is (eventclock.go, `Clock`, `Position`, `positionLocked`).
-- Durations are int64; a difference of two times saturates, as `Time.Sub` does.
pub mod Index
use stockastic.Prelude.Int64.{add64, max_int64, sub64}
use stockastic.EventClock.Blocks.{Block, window_count, duration, zero_block}
use stockastic.Prelude.Str.{Str, str_eq}
use stockastic.Prelude.Int.{ℤ, ◌-ℤ◌, pos, ltb_ℤ, max_ℤ, negsuc}
use stockastic.Prelude.{
  ℕ, Option, Bool, List, ◌++◌, ◌∷◌, if◌then◌else◌, false, length, suc, replicate, map, [], none,
  zero, not, some, leb, true, get_or,
}

pub record Overrides : Type 0 where
  pub market_open : Option Bool
  pub windows : List (Option Bool)
  pub frozen : Bool

-- A listener is known by its number.
pub record Clock : Type 0 where
  pub started : Bool
  pub started_at : ℤ
  pub offset : ℤ
  pub paused : Bool
  pub paused_at : ℤ
  pub durations : List ℤ
  pub ov : Overrides
  pub last : ℤ
  pub listeners : List ℕ
  pub blocks : List Block

pub record Position : Type 0 where
  pub started : Bool
  pub ended : Bool
  pub paused : Bool
  pub index : ℤ
  pub block : Block
  pub elapsed : ℤ
  pub into : ℤ
  pub remaining : ℤ

-- `t.Sub(u)`
unfoldable pub time_sub : ℤ → ℤ → ℤ
time_sub t u =
    let d = t -ℤ u in
    if ltb_ℤ max_int64 d
    then max_int64
    else if ltb_ℤ d (negsuc 0x7fff_ffff_ffff_ffff)
    then negsuc 0x7fff_ffff_ffff_ffff
    else d

abbrev pub no_windows : List Block → List (Option Bool)
no_windows blocks = replicate (window_count blocks) none

unfoldable pub new : List Block → Clock
new timeline = record {
  started = false;
  started_at = pos 0;
  offset = pos 0;
  paused = false;
  paused_at = pos 0;
  durations = map duration timeline;
  ov = record { market_open = none; windows = no_windows timeline; frozen = false };
  last = negsuc 0;
  listeners = [];
  blocks = timeline;
}

unfoldable pub on_transition : Clock → ℕ → Clock
on_transition c f = record c { listeners = c.listeners ++ f ∷ [] }

unfoldable pub elapsed : Clock → ℤ → ℤ
elapsed c at =
    if c.started
    then add64 (time_sub (if c.paused then c.paused_at else at) c.started_at) c.offset
    else pos 0

unfoldable pub index_from : ℤ → ℕ → ℤ → List ℤ → ℕ
index_from acc i elapsed [] = i
index_from acc i elapsed (d ∷ ds) =
    let rest = index_from (add64 acc d) (suc i) elapsed ds in
    if ltb_ℤ elapsed (add64 acc d) then i else rest

unfoldable pub index : Clock → ℤ → ℕ
index c elapsed = index_from (pos 0) 0 (max_ℤ elapsed (pos 0)) c.durations

unfoldable pub start_from : ℤ → ℕ → List ℤ → ℤ
start_from acc zero ds = acc
start_from acc (suc i) [] = acc
start_from acc (suc i) (d ∷ ds) = start_from (add64 acc d) i ds

unfoldable pub start_of : Clock → ℕ → ℤ
start_of c i = start_from (pos 0) i c.durations

abbrev pub nowhere : Clock → Position
nowhere c = record {
  started = c.started;
  ended = false;
  paused = c.paused;
  index = negsuc 0;
  block = zero_block;
  elapsed = pos 0;
  into = pos 0;
  remaining = pos 0;
}

-- A clock has a block for each duration (`Schedule.Lengths`), so the defaults are not reached.
unfoldable pub locate : Clock → ℤ → ℕ → Position
locate c e i =
    let p : Position = record (nowhere c) { elapsed = e; index = pos i } in
    if leb (length c.durations) i
    then record p { ended = true }
    else let into = sub64 e (start_of c i) in
      record p {
        block = get_or c.blocks i zero_block;
        into = into;
        remaining = sub64 (get_or c.durations i (pos 0)) into;
      }

unfoldable pub position : Clock → ℤ → Position
position c at = if c.started then locate c (elapsed c at) (index c (elapsed c at)) else nowhere c

unfoldable pub find_from : ℕ → Str → List Block → Option ℕ
find_from i id [] = none
find_from i id (b ∷ bs) =
    let rest = find_from (suc i) id bs in if str_eq b.id id then some i else rest

-- `blockIndexLocked`, with `none` for -1.
unfoldable pub block_index : Clock → Str → Option ℕ
block_index c id = find_from 0 id c.blocks

unfoldable pub total : Clock → ℤ
total c = start_of c (length c.durations)
