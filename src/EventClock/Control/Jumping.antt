-- ===== src/EventClock/Control/Jumping.antt =====
-- Where the event is after a jump, a start or the end (eventclock.go, `JumpTo`, `StartAt`, `End`).
use stockastic.EventClock.Blocks.{Block, zero_block}
use mathlib.Core.Path.{subst}
use stockastic.Prelude.Str.{Str, is_empty}
use stockastic.Prelude.Int64.{wrap, Fits, sub64, add64_shift, wrap-eq_of_Fits}
use stockastic.Prelude.Int.{ℤ, pos, int_laws, pos_part, ◌-ℤ◌, ◌+ℤ◌}
use stockastic.Prelude.{
  ℕ, ◌≡◌, ◌≤◌, ◌<◌, true, false, length, List, leb, arith, some, if◌then◌else◌, get_or, ap, sym,
  ◌+◌, none, ◌∷◌, ◌∙◌, suc, [], not, refl,
}
use stockastic.EventClock.State.{
  Clock, Position, position, elapsed, index, total, start_of, block_index, find_from, locate,
  time_sub,
}
use stockastic.EventClock.State.Index.{
  Lengths, nth, start_of_exact, position-locate, index-start_of, nth-pos, span-take,
}
use stockastic.EventClock.Control.{
  start_at, finish, jump_to, move_to, not_started, begin_at, already_started,
}

elapsed-move_to :
    (c : Clock) (now target : ℤ)
    → c.started ≡ true
    → Fits target
    → elapsed (move_to c now target) now ≡ target
unfolding elapsed move_to
elapsed-move_to c now target st fits = rw st (
    add64_shift (time_sub (if c.paused then c.paused_at else now) c.started_at) c.offset target
      fits)

-- The event is at the first instant of block `i`.
abbrev pub AtStart : Clock → ℕ → Position → Type 0
AtStart c i p =
    (p.ended ≡ false)
    × (p.index ≡ pos i)
    × (p.into ≡ pos 0)
    × (p.remaining ≡ nth c.durations i)
    × (p.block ≡ get_or c.blocks i zero_block)

sub64_self : (a : ℤ) → sub64 a a ≡ pos 0
unfolding wrap
sub64_self a = ap wrap {y = pos 0} (omega int_laws)

sub64_zero : (n : ℕ) → n ≤ 0x7fff_ffff_ffff_ffff → sub64 (pos n) (pos 0) ≡ pos n
sub64_zero n fits = ap wrap {y = pos n} (omega int_laws) ∙ wrap-eq_of_Fits (pos n) (omega arith)

locate-AtStart :
    (c : Clock) (i : ℕ)
    → Lengths c.durations
    → i < length c.durations
    → AtStart c i (locate c (start_of c i) i)
unfolding locate
locate-AtStart c i h lt =
    let inside : leb (length c.durations) i ≡ false = ground arith in
    let rest : sub64 (nth c.durations i) (pos 0) ≡ nth c.durations i =
      subst (λ d. sub64 d (pos 0) ≡ d) (sym (nth-pos c.durations i h.0))
        (sub64_zero (pos_part (nth c.durations i)) (omega (arith, span-take i c.durations, h.1))) in
    rw inside (
      refl,
      refl,
      sub64_self (start_of c i),
      ap (sub64 (nth c.durations i)) (sub64_self (start_of c i)) ∙ rest,
      refl,
    )

position-AtStart :
    (c : Clock) (now : ℤ) (i : ℕ)
    → Lengths c.durations
    → i < length c.durations
    → c.started ≡ true
    → elapsed c now ≡ start_of c i
    → AtStart c i (position c now)
position-AtStart c now i h lt st e = subst (AtStart c i) (sym (position-locate c now st)) (
    subst (λ x. AtStart c i (locate c x (index c x))) (sym e)
      (subst (λ k. AtStart c i (locate c (start_of c i) k))
        (sym (index-start_of c i h (omega arith))) (locate-AtStart c i h lt)))

find_from-lt :
    (j i : ℕ) (id : Str) (bs : List Block)
    → find_from j id bs ≡ some i
    → (j ≤ i) × (i < j + length bs)
unfolding find_from
find_from-lt j i id [] e = cc
find_from-lt j i id (b ∷ bs) e = ground (arith, find_from-lt (suc j) i id bs)

start_of-Fits : (c : Clock) (i : ℕ) → Lengths c.durations → Fits (start_of c i)
start_of-Fits c i h = rw (start_of_exact c i h) (omega (arith, span-take i c.durations, h.1))

move_to-AtStart :
    (c : Clock) (now : ℤ) (i : ℕ)
    → Lengths c.durations
    → i < length c.durations
    → c.started ≡ true
    → AtStart c i (position (move_to c now (start_of c i)) now)
unfolding move_to start_of
move_to-AtStart c now i h lt st =
    position-AtStart (move_to c now (start_of c i)) now i h lt st
      (elapsed-move_to c now (start_of c i) st (start_of-Fits c i h))

jump_to-found :
    (c : Clock) (now : ℤ) (id : Str) (i : ℕ)
    → c.started ≡ true
    → block_index c id ≡ some i
    → jump_to c now id ≡ (move_to c now (start_of c i), none)
unfolding jump_to
jump_to-found c now id i st found =
    rw found
      (ap (λ s. if not s then (c, some not_started) else (move_to c now (start_of c i), none)) st)

pub block_index-lt :
    (c : Clock) (id : Str) (i : ℕ) → block_index c id ≡ some i → i < length c.blocks
unfolding block_index
block_index-lt c id i found = omega (arith, find_from-lt 0 i id c.blocks found)

-- A jump lands on the first instant of the block that it names, paused or not: if every block has
-- a length, all lengths together fit in an int64, there is a block for each length, the clock has
-- started and the id is that of block `i`, then there is no error, and the new clock's position at
-- that time is in block `i`, with nothing of it behind and all of it remaining.
pub jump_to-AtStart :
    (c : Clock) (now : ℤ) (id : Str) (i : ℕ)
    → Lengths c.durations
    → length c.blocks ≡ length c.durations
    → c.started ≡ true
    → block_index c id ≡ some i
    → ((jump_to c now id).1 ≡ none) × AtStart c i (position (jump_to c now id).0 now)
jump_to-AtStart c now id i h same st found =
    rw (jump_to-found c now id i st found)
      (refl, move_to-AtStart c now i h (omega (arith, block_index-lt c id i found)) st)

position-ended :
    (c : Clock) (now : ℤ)
    → Lengths c.durations
    → c.started ≡ true
    → elapsed c now ≡ total c
    → (position c now).ended ≡ true
unfolding total locate
position-ended c now h st e =
    let over : leb (length c.durations) (length c.durations) ≡ true = ground arith in
    let last : index c (elapsed c now) ≡ length c.durations =
      ap (index c) e ∙ index-start_of c (length c.durations) h (omega arith) in
    ap (λ p. p.ended) (position-locate c now st)
    ∙ ap (λ k. (locate c (elapsed c now) k).ended) last
    ∙ rw over refl

-- Ending the event ends it at once: if every block has a length, all lengths together fit in an int64 and the
-- clock has started, then there is no error, and the new clock's position at that time says that the event has ended.
pub finish-ended :
    (c : Clock) (now : ℤ)
    → Lengths c.durations
    → c.started ≡ true
    → ((finish c now).1 ≡ none) × ((position (finish c now).0 now).ended ≡ true)
unfolding finish move_to total start_of
finish-ended c now h st =
    let c' = move_to c now (total c) in
    let e : elapsed c' now ≡ total c =
      elapsed-move_to c now (total c) st (start_of-Fits c (length c.durations) h) in
    let ended : finish c now ≡ (c', none) =
      ap (λ s. if s then (c', none) else (c, some not_started)) st in
    rw ended (refl, position-ended c' now h st e)

elapsed-begin_at :
    (c : Clock) (now : ℤ) (i : ℕ)
    → Lengths c.durations
    → elapsed (begin_at c now i) now ≡ start_of c i
unfolding begin_at elapsed time_sub
elapsed-begin_at c now i h =
    let none_yet : now -ℤ now ≡ pos 0 = omega int_laws in
    let sum : pos 0 +ℤ start_of c i ≡ start_of c i = omega int_laws in
    rw (none_yet, sum) (wrap-eq_of_Fits (start_of c i) (start_of-Fits c i h))

-- An event that is started at a block begins at its first instant, and its blocks are announced from that one on: if every block has
-- a length, all lengths together fit in an int64, there is a block for each length, the clock has not started and the id is that of block `i`, then there is
-- no error, the new clock's position at that time is in block `i`, with nothing of it behind and all of it
-- remaining, and block `i - 1` counts as the last one announced.
pub start_at-AtStart :
    (c : Clock) (now : ℤ) (id : Str) (i : ℕ)
    → Lengths c.durations
    → length c.blocks ≡ length c.durations
    → c.started ≡ false
    → is_empty id ≡ false
    → block_index c id ≡ some i
    → ((start_at c now id).1 ≡ none)
      × ((start_at c now id).0.last ≡ pos i -ℤ pos 1)
      × AtStart c i (position (start_at c now id).0 now)
unfolding start_at begin_at start_of
start_at-AtStart c now id i h same st named found =
    let c' = begin_at c now i in
    let begun : start_at c now id ≡ (c', none) =
      rw (found, named) (ap (λ s. if s then (c, some already_started) else (c', none)) st) in
    let e : elapsed c' now ≡ start_of c i = elapsed-begin_at c now i h in
    rw begun
      (refl, refl, position-AtStart c' now i h (omega (arith, block_index-lt c id i found)) refl e)
