-- ===== src/EventClock/Schedule/Lengths.antt =====
-- The lengths of a schedule that is accepted (eventclock.go, `validateBlocks`, `SetSchedule`,
-- `SetBlockDuration`).
use mathlib.Core.Path.{subst}
use stockastic.Prelude.Str.{Str}
use stockastic.Prelude.Int.{ℤ, ◌≤ℤ◌, pos, parts_disjoint, ltb_ℤ}
use stockastic.Prelude.{
  ℕ, All, List, arith, length, ◌≤◌, ◌≡◌, ◌*◌, none, ◌∷◌, map, Option-cases, [], Bool-cases, inl,
  ◌==◌, inr, ◌||◌, ltb, refl, sym, ap, ◌∙◌, length-map, ◌⊎◌, All-set, set, length-set,
}
use stockastic.EventClock.State.{Clock, block_index}
use stockastic.EventClock.State.Index.{Lengths, span}
use stockastic.EventClock.Schedule.{set_schedule}
use stockastic.EventClock.Control.{set_block_duration, length_refused}
use stockastic.EventClock.Blocks.{
  Block, duration, min_block, max_block, block_error, blocks_error, validate_blocks, max_blocks,
  see_window,
}

abbrev pub Allotted : ℤ → Type 0
Allotted d = (min_block ≤ℤ d) × (d ≤ℤ max_block)

-- A length for each block, from a minute to a year, and windows for the blocks that have one.
pub record IsScheduled (c : Clock) : Type 0 where
  pub allotted : All Allotted c.durations
  pub each_block : length c.durations ≡ length c.blocks
  pub not_many : length c.blocks ≤ 60

span-Allotted : (ds : List ℤ) → All Allotted ds → span ds ≤ length ds * 31_622_400_000_000_000
span-Allotted [] h = omega arith
span-Allotted (d ∷ ds) h = omega (arith, span-Allotted ds h.1, parts_disjoint d)

positive : (ds : List ℤ) → All Allotted ds → All (λ d. pos 1 ≤ℤ d) ds
positive [] h = tt
positive (d ∷ ds) h = (omega arith, positive ds h.1)

IsScheduled-Lengths : (c : Clock) → IsScheduled c → Lengths c.durations
IsScheduled-Lengths c h = (
  positive c.durations h.allotted,
  omega (arith, span-Allotted c.durations h.allotted, h.each_block, h.not_many),
)

block_error-Allotted :
    (ids : List Str) (windows : List ℤ) (b : Block)
    → block_error ids windows b ≡ none
    → Allotted (duration b)
unfolding block_error
block_error-Allotted ids windows b h = ground arith

blocks_error-Allotted :
    (ids : List Str) (windows : List ℤ) (bs : List Block)
    → blocks_error ids windows bs ≡ none
    → All Allotted (map duration bs)
unfolding blocks_error
blocks_error-Allotted ids windows [] h = tt
blocks_error-Allotted ids windows (b ∷ bs) h = elim (Option-cases (block_error ids windows b)) [
  | inl good ↦ (
    block_error-Allotted ids windows b good,
    blocks_error-Allotted (b.id ∷ ids) (see_window b.allocation_window windows) bs (ground arith),
  )
  | inr (e, bad) ↦ absurd (ground arith)
]

validate_blocks-Allotted :
    (bs : List Block)
    → validate_blocks bs ≡ none
    → All Allotted (map duration bs) × (length bs ≤ 60)
unfolding validate_blocks
validate_blocks-Allotted bs h = elim (Bool-cases (length bs == 0 || ltb max_blocks (length bs))) [
  | inl bad ↦ absurd (ground arith)
  | inr good ↦ (blocks_error-Allotted [] [] bs (ground arith), ground arith)
]

set_schedule-valid :
    (c : Clock) (now : ℤ) (blocks : List Block)
    → validate_blocks blocks ≡ none
    → ((set_schedule c now blocks).0.durations ≡ map duration blocks)
      × ((set_schedule c now blocks).0.blocks ≡ blocks)
unfolding set_schedule
set_schedule-valid c now blocks good = rw (good, set_schedule) (refl, refl)

set_schedule_error :
    (c : Clock) (now : ℤ) (blocks : List Block)
    → (set_schedule c now blocks).1 ≡ none
    → validate_blocks blocks ≡ none
unfolding set_schedule
set_schedule_error c now blocks ok = ground arith

scheduled :
    (c : Clock) (blocks : List Block)
    → c.durations ≡ map duration blocks
    → c.blocks ≡ blocks
    → All Allotted (map duration blocks) × (length blocks ≤ 60)
    → IsScheduled c
scheduled c blocks ds bs (h, few) = record {
  allotted = subst (All Allotted) (sym ds) h;
  each_block = ap length ds ∙ length-map duration blocks ∙ ap length (sym bs);
  not_many = rw bs few;
}

-- A schedule that the organiser's change leaves is one that positions can be told in: if the change
-- is accepted, there is a length for each block, and each is a minute at least and 366 days at most, and the
-- clock's time lengths are positive and fit together in an int64.
pub set_schedule-IsScheduled :
    (c : Clock) (now : ℤ) (blocks : List Block)
    → (set_schedule c now blocks).1 ≡ none
    → IsScheduled (set_schedule c now blocks).0 × Lengths (set_schedule c now blocks).0.durations
set_schedule-IsScheduled c now blocks ok =
    let good = set_schedule_error c now blocks ok in
    let (ds, bs) = set_schedule-valid c now blocks good in
    let h =
      scheduled (set_schedule c now blocks).0 blocks ds bs (validate_blocks-Allotted blocks good) in
    (h, IsScheduled-Lengths (set_schedule c now blocks).0 h)

set_block_duration-Ends :
    (c : Clock) (now : ℤ) (id : Str) (d : ℤ)
    → ((set_block_duration c now id d).0 ≡ c)
      ⊎ ((i : ℕ) × Allotted d
          × ((set_block_duration c now id d).0 ≡ record c { durations = set c.durations i d }))
unfolding set_block_duration
set_block_duration-Ends c now id d = elim (Option-cases (block_index c id)) [
  | inl missing ↦ rw (missing, set_block_duration) (inl refl)
  | inr (i, found) ↦
      rw (found, set_block_duration)
        (elim (Bool-cases (ltb_ℤ d min_block || ltb_ℤ max_block d)) [
          | inl out ↦ rw out (inl refl)
          | inr fits ↦ rw fits (elim (Option-cases (length_refused c now i d)) [
            | inl good ↦ rw good (inr (i, ground arith, refl))
            | inr (e, bad) ↦ rw bad (inl refl)
          ])
        ])
]

-- A new length for a block keeps a schedule as it should be, accepted or not: if there is a length for each
-- block, of a minute to 366 days, then it is so afterwards.
pub set_block_duration-IsScheduled :
    (c : Clock) (now : ℤ) (id : Str) (d : ℤ)
    → IsScheduled c
    → IsScheduled (set_block_duration c now id d).0
set_block_duration-IsScheduled c now id d h = elim (set_block_duration-Ends c now id d) [
  | inl same ↦ subst IsScheduled (sym same) h
  | inr (i, fits, new) ↦ subst IsScheduled (sym new) (record {
    allotted = All-set Allotted c.durations i d h.allotted fits;
    each_block = length-set c.durations i d ∙ h.each_block;
    not_many = h.not_many;
  })
]
