-- ===== src/EventClock/Control/Pausing.antt =====
-- The time that a pause takes (eventclock.go, `Pause` and `Resume`).
use stockastic.EventClock.Control.Jumping.{block_index-lt}
use stockastic.EventClock.Blocks.{min_block}
use stockastic.EventClock.State.Index.{span, nth, sub64-pos, span-take}
use mathlib.Core.Path.{subst}
use stockastic.Prelude.Str.{Str, is_empty}
use stockastic.Prelude.Int64.{Fits, add64, max_int64, sub64, wrap-eq_of_Fits}
use stockastic.Prelude.Int.{
  ℤ, pos, ◌+ℤ◌, ◌-ℤ◌, ltb_ℤ, int_laws, negsuc, parts_disjoint, pos_part, max_ℤ, min_ℤ, ◌≤ℤ◌,
}
use stockastic.Prelude.{
  ℕ, ◌≡◌, true, Bool-cases, false, inl, ap, inr, refl, arith, ◌∙◌, ◌⊎◌, ◌<◌, Option-cases, leb,
  if◌then◌else◌, List, length, All, set, ◌≤◌, ◌+◌, ◌∷◌, none, suc, sym, [], zero, ◌-◌, All-set,
}
use stockastic.EventClock.State.{Clock, elapsed, index, block_index, time_sub}
use stockastic.EventClock.Control.{
  pause, resume, run_on, absorb, resumed, refused, Resumed, ClockError, not_started, not_paused,
  unknown_block, not_later,
}

-- What a resumption says that a block absorbed, and what is over.
abbrev pub absorbed : Resumed → ℤ
absorbed (resumed a o) = a
absorbed (refused e) = pos 0

abbrev pub overrun : Resumed → ℤ
overrun (resumed a o) = o
overrun (refused e) = pos 0

abbrev pub Accepted : Resumed → Type 0
Accepted (resumed a o) = Unit
Accepted (refused e) = ⊥

time_sub-exact : (t u : ℤ) → Fits (t -ℤ u) → time_sub t u ≡ t -ℤ u
unfolding time_sub
time_sub-exact t u fits =
    let under : ltb_ℤ max_int64 (t -ℤ u) ≡ false = ground arith in
    let over : ltb_ℤ (t -ℤ u) (negsuc 0x7fff_ffff_ffff_ffff) ≡ false =
      ground (arith, parts_disjoint (t -ℤ u)) in
    rw (under, over) refl

time_sub_shift : (t s l : ℤ) → time_sub t (s +ℤ l) ≡ time_sub (t -ℤ l) s
unfolding time_sub
time_sub_shift t s l = let same : t -ℤ (s +ℤ l) ≡ t -ℤ l -ℤ s = omega int_laws in rw same refl

elapsed-run_on :
    (c : Clock) (now t : ℤ)
    → c.started ≡ true
    → Fits (now -ℤ c.paused_at)
    → elapsed (run_on c now) t ≡ add64 (time_sub (t -ℤ (now -ℤ c.paused_at)) c.started_at) c.offset
unfolding elapsed run_on
elapsed-run_on c now t st fits = rw st (
    ap (λ d. add64 d c.offset)
      (ap (λ l. time_sub t (c.started_at +ℤ l)) (time_sub-exact now c.paused_at fits)
        ∙ time_sub_shift t c.started_at (now -ℤ c.paused_at)))

elapsed-running :
    (c : Clock) (t : ℤ)
    → c.started ≡ true
    → c.paused ≡ false
    → elapsed c t ≡ add64 (time_sub t c.started_at) c.offset
unfolding elapsed
elapsed-running c t st run = rw (st, run) refl

-- A resumption is refused and changes nothing, or the time runs on, and a block may give some up.
abbrev Ends : Clock → ℤ → Str → Clock × Resumed → Type 0
Ends c now compress r =
    ((e : ClockError) × (r ≡ (c, refused e)))
    ⊎ (c.started ≡ true)
      × ((r ≡ (run_on c now, resumed (pos 0) (time_sub now c.paused_at)))
          ⊎ (i : ℕ) × (i < length c.blocks)
            × (r ≡ absorb (run_on c now) i (time_sub now c.paused_at)))

resume-Ends : (c : Clock) (now : ℤ) (compress : Str) → Ends c now compress (resume c now compress)
unfolding resume
resume-Ends c now compress = elim (Bool-cases c.started) [
  | inr off ↦ simp (off) (inl (not_started, refl))
  | inl on ↦ simp (on) (elim (Bool-cases c.paused) [
    | inr run ↦ simp (run) (inl (not_paused, refl))
    | inl held ↦ simp (held) (elim (Bool-cases (is_empty compress)) [
      | inl plain ↦ simp (plain) (inr (refl, inl refl))
      | inr named ↦ simp (named) (elim (Option-cases (block_index c compress)) [
        | inl missing ↦ rw (missing) (inl (unknown_block, refl))
        | inr (i, found) ↦ rw (found) (elim (Bool-cases (leb i (index c (elapsed c now)))) [
          | inl early ↦ rw early (inl (not_later, refl))
          | inr later ↦ rw later (inr (refl, inr (i, block_index-lt c compress i found, refl)))
        ])
      ])
    ])
  ])
]

elapsed-resume :
    (c : Clock) (now t : ℤ) (compress : Str)
    → Accepted (resume c now compress).1
    → elapsed (resume c now compress).0 t ≡ elapsed (run_on c now) t
unfolding absorb elapsed
elapsed-resume c now t compress ok = elim (resume-Ends c now compress) [
  | inl (e, same) ↦ absurd (subst (λ r. Accepted r.1) same ok)
  | inr (on, inl same) ↦ ap (λ r. elapsed r.0 t) same
  | inr (on, inr (i, later, same)) ↦ ap (λ r. elapsed r.0 t) same
]

pause-running :
    (c : Clock) (t : ℤ)
    → c.started ≡ true
    → c.paused ≡ false
    → pause c t ≡ (record c { paused = true; paused_at = t }, none)
unfolding pause
pause-running c t on run = simp (on, run) refl

-- A pause is lost time, however long it is and whatever gives way to it: if the clock has started and
-- is running, it is paused at `t` and its resumption at `now` is accepted, with or without a block to compress, and
-- the time between the two fits in an int64, then at every time the elapsed time is what it would
-- have been without the pause at a time earlier by what the pause took.
pub elapsed-resume-pause :
    (c : Clock) (t now at : ℤ) (compress : Str)
    → c.started ≡ true
    → c.paused ≡ false
    → Fits (now -ℤ t)
    → Accepted (resume (pause c t).0 now compress).1
    → elapsed (resume (pause c t).0 now compress).0 at ≡ elapsed c (at -ℤ (now -ℤ t))
elapsed-resume-pause c t now at compress on run fits ok =
    let c' : Clock = record c { paused = true; paused_at = t } in
    elapsed-resume (pause c t).0 now at compress ok
    ∙ ap (λ r. elapsed (run_on r.0 now) at) (pause-running c t on run)
    ∙ elapsed-run_on c' now at on fits
    ∙ sym (elapsed-running c (at -ℤ (now -ℤ t)) on run)

span-set :
    (ds : List ℤ) (i : ℕ) (v : ℤ)
    → i < length ds
    → span (set ds i v) + pos_part (nth ds i) ≡ span ds + pos_part v
span-set [] i v lt = absurd (omega arith)
span-set (d ∷ ds) zero v lt = omega arith
span-set (d ∷ ds) (suc i) v lt = omega (arith, span-set ds i v (omega arith))

-- What a block of length `n` gives up of the lost time `l`.
abbrev given_up : ℕ → ℕ → ℕ
given_up n l = if leb l (n - 60_000_000_000) then l else n - 60_000_000_000

max_ℤ-zero : (z : ℤ) → max_ℤ z (pos 0) ≡ pos (pos_part z)
max_ℤ-zero (pos n) = ground arith
max_ℤ-zero (negsuc n) = ground arith

room-pos :
    (n : ℕ)
    → n ≤ 0x7fff_ffff_ffff_ffff
    → max_ℤ (sub64 (pos n) min_block) (pos 0) ≡ pos (n - 60_000_000_000)
room-pos n fits =
    let exact : sub64 (pos n) min_block ≡ pos n -ℤ min_block =
      wrap-eq_of_Fits (pos n -ℤ min_block)
        (omega (int_laws, parts_disjoint (pos n -ℤ min_block))) in
    ap (λ z. max_ℤ z (pos 0)) exact
    ∙ max_ℤ-zero (pos n -ℤ min_block)
    ∙ ap pos (omega (int_laws, parts_disjoint (pos n -ℤ min_block)))

min_ℤ-pos : (l m : ℕ) → min_ℤ (pos l) (pos m) ≡ pos (if leb l m then l else m)
min_ℤ-pos l m = ground arith

absorb-given_up :
    (c : Clock) (i n l : ℕ)
    → nth c.durations i ≡ pos n
    → n ≤ 0x7fff_ffff_ffff_ffff
    → l ≤ 0x7fff_ffff_ffff_ffff
    → absorb c i (pos l) ≡ (
      record c { durations = set c.durations i (pos (n - given_up n l)) },
      resumed (pos (given_up n l)) (pos (l - given_up n l)),
    )
unfolding absorb
absorb-given_up c i n l len fits fits_l =
    let least : min_ℤ (pos l) (max_ℤ (sub64 (pos n) min_block) (pos 0)) ≡ pos (given_up n l) =
      ap (min_ℤ (pos l)) (room-pos n fits) ∙ min_ℤ-pos l (n - 60_000_000_000) in
    rw (len, least)
      (rw
        (
          sub64-pos n (given_up n l) (ground arith) fits,
          sub64-pos l (given_up n l) (ground arith) fits_l,
        )
        refl)

-- The lost time is absorbed or over, the schedule is shorter by what was absorbed, and every block
-- keeps a minute.
abbrev pub Absorbs : Clock → ℤ → Clock × Resumed → Type 0
Absorbs c lost r =
    (pos 0 ≤ℤ absorbed r.1)
    × (pos 0 ≤ℤ overrun r.1)
    × (absorbed r.1 +ℤ overrun r.1 ≡ lost)
    × (span r.0.durations + pos_part (absorbed r.1) ≡ span c.durations)
    × All (λ d. min_block ≤ℤ d) r.0.durations

nth-least :
    (ds : List ℤ) (i : ℕ)
    → All (λ d. min_block ≤ℤ d) ds
    → i < length ds
    → nth ds i ≡ pos (pos_part (nth ds i)) × (60_000_000_000 ≤ pos_part (nth ds i))
nth-least [] i h lt = absurd (omega arith)
nth-least (pos n ∷ ds) zero h lt = (refl, omega arith)
nth-least (negsuc n ∷ ds) zero h lt = absurd (omega arith)
nth-least (d ∷ ds) (suc i) h lt = nth-least ds i h.1 (omega arith)

absorb-Absorbs :
    (c : Clock) (i l : ℕ)
    → All (λ d. min_block ≤ℤ d) c.durations
    → span c.durations ≤ 0x7fff_ffff_ffff_ffff
    → l ≤ 0x7fff_ffff_ffff_ffff
    → i < length c.durations
    → Absorbs c (pos l) (absorb c i (pos l))
absorb-Absorbs c i l h fits fits_l lt =
    let n = pos_part (nth c.durations i) in
    let (len, low) = nth-least c.durations i h lt in
    let part : given_up n l ≤ l = ground arith in
    let keeps : given_up n l + 60_000_000_000 ≤ n = ground arith in
    rw (absorb-given_up c i n l len (omega (arith, span-take i c.durations)) fits_l) (
      omega arith,
      omega arith,
      omega int_laws,
      omega (arith, span-set c.durations i (pos (n - given_up n l)) lt),
      All-set (λ d. min_block ≤ℤ d) c.durations i (pos (n - given_up n l)) h (omega arith),
    )

-- A resumption accounts for the lost time: if the lengths of the blocks are at least a minute and fit together in an
-- int64, there is a block for each length, the pause took a time that is not negative and fits in an int64, and the
-- resumption is accepted, then what was absorbed and what overruns are not negative and make up the
-- time lost, the blocks are together shorter by exactly what was absorbed, and each still has a minute.
pub resume-Absorbs :
    (c : Clock) (now : ℤ) (l : ℕ) (compress : Str)
    → All (λ d. min_block ≤ℤ d) c.durations
    → span c.durations ≤ 0x7fff_ffff_ffff_ffff
    → length c.blocks ≡ length c.durations
    → now -ℤ c.paused_at ≡ pos l
    → l ≤ 0x7fff_ffff_ffff_ffff
    → Accepted (resume c now compress).1
    → Absorbs c (pos l) (resume c now compress)
unfolding run_on
resume-Absorbs c now l compress h fits same lost fits_l ok =
    let took : time_sub now c.paused_at ≡ pos l =
      time_sub-exact now c.paused_at (subst (λ z. Fits z) (sym lost) (omega arith)) ∙ lost in
    elim (resume-Ends c now compress) [
      | inl (e, no_change) ↦ absurd (subst (λ r. Accepted r.1) no_change ok)
      | inr (on, inl plain) ↦
          rw (plain, took) (omega arith, omega arith, omega int_laws, omega arith, h)
      | inr (on, inr (i, lt, some_given)) ↦ rw some_given (
          subst (λ t. Absorbs c (pos l) (absorb (run_on c now) i t)) (sym took)
            (absorb-Absorbs (run_on c now) i l h fits fits_l (omega arith)))
    ]
