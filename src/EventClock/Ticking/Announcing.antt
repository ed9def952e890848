-- ===== src/EventClock/Ticking/Announcing.antt =====
-- What a listener hears over a run of the clock: ticks, with any of the organiser's controls between
-- them (eventclock.go, `Tick` and `deliver`).
use mathlib.Core.Path.{ap₂}
use mathlib.Core.List.{map-append}
use stockastic.Prelude.Int.{
  ℤ, ◌+ℤ◌, pos, ◌≤ℤ◌, pos_part, ◌-ℤ◌, int_laws, parts_disjoint, max_ℤ, leb_ℤ, neg_part,
}
use stockastic.Prelude.Str.{Str}
use stockastic.Prelude.{
  ℕ, List, ◌≡◌, Bool, [], map, arith, ◌∷◌, Option, ◌++◌, if◌then◌else◌, suc, ◌==◌, ◌+◌, zero,
  replicate, ◌∙◌, ap, refl, Bool-cases, inl, inr, ◌≤◌,
}
use stockastic.EventClock.State.{Clock}
use stockastic.EventClock.Ticking.{Transition, tick, due, due_from, entered, deliveries, to_each}
use stockastic.EventClock.Control.{
  start, pause, resume, absorb, run_on, jump_to, move_to, nudge, finish, set_block_duration,
  set_frozen, set_market_override, set_window_override,
}

-- A tick, or a control of an event that is not started anew.
pub data Act : Type 0 where
  ticks starts pauses finishes : Act
  resumes jumps : Str → Act
  nudges : ℤ → Act
  resizes : Str → ℤ → Act
  freezes : Bool → Act
  opens : Option Bool → Act
  opens_window : ℤ → Option Bool → Act

-- The clock after an act at a time, and the calls of its listeners.
unfoldable pub act : Clock → ℤ → Act → Clock × List (ℕ × Transition)
act c now ticks = tick c now
act c now starts = ((start c now).0, [])
act c now pauses = ((pause c now).0, [])
act c now finishes = ((finish c now).0, [])
act c now (resumes id) = ((resume c now id).0, [])
act c now (jumps id) = ((jump_to c now id).0, [])
act c now (nudges d) = ((nudge c d).0, [])
act c now (resizes id d) = ((set_block_duration c now id d).0, [])
act c now (freezes v) = (set_frozen c v, [])
act c now (opens v) = (set_market_override c v, [])
act c now (opens_window w v) = ((set_window_override c w v).0, [])

unfoldable pub run : Clock → List (ℤ × Act) → Clock × List (ℕ × Transition)
run c [] = (c, [])
run c ((now, a) ∷ acts) =
    let (c', log) = act c now a in let (c'', more) = run c' acts in (c'', log ++ more)

-- What one listener hears.
unfoldable pub heard : ℕ → List (ℕ × Transition) → List Transition
heard l [] = []
heard l ((m, t) ∷ log) = if m == l then t ∷ heard l log else heard l log

abbrev pub times_registered : ℕ → List ℕ → ℕ
times_registered l [] = 0
times_registered l (m ∷ ls) = let rest = times_registered l ls in if m == l then suc rest else rest

unfoldable pub count_up : ℤ → ℕ → List ℤ
count_up i zero = []
count_up i (suc n) = i ∷ count_up (i +ℤ pos 1) n

abbrev indices : List Transition → List ℤ
indices ts = map (λ t. t.index) ts

-- The blocks heard of are those after the last one announced before, up to the last one now.
abbrev pub Continues : ℕ → Clock → Clock × List (ℕ × Transition) → Type 0
Continues l c r =
    (r.0.listeners ≡ c.listeners)
    × (c.last ≤ℤ r.0.last)
    × (indices (heard l r.1) ≡ count_up (c.last +ℤ pos 1) (pos_part (r.0.last -ℤ c.last)))

-- A control leaves the listeners and the last announced block as they are.
Keeps : Clock → Clock → Type 0
Keeps c c' = (c'.last ≡ c.last) × (c'.listeners ≡ c.listeners)

Keeps-Continues : (l : ℕ) (c c' : Clock) → Keeps c c' → Continues l c (c', [])
unfolding Keeps heard count_up
Keeps-Continues l c c' (last, same) =
    let still : pos_part (c.last -ℤ c.last) ≡ 0 =
      omega (int_laws, parts_disjoint (c.last -ℤ c.last)) in
    rw (last, still) (same, omega arith, refl)

heard-append :
    (l : ℕ) (xs ys : List (ℕ × Transition)) → heard l (xs ++ ys) ≡ heard l xs ++ heard l ys
unfolding heard
heard-append l [] ys = refl
heard-append l ((m, t) ∷ xs) ys = ground (arith, heard-append l xs ys)

heard-to_each :
    (l : ℕ) (t : Transition) (ls : List ℕ)
    → heard l (to_each t ls) ≡ replicate (times_registered l ls) t
unfolding heard
heard-to_each l t [] = refl
heard-to_each l t (m ∷ ls) = elim (Bool-cases (m == l)) [
  | inl here ↦ rw here (ap (λ ts. t ∷ ts) (heard-to_each l t ls))
  | inr other ↦ rw other (heard-to_each l t ls)
]

heard-deliveries :
    (l : ℕ) (ls : List ℕ) (ts : List Transition)
    → times_registered l ls ≡ 1
    → heard l (deliveries ls ts) ≡ ts
unfolding deliveries heard
heard-deliveries l ls [] once = refl
heard-deliveries l ls (t ∷ ts) once =
    heard-append l (to_each t ls) (deliveries ls ts)
    ∙ ap₂ (λ a b. a ++ b) (heard-to_each l t ls ∙ ap (λ n. replicate n t) once)
        (heard-deliveries l ls ts once)

indices-due_from :
    (c : Clock) (now from : ℤ) (n : ℕ) → indices (due_from c now from n) ≡ count_up from n
unfolding due_from count_up
indices-due_from c now from zero = refl
indices-due_from c now from (suc n) =
    ap (λ is. from ∷ is) (indices-due_from c now (from +ℤ pos 1) n)

count_up-append : (i : ℤ) (m n : ℕ) → count_up i m ++ count_up (i +ℤ pos m) n ≡ count_up i (m + n)
unfolding count_up
count_up-append i zero n =
    let same : i +ℤ pos 0 ≡ i = omega int_laws in rw same (ap (count_up i) (omega arith))
count_up-append i (suc m) n =
    let next : i +ℤ pos (suc m) ≡ i +ℤ pos 1 +ℤ pos m = omega int_laws in
    let sum : suc m + n ≡ suc (m + n) = omega arith in
    rw (next, sum) (ap (λ is. i ∷ is) (count_up-append (i +ℤ pos 1) m n))

ahead : (a b : ℤ) → (a ≤ℤ max_ℤ a b) × (pos_part (b -ℤ a) ≡ pos_part (max_ℤ a b -ℤ a))
ahead a b = elim (Bool-cases (leb_ℤ a b)) [
  | inl up ↦ rw up (ground arith, refl)
  | inr down ↦
      let lt : suc (pos_part b + neg_part a) ≤ pos_part a + neg_part b = ground arith in
      rw down (omega arith, omega (int_laws, parts_disjoint (b -ℤ a), parts_disjoint (a -ℤ a)))
]

tick-Continues :
    (l : ℕ) (c : Clock) (now : ℤ) → times_registered l c.listeners ≡ 1 → Continues l c (tick c now)
unfolding tick due deliveries Keeps
tick-Continues l c now once = elim (Bool-cases c.started) [
  | inl on ↦ simp (on) (
    refl,
    (ahead c.last (entered c now)).0,
    ap indices (
          heard-deliveries l c.listeners
            (due_from c now (c.last +ℤ pos 1) (pos_part (entered c now -ℤ c.last))) once)
        ∙ indices-due_from c now (c.last +ℤ pos 1) (pos_part (entered c now -ℤ c.last))
        ∙ ap (count_up (c.last +ℤ pos 1)) (ahead c.last (entered c now)).1,
  )
  | inr off ↦ simp (off) (Keeps-Continues l c c (refl, refl))
]

act-Continues :
    (l : ℕ) (c : Clock) (now : ℤ) (a : Act)
    → times_registered l c.listeners ≡ 1
    → Continues l c (act c now a)
unfolding act Keeps start pause finish move_to resume run_on absorb jump_to nudge set_block_duration
    set_frozen set_market_override set_window_override
act-Continues l c now ticks once = tick-Continues l c now once
act-Continues l c now starts once = Keeps-Continues l c (start c now).0 (ground arith)
act-Continues l c now pauses once = Keeps-Continues l c (pause c now).0 (ground arith)
act-Continues l c now finishes once = Keeps-Continues l c (finish c now).0 (ground arith)
act-Continues l c now (resumes id) once = Keeps-Continues l c (resume c now id).0 (ground arith)
act-Continues l c now (jumps id) once = Keeps-Continues l c (jump_to c now id).0 (ground arith)
act-Continues l c now (nudges d) once = Keeps-Continues l c (nudge c d).0 (ground arith)
act-Continues l c now (resizes id d) once =
    Keeps-Continues l c (set_block_duration c now id d).0 (ground arith)
act-Continues l c now (freezes v) once = Keeps-Continues l c (set_frozen c v) (refl, refl)
act-Continues l c now (opens v) once = Keeps-Continues l c (set_market_override c v) (refl, refl)
act-Continues l c now (opens_window w v) once =
    Keeps-Continues l c (set_window_override c w v).0 (ground arith)

-- A listener hears of every block once, in order, and none is skipped: over any run of ticks, starts, pauses, resumptions, jumps,
-- nudges, overrides and new lengths at any times, a listener that is registered once is still registered, the last announced block never goes
-- back, and the indices that the listener hears are the consecutive ones after the block that was the last
-- before the run, up to the one that is the last after it.
pub run-Continues :
    (l : ℕ) (c : Clock) (acts : List (ℤ × Act))
    → times_registered l c.listeners ≡ 1
    → Continues l c (run c acts)
unfolding run Keeps
run-Continues l c [] once = Keeps-Continues l c c (refl, refl)
run-Continues l c ((now, a) ∷ acts) once =
    let (c', log) = act c now a in
    let (same, up, here) = act-Continues l c now a once in
    let (same', up', there) = run-Continues l c' acts (ap (times_registered l) same ∙ once) in
    let m = pos_part (c'.last -ℤ c.last) in
    let n = pos_part ((run c' acts).0.last -ℤ c'.last) in
    (
      same' ∙ same,
      omega arith,
      ap indices (heard-append l log (run c' acts).1)
          ∙ map-append (λ t. t.index) (heard l log) (heard l (run c' acts).1)
          ∙ ap₂ (λ a b. a ++ b) here
              (there
                ∙ ap (λ i. count_up i n) (omega (int_laws, parts_disjoint (c'.last -ℤ c.last))))
          ∙ count_up-append (c.last +ℤ pos 1) m n
          ∙ ap (count_up (c.last +ℤ pos 1)) (
              omega (
                int_laws,
                parts_disjoint (c'.last -ℤ c.last),
                parts_disjoint ((run c' acts).0.last -ℤ c'.last),
                parts_disjoint ((run c' acts).0.last -ℤ c.last),
              )),
    )
