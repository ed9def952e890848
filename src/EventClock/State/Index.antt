-- ===== src/EventClock/State/Index.antt =====
-- The block that an elapsed time falls in (eventclock.go, `indexLocked`, `startOfLocked` and
-- `positionLocked`).
use mathlib.Core.Path.{subst}
use stockastic.EventClock.State.{Position, nowhere, locate}
use stockastic.Prelude.Int64.{add64, wrap-eq_of_Fits, Fits, wrap, sub64, wrap-Fits}
use stockastic.Prelude.Int.{◌+ℤ◌, pos, ℤ, pos_part, ◌≤ℤ◌, negsuc, ltb_ℤ, int_laws, parts_disjoint}
use stockastic.Prelude.{
  ℕ, List, ◌≡◌, All, get_or, ◌+◌, ◌≤◌, take, arith, true, ◌∷◌, length, ap, ◌⊎◌, inl, suc, [], ◌∙◌,
  ◌<◌, zero, inr, Bool-cases, ◌-◌, false, if◌then◌else◌, refl, sym, leb, ltb,
}
use stockastic.EventClock.State.{
  Clock, index, index_from, start_of, start_from, position, elapsed, total, time_sub,
}

-- The durations are lengths of time, and all of them together fit in an int64.
abbrev pub span : List ℤ → ℕ
span [] = 0
span (d ∷ ds) = pos_part d + span ds

abbrev pub Lengths : List ℤ → Type 0
Lengths ds = All (λ d. pos 1 ≤ℤ d) ds × (span ds ≤ 0x7fff_ffff_ffff_ffff)

abbrev pub nth : List ℤ → ℕ → ℤ
nth ds i = get_or ds i (pos 0)

pub add64-pos : (a n : ℕ) → a + n ≤ 0x7fff_ffff_ffff_ffff → add64 (pos a) (pos n) ≡ pos (a + n)
add64-pos a n fits = ap wrap (omega int_laws) ∙ wrap-eq_of_Fits (pos (a + n)) (omega arith)

pub sub64-pos : (a n : ℕ) → n ≤ a → a ≤ 0x7fff_ffff_ffff_ffff → sub64 (pos a) (pos n) ≡ pos (a - n)
sub64-pos a n le fits = ap wrap (omega int_laws) ∙ wrap-eq_of_Fits (pos (a - n)) (omega arith)

start_from_exact :
    (a k : ℕ) (ds : List ℤ)
    → All (λ d. pos 1 ≤ℤ d) ds
    → a + span ds ≤ 0x7fff_ffff_ffff_ffff
    → start_from (pos a) k ds ≡ pos (a + span (take k ds))
unfolding start_from
start_from_exact a zero ds h fits = ap pos (omega arith)
start_from_exact a (suc k) [] h fits = ap pos (omega arith)
start_from_exact a (suc k) (pos n ∷ ds) h fits =
    ap (λ acc. start_from acc k ds) (add64-pos a n (omega arith))
    ∙ start_from_exact (a + n) k ds h.1 (omega arith)
    ∙ ap pos (omega arith)
start_from_exact a (suc k) (negsuc n ∷ ds) h fits = absurd (omega arith)

-- Block `k` of the durations, if there is one, is the one that holds the time `e`.
abbrev pub Holds : ℕ → ℕ → List ℤ → ℕ → Type 0
Holds a e ds k =
    (k ≤ length ds)
    × (a + span (take k ds) ≤ e)
    × ((k ≡ length ds) ⊎ (k < length ds) × (e < a + span (take k ds) + pos_part (nth ds k)))

index_from-Holds :
    (a i e : ℕ) (ds : List ℤ)
    → All (λ d. pos 1 ≤ℤ d) ds
    → a + span ds ≤ 0x7fff_ffff_ffff_ffff
    → a ≤ e
    → (k : ℕ) × (index_from (pos a) i (pos e) ds ≡ i + k) × Holds a e ds k
unfolding index_from
index_from-Holds a i e [] h fits le = (0, omega arith, (omega arith, omega arith, inl refl))
index_from-Holds a i e (negsuc n ∷ ds) h fits le = absurd (omega arith)
index_from-Holds a i e (pos n ∷ ds) h fits le =
    rw (add64-pos a n (omega arith)) (elim (Bool-cases (ltb_ℤ (pos e) (pos (a + n)))) [
      | inl here ↦
          rw here (0, omega arith, (omega arith, ground arith, inr (omega arith, ground arith)))
      | inr later ↦ rw later (
          let (k, at, holds) =
            index_from-Holds (a + n) (suc i) e ds h.1 (omega arith) (ground arith) in
          (suc k, omega (arith, at), Holds-suc n k a e ds holds))
    ])
  where
    Holds-suc : (n k a e : ℕ) (ds : List ℤ) → Holds (a + n) e ds k → Holds a e (pos n ∷ ds) (suc k)
    Holds-suc n k a e ds (k≤, low, inl end) = (omega arith, omega arith, inl (ap suc end))
    Holds-suc n k a e ds (k≤, low, inr (lt, high)) =
        (omega arith, omega arith, inr (omega arith, omega arith))

-- The exact counterpart of `start_of` and `index`.
pub start_of_exact :
    (c : Clock) (i : ℕ) → Lengths c.durations → start_of c i ≡ pos (span (take i c.durations))
unfolding start_of
start_of_exact c i h =
    start_from_exact 0 i c.durations h.0 (omega (arith, h.1)) ∙ ap pos (omega arith)

pub index-Holds :
    (c : Clock) (e : ℕ) → Lengths c.durations → Holds 0 e c.durations (index c (pos e))
unfolding index
index-Holds c e h =
    let (k, at, holds) =
      index_from-Holds 0 0 e c.durations h.0 (omega (arith, h.1)) (omega arith) in
    let same : index c (pos e) ≡ k =
      ap (λ t. index_from (pos 0) 0 t c.durations) (ground arith) ∙ at ∙ omega arith in
    subst (λ x. Holds 0 e c.durations x) (sym same) holds

pub span-take : (k : ℕ) (ds : List ℤ) → span (take k ds) + pos_part (nth ds k) ≤ span ds
span-take zero [] = omega arith
span-take zero (d ∷ ds) = omega arith
span-take (suc k) [] = omega arith
span-take (suc k) (d ∷ ds) = omega (arith, span-take k ds)

-- The position names no block after the end, and otherwise the block that the elapsed time is in.
abbrev pub InBlock : Clock → ℤ → Position → Type 0
InBlock c e p =
    ((p.ended ≡ true) × (total c ≤ℤ e))
    ⊎ (i : ℕ) × (p.ended ≡ false)
      × (p.index ≡ pos i)
      × (i < length c.durations)
      × (pos 0 ≤ℤ p.into)
      × (pos 1 ≤ℤ p.remaining)
      × (p.into +ℤ p.remaining ≡ nth c.durations i)
      × (start_of c i +ℤ p.into ≡ e)

elapsed-Fits : (c : Clock) (at : ℤ) → Fits (elapsed c at)
unfolding elapsed
elapsed-Fits c at = elim (Bool-cases c.started) [
  | inl on ↦
      rw on (wrap-Fits (time_sub (if c.paused then c.paused_at else at) c.started_at +ℤ c.offset))
  | inr off ↦ rw off (omega arith)
]

pub position-locate :
    (c : Clock) (at : ℤ)
    → c.started ≡ true
    → position c at ≡ locate c (elapsed c at) (index c (elapsed c at))
unfolding position
position-locate c at st =
    ap (λ s. if s then locate c (elapsed c at) (index c (elapsed c at)) else nowhere c) st

-- The time into a block and the rest of it, from the block's start `s`.
abbrev Inside : ℤ → ℤ → ℤ → Type 0
Inside e d s =
    (pos 0 ≤ℤ sub64 e s)
    × (pos 1 ≤ℤ sub64 d (sub64 e s))
    × (sub64 e s +ℤ sub64 d (sub64 e s) ≡ d)
    × (s +ℤ sub64 e s ≡ e)

sub64-Inside :
    (e n d : ℕ)
    → e ≤ 0x7fff_ffff_ffff_ffff
    → d ≤ 0x7fff_ffff_ffff_ffff
    → n ≤ e
    → e < n + d
    → Inside (pos e) (pos d) (pos n)
sub64-Inside e n d fits fits_d low high =
    rw (sub64-pos e n low fits, sub64-pos d (e - n) (omega arith) fits_d)
      (omega arith, omega arith, omega int_laws, omega int_laws)

pub nth-pos :
    (ds : List ℤ) (k : ℕ) → All (λ d. pos 1 ≤ℤ d) ds → nth ds k ≡ pos (pos_part (nth ds k))
nth-pos [] k h = refl
nth-pos (pos n ∷ ds) zero h = refl
nth-pos (negsuc n ∷ ds) zero h = absurd (omega arith)
nth-pos (d ∷ ds) (suc k) h = nth-pos ds k h.1

locate-InBlock :
    (c : Clock) (e i : ℕ)
    → Lengths c.durations
    → e ≤ 0x7fff_ffff_ffff_ffff
    → Holds 0 e c.durations i
    → InBlock c (pos e) (locate c (pos e) i)
unfolding locate total
locate-InBlock c e i h fits (le, low, inl end) =
    let over : leb (length c.durations) i ≡ true = ground arith in
    rw over (inl (refl, rw (start_of_exact c (length c.durations) h, sym end) (omega arith)))
locate-InBlock c e i h fits (le, low, inr (lt, high)) =
    let inside : leb (length c.durations) i ≡ false = ground arith in
    let (a, b, both, whole) =
      subst (λ d. Inside (pos e) d (start_of c i)) (sym (nth-pos c.durations i h.0))
        (subst (Inside (pos e) (pos (pos_part (nth c.durations i)))) (sym (start_of_exact c i h)) (
          sub64-Inside e (span (take i c.durations)) (pos_part (nth c.durations i)) fits
            (omega (arith, span-take i c.durations, h.1)) (omega arith) (omega arith))) in
    rw inside (inr (i, refl, refl, lt, a, b, both, whole))

-- The position of a running event lies inside the block that it names: if every block has a length
-- of at least a nanosecond, all lengths together fit in an int64, the clock has started and the
-- elapsed time is not negative, then either the event has ended, and the elapsed time has reached
-- the end of the last block, or the event has not ended and the index is that of a block, the time into the block is not
-- negative and the time remaining is positive, the two make up the block's length, and the block's
-- start and the time into it make up the elapsed time.
pub position-InBlock :
    (c : Clock) (at : ℤ)
    → Lengths c.durations
    → c.started ≡ true
    → pos 0 ≤ℤ elapsed c at
    → InBlock c (elapsed c at) (position c at)
position-InBlock c at h st low =
    let e = pos_part (elapsed c at) in
    let whole : elapsed c at ≡ pos e = omega (int_laws, parts_disjoint (elapsed c at)) in
    subst (InBlock c (elapsed c at)) (sym (position-locate c at st)) (
      subst (λ x. InBlock c x (locate c x (index c x))) (sym whole)
        (locate-InBlock c e (index c (pos e)) h (omega (arith, elapsed-Fits c at))
          (index-Holds c e h)))

take_step :
    (i j : ℕ) (ds : List ℤ)
    → All (λ d. pos 1 ≤ℤ d) ds
    → i < j
    → j ≤ length ds
    → span (take i ds) < span (take j ds)
take_step i zero ds h lt le = absurd (omega arith)
take_step i (suc j) [] h lt le = absurd (omega arith)
take_step zero (suc j) (d ∷ ds) h lt le = omega arith
take_step (suc i) (suc j) (d ∷ ds) h lt le =
    omega (arith, take_step i j ds h.1 (omega arith) (omega arith))

take_grows : (i j : ℕ) (ds : List ℤ) → i ≤ j → span (take i ds) ≤ span (take j ds)
take_grows zero j ds le = omega arith
take_grows (suc i) zero ds le = absurd (omega arith)
take_grows (suc i) (suc j) [] le = omega arith
take_grows (suc i) (suc j) (d ∷ ds) le = omega (arith, take_grows i j ds (omega arith))

take-suc : (k : ℕ) (ds : List ℤ) → span (take (suc k) ds) ≡ span (take k ds) + pos_part (nth ds k)
take-suc zero [] = refl
take-suc zero (d ∷ ds) = omega arith
take-suc (suc k) [] = refl
take-suc (suc k) (d ∷ ds) = omega (arith, take-suc k ds)

Holds-unique :
    (i k : ℕ) (ds : List ℤ)
    → All (λ d. pos 1 ≤ℤ d) ds
    → i ≤ length ds
    → Holds 0 (span (take i ds)) ds k
    → k ≡ i
Holds-unique i k ds h here (le, low, inl end) = elim (Bool-cases (ltb i k)) [
  | inl lt ↦ absurd (ground (arith, take_step i k ds h))
  | inr ge ↦ ground arith
]
Holds-unique i k ds h here (le, low, inr (lt, high)) = elim (Bool-cases (ltb i k)) [
  | inl lt ↦ absurd (ground (arith, take_step i k ds h))
  | inr ge ↦ elim (Bool-cases (ltb k i)) [
    | inl early ↦ absurd (ground (arith, take_grows (suc k) i ds, take-suc k ds))
    | inr late ↦ ground arith
  ]
]

pub index-start_of :
    (c : Clock) (i : ℕ) → Lengths c.durations → i ≤ length c.durations → index c (start_of c i) ≡ i
index-start_of c i h le =
    ap (index c) (start_of_exact c i h)
    ∙ Holds-unique i (index c (pos (span (take i c.durations)))) c.durations h.0 le
        (index-Holds c (span (take i c.durations)) h)
