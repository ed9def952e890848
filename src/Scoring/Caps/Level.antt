-- ===== src/Scoring/Caps/Level.antt =====
-- The level of the equal-cap rule (apps/api/internal/scoring/funds.go, `AllocationCaps`): it is one
-- above the fewest tranches filled, and it never leaves every fund closed.
use stockastic.Prelude.Int64.{
  Fits, wrap-eq_of_Fits, mul64, mul64-eq_of_nonneg, sub64, sub64-eq_of_le, max_int64, add64,
}
use mathlib.Core.Path.{subst}
use stockastic.Scoring.Caps.{
  CapFund, tolerance, min_filled, tranche, filled, cap_state, CapState, active_funds, level,
  level_of,
}
use stockastic.Prelude.Int.{
  quot, ℤ, pos, ◌≤ℤ◌, pos_part, negsuc, ltb_ℤ, ◌+ℤ◌, int_laws, parts_disjoint, ◌<ℤ◌,
}
use stockastic.Prelude.{
  refl, ℕ, ◌≡◌, ◌/◌, arith, ◌*◌, ◌≤◌, ◌<◌, ◌+◌, List, ◌∷◌, [], All, if◌then◌else◌, ◌⊎◌, Any, inl,
  inr, sym, Bool-cases, ◌∙◌, true, ap, ◌-◌, ◌≢◌, Bool, false,
}

quot-pos : (a b : ℕ) → quot (pos a) (pos b) ≡ pos (a / b)
unfolding quot
quot-pos a b = ground arith

-- A quotient by a positive number, in natural numbers.
quot_bounds :
    (a t : ℤ)
    → pos 0 ≤ℤ a
    → pos 1 ≤ℤ t
    → (pos 0 ≤ℤ quot a t)
      × (pos_part (quot a t) * pos_part t ≤ pos_part a)
      × (pos_part a < (pos_part (quot a t) + 1) * pos_part t)
quot_bounds (pos a) (pos t) h k = rw (quot-pos a t) (omega arith, grind arith, grind arith)
quot_bounds (pos a) (negsuc t) h k = absurd (omega arith)
quot_bounds (negsuc a) t h k = absurd (omega arith)

module _ (pool fund_count standard_headcount min_ticket : ℤ) where
  abbrev pub t : CapFund → ℤ
  t = tranche pool fund_count standard_headcount min_ticket

  abbrev pub full : CapFund → ℤ
  full = filled pool fund_count standard_headcount min_ticket

  abbrev fewest : ℤ → List CapFund → ℤ
  fewest = min_filled pool fund_count standard_headcount min_ticket

  abbrev pub slack : ℤ
  slack = tolerance pool fund_count standard_headcount min_ticket

  fewest-cons :
      (least : ℤ) (f : CapFund) (fs : List CapFund)
      → pos 1 ≤ℤ t f
      → fewest least (f ∷ fs) ≡ fewest (if ltb_ℤ (full f) least then full f else least) fs
  unfolding min_filled
  fewest-cons least f fs h = ground arith

  fewest-nil : (least : ℤ) → fewest least [] ≡ least
  unfolding min_filled
  fewest-nil least = refl

  fewest-le :
      (least : ℤ) (fs : List CapFund) → All (λ f. pos 1 ≤ℤ t f) fs → fewest least fs ≤ℤ least
  fewest-le least [] h = rw (fewest-nil least) (omega arith)
  fewest-le least (f ∷ fs) h =
      rw (fewest-cons least f fs h.0)
        (ground (arith, fewest-le (if ltb_ℤ (full f) least then full f else least) fs h.1))

  -- The result is at most every fund's count.
  fewest-le_each :
      (least : ℤ) (fs : List CapFund)
      → All (λ f. pos 1 ≤ℤ t f) fs
      → All (λ f. fewest least fs ≤ℤ full f) fs
  fewest-le_each least [] h = tt
  fewest-le_each least (f ∷ fs) h =
      let least' : ℤ = if ltb_ℤ (full f) least then full f else least in
      subst (λ m. All (λ g. m ≤ℤ full g) (f ∷ fs)) (sym (fewest-cons least f fs h.0))
        (ground (arith, fewest-le least' fs h.1), fewest-le_each least' fs h.1)

  -- It is some fund's count, or the number that the loop began with.
  fewest-attained :
      (least : ℤ) (fs : List CapFund)
      → All (λ f. pos 1 ≤ℤ t f) fs
      → (fewest least fs ≡ least) ⊎ Any (λ f. fewest least fs ≡ full f) fs
  fewest-attained least [] h = inl (fewest-nil least)
  fewest-attained least (f ∷ fs) h =
      let least' : ℤ = if ltb_ℤ (full f) least then full f else least in
      subst (λ m. (m ≡ least) ⊎ Any (λ g. m ≡ full g) (f ∷ fs)) (sym (fewest-cons least f fs h.0))
        (elim (fewest-attained least' fs h.1) [
          | inr some_later ↦ inr (inr some_later)
          | inl same ↦ elim (Bool-cases (ltb_ℤ (full f) least)) [
            | inl lower ↦ inr (inl (same ∙ (rw lower)))
            | inr not_lower ↦ inl (same ∙ (rw not_lower))
          ]
        ])

  -- What a fund brings to the rule: it has a tranche, and its figures fit an int64.
  pub record IsSound (f : CapFund) : Type 0 where
    pub has_tranche : pos 1 ≤ℤ t f
    pub inflow_nonneg : pos 0 ≤ℤ f.inflow_this_window
    pub figures_fit : Fits (f.inflow_this_window +ℤ slack +ℤ t f)

  slack_nonneg : pos 0 ≤ℤ slack
  unfolding tolerance
  slack_nonneg = ground arith

  sum_parts :
      (f : CapFund)
      → IsSound f
      → (pos 0 ≤ℤ f.inflow_this_window +ℤ slack)
        × Fits (f.inflow_this_window +ℤ slack)
        × (pos_part (f.inflow_this_window +ℤ slack)
            ≡ pos_part f.inflow_this_window + pos_part slack)
        × (pos_part f.inflow_this_window + pos_part slack + pos_part (t f) ≤ 0x7fff_ffff_ffff_ffff)
  sum_parts f s = omega (
    int_laws,
    s,
    slack_nonneg,
    parts_disjoint (f.inflow_this_window +ℤ slack),
    parts_disjoint f.inflow_this_window,
    parts_disjoint slack,
    parts_disjoint (t f),
    parts_disjoint (f.inflow_this_window +ℤ slack +ℤ t f),
  )

  -- The tranches of a sound fund, against its inflow.
  full_bounds :
      (f : CapFund)
      → IsSound f
      → (pos 0 ≤ℤ full f)
        × (pos_part (full f) * pos_part (t f) ≤ pos_part f.inflow_this_window + pos_part slack)
        × (pos_part f.inflow_this_window + pos_part slack
            < (pos_part (full f) + 1) * pos_part (t f))
        × (pos_part (full f) < 0x7fff_ffff_ffff_ffff)
  unfolding filled
  full_bounds f s =
      let (nonneg, fits, parts, room) = sum_parts f s in
      let (q, below, above) =
        quot_bounds (f.inflow_this_window +ℤ slack) (t f) nonneg s.has_tranche in
      rw (wrap-eq_of_Fits (f.inflow_this_window +ℤ slack) fits) (
        q,
        omega (arith, below, parts),
        omega (arith, above, parts),
        grind (arith, below, parts, room, s.has_tranche),
      )

  abbrev pub state : ℤ → CapFund → CapState
  state = cap_state pool fund_count standard_headcount min_ticket

  pub room-cap_state :
      (f : CapFund) (level : ℤ)
      → f.active ≡ true
      → pos 1 ≤ℤ t f
      → f.inflow_this_window <ℤ mul64 level (t f)
      → (state level f).room ≡ sub64 (mul64 level (t f)) f.inflow_this_window
  unfolding cap_state
  room-cap_state f level active h below = ground arith

  -- A fund that has filled the fewest tranches has room for more than the slack at the next level.
  room-of_fewest :
      (f : CapFund) (level : ℤ)
      → IsSound f
      → f.active ≡ true
      → level ≡ full f +ℤ pos 1
      → slack <ℤ (state level f).room
  room-of_fewest f level s active e =
      let (q, below, above, small) = full_bounds f s in
      let (nonneg, fits, parts, room) = sum_parts f s in
      let level_parts : (pos 0 ≤ℤ level) × (pos_part level ≡ pos_part (full f) + 1) =
        rw e (omega (int_laws, q, parts_disjoint (full f +ℤ pos 1), parts_disjoint (full f))) in
      let allowance : mul64 level (t f) ≡ pos (pos_part level * pos_part (t f)) =
        mul64-eq_of_nonneg level (t f) level_parts.0 (omega (arith, s.has_tranche))
          (rw (level_parts.1) (grind (arith, below, room))) in
      let big : pos_part f.inflow_this_window + pos_part slack < pos_part level * pos_part (t f) =
        rw (level_parts.1) above in
      let fits' : pos_part level * pos_part (t f) ≤ 0x7fff_ffff_ffff_ffff =
        rw (level_parts.1) (grind (arith, below, room)) in
      let under : f.inflow_this_window <ℤ mul64 level (t f) =
        rw allowance (omega (arith, big, s.inflow_nonneg, parts_disjoint f.inflow_this_window)) in
      rw
        (
          room-cap_state f level active s.has_tranche under,
          allowance,
          sub64-eq_of_le (pos (pos_part level * pos_part (t f))) f.inflow_this_window
              (omega (arith, fits')) s.inflow_nonneg
              (omega (arith, big, s.inflow_nonneg, parts_disjoint f.inflow_this_window)),
        )
        (omega (
          int_laws,
          big,
          s.inflow_nonneg,
          slack_nonneg,
          parts_disjoint slack,
          parts_disjoint f.inflow_this_window,
        ))

  Any-nonneg : (m : ℤ) (fs : List CapFund) → All IsSound fs → Any (λ f. m ≡ full f) fs → pos 0 ≤ℤ m
  Any-nonneg m [] s e = elim e [ ]
  Any-nonneg m (f ∷ fs) s (inl e) = rw e ((full_bounds f s.0).0)
  Any-nonneg m (f ∷ fs) s (inr later) = Any-nonneg m fs s.1 later

  Any-room :
      (m level : ℤ) (fs : List CapFund)
      → All IsSound fs
      → All (λ f. f.active ≡ true) fs
      → level ≡ m +ℤ pos 1
      → Any (λ f. m ≡ full f) fs
      → Any (λ f. slack <ℤ (state level f).room) fs
  Any-room m level [] s a e x = elim x [ ]
  Any-room m level (f ∷ fs) s a e (inl here) =
      inl (room-of_fewest f level s.0 a.0 (e ∙ ap (λ x. x +ℤ pos 1) here))
  Any-room m level (f ∷ fs) s a e (inr later) = inr (Any-room m level fs s.1 a.1 e later)

  All-filled :
      (m level : ℤ) (fs : List CapFund)
      → All IsSound fs
      → pos_part level - 1 ≡ pos_part m
      → pos 0 ≤ℤ m
      → All (λ f. m ≤ℤ full f) fs
      → All
          (λ f.
            (pos_part level - 1) * pos_part (t f) ≤ pos_part f.inflow_this_window + pos_part slack)
          fs
  All-filled m level [] s e n h = tt
  All-filled m level (f ∷ fs) s e n h =
      let (q, below, _, _) = full_bounds f s.0 in
      let le : pos_part m ≤ pos_part (full f) =
        omega (arith, q, h.0, n, parts_disjoint m, parts_disjoint (full f)) in
      (rw e (grind (arith, below, le)), All-filled m level fs s.1 e n h.1)

  active-cons :
      (f : CapFund) (fs : List CapFund) (b : Bool)
      → f.active ≡ b
      → All (λ g. g.active ≡ true) fs
      → All (λ g. g.active ≡ true) (if b then f ∷ fs else fs)
  active-cons f fs true e h = (e, h)
  active-cons f fs false e h = h

  abbrev pub actives : List CapFund → List CapFund
  actives = active_funds pool fund_count standard_headcount min_ticket

  actives-active : (funds : List CapFund) → All (λ f. f.active ≡ true) (actives funds)
  unfolding active_funds
  actives-active [] = tt
  actives-active (f ∷ fs) = active-cons f (actives fs) f.active refl (actives-active fs)

  All-tranche : (fs : List CapFund) → All IsSound fs → All (λ f. pos 1 ≤ℤ t f) fs
  All-tranche [] s = tt
  All-tranche (f ∷ fs) s = (s.0.has_tranche, All-tranche fs s.1)

  -- What the level of a window promises to its active funds.
  abbrev pub LevelIsFair : ℤ → List CapFund → Type 0
  LevelIsFair level fs =
      (pos 1 ≤ℤ level)
      × All
          (λ f.
            (pos_part level - 1) * pos_part (t f) ≤ pos_part f.inflow_this_window + pos_part slack)
          fs
      × Any (λ f. slack <ℤ (state level f).room) fs

  level_of-fair :
      (fs : List CapFund)
      → fs ≢ []
      → All IsSound fs
      → All (λ f. f.active ≡ true) fs
      → LevelIsFair (level_of pool fund_count standard_headcount min_ticket fs) fs
  level_of-fair [] some_fund s a = absurd (some_fund refl)
  level_of-fair (f ∷ fs) some_fund s a =
      let m : ℤ = fewest max_int64 (f ∷ fs) in
      let each = fewest-le_each max_int64 (f ∷ fs) (All-tranche (f ∷ fs) s) in
      let (q, _, _, small) = full_bounds f s.0 in
      let met : Any (λ g. m ≡ full g) (f ∷ fs) =
        elim (fewest-attained max_int64 (f ∷ fs) (All-tranche (f ∷ fs) s)) [
          | inr any ↦ any
          | inl top ↦ absurd (ground (arith, top, each.0, small, q))
        ] in
      let n : pos 0 ≤ℤ m = Any-nonneg m (f ∷ fs) s met in
      let fits : Fits (m +ℤ pos 1) = omega (
        int_laws,
        n,
        each.0,
        small,
        q,
        parts_disjoint (m +ℤ pos 1),
        parts_disjoint m,
        parts_disjoint (full f),
      ) in
      let e : add64 m (pos 1) ≡ m +ℤ pos 1 = wrap-eq_of_Fits (m +ℤ pos 1) fits in
      let e' : pos_part (add64 m (pos 1)) - 1 ≡ pos_part m =
        rw e (omega (int_laws, n, parts_disjoint (m +ℤ pos 1), parts_disjoint m)) in
      (
        rw e (omega (int_laws, n)),
        All-filled m (add64 m (pos 1)) (f ∷ fs) s e' n each,
        Any-room m (add64 m (pos 1)) (f ∷ fs) s a e met,
      )

  -- The level of a window with an active fund is at least one. Every active fund has filled all levels
  -- below it, to within less than the smallest ticket, and at least one active fund has room
  -- for a smallest ticket, so no window stalls. The active funds have tranches, and their figures fit.
  pub level-fair :
      (funds : List CapFund)
      → actives funds ≢ []
      → All IsSound (actives funds)
      → LevelIsFair (level pool fund_count standard_headcount min_ticket funds) (actives funds)
  unfolding level
  level-fair funds some_fund s = level_of-fair (actives funds) some_fund s (actives-active funds)
