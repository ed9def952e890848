-- ===== src/Scoring/Ranking/Order.antt =====
-- The order of a ranking (ranking.go, `RankPhase1`), against the rules written as a relation.
use mathlib.Core.Path.{subst}
use mathlib.Core.List.{Perm}
use stockastic.Prelude.Sort.{IsSortedBy, sort_by, sort_by-IsSortedBy, sort_by-perm}
use stockastic.Prelude.Int.{ℤ, ◌<ℤ◌, eqb_ℤ, eq_of_parts}
use stockastic.Prelude.Str.{str_lt, Str}
use stockastic.Prelude.{
  ℕ, ◌≡◌, true, List, false, arith, ◌∷◌, Bool-cases, [], ◌⊎◌, refl, inl, inr, suc, map, ap, sym,
}
use stockastic.Scoring.Ranking.{
  Standing, Ranked, TieBreakStep, rank_phase1, rank_all, rank_after, decide, break_tie, less,
  DecidedBy, unresolved, by_value, by_peak, by_fewer_txns, by_coin_toss, peak_value_step,
  fewer_transactions_step, coin_toss_step, other_step,
}

str_lt-asym : (s t : Str) → str_lt s t ≡ true → str_lt t s ≡ false
unfolding str_lt
str_lt-asym s [] h = cc
str_lt-asym [] (b ∷ t) h = refl
str_lt-asym (a ∷ s) (b ∷ t) h = ground (arith, str_lt-asym s t)

module _ (coin_toss : Str → ℤ) where
  break_tie-asym :
      (steps : List TieBreakStep) (a b : Standing)
      → (break_tie coin_toss steps a b).0 ≡ true
      → (break_tie coin_toss steps b a).0 ≡ false
  unfolding break_tie
  break_tie-asym [] a b h = str_lt-asym a.account_id b.account_id h
  break_tie-asym (peak_value_step ∷ steps) a b h = ground (arith, break_tie-asym steps a b)
  break_tie-asym (fewer_transactions_step ∷ steps) a b h = ground (arith, break_tie-asym steps a b)
  break_tie-asym (coin_toss_step ∷ steps) a b h = ground (arith, break_tie-asym steps a b)
  break_tie-asym (other_step ∷ steps) a b h = break_tie-asym steps a b h

  less-asym :
      (steps : List TieBreakStep) (a b : Standing)
      → less coin_toss steps a b ≡ true
      → less coin_toss steps b a ≡ false
  unfolding decide
  less-asym steps a b h = ground (arith, break_tie-asym steps a b)

  -- The rules for equal values: `a` may stand before `b`, and the step that says so.
  abbrev pub TieBefore : List TieBreakStep → Standing → Standing → DecidedBy → Type 0
  TieBefore [] a b by = (by ≡ unresolved) × (str_lt b.account_id a.account_id ≡ false)
  TieBefore (peak_value_step ∷ steps) a b by =
      ((by ≡ by_peak) × (b.peak_value <ℤ a.peak_value))
      ⊎ (a.peak_value ≡ b.peak_value) × TieBefore steps a b by
  TieBefore (fewer_transactions_step ∷ steps) a b by =
      ((by ≡ by_fewer_txns) × (a.transactions <ℤ b.transactions))
      ⊎ (a.transactions ≡ b.transactions) × TieBefore steps a b by
  TieBefore (coin_toss_step ∷ steps) a b by =
      ((by ≡ by_coin_toss) × (coin_toss a.account_id <ℤ coin_toss b.account_id))
      ⊎ (coin_toss a.account_id ≡ coin_toss b.account_id) × TieBefore steps a b by
  TieBefore (other_step ∷ steps) a b by = TieBefore steps a b by

  abbrev pub Before : List TieBreakStep → Standing → Standing → DecidedBy → Type 0
  Before steps a b by =
      ((by ≡ by_value) × (b.final_value <ℤ a.final_value))
      ⊎ (a.final_value ≡ b.final_value) × TieBefore steps a b by

  break_tie-TieBefore :
      (steps : List TieBreakStep) (a b : Standing)
      → (break_tie coin_toss steps b a).0 ≡ false
      → TieBefore steps a b (break_tie coin_toss steps a b).1
  unfolding break_tie
  break_tie-TieBefore [] a b h = (refl, h)
  break_tie-TieBefore (peak_value_step ∷ steps) a b h =
      elim (Bool-cases (eqb_ℤ a.peak_value b.peak_value)) [
        | inl same ↦ rw same (
            inr (
              ground (arith, eq_of_parts a.peak_value b.peak_value),
              break_tie-TieBefore steps a b (ground arith),
            ))
        | inr other ↦ rw other (inl (refl, ground arith))
      ]
  break_tie-TieBefore (fewer_transactions_step ∷ steps) a b h =
      elim (Bool-cases (eqb_ℤ a.transactions b.transactions)) [
        | inl same ↦ rw same (
            inr (
              ground (arith, eq_of_parts a.transactions b.transactions),
              break_tie-TieBefore steps a b (ground arith),
            ))
        | inr other ↦ rw other (inl (refl, ground arith))
      ]
  break_tie-TieBefore (coin_toss_step ∷ steps) a b h =
      elim (Bool-cases (eqb_ℤ (coin_toss a.account_id) (coin_toss b.account_id))) [
        | inl same ↦ rw same (
            inr (
              ground (arith, eq_of_parts (coin_toss a.account_id) (coin_toss b.account_id)),
              break_tie-TieBefore steps a b (ground arith),
            ))
        | inr other ↦ rw other (inl (refl, ground arith))
      ]
  break_tie-TieBefore (other_step ∷ steps) a b h = break_tie-TieBefore steps a b h

  decide-Before :
      (steps : List TieBreakStep) (a b : Standing)
      → less coin_toss steps b a ≡ false
      → Before steps a b (decide coin_toss steps a b).1
  unfolding decide
  decide-Before steps a b h = elim (Bool-cases (eqb_ℤ a.final_value b.final_value)) [
    | inl same ↦ rw same (
        inr (
          ground (arith, eq_of_parts a.final_value b.final_value),
          break_tie-TieBefore steps a b (ground arith),
        ))
    | inr other ↦ rw other (inl (refl, ground arith))
  ]

  -- Each place follows from the one above it, and is numbered one more.
  abbrev pub InOrder : List TieBreakStep → List Ranked → Type 0
  InOrder steps [] = Unit
  InOrder steps (r ∷ []) = Unit
  InOrder steps (r ∷ s ∷ rs) =
      Before steps r.standing s.standing s.decided_by
      × (s.rank ≡ suc r.rank)
      × InOrder steps (s ∷ rs)

  abbrev pub StartsAtOne : List Ranked → Type 0
  StartsAtOne [] = Unit
  StartsAtOne (r ∷ rs) = r.rank ≡ 1

  rank_after-InOrder :
      (steps : List TieBreakStep) (r : Ranked) (ss : List Standing)
      → IsSortedBy (less coin_toss steps) (r.standing ∷ ss)
      → InOrder steps (r ∷ rank_after coin_toss steps r.standing r.rank ss)
  unfolding rank_after
  rank_after-InOrder steps r [] h = tt
  rank_after-InOrder steps r (s ∷ ss) h = (
    decide-Before steps r.standing s h.0,
    refl,
    rank_after-InOrder steps
        (record {
          standing = s;
          rank = suc r.rank;
          decided_by = (decide coin_toss steps r.standing s).1;
        })
        ss h.1,
  )

  rank_after-standings :
      (steps : List TieBreakStep) (prev : Standing) (n : ℕ) (ss : List Standing)
      → map (λ r. r.standing) (rank_after coin_toss steps prev n ss) ≡ ss
  unfolding rank_after
  rank_after-standings steps prev n [] = refl
  rank_after-standings steps prev n (s ∷ ss) =
      ap (λ t. s ∷ t) (rank_after-standings steps s (suc n) ss)

  rank_all-InOrder :
      (steps : List TieBreakStep) (ss : List Standing)
      → IsSortedBy (less coin_toss steps) ss
      → InOrder steps (rank_all coin_toss steps ss)
        × StartsAtOne (rank_all coin_toss steps ss)
        × (map (λ r. r.standing) (rank_all coin_toss steps ss) ≡ ss)
  unfolding rank_all
  rank_all-InOrder steps [] h = (tt, tt, refl)
  rank_all-InOrder steps (s ∷ ss) h = (
    rank_after-InOrder steps (record { standing = s; rank = 1; decided_by = by_value }) ss h,
    refl,
    ap (λ t. s ∷ t) (rank_after-standings steps s 1 ss),
  )

  -- The ranking follows the rules: it ranks exactly the teams that it was given, the first has rank
  -- one and each later one a rank more than the one before it, and for any two neighbours the one above has the higher value, or the
  -- same value and wins at the first configured tie-break that tells them apart, or is the same by all of these and has an id that is not the
  -- later one; and what decided it is the reason that the ranking gives.
  pub rank_phase1-InOrder :
      (steps : List TieBreakStep) (standings : List Standing)
      → InOrder steps (rank_phase1 coin_toss steps standings)
        × StartsAtOne (rank_phase1 coin_toss steps standings)
        × Perm (map (λ r. r.standing) (rank_phase1 coin_toss steps standings)) standings
  unfolding rank_phase1
  rank_phase1-InOrder steps standings =
      let sorted = sort_by (less coin_toss steps) standings in
      let (order, one, same) =
        rank_all-InOrder steps sorted
          (sort_by-IsSortedBy (less coin_toss steps) (less-asym steps) standings) in
      (
        order,
        one,
        subst (λ l. Perm l standings) (sym same) (sort_by-perm (less coin_toss steps) standings),
      )
