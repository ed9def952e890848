-- ===== src/Scoring/Ranking.antt =====
-- The ranking of phase 1 (apps/api/internal/scoring/ranking.go). The tosses are given: a number for
-- each account, zero where no toss was made.
pub mod Order
use stockastic.Prelude.Sort.{sort_by}
use stockastic.Prelude.Int.{ℤ, eqb_ℤ, ltb_ℤ}
use stockastic.Prelude.Str.{Str, str_lt}
use stockastic.Prelude.{ℕ, List, Bool, ◌∷◌, if◌then◌else◌, suc, [], not}

pub record Standing : Type 0 where
  pub account_id : Str
  pub final_value : ℤ
  pub peak_value : ℤ
  pub transactions : ℤ

pub data DecidedBy : Type 0 where
  by_value by_peak by_fewer_txns by_coin_toss unresolved : DecidedBy

pub record Ranked : Type 0 where
  pub standing : Standing
  pub rank : ℕ
  pub decided_by : DecidedBy

-- A step of another name is passed over.
pub data TieBreakStep : Type 0 where
  peak_value_step fewer_transactions_step coin_toss_step other_step : TieBreakStep

module _ (coin_toss : Str → ℤ) where
  -- Whether `a` goes before `b`, and by what, once the values are equal.
  unfoldable pub break_tie : List TieBreakStep → Standing → Standing → Bool × DecidedBy
  break_tie [] a b = (str_lt a.account_id b.account_id, unresolved)
  break_tie (peak_value_step ∷ steps) a b =
      let rest = break_tie steps a b in
      if not (eqb_ℤ a.peak_value b.peak_value)
      then (ltb_ℤ b.peak_value a.peak_value, by_peak)
      else rest
  break_tie (fewer_transactions_step ∷ steps) a b =
      let rest = break_tie steps a b in
      if not (eqb_ℤ a.transactions b.transactions)
      then (ltb_ℤ a.transactions b.transactions, by_fewer_txns)
      else rest
  break_tie (coin_toss_step ∷ steps) a b =
      let rest = break_tie steps a b in
      let ca = coin_toss a.account_id in
      let cb = coin_toss b.account_id in
      if not (eqb_ℤ ca cb) then (ltb_ℤ ca cb, by_coin_toss) else rest
  break_tie (other_step ∷ steps) a b = break_tie steps a b

  unfoldable pub decide : List TieBreakStep → Standing → Standing → Bool × DecidedBy
  decide steps a b =
      if not (eqb_ℤ a.final_value b.final_value)
      then (ltb_ℤ b.final_value a.final_value, by_value)
      else break_tie steps a b

  abbrev pub less : List TieBreakStep → Standing → Standing → Bool
  less steps a b = (decide steps a b).0

  -- The places after `prev`, of which the first has rank `n + 1`.
  unfoldable pub rank_after : List TieBreakStep → Standing → ℕ → List Standing → List Ranked
  rank_after steps prev n [] = []
  rank_after steps prev n (s ∷ ss) =
      record { standing = s; rank = suc n; decided_by = (decide steps prev s).1 }
      ∷ rank_after steps s (suc n) ss

  unfoldable pub rank_all : List TieBreakStep → List Standing → List Ranked
  rank_all steps [] = []
  rank_all steps (s ∷ ss) =
      record { standing = s; rank = 1; decided_by = by_value } ∷ rank_after steps s 1 ss

  unfoldable pub rank_phase1 : List TieBreakStep → List Standing → List Ranked
  rank_phase1 steps standings = rank_all steps (sort_by (less steps) standings)
