-- ===== src/Tests/ScoringRuns.antt =====
-- Caps and pairing at work.
use stockastic.Prelude.Sort.{sort_by, insert_by}
use stockastic.Scoring.Ranking.Order.{StartsAtOne, rank_phase1-InOrder}
use stockastic.Scoring.Ranking.Order.{InOrder}
use stockastic.Scoring.Ranking.{
  Standing, TieBreakStep, rank_phase1, peak_value_step, rank_all, coin_toss_step, rank_after,
  Ranked, decide, break_tie,
}
use stockastic.Scoring.Pairing.Mirror.{mirror_pairing-mirrors}
use mathlib.Core.List.{reverse, Perm}
use stockastic.Prelude.Int64.{wrap}
use stockastic.Prelude.Int.{pos, quot, ◌+ℤ◌, ◌-ℤ◌, ◌*ℤ◌}
use stockastic.Scoring.Pairing.{FundPairing, mirror_pairing, pairs}
use stockastic.Scoring.Caps.Level.{LevelIsFair, actives, level-fair, IsSound}
use stockastic.Prelude.Str.{codes}
use stockastic.Scoring.Caps.{CapFund, level, tranche, active_funds, filled, tolerance}
use stockastic.Prelude.{refl, List, ◌∷◌, ℕ, [], true, false, ◌≡◌, length, map, ◌++◌, arith}

-- Ten funds share a pool of 1000, and a smallest ticket of 5 is due. The first is stranded 3 short.
abbrev fund_one : CapFund
fund_one = record {
  fund_id = codes "f1";
  headcount = pos 6;
  inflow_this_window = pos 97;
  active = true;
}

abbrev fund_two : CapFund
fund_two = record {
  fund_id = codes "f2";
  headcount = pos 6;
  inflow_this_window = pos 100;
  active = true;
}

abbrev fund_out : CapFund
fund_out = record {
  fund_id = codes "f3";
  headcount = pos 6;
  inflow_this_window = pos 0;
  active = false;
}

abbrev three_funds : List CapFund
three_funds = fund_one ∷ fund_out ∷ fund_two ∷ []

stranded_fund_lets_the_level_rise : level (pos 1000) (pos 10) (pos 6) (pos 5) three_funds ≡ pos 2
unfolding level filled quot wrap ◌+ℤ◌ ◌-ℤ◌ ◌*ℤ◌
stranded_fund_lets_the_level_rise = refl

fund_one-IsSound : IsSound (pos 1000) (pos 10) (pos 6) (pos 5) fund_one
unfolding tranche tolerance quot wrap ◌+ℤ◌ ◌-ℤ◌ ◌*ℤ◌
fund_one-IsSound = record {
  has_tranche = omega arith;
  inflow_nonneg = omega arith;
  figures_fit = omega arith;
}

fund_two-IsSound : IsSound (pos 1000) (pos 10) (pos 6) (pos 5) fund_two
unfolding tranche tolerance quot wrap ◌+ℤ◌ ◌-ℤ◌ ◌*ℤ◌
fund_two-IsSound = record {
  has_tranche = omega arith;
  inflow_nonneg = omega arith;
  figures_fit = omega arith;
}

level-fair_example :
    LevelIsFair
      (pos 1000)
      (pos 10)
      (pos 6)
      (pos 5)
      (level (pos 1000) (pos 10) (pos 6) (pos 5) three_funds)
      (actives (pos 1000) (pos 10) (pos 6) (pos 5) three_funds)
unfolding active_funds
level-fair_example =
    level-fair (pos 1000) (pos 10) (pos 6) (pos 5) three_funds (λ h. cc)
      (fund_one-IsSound, (fund_two-IsSound, tt))

abbrev four : List ℕ
four = 11 ∷ 12 ∷ 13 ∷ 14 ∷ []

mirror_pairing-mirrors_example :
    (ps : List (FundPairing ℕ)) × (mirror_pairing four ≡ pairs ps)
    × (length ps ≡ 2)
    × (map (λ (p : FundPairing ℕ). p.stronger) ps
          ++ reverse (map (λ (p : FundPairing ℕ). p.weaker) ps)
        ≡ four)
mirror_pairing-mirrors_example = mirror_pairing-mirrors four 1 (omega arith)

abbrev standings : List Standing
standings =
    record {
      account_id = codes "a";
      final_value = pos 10;
      peak_value = pos 12;
      transactions = pos 3;
    }
    ∷ record {
      account_id = codes "b";
      final_value = pos 10;
      peak_value = pos 15;
      transactions = pos 3;
    }
    ∷ record {
      account_id = codes "c";
      final_value = pos 11;
      peak_value = pos 11;
      transactions = pos 1;
    }
    ∷ []

abbrev peak_first : List TieBreakStep
peak_first = peak_value_step ∷ coin_toss_step ∷ []

rank_phase1-InOrder_example :
    InOrder (λ a. pos 0) peak_first (rank_phase1 (λ a. pos 0) peak_first standings)
    × StartsAtOne (λ a. pos 0) (rank_phase1 (λ a. pos 0) peak_first standings)
    × Perm
        (map (λ (r : Ranked). r.standing) (rank_phase1 (λ a. pos 0) peak_first standings))
        standings
rank_phase1-InOrder_example = rank_phase1-InOrder (λ a. pos 0) peak_first standings

peak_breaks_the_tie :
    map (λ (r : Ranked). r.standing.account_id) (rank_phase1 (λ a. pos 0) peak_first standings)
    ≡ codes "c" ∷ codes "b" ∷ codes "a" ∷ []
unfolding rank_phase1 rank_all rank_after decide break_tie sort_by insert_by
peak_breaks_the_tie = refl
