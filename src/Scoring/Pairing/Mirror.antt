-- ===== src/Scoring/Pairing/Mirror.antt =====
-- Every qualifier is in one fund, best with last (apps/api/internal/scoring/pairing.go).
use mathlib.Core.Path.{ap₂}
use stockastic.Scoring.Pairing.{FundPairing, pair_up, mirror_pairing, pairs}
use stockastic.Prelude.{
  refl, List, ℕ, map, ◌+◌, ◌≡◌, ◌≤◌, take, length, drop, some, ◌-◌, [], suc, get_elem?-some, arith,
  ◌∷◌, zero, get_elem?, ap, ◌∙◌, ◌++◌, sym, ◌/◌, take-drop_first, take-drop_last, take_all, ◌==◌,
  length-drop, ◌||◌, not, ◌%◌, false, length-map, length-take, take-append-drop,
}
use mathlib.Core.List.{reverse, reverse-append}

module _ {ℓ} {T : Type ℓ} (best_first : List T) where
  abbrev pub stronger_of : FundPairing T → T
  stronger_of p = p.stronger

  abbrev pub weaker_of : FundPairing T → T
  weaker_of p = p.weaker

  -- The pairs of `count` rounds from `from` on: their stronger teams in order, and their weaker teams
  -- in reverse order, are two stretches of the list.
  abbrev IsMirrored : ℕ → ℕ → List (FundPairing T) → Type ℓ
  IsMirrored from count ps =
      (map stronger_of ps ≡ take count (drop from best_first))
      × (reverse (map weaker_of ps)
          ≡ take count (drop (length best_first - from - count) best_first))

  first :
      (count from : ℕ) (s : T)
      → get_elem? best_first from ≡ some s
      → s ∷ take count (drop (from + 1) best_first) ≡ take (suc count) (drop from best_first)
  first count from s e =
      let next : from + 1 ≡ suc from = omega arith in
      ap (λ k. s ∷ take count (drop k best_first)) next
      ∙ sym (take-drop_first best_first from count s e)

  last :
      (count from : ℕ) (w : T)
      → from + suc count ≤ length best_first
      → get_elem? best_first (length best_first - 1 - from) ≡ some w
      → take count (drop (length best_first - (from + 1) - count) best_first) ++ w ∷ []
        ≡ take (suc count) (drop (length best_first - from - suc count) best_first)
  last count from w h e =
      let i : ℕ = length best_first - from - suc count in
      let same : length best_first - (from + 1) - count ≡ i = omega arith in
      let at : count + i ≡ length best_first - 1 - from = omega arith in
      ap (λ k. take count (drop k best_first) ++ w ∷ []) same
      ∙ sym (take-drop_last best_first i count w (ap (get_elem? best_first) at ∙ e))

  pair_up-IsMirrored :
      (count from : ℕ)
      → from + count ≤ length best_first
      → (ps : List (FundPairing T)) × (pair_up best_first from count ≡ some ps)
        × IsMirrored from count ps
  unfolding pair_up
  pair_up-IsMirrored zero from h = ([], refl, (refl, refl))
  pair_up-IsMirrored (suc count) from h =
      let (s, es) = get_elem?-some best_first from (omega arith) in
      let (w, ew) = get_elem?-some best_first (length best_first - 1 - from) (omega arith) in
      let (ps, ep, rest) = pair_up-IsMirrored count (from + 1) (omega arith) in
      (
        record { fund_number = from + 1; stronger = s; weaker = w } ∷ ps,
        rw (es, ew, ep, pair_up),
        (
          ap (λ r. s ∷ r) rest.0 ∙ first count from s es,
          reverse-append (w ∷ []) (map weaker_of ps)
              ∙ ap (λ r. r ++ w ∷ []) rest.1
              ∙ last count from w h ew,
        ),
      )

  second_half :
      (half : ℕ)
      → length best_first ≡ suc half + suc half
      → take (suc half) best_first
          ++ take (suc half) (drop (length best_first - 0 - suc half) best_first)
        ≡ take (suc half) best_first ++ drop (suc half) best_first
  second_half half h =
      let at : length best_first - 0 - suc half ≡ suc half = omega arith in
      rw at (
        ap (λ r. take (suc half) best_first ++ r)
          (take_all (suc half) (drop (suc half) best_first)
            (omega (arith, length-drop (suc half) best_first))))

  -- With a positive even number of teams there are half as many funds, and never a read out of range.
  -- The stronger teams in order, then the weaker ones in reverse order, are the ranking itself: so
  -- every team is in one fund, and rank k is paired with rank N + 1 - k.
  pub mirror_pairing-mirrors :
      (half : ℕ)
      → length best_first ≡ suc half + suc half
      → (ps : List (FundPairing T)) × (mirror_pairing best_first ≡ pairs ps)
        × (length ps ≡ suc half)
        × (map stronger_of ps ++ reverse (map weaker_of ps) ≡ best_first)
  unfolding mirror_pairing
  mirror_pairing-mirrors half h =
      let (ps, found, (strong, weak)) = pair_up-IsMirrored (suc half) 0 (omega arith) in
      let halved : length best_first / 2 ≡ suc half = omega arith in
      let even : (length best_first == 0 || not (length best_first % 2 == 0)) ≡ false =
        ground arith in
      (
        ps,
        rw (even, halved, found, mirror_pairing),
        sym (length-map stronger_of ps)
            ∙ ap length strong
            ∙ length-take (suc half) best_first (omega arith),
        ap₂ ◌++◌ strong weak ∙ second_half half h ∙ take-append-drop (suc half) best_first,
      )
