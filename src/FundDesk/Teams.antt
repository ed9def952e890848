-- ===== src/FundDesk/Teams.antt =====
-- Which teams are in the funds that are formed (apps/api/internal/app/funds.go, `FormFunds`).
use mathlib.Core.Path.{subst}
use stockastic.Funds.Float.{Float}
use stockastic.Prelude.Int.{ℤ}
use stockastic.Prelude.Str.{Str, str_eq, str_eq_iff}
use stockastic.Prelude.Dict.{Dict, insert, lookup-insert, str_key, sum-cases}
use stockastic.Prelude.{
  List, Bool, ◌∷◌, All, ◌⊎◌, ℕ, [], ◌≢◌, ◌≡◌, true, if-cases, inl, false, if◌then◌else◌, inr,
  Bool-cases, ◌||◌, arith, not, suc, ap, sym, All-weaken, ◌∙◌, Option, none, some, ltb, length,
  refl,
}
use stockastic.FundDesk.Orders.{stored}
use stockastic.FundDesk.{User, Around, FundDesk}
use stockastic.FundDesk.Forming.{
  forming, form_funds, once_stored, Formation, Qualifying, ranking_of, rank_in, pairs_of,
  form_pairs, can_play, is_used, prepend, new_formed, FormError, invalid_pair, or_false, form_funds,
  Qualifying, store_event_and_apply, once_stored, Formation, Pairs,
}
use stockastic.Funds.Events.{Formed, Event, RankRow}

unfoldable pub teams : List Formed → List Str
teams [] = []
teams (g ∷ gs) = g.member ∷ g.other_member ∷ teams gs

-- No text comes twice.
abbrev pub AreApart : List Str → Type 0
AreApart [] = Unit
AreApart (t ∷ ts) = All (λ x. x ≢ t) ts × AreApart ts

-- Teams that may play and were not used before, none of them twice.
abbrev FitTeams : List User → Dict Str Bool → List Str → Type 0
FitTeams users used ts =
    AreApart ts × All (λ t. can_play t users ≡ true) ts × All (λ t. is_used used t ≡ false) ts

abbrev FitFunds : List User → Dict Str Bool → FormError ⊎ List Formed → Type 0
FitFunds users used (inl e) = Unit
FitFunds users used (inr gs) = FitTeams users used (teams gs)

is_used-insert :
    (used : Dict Str Bool) (p t : Str)
    → is_used (insert p true used) t ≡ (if str_eq p t then true else is_used used t)
is_used-insert used p t = ap or_false (lookup-insert p t true used) ∙ ground arith

-- A team that is not used after `p` is another, and was not used before.
unused :
    (used : Dict Str Bool) (p t : Str)
    → is_used (insert p true used) t ≡ false
    → (t ≢ p) × (is_used used t ≡ false)
unused used p t h =
    let e = sym (is_used-insert used p t) ∙ h in
    elim (Bool-cases (str_eq p t)) [
      | inl same ↦ absurd (true_not_false (rw same at e))
      | inr other ↦
          (λ eq. true_not_false (sym ((str_eq_iff p t).1 (sym eq)) ∙ other), rw other at e)
    ]
  where
    true_not_false : true ≢ false
    true_not_false e = cc

prepend-FitFunds :
    (users : List User) (used : Dict Str Bool) (n : ℕ) (p q : Str) (ranks : Str → ℤ)
    (o : FormError ⊎ List Formed)
    → p ≢ q
    → can_play p users ≡ true
    → is_used used p ≡ false
    → can_play q users ≡ true
    → is_used (insert p true used) q ≡ false
    → FitFunds users (insert q true (insert p true used)) o
    → FitFunds users used (prepend (new_formed n p q ranks) o)
unfolding teams
prepend-FitFunds users used n p q ranks (inl e) apart fit_p free_p fit_q free_q h = tt
prepend-FitFunds users used n p q ranks (inr gs) apart fit_p free_p fit_q free_q (h, play, free) =
    let ts = teams gs in
    let after_q =
      All-weaken (λ t. is_used (insert q true (insert p true used)) t ≡ false)
        (λ t. (t ≢ q) × (is_used (insert p true used) t ≡ false)) ts (unused (insert p true used) q)
        free in
    let after_p =
      All-weaken (λ t. (t ≢ q) × (is_used (insert p true used) t ≡ false))
        (λ t. (t ≢ p) × (is_used used t ≡ false)) ts (λ t k. unused used p t k.1) after_q in
    (
      (
        ((λ e. apart (sym e)), All-weaken _ (λ t. t ≢ p) ts (λ t k. k.0) after_p),
        (All-weaken _ (λ t. t ≢ q) ts (λ t k. k.0) after_q, h),
      ),
      (fit_p, (fit_q, play)),
      (
        free_p,
        (
          (unused used p q free_q).1,
          All-weaken _ (λ t. is_used used t ≡ false) ts (λ t k. k.1) after_p,
        ),
      ),
    )

form_pairs-FitFunds :
    (ps : List (List Str)) (users : List User) (ranks : Str → ℤ) (n : ℕ) (used : Dict Str Bool)
    → FitFunds users used (form_pairs users ranks n used ps)
unfolding form_pairs teams
form_pairs-FitFunds [] users ranks n used = (tt, tt, tt)
form_pairs-FitFunds ([] ∷ ps) users ranks n used = tt
form_pairs-FitFunds ((p ∷ []) ∷ ps) users ranks n used = tt
form_pairs-FitFunds ((p ∷ q ∷ []) ∷ ps) users ranks n used =
    if-cases (FitFunds users used)
      (str_eq p q
        || (not (can_play p users)
            || (is_used used p || (not (can_play q users) || is_used (insert p true used) q))))
      (inl (invalid_pair (suc n))) _ (λ _. tt)
      (λ ok.
        prepend-FitFunds users used (suc n) p q ranks _ (ground (arith, str_eq_iff p q))
          (ground arith) (ground arith) (ground arith) (ground arith)
          (form_pairs-FitFunds ps users ranks (suc n) (insert q true (insert p true used))))
form_pairs-FitFunds ((p ∷ q ∷ r ∷ rs) ∷ ps) users ranks n used = tt

module _ {J W G : Type 0} ⦃f : Float W⦄ (a : Around J W G) where
  -- The event that formed the funds, as it was stored.
  abbrev pub FormedFairly : FundDesk J W → Qualifying → FundDesk J W → Type 0
  FormedFairly d c d' =
      (gs : List Formed) × (rows : List RankRow) × AreApart (teams gs)
      × All (λ t. can_play t a.users ≡ true) (teams gs)
      × (a.append (forming a d c rows gs) d.exec.journal ≡ (d'.exec.journal, none))

  stored_event :
      (d d' : FundDesk J W) (ev : Event W) (x : J × Option Str)
      → a.append ev d.exec.journal ≡ x
      → once_stored a d ev (stored a x) ≡ (d', none)
      → a.append ev d.exec.journal ≡ (d'.exec.journal, none)
  stored_event d d' ev (j, some text) e h = cc
  stored_event d d' ev (j, none) e h = e ∙ ap (λ (o : Formation a). (o.0.exec.journal, none)) h

  -- When funds are formed, from chosen pairs or from the ranking, the event that was stored names
  -- teams that exist and may play, and no team twice: neither in one fund nor in two.
  pub form_funds-FormedFairly :
      (d d' : FundDesk J W) (c : Qualifying) (chosen : List (List Str))
      → form_funds a d c chosen ≡ (d', none)
      → FormedFairly d c d'
  unfolding form_funds store_event_and_apply
  form_funds-FormedFairly d d' c chosen =
      let Goal : Formation a → Type 0 = λ o. o ≡ (d', none) → FormedFairly d c d' in
      if-cases Goal d.book.formed _ _ (λ _ e. cc)
        (λ _.
          sum-cases Goal (pairs_of c chosen) _ _ (λ err _ e. cc)
            (λ (both : Pairs) _.
              if-cases Goal (ltb c.fund_count (length both.0)) _ _ (λ _ e. cc)
                (λ _.
                  sum-cases Goal (form_pairs a.users (rank_in (ranking_of c)) 0 [] both.0) _ _
                    (λ err _ e. cc)
                    (λ gs formed e.
                      let (apart, play, _) =
                        subst (FitFunds a.users []) formed
                          (form_pairs-FitFunds both.0 a.users (rank_in (ranking_of c)) 0 []) in
                      let ev = forming a d c both.1 gs in
                      (
                        gs,
                        both.1,
                        apart,
                        play,
                        stored_event d d' ev (a.append ev d.exec.journal) refl e,
                      )))))
