-- ===== src/Funds/Inflow.antt =====
-- What a fund has taken in an allocation window (funds.go, `Apply` and `Inflow`).
use stockastic.Prelude.Int64.{wrap, wrap-add_wrap}
use stockastic.Prelude.Str.{Str, str_eq, str_eq_iff}
use stockastic.Prelude.Int.{ℤ, eqb_ℤ, ◌+ℤ◌, pos}
use stockastic.Prelude.{
  Option, List, ◌∷◌, Bool, ◌≡◌, some, [], ◌&&◌, if◌then◌else◌, refl, none, arith, ◌∙◌, ap, sym,
}
use stockastic.Funds.Float.{Float}
use stockastic.Funds.Events.{
  Event, FundError, SeedUnits, op_alloc, op_dissolve, Formed, Op, op_formed, op_profile, op_redeem,
  op_series, op_checkpoint, op_log, op_score, op_trader, op_fund_dq, op_other,
}
use stockastic.Funds.Book.{
  Book, Outcome, alloc, redeem, form, add_seeds, set_profile, new_book, reset_locked, at_key,
  taken_in, seeded, add_funds, if_fund-cases,
}
use stockastic.Funds.Apply.{apply, sample, choose_trader, disqualify, apply_op}
use stockastic.Funds.Reads.{inflow}
use stockastic.Prelude.Dict.{
  int_key, str_key, lookup, insert, Dict, lookup-insert, eqb_ℤ_iff, str_key,
}

-- An event and what applying it returned.
abbrev pub Applied : Type 0 → Type 0
Applied W = Event W × Option FundError

taken_in-put :
    (d : Dict ℤ (Dict Str ℤ)) (w : ℤ) (id : Str) (a : ℤ) (w' : ℤ) (id' : Str)
    → taken_in (insert w (insert id a (at_key w d)) d) w' id'
      ≡ (if eqb_ℤ w w' && str_eq id id' then a else taken_in d w' id')
taken_in-put d w id a w' id' =
    rw (lookup-insert w w' (insert id a (at_key w d)) d, taken_in, at_key)
      (ground (arith, eqb_ℤ_iff w w', lookup-insert id id' a (at_key w d)))

taken_in_kept :
    (d : Dict ℤ (Dict Str ℤ)) (w w' : ℤ) (id : Str)
    → taken_in (insert w (at_key w d) d) w' id ≡ taken_in d w' id
taken_in_kept d w w' id =
    rw (lookup-insert w w' (at_key w d) d, taken_in, at_key) (ground (arith, eqb_ℤ_iff w w'))

module _ {W : Type 0} ⦃f : Float W⦄ where
  -- The book after the events, and what each of them returned.
  unfoldable pub apply_all : Book W → List (Event W) → Book W × List (Applied W)
  unfolding apply
  apply_all b [] = (b, [])
  apply_all b (ev ∷ evs) =
      let (b', res) = apply b ev in let (last, rest) = apply_all b' evs in (last, (ev, res) ∷ rest)

  abbrev is_put : ℤ → Str → Event W → Bool
  is_put window id ev = eqb_ℤ ev.window window && str_eq ev.fund_id id

  -- The exact sum of what was put into the fund in the window, from `sum` on: an event that was
  -- refused counts for nothing, and a dissolution starts the sum again.
  abbrev pub counted_op : Op → ℤ → Str → ℤ → Event W → ℤ
  counted_op op_alloc window id sum ev = if is_put window id ev then sum +ℤ ev.amount else sum
  counted_op op_dissolve window id sum ev = pos 0
  counted_op _ window id sum ev = sum

  abbrev pub counted : Op → ℤ → Str → ℤ → Event W → Option FundError → ℤ
  counted op window id sum ev (some _) = sum
  counted op window id sum ev none = counted_op op window id sum ev

  unfoldable pub allocated : ℤ → Str → ℤ → List (Applied W) → ℤ
  allocated window id sum [] = sum
  allocated window id sum ((ev, res) ∷ rest) =
      allocated window id (counted ev.op window id sum ev res) rest

  add_seeds-inflow : (ss : List (SeedUnits W)) (b : Book W) → (add_seeds b ss).0.inflow ≡ b.inflow
  unfolding add_seeds
  add_seeds-inflow [] b = refl
  add_seeds-inflow (s ∷ ss) b =
      if_fund-cases (λ o. o.0.inflow ≡ b.inflow) b s.fund_id (λ i. add_seeds (seeded b s i) ss) refl
        (λ i found. add_seeds-inflow ss (seeded b s i))

  add_funds-inflow : (gs : List Formed) (b : Book W) → (add_funds b gs).inflow ≡ b.inflow
  unfolding add_funds
  add_funds-inflow [] b = refl
  add_funds-inflow (g ∷ gs) b = add_funds-inflow gs _

  form-inflow : (b : Book W) (ev : Event W) → (form b ev).0.inflow ≡ b.inflow
  unfolding form
  form-inflow b ev = grind (arith, add_funds-inflow ev.funds b, add_seeds-inflow ev.seeds)

  redeem-inflow :
      (b : Book W) (ev : Event W) (w : ℤ) (id : Str) → inflow (redeem b ev).0 w id ≡ inflow b w id
  unfolding redeem inflow
  redeem-inflow b ev w id =
      if_fund-cases (λ o. taken_in o.0.inflow w id ≡ inflow b w id) b ev.fund_id _ refl
        (λ i found. taken_in_kept b.inflow ev.window w id)

  pub alloc-counted :
      (b : Book W) (ev : Event W) (w : ℤ) (id : Str) (sum : ℤ)
      → inflow b w id ≡ wrap sum
      → inflow (alloc b ev).0 w id ≡ wrap (counted op_alloc w id sum ev (alloc b ev).1)
  unfolding inflow alloc
  alloc-counted b ev w id sum h =
      if_fund-cases (λ o. taken_in o.0.inflow w id ≡ wrap (counted op_alloc w id sum ev o.1)) b
        ev.fund_id _ h
        (λ i found.
          taken_in-put b.inflow ev.window ev.fund_id _ w id
          ∙ ground
              (arith, eqb_ℤ_iff ev.window w, str_eq_iff ev.fund_id id, wrap-add_wrap sum ev.amount))

  set_profile-inflow : (b : Book W) (ev : Event W) → (set_profile b ev).0.inflow ≡ b.inflow
  unfolding set_profile
  set_profile-inflow b ev = ground arith

  choose_trader-inflow : (b : Book W) (ev : Event W) → (choose_trader b ev).0.inflow ≡ b.inflow
  unfolding choose_trader
  choose_trader-inflow b ev = ground arith

  empty_inflow : (launch : W) (w : ℤ) (id : Str) → inflow (new_book launch) w id ≡ wrap (pos 0)
  unfolding inflow new_book lookup wrap
  empty_inflow launch w id = refl

  sample-inflow : (b : Book W) (ev : Event W) → (sample b ev).inflow ≡ b.inflow
  unfolding sample
  sample-inflow b ev = refl

  disqualify-inflow : (b : Book W) (ev : Event W) → (disqualify b ev).0.inflow ≡ b.inflow
  unfolding disqualify
  disqualify-inflow b ev = ground arith

  module _ (b : Book W) (ev : Event W) (w : ℤ) (id : Str) (sum : ℤ)
      (h : inflow b w id ≡ wrap sum) where
    -- An operation that is no allocation and no dissolution counts for nothing.
    unmoved :
        (op : Op) (o : Outcome W)
        → counted_op op w id sum ev ≡ sum
        → inflow o.0 w id ≡ inflow b w id
        → inflow o.0 w id ≡ wrap (counted op w id sum ev o.1)
    unmoved op (b', none) idle same = same ∙ h ∙ ap wrap (sym idle)
    unmoved op (b', some _) idle same = same ∙ h

    untouched :
        (op : Op) (o : Outcome W)
        → counted_op op w id sum ev ≡ sum
        → o.0.inflow ≡ b.inflow
        → inflow o.0 w id ≡ wrap (counted op w id sum ev o.1)
    unfolding inflow
    untouched op o idle same = unmoved op o idle (ap (λ d. taken_in d w id) same)

    apply_op-counted :
        (op : Op)
        → inflow (apply_op op b ev).0 w id ≡ wrap (counted op w id sum ev (apply_op op b ev).1)
    unfolding inflow reset_locked wrap
    apply_op-counted op_formed = untouched op_formed (form b ev) refl (form-inflow b ev)
    apply_op-counted op_profile =
        untouched op_profile (set_profile b ev) refl (set_profile-inflow b ev)
    apply_op-counted op_alloc = alloc-counted b ev w id sum h
    apply_op-counted op_redeem = unmoved op_redeem (redeem b ev) refl (redeem-inflow b ev w id)
    apply_op-counted op_series = untouched op_series (sample b ev, none) refl (sample-inflow b ev)
    apply_op-counted op_checkpoint = ground arith
    apply_op-counted op_log = ground arith
    apply_op-counted op_score = ground arith
    apply_op-counted op_trader =
        untouched op_trader (choose_trader b ev) refl (choose_trader-inflow b ev)
    apply_op-counted op_dissolve = empty_inflow b.launch_nav w id
    apply_op-counted op_fund_dq =
        untouched op_fund_dq (disqualify b ev) refl (disqualify-inflow b ev)
    apply_op-counted op_other = h

  apply-counted :
      (b : Book W) (ev : Event W) (w : ℤ) (id : Str) (sum : ℤ)
      → inflow b w id ≡ wrap sum
      → inflow (apply b ev).0 w id ≡ wrap (counted ev.op w id sum ev (apply b ev).1)
  unfolding apply
  apply-counted b ev w id sum h = apply_op-counted b ev w id sum h ev.op

  apply_all-counted :
      (evs : List (Event W)) (b : Book W) (w : ℤ) (id : Str) (sum : ℤ)
      → inflow b w id ≡ wrap sum
      → inflow (apply_all b evs).0 w id ≡ wrap (allocated w id sum (apply_all b evs).1)
  unfolding apply_all allocated
  apply_all-counted [] b w id sum h = h
  apply_all-counted (ev ∷ evs) b w id sum h =
      apply_all-counted evs (apply b ev).0 w id _ (apply-counted b ev w id sum h)

  -- What the book says a fund has taken in a window is, to within the wrap-around of an `int64`, the
  -- sum of the allocations to it in that window that were accepted since the funds were last
  -- dissolved: whatever events came in whatever order, those that were refused among them.
  pub inflow-apply_all :
      (launch : W) (evs : List (Event W)) (w : ℤ) (id : Str)
      → let (b, log) = apply_all (new_book launch) evs in
        inflow b w id ≡ wrap (allocated w id (pos 0) log)
  inflow-apply_all launch evs w id =
      apply_all-counted evs (new_book launch) w id (pos 0) (empty_inflow launch w id)
