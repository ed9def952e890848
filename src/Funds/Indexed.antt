-- ===== src/Funds/Indexed.antt =====
-- Every event keeps the ids of the book pointing at funds that stand in its list (funds.go, `Apply`).
use stockastic.Funds.Pointers.{
  Points, update-Points, add_funds-Points, add_aums-Points, settle_all-Points, add_navs-Points,
}
use stockastic.Funds.Reads.{fund}
use stockastic.Funds.Inflow.{apply_all}
use stockastic.Prelude.Str.{Str, is_empty}
use stockastic.Funds.Events.{
  Fund, SeedUnits, Event, bad_event, Checkpoint, unknown_fund, Op, op_formed, op_profile, op_alloc,
  op_redeem, op_series, op_checkpoint, op_log, op_score, op_trader, op_dissolve, op_fund_dq,
  op_other,
}
use stockastic.Prelude.Dict.{lookup, str_key, found-cases}
use stockastic.Prelude.{List, ◌≡◌, ℕ, get_elem?, ◌∷◌, some, [], none, refl, Option, if-cases}
use stockastic.Funds.Float.{Float}
use stockastic.Funds.Book.{
  Book, Outcome, alloc, redeem, form, add_seeds, set_profile, new_book, reset_locked, if_fund-cases,
  seeded,
}
use stockastic.Funds.Apply.{
  apply, apply_op, sample, choose_trader, disqualify, pass_checkpoint, is_member,
}

module _ {W : Type 0} ⦃f : Float W⦄ where
  -- Every id of the book points at a fund with that id.
  abbrev pub IsIndexed : Book W → Type 0
  IsIndexed b = Points b.by_id b.funds

  abbrev StaysIndexed : Outcome W → Type 0
  StaysIndexed o = IsIndexed o.0

  add_seeds-IsIndexed :
      (ss : List (SeedUnits W)) (b : Book W) → IsIndexed b → IsIndexed (add_seeds b ss).0
  unfolding add_seeds
  add_seeds-IsIndexed [] b h = h
  add_seeds-IsIndexed (s ∷ ss) b h =
      if_fund-cases StaysIndexed b s.fund_id (λ i. add_seeds (seeded b s i) ss) h
        (λ i found.
          add_seeds-IsIndexed ss (seeded b s i) (update-Points b.by_id b.funds i _ (λ fd. refl) h))

  form-IsIndexed : (b : Book W) (ev : Event W) → IsIndexed b → IsIndexed (form b ev).0
  unfolding form
  form-IsIndexed b ev h =
      if-cases StaysIndexed b.formed (b, some bad_event) _ (λ _. h)
        (λ _. add_seeds-IsIndexed ev.seeds _ (add_funds-Points ev.funds b h))

  sample-IsIndexed : (b : Book W) (ev : Event W) → IsIndexed b → IsIndexed (sample b ev)
  unfolding sample
  sample-IsIndexed b ev h =
      add_aums-Points ev.aums b.by_id _ (add_navs-Points ev.navs b.by_id b.funds h)

  pass_checkpoint-IsIndexed :
      (b : Book W) (c : Option (Checkpoint W)) → IsIndexed b → IsIndexed (pass_checkpoint b c).0
  pass_checkpoint-IsIndexed b none h = h
  pass_checkpoint-IsIndexed b (some c) h = settle_all-Points c.funds b.by_id b.funds h

  set_profile-IsIndexed : (b : Book W) (ev : Event W) → IsIndexed b → IsIndexed (set_profile b ev).0
  unfolding set_profile
  set_profile-IsIndexed b ev h = if_fund-cases StaysIndexed b ev.fund_id _ h (λ i found.
      found-cases StaysIndexed ev.profile (b, some unknown_fund) _ (λ _. h)
        (λ p _. update-Points b.by_id b.funds i _ (λ fd. refl) h))

  alloc-IsIndexed : (b : Book W) (ev : Event W) → IsIndexed b → IsIndexed (alloc b ev).0
  unfolding alloc
  alloc-IsIndexed b ev h =
      if_fund-cases StaysIndexed b ev.fund_id _ h
        (λ i found. update-Points b.by_id b.funds i _ (λ fd. refl) h)

  redeem-IsIndexed : (b : Book W) (ev : Event W) → IsIndexed b → IsIndexed (redeem b ev).0
  unfolding redeem
  redeem-IsIndexed b ev h =
      if_fund-cases StaysIndexed b ev.fund_id _ h
        (λ i found. update-Points b.by_id b.funds i _ (λ fd. refl) h)

  disqualify-IsIndexed : (b : Book W) (ev : Event W) → IsIndexed b → IsIndexed (disqualify b ev).0
  unfolding disqualify
  disqualify-IsIndexed b ev h =
      if_fund-cases StaysIndexed b ev.fund_id _ h
        (λ i found. update-Points b.by_id b.funds i _ (λ fd. refl) h)

  choose_trader-IsIndexed :
      (b : Book W) (ev : Event W) → IsIndexed b → IsIndexed (choose_trader b ev).0
  unfolding choose_trader
  choose_trader-IsIndexed b ev h = if_fund-cases StaysIndexed b ev.fund_id _ h (λ i found.
      found-cases StaysIndexed (get_elem? b.funds i) (b, some unknown_fund) _ (λ _. h)
        (λ fd _.
          if-cases StaysIndexed (is_member fd ev.investor) _ (b, some unknown_fund)
            (λ _. update-Points b.by_id b.funds i _ (λ fd. refl) h) (λ _. h)))

  pub new_book-IsIndexed : (launch : W) → IsIndexed (new_book launch)
  unfolding new_book lookup
  new_book-IsIndexed launch id i found = cc

  apply_op-IsIndexed :
      (op : Op) (b : Book W) (ev : Event W) → IsIndexed b → IsIndexed (apply_op op b ev).0
  unfolding reset_locked
  apply_op-IsIndexed op_formed b ev h = form-IsIndexed b ev h
  apply_op-IsIndexed op_profile b ev h = set_profile-IsIndexed b ev h
  apply_op-IsIndexed op_alloc b ev h = alloc-IsIndexed b ev h
  apply_op-IsIndexed op_redeem b ev h = redeem-IsIndexed b ev h
  apply_op-IsIndexed op_series b ev h = sample-IsIndexed b ev h
  apply_op-IsIndexed op_checkpoint b ev h = pass_checkpoint-IsIndexed b ev.checkpoint h
  apply_op-IsIndexed op_log b ev h =
      found-cases StaysIndexed ev.log (b, some bad_event) _ (λ _. h) (λ _ _. h)
  apply_op-IsIndexed op_score b ev h =
      if-cases StaysIndexed (is_empty ev.investor) (b, some bad_event) _ (λ _. h) (λ _. h)
  apply_op-IsIndexed op_trader b ev h = choose_trader-IsIndexed b ev h
  apply_op-IsIndexed op_dissolve b ev h = new_book-IsIndexed b.launch_nav
  apply_op-IsIndexed op_fund_dq b ev h = disqualify-IsIndexed b ev h
  apply_op-IsIndexed op_other b ev h = h

  pub apply-IsIndexed : (b : Book W) (ev : Event W) → IsIndexed b → IsIndexed (apply b ev).0
  unfolding apply
  apply-IsIndexed b ev h = apply_op-IsIndexed ev.op b ev h

  pub apply_all-IsIndexed :
      (evs : List (Event W)) (b : Book W) → IsIndexed b → IsIndexed (apply_all b evs).0
  unfolding apply_all
  apply_all-IsIndexed [] b h = h
  apply_all-IsIndexed (ev ∷ evs) b h =
      apply_all-IsIndexed evs (apply b ev).0 (apply-IsIndexed b ev h)

  -- After any events an id of the book's map is an id of one of its funds: no pointer is left
  -- dangling, and a read by an id gives the fund with that id. Repeated ids, refused events and
  -- dissolutions are among the events.
  pub fund-apply_all :
      (launch : W) (evs : List (Event W)) (id : Str) (i : ℕ)
      → let b = (apply_all (new_book launch) evs).0 in
        lookup id b.by_id ≡ some i → (fd : Fund W) × (fund b id ≡ some fd) × (fd.formed.id ≡ id)
  unfolding fund
  fund-apply_all launch evs id i found =
      let (fd, e, same) =
        apply_all-IsIndexed evs (new_book launch) (new_book-IsIndexed launch) id i found in
      (fd, rw (found, fund) e, same)
