-- ===== src/FundDesk/Allocating.antt =====
-- What an allocation does on every branch (apps/api/internal/app/funds.go, `allocate`).
use stockastic.Ledger.Valuation.{snapshot}
use stockastic.FundDesk.Limits.{floor_units, investor_check}
use stockastic.Funds.Apply.{apply}
use mathlib.Core.Path.{subst}
use stockastic.Prelude.Int.{ℤ}
use stockastic.Prelude.{◌≡◌, ℕ, some, none, false, get_elem?, sym, refl, ◌∙◌, ap, Option, if-cases}
use stockastic.Funds.Events.{Fund, Event, op_alloc}
use stockastic.Prelude.Str.{Str}
use stockastic.Prelude.Dict.{Dict, lookup, found-cases, str_key, some_eq}
use stockastic.Funds.Book.{Book, alloc, if_fund}
use stockastic.Funds.Float.{Float, from_rupees, rupees}
use stockastic.Funds.Reads.{fund}
use stockastic.FundDesk.{
  FundDesk, Around, OrderError, User, navs, nav_in, fund_unavailable, invalid_amount,
  no_ledger_account,
}
use stockastic.FundDesk.Orders.{
  Order, carry_out, allocate, put_in_fund, buy_units, too_much, order_event, refuse, Asked,
  moved_error, is_no_amount,
}
use stockastic.FundDesk.Carrying.{
  Told, Untouched, Carried, carry_out-Carries, Told-map, if_in_window-cases,
}
use stockastic.Funds.Indexed.{IsIndexed}

module _ {W : Type 0} ⦃f : Float W⦄ where
  pub known_id :
      (b : Book W) (id : Str) (fd : Fund W)
      → IsIndexed b
      → fund b id ≡ some fd
      → (i : ℕ) × (lookup fd.formed.id b.by_id ≡ some i)
  unfolding fund
  known_id b id fd indexed h =
      found-cases (λ o. o ≡ some fd → (i : ℕ) × (lookup fd.formed.id b.by_id ≡ some i))
        (lookup id b.by_id) none (λ i. get_elem? b.funds i) (λ _ e. cc)
        (λ i found e.
          let (fd', e', same) = indexed id i found in
          (
            i,
            subst (λ k. lookup k b.by_id ≡ some i)
                (sym same ∙ ap (λ (x : Fund W). x.formed.id) (some_eq fd' fd (sym e' ∙ e))) found,
          ))
        h

  -- A fund that was found is found again by its own id.
  pub fund_again :
      (b : Book W) (id : Str) (fd : Fund W)
      → IsIndexed b
      → fund b id ≡ some fd
      → fund b fd.formed.id ≡ some fd
  unfolding fund
  fund_again b id fd indexed h =
      found-cases (λ o. o ≡ some fd → fund b fd.formed.id ≡ some fd) (lookup id b.by_id) none
        (λ i. get_elem? b.funds i) (λ _ e. cc)
        (λ i found e.
          let (fd', e', same) = indexed id i found in
          subst (λ k. fund b k ≡ some fd)
            (sym same ∙ ap (λ (x : Fund W). x.formed.id) (some_eq fd' fd (sym e' ∙ e))) h)
        h

module _ {J W G : Type 0} ⦃f : Float W⦄ (a : Around J W G) where
  abbrev pub navs_at : FundDesk J W → Dict Str W
  navs_at d = navs d.exec.ledger a.setup.price d.book.launch_nav d.book.funds

  alloc_known :
      (b : Book W) (ev : Event W) (i : ℕ)
      → lookup ev.fund_id b.by_id ≡ some i
      → (alloc b ev).1 ≡ none
  unfolding alloc
  alloc_known b ev i found = rw (found, if_fund) refl

  -- The account was open to an allocation, which was carried out.
  abbrev pub Allocated : FundDesk J W → User → Str → FundDesk J W → Type 0
  Allocated d u fund_id d' =
      (fd : Fund W) × (window : ℤ) × (amount : ℤ) × (cash : ℤ) × (units : W) × (fund d.book fund_id
        ≡ some fd)
      × (fd.disqualified ≡ false)
      × (a.window ≡ some window)
      × (a.paused ≡ false)
      × (too_much a d u fd window (navs_at d) amount cash ≡ none)
      × Carried a d
          (order_event a op_alloc fd.formed.id u.id window amount units
            (nav_in (navs_at d) fd.formed.id))
          u.id fd.formed.account d'

  module _ (d : FundDesk J W) (u : User) (fund_id : Str) (indexed : IsIndexed d.book) where
    abbrev Allocates : Order a → Type 0
    Allocates = Told a (Untouched a d) (Allocated d u fund_id)

    refused : (e : OrderError G) → Allocates (refuse a d e)
    refused e = (refl, refl, refl, refl)

    buy_units-Allocates :
        (fd : Fund W) (window amount cash : ℤ)
        → fund d.book fund_id ≡ some fd
        → fd.disqualified ≡ false
        → a.window ≡ some window
        → a.paused ≡ false
        → too_much a d u fd window (navs_at d) amount cash ≡ none
        → Allocates (buy_units a d u fd window (navs_at d) amount)
    unfolding apply
    buy_units-Allocates fd window amount cash found fit window_is running fits =
        let nav = nav_in (navs_at d) fd.formed.id in
        let units = floor_units (f.div (rupees amount) nav) in
        let (i, at_place) = known_id d.book fund_id fd indexed found in
        let ev = order_event a op_alloc fd.formed.id u.id window amount units nav in
        if-cases Allocates (f.le units f.zero_float) (refuse a d invalid_amount)
          (carry_out a d ev u.id fd.formed.account moved_error) (λ _. refused invalid_amount)
          (λ _.
            Told-map a (Untouched a d) (Carried a d ev u.id fd.formed.account)
              (Allocated d u fund_id) (carry_out a d ev u.id fd.formed.account moved_error)
              (λ d' h. (fd, window, amount, cash, units, found, fit, window_is, running, fits, h))
              (carry_out-Carries a d ev u.id fd.formed.account moved_error
                (alloc_known d.book ev i at_place)))

    fitting :
        (fd : Fund W) (window amount cash : ℤ)
        → fund d.book fund_id ≡ some fd
        → fd.disqualified ≡ false
        → a.window ≡ some window
        → a.paused ≡ false
        → (o : Option (OrderError G)) → too_much a d u fd window (navs_at d) amount cash ≡ o
        → Allocates
            (elim o [ some e ↦ refuse a d e | none ↦ buy_units a d u fd window (navs_at d) amount ])
    fitting fd window amount cash found fit window_is running (some e) fits = refused e
    fitting fd window amount cash found fit window_is running none fits =
        buy_units-Allocates fd window amount cash found fit window_is running fits

    put_in_fund-Allocates :
        (fd : Fund W) (window : ℤ) (rs : W)
        → fund d.book fund_id ≡ some fd
        → a.window ≡ some window
        → a.paused ≡ false
        → Allocates (put_in_fund a d u fd window rs)
    unfolding put_in_fund
    put_in_fund-Allocates fd window rs found window_is running =
        let amount = from_rupees rs in
        if-cases Allocates fd.disqualified (refuse a d fund_unavailable) _
          (λ _. refused fund_unavailable)
          (λ fit.
            found-cases Allocates (snapshot d.exec.ledger u.id) (refuse a d no_ledger_account) _
              (λ _. refused no_ledger_account)
              (λ s _.
                fitting fd window amount s.cash found fit window_is running
                  (too_much a d u fd window (navs_at d) amount s.cash) refl))

    pub allocate-Allocates : (req : Asked W) → Allocates (allocate a d u fund_id req)
    unfolding allocate
    allocate-Allocates req =
        found-cases Allocates (investor_check d.book u) _ (refuse a d)
          (λ _.
            if-cases Allocates (is_no_amount a req.amount) (refuse a d invalid_amount) _
              (λ _. refused invalid_amount)
              (λ _.
                if_in_window-cases a Allocates d fund_id _ refused
                  (λ fd window found window_is running.
                    put_in_fund-Allocates fd window req.amount found window_is running)))
          (λ e _. refused e)
