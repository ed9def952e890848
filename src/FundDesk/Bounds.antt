-- ===== src/FundDesk/Bounds.antt =====
-- The equal-cap rule where it is used (apps/api/internal/app/funds.go, `capRooms` and `allocate`).
use stockastic.FundDesk.Rooms.{
  states_are, rooms_from-found, map-map, cap_state-fund_id, cap_state-allowance,
}
use stockastic.Funds.Inflow.{alloc-counted, counted}
use stockastic.Funds.Book.{Outcome, Book}
use stockastic.Funds.Apply.{apply}
use stockastic.FundDesk.Carrying.{Told, Untouched}
use stockastic.Funds.Marks.{Owns}
use stockastic.Funds.Indexed.{IsIndexed}
use stockastic.FundDesk.Orders.{too_much, room_in, Asked, allocate, order_event, room_or_none}
use stockastic.FundDesk.Allocating.{navs_at, Allocated, allocate-Allocates}
use mathlib.Core.Path.{subst}
use stockastic.Prelude.Str.{Str, str_eq, str_eq_iff}
use stockastic.Prelude.Dict.{Dict, lookup, str_key, some_eq, found-cases, eqb_ℤ_iff}
use stockastic.Prelude.Int64.{Fits, add64, wrap, wrap-eq_of_Fits, Amount}
use stockastic.Prelude.{
  ◌≡◌, arith, Option, ℕ, get_elem?, some, ◌∙◌, if-cases, map, ap, sym, [], refl, length, none, inr,
  ◌&&◌, true, if◌then◌else◌,
}
use stockastic.Funds.Events.{Fund, op_alloc}
use stockastic.Funds.Float.{Float, from_rupees}
use stockastic.Prelude.Int.{ℤ, pos, ◌≤ℤ◌, ◌+ℤ◌, ltb_ℤ, eqb_ℤ}
use stockastic.Funds.Reads.{inflow, fund, holding}
use stockastic.FundDesk.{
  FundDesk, Around, User, OrderError, short_of_cash, below_minimum, exceeds_single_fund_cap,
  divided_by_zero, fund_at_cap, total_value, Receipt, nav_in,
}
use stockastic.FundDesk.Limits.{
  cap_rooms, rooms_from, cap_fund, wallets, mandatory_pool, percent_of, min_investment,
}
use stockastic.Scoring.Caps.{CapState, cap_state, allocation_caps, level}

module _ {J W G : Type 0} ⦃f : Float W⦄ (a : Around J W G) where
  -- The state of a fund under the equal-cap rule, as the desk stands.
  abbrev pub cap_at : FundDesk J W → ℤ → Fund W → CapState
  cap_at d window fd =
      let pool =
        mandatory_pool (wallets d.exec.ledger a.setup.price d.book (navs_at a d) a.users)
          a.rules.mandatory_allocation_percent in
      let n = wrap (pos (length d.book.funds)) in
      let ticket = from_rupees a.rules.min_investment_absolute in
      cap_state pool n (pos 1) ticket
        (level pool n (pos 1) ticket (map (cap_fund d.book window) d.book.funds))
        (cap_fund d.book window fd)

  rooms_are :
      (d : FundDesk J W) (window : ℤ) (rooms : Dict Str ℤ)
      → cap_rooms d.exec.ledger a.setup.price d.book a.rules a.users window (navs_at a d)
        ≡ some rooms
      → rooms ≡ rooms_from [] (map (cap_at d window) d.book.funds)
  unfolding cap_rooms allocation_caps
  rooms_are d window rooms =
      let pool =
        mandatory_pool (wallets d.exec.ledger a.setup.price d.book (navs_at a d) a.users)
          a.rules.mandatory_allocation_percent in
      let n = wrap (pos (length d.book.funds)) in
      let ticket = from_rupees a.rules.min_investment_absolute in
      let funds = map (cap_fund d.book window) d.book.funds in
      found-cases
        (λ (o : Option (Dict Str ℤ)).
          o ≡ some rooms → rooms ≡ rooms_from [] (map (cap_at d window) d.book.funds))
        (allocation_caps pool n (pos 1) ticket funds) none (λ x. some (rooms_from [] x.1))
        (λ _ e. cc)
        (λ x is e.
          sym (some_eq (rooms_from [] x.1) rooms e)
          ∙ ap (rooms_from []) (
              states_are pool n ticket funds x is
              ∙ map-map (cap_state pool n (pos 1) ticket (level pool n (pos 1) ticket funds))
                  (cap_fund d.book window) d.book.funds))

  room_enough :
      (d : FundDesk J W) (u : User) (fd : Fund W) (window amount cash : ℤ)
      → too_much a d u fd window (navs_at a d) amount cash ≡ none
      → (rooms : Dict Str ℤ) × (cap_rooms d.exec.ledger a.setup.price d.book a.rules a.users window
            (navs_at a d)
          ≡ some rooms)
        × (amount ≤ℤ room_in rooms fd.formed.id)
  unfolding too_much
  room_enough d u fd window amount cash =
      let Enough : Option (OrderError G) → Type 0 = λ o.
        o ≡ none
        → (rooms : Dict Str ℤ) × (cap_rooms d.exec.ledger a.setup.price d.book a.rules a.users
              window (navs_at a d)
            ≡ some rooms)
          × (amount ≤ℤ room_in rooms fd.formed.id) in
      let wallet = total_value d.exec.ledger a.setup.price d.book u.id (navs_at a d) in
      let held =
        from_rupees
          (f.mul (holding d.book u.id fd.formed.id).units (nav_in (navs_at a d) fd.formed.id)) in
      let limit = percent_of wallet a.rules.max_single_fund_wallet_percent in
      if-cases Enough (ltb_ℤ cash amount) (some short_of_cash) _ (λ _ e. cc)
        (λ _.
          if-cases Enough (ltb_ℤ amount (min_investment wallet a.rules)) (some below_minimum) _
            (λ _ e. cc)
            (λ _.
              if-cases Enough (ltb_ℤ limit (add64 held amount)) (some exceeds_single_fund_cap) _
                (λ _ e. cc)
                (λ _.
                  found-cases Enough
                    (cap_rooms d.exec.ledger a.setup.price d.book a.rules a.users window
                      (navs_at a d))
                    (some divided_by_zero) _ (λ _ e. cc)
                    (λ rooms is.
                      if-cases Enough (ltb_ℤ (room_in rooms fd.formed.id) amount) (some fund_at_cap)
                        none (λ _ e. cc) (λ enough e. (rooms, is, ground arith))))))

  grown :
      (d d' : FundDesk J W) (u : User) (fd : Fund W) (window amount : ℤ) (units nav : W)
      → Fits (inflow d.book window fd.formed.id)
      → apply d.book (order_event a op_alloc fd.formed.id u.id window amount units nav)
        ≡ (d'.book, none)
      → inflow d'.book window fd.formed.id ≡ add64 (inflow d.book window fd.formed.id) amount
  unfolding apply
  grown d d' u fd window amount units nav fits booked =
      let ev = order_event a op_alloc fd.formed.id u.id window amount units nav in
      let taken = inflow d.book window fd.formed.id in
      ap (λ (o : Outcome W). inflow o.0 window fd.formed.id) (sym booked)
      ∙ alloc-counted d.book ev window fd.formed.id taken (sym (wrap-eq_of_Fits taken fits))
      ∙ ap (λ (o : Outcome W). wrap (counted op_alloc window fd.formed.id taken ev o.1)) booked
      ∙ ap (λ t. wrap (if t then taken +ℤ amount else taken)) (itself window fd.formed.id)
    where
      itself : (w : ℤ) (id : Str) → (eqb_ℤ w w && str_eq id id) ≡ true
      itself w id = ground (arith, (eqb_ℤ_iff w w).1 refl, (str_eq_iff id id).1 refl)

  at_its_place :
      (b : Book W) (id : Str) (fd : Fund W)
      → fund b id ≡ some fd
      → (i : ℕ) × (get_elem? b.funds i ≡ some fd)
  unfolding fund
  at_its_place b id fd =
      found-cases (λ o. o ≡ some fd → (i : ℕ) × (get_elem? b.funds i ≡ some fd)) (lookup id b.by_id)
        none (λ i. get_elem? b.funds i) (λ _ e. cc) (λ i _ e. (i, e))

  one_of_id :
      (b : Book W) (fd : Fund W) (i : ℕ)
      → Owns b.by_id b.funds
      → get_elem? b.funds i ≡ some fd
      → (j : ℕ) (x : Fund W) → get_elem? b.funds j ≡ some x
      → x.formed.id ≡ fd.formed.id
      → x ≡ fd
  one_of_id b fd i owns place j x e same = some_eq x fd (
      sym e
      ∙ ap (get_elem? b.funds)
          (some_eq j i (sym (owns j x e) ∙ ap (λ k. lookup k b.by_id) same ∙ owns i fd place))
      ∙ place)

  within :
      (d d' : FundDesk J W) (u : User) (fund_id : Str)
      → Owns d.book.by_id d.book.funds
      → (h : Allocated a d u fund_id d') → Amount (inflow d.book h.1 h.0.formed.id)
      → inflow d'.book h.1 h.0.formed.id ≤ℤ (cap_at d h.1 h.0).allowance
  unfolding inflow
  within d d' u fund_id owns
        (fd, window, amount, cash, units, found, fit, _, _, fits, (positive, _, _, booked, _, _))
        money =
      let (rooms, is, enough) = room_enough d u fd window amount cash fits in
      let (i, place) = at_its_place d.book fund_id fd found in
      let room =
        ap (λ m. room_in m fd.formed.id) (rooms_are d window rooms is)
        ∙ ap room_or_none (
            rooms_from-found (cap_at d window) fd
              (λ x. cap_state-fund_id _ _ _ _ (cap_fund d.book window x)) d.book.funds i []
              (one_of_id d.book fd i owns place) place) in
      rw (grown d d' u fd window amount units (nav_in (navs_at a d) fd.formed.id) money.1 booked) (
        cap_state-allowance _ _ _ _ (cap_fund d.book window fd) amount money.0 money.1 positive
          (subst (λ r. amount ≤ℤ r) room enough))

  -- An accepted allocation keeps the fund, by what it has then taken in the window, within what the
  -- equal-cap rule lets it take as the desk stood before. Every id of the book points at the fund
  -- that has it and no two funds have one id; what the fund had taken is an amount of money.
  pub allocate-within_allowance :
      (d d' : FundDesk J W) (u : User) (fund_id : Str) (req : Asked W) (r : Receipt W) (window : ℤ)
      (fd : Fund W)
      → IsIndexed d.book
      → Owns d.book.by_id d.book.funds
      → a.window ≡ some window
      → fund d.book fund_id ≡ some fd
      → Amount (inflow d.book window fd.formed.id)
      → allocate a d u fund_id req ≡ (d', inr r)
      → inflow d'.book window fd.formed.id ≤ℤ (cap_at d window fd).allowance
  allocate-within_allowance d d' u fund_id req r window fd indexed owns window_is found money h =
      let done : Allocated a d u fund_id d' =
        subst (Told a (Untouched a d) (Allocated a d u fund_id)) h
          (allocate-Allocates a d u fund_id indexed req) in
      let Within : Fund W → ℤ → Type 0 = λ x w.
        Amount (inflow d.book w x.formed.id)
        → inflow d'.book w x.formed.id ≤ℤ (cap_at d w x).allowance in
      subst (Within fd) (some_eq done.1 window (sym done.7 ∙ window_is))
        (subst (λ x. Within x done.1) (some_eq done.0 fd (sym done.5 ∙ found))
          (within d d' u fund_id owns done))
        money
