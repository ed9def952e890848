-- ===== src/FundDesk/Redemptions.antt =====
-- What a redemption leaves behind (apps/api/internal/app/funds.go, `redeem` and `raiseFundCash`).
use stockastic.FundDesk.{
  FundDesk, Around, OrderError, User, navs, nav_in, invalid_amount, nothing_to_redeem,
  below_mandatory, move_error,
}
use stockastic.FundDesk.Allocating.{known_id, fund_again}
use stockastic.FundDesk.Carrying.{Told, Untouched, Carried, carry_out-Carries, if_in_window-cases}
use stockastic.FundDesk.Limits.{investor_check}
use stockastic.FundDesk.Orders.{Order, Asked, carry_out, refuse, order_event}
use stockastic.FundDesk.Redeeming.{
  redeem, take_from_fund, redeem_units, take_out_of_fund, raise_fund_cash, sell_slices, slice_step,
  sold, sell_slice, slice, units_out, amount_out, is_below_mandatory, worth,
}
use stockastic.FundDesk.Replay.{
  IsReplayable, apply_fund_event, apply_with, if_found, settle_accounts, remove_accounts,
}
use stockastic.Funds.Apply.{apply}
use stockastic.Funds.Book
use stockastic.Funds.Book.{Book, if_fund}
use stockastic.Funds.Events.{Event, Fund, op_redeem}
use stockastic.Funds.Float.{Float}
use stockastic.Funds.Indexed.{IsIndexed}
use stockastic.Funds.Reads.{fund, holding}
use stockastic.Ledger.Moves.{replay_move}
use stockastic.Ledger.State.{Position}
use stockastic.Ledger.Valuation.{snapshot}
use stockastic.Prelude.{
  ℕ, suc, ◌≡◌, ◌∙◌, ◌⊎◌, inl, inr, Bool, ◌&&◌, ◌||◌, not, Option, none, some, List, [], ◌∷◌, refl,
  sym, ap, if-cases,
}
use stockastic.Prelude.Dict.{Dict, lookup, found-cases, str_key}
use stockastic.Prelude.Int.{ℤ, pos, leb_ℤ, ltb_ℤ}
use stockastic.Prelude.Str.{Str}
use stockastic.Trading.{State, Result, failed, completed, deduped}
use mathlib.Core.Path.{subst}

module _ {J W G : Type 0} ⦃f : Float W⦄ (a : Around J W G) where
  -- The account has sold, one sale after the other, each through the executor.
  pub data Sells (account : Str) (s : State J) : State J → Type 0 where
    none_sold : Sells account s s
    one_sold :
        {t : State J} (p : Position) (qty : ℤ) (n : ℕ)
        → Sells account s t
        → Sells account s (sell_slice a t account p qty n).0

  Sells-trans :
      {account : Str} {s t u : State J} → Sells account s t → Sells account t u → Sells account s u
  Sells-trans h none_sold = h
  Sells-trans h (one_sold p qty n k) = one_sold p qty n (Sells-trans h k)

  sold_state : (account : Str) (need : ℤ) (x : State J × Result G) → (sold a account need x).0 ≡ x.0
  sold_state account need (s, failed e) = refl
  sold_state account need (s, completed t) = refl
  sold_state account need (s, deduped t) = refl

  slice_step-Sells :
      (account : Str) (need : ℤ) (frac : W) (p : Position) (n : ℕ) (s : State J)
      → Sells account s (slice_step a account need frac p n s).0
  slice_step-Sells account need frac p n s =
      if-cases (λ (x : State J × Option (Option (OrderError G))). Sells account s x.0)
        (leb_ℤ (slice a p frac) (pos 0)) _ _ (λ _. none_sold)
        (λ _.
          subst (Sells account s)
            (sym (sold_state account need (sell_slice a s account p (slice a p frac) n)))
            (one_sold p (slice a p frac) n none_sold))

  sell_slices-Sells :
      (account : Str) (need : ℤ) (frac : W) (ps : List Position) (n : ℕ) (s : State J)
      → Sells account s (sell_slices a account need frac ps n s).0
  unfolding sell_slices
  sell_slices-Sells account need frac [] n s = none_sold
  sell_slices-Sells account need frac (p ∷ ps) n s =
      let now = slice_step-Sells account need frac p n s in
      let s' = (slice_step a account need frac p n s).0 in
      found-cases (λ (x : State J × Option (OrderError G)). Sells account s x.0)
        (slice_step a account need frac p n s).1 _ _
        (λ _. Sells-trans now (sell_slices-Sells account need frac ps (suc n) s')) (λ e _. now)

  raise_fund_cash-Sells :
      (s : State J) (account : Str) (need : ℤ)
      → Sells account s (raise_fund_cash a s account need).0
  unfolding raise_fund_cash
  raise_fund_cash-Sells s account need =
      let Sold : State J × Option (OrderError G) → Type 0 = λ x. Sells account s x.0 in
      found-cases Sold (snapshot s.ledger account) _ _ (λ _. none_sold)
        (λ snap _.
          if-cases Sold (leb_ℤ need snap.cash) _ _ (λ _. none_sold)
            (λ _.
              if-cases Sold (leb_ℤ (worth a.setup.price (pos 0) snap.positions) (pos 0)) _ _
                (λ _. none_sold) (λ _. sell_slices-Sells account need _ snap.positions 0 s)))

  redeem_known :
      (b : Book W) (ev : Event W) (i : ℕ)
      → lookup ev.fund_id b.by_id ≡ some i
      → (Book.redeem b ev).1 ≡ none
  unfolding Book.redeem
  redeem_known b ev i found = rw (found, if_fund) refl

  module _ (d : FundDesk J W) (u : User) (fund_id : Str) where
    -- The fund of this id has sold.
    abbrev pub FundSells : State J → Type 0
    FundSells s =
        (s ≡ d.exec)
        ⊎ ((fd : Fund W) × (fund d.book fund_id ≡ some fd) × Sells fd.formed.account d.exec s)

    abbrev pub OnlySold : FundDesk J W → Type 0
    OnlySold d' = (s : State J) × FundSells s × Untouched a (record d { exec = s }) d'

    abbrev pub Redeemed : FundDesk J W → Type 0
    Redeemed d' = (s : State J) × FundSells s × IsReplayable a (record d { exec = s }) d'

    module _ (indexed : IsIndexed d.book) where
      abbrev pub Redeems : Order a → Type 0
      Redeems = Told a OnlySold Redeemed

      refused : (e : OrderError G) → Redeems (refuse a d e)
      refused e = (d.exec, inl refl, (refl, refl, refl, refl))

      Carried-IsReplayable :
          (s : State J) (fd : Fund W) (window amount : ℤ) (units nav : W) (d' : FundDesk J W)
          → fund d.book fund_id ≡ some fd
          → Carried a
              (record d { exec = s })
              (order_event a op_redeem fd.formed.id u.id window amount units nav)
              fd.formed.account
              u.id
              d'
          → IsReplayable a (record d { exec = s }) d'
      unfolding apply_fund_event settle_accounts remove_accounts
      Carried-IsReplayable s fd window amount units nav d' found (_, moved, kept, booked, _, _) =
          let ev = order_event a op_redeem fd.formed.id u.id window amount units nav in
          (
            ev,
            kept,
            ap
                  (λ o.
                    apply_with a.rules d.book ev
                      (if_found a.rules o λ x. replay_move s.ledger x.formed.account u.id amount)
                      s.ledger)
                  (fund_again d.book fund_id fd indexed found)
                ∙ ap (λ m. apply_with a.rules d.book ev (inl m) s.ledger) moved
                ∙ ap (settle_accounts a.rules d'.exec.ledger ev []) booked,
          )

      carried-Redeems :
          (s : State J) (fd : Fund W) (window amount : ℤ) (units nav : W) (o : Order a)
          → fund d.book fund_id ≡ some fd
          → Sells fd.formed.account d.exec s
          → Told a
              (Untouched a (record d { exec = s }))
              (Carried a
                (record d { exec = s })
                (order_event a op_redeem fd.formed.id u.id window amount units nav)
                fd.formed.account
                u.id)
              o
          → Redeems o
      carried-Redeems s fd window amount units nav (d', inl e) found sells h =
          (s, inr (fd, found, sells), h)
      carried-Redeems s fd window amount units nav (d', inr r) found sells h =
          (s, inr (fd, found, sells), Carried-IsReplayable s fd window amount units nav d' found h)

      take_out_of_fund-Redeems :
          (fd : Fund W) (window amount : ℤ) (units nav : W) (x : State J × Option (OrderError G))
          → fund d.book fund_id ≡ some fd
          → Sells fd.formed.account d.exec x.0
          → Redeems (
              take_out_of_fund a d
                (order_event a op_redeem fd.formed.id u.id window amount units nav)
                fd.formed.account
                u.id
                x)
      unfolding apply
      take_out_of_fund-Redeems fd window amount units nav (s, some e) found sells =
          (s, inr (fd, found, sells), (refl, refl, refl, refl))
      take_out_of_fund-Redeems fd window amount units nav (s, none) found sells =
          let ev = order_event a op_redeem fd.formed.id u.id window amount units nav in
          let d' : FundDesk J W = record d { exec = s } in
          let (i, at_place) = known_id d.book fund_id fd indexed found in
          carried-Redeems s fd window amount units nav
            (carry_out a d' ev fd.formed.account u.id move_error) found sells
            (carry_out-Carries a d' ev fd.formed.account u.id move_error
              (redeem_known d.book ev i at_place))

      redeem_units-Redeems :
          (fd : Fund W) (window : ℤ) (at_navs : Dict Str W) (all : Bool) (units : W)
          → fund d.book fund_id ≡ some fd
          → Redeems (redeem_units a d u fd window at_navs all units)
      redeem_units-Redeems fd window at_navs all units found =
          let nav = nav_in at_navs fd.formed.id in
          let amount = amount_out a units nav in
          if-cases Redeems (f.le units f.zero_float) _ _ (λ _. refused invalid_amount)
            (λ _.
              if-cases Redeems (leb_ℤ amount (pos 0) || (not all && ltb_ℤ amount (pos 100))) _ _
                (λ _. refused invalid_amount)
                (λ _.
                  if-cases Redeems (is_below_mandatory a d u at_navs amount) _ _
                    (λ _. refused below_mandatory)
                    (λ _.
                      take_out_of_fund-Redeems fd window amount units nav _ found
                        (raise_fund_cash-Sells d.exec fd.formed.account amount))))

      take_from_fund-Redeems :
          (fd : Fund W) (window : ℤ) (req : Asked W)
          → fund d.book fund_id ≡ some fd
          → Redeems (take_from_fund a d u fd window req)
      unfolding take_from_fund
      take_from_fund-Redeems fd window req found =
          let at_navs = navs d.exec.ledger a.setup.price d.book.launch_nav d.book.funds in
          let held = (holding d.book u.id fd.formed.id).units in
          if-cases Redeems (f.le held f.zero_float) _ _ (λ _. refused nothing_to_redeem)
            (λ _.
              found-cases Redeems (units_out a held (nav_in at_navs fd.formed.id) req) _ _
                (λ _. refused invalid_amount)
                (λ units _. redeem_units-Redeems fd window at_navs req.all units found))

      -- Whatever a redemption asks for and however it ends, what the fund sold to raise the cash are
      -- trades of its own account through the executor. If the redemption is accepted, one event was
      -- stored, and replaying it on the ledger and the book as they were after these trades gives the
      -- ledger and the book that the redemption left. If it is refused, then but for the journal's own
      -- state nothing else has changed. Every id of the book points at the fund that has it.
      pub redeem-Redeems : (req : Asked W) → Redeems (redeem a d u fund_id req)
      unfolding redeem
      redeem-Redeems req =
          found-cases Redeems (investor_check d.book u) _ (refuse a d)
            (λ _.
              if_in_window-cases a Redeems d fund_id _ refused
                (λ fd window found _ _. take_from_fund-Redeems fd window req found))
            (λ e _. refused e)
