-- ===== src/FundDesk/Redeeming.antt =====
-- Money out of a fund, and the limit on both ways (apps/api/internal/app/funds.go, `redeem`,
-- `raiseFundCash`, `Allocate` and `Redeem`).
use stockastic.Funds.Book.{at_key}
use stockastic.Prelude.Int64.{sub64, add64, mul64}
use stockastic.Funds.Reads.{holding}
use stockastic.Ledger.Valuation.{snapshot}
use stockastic.RateLimit.{Limiter, allow, refund, Answer, denied, panicked, allowed}
use stockastic.FundDesk.Limits.{investor_check, floor_units}
use stockastic.Prelude.Dict.{Dict, str_key}
use stockastic.Funds.Events.{Event, Fund, op_redeem}
use stockastic.Trading.{failed, State, Request, Result, execute, sell}
use stockastic.Prelude.{
  Option, inl, List, if◌then◌else◌, ℕ, Bool, some, none, not, inr, ◌∷◌, ◌++◌, suc, ◌||◌, ◌&&◌, [],
}
use stockastic.Prelude.Int.{ℤ, ltb_ℤ, pos, leb_ℤ}
use stockastic.Funds.Float.{Float}
use stockastic.Prelude.Str.{Str, codes}
use stockastic.Ledger.State.{Ledger, Position, Error}
use stockastic.FundDesk.Orders.{
  Asked, Order, refuse, if_in_window, carry_out, order_event, allocate,
}
use stockastic.FundDesk.{
  FundDesk, Around, OrderError, User, navs, nav_in, total_value, units_value, rate_limited,
  limit_panicked, sale_error, move_error, invalid_amount, nothing_to_redeem, fund_illiquid,
  below_mandatory,
}

-- The cash of an account, none for an unknown one.
abbrev pub cash_of : Ledger → Str → ℤ
cash_of l id = elim (snapshot l id) [ none ↦ pos 0 | some s ↦ s.cash ]

-- `held += px * money.Paise(p.Qty)`
unfoldable pub worth : (Str → Option ℤ) → ℤ → List Position → ℤ
worth price total [] = total
worth price total (p ∷ ps) =
    worth price (elim (price p.symbol) [ none ↦ total | some px ↦ add64 total (mul64 px p.qty) ]) ps

module _ {J W G : Type 0} ⦃f : Float W⦄ (a : Around J W G) where
  abbrev pub slice : Position → W → ℤ
  slice p frac =
      let qty = f.to_int (f.ceil (f.mul (f.of_int p.qty) frac)) in
      if ltb_ℤ p.qty qty then p.qty else qty

  abbrev pub sale : Str → Position → ℤ → Str → Request
  sale account p qty name = record {
    client_trade_id = codes "liq-" ++ name;
    account_id = account;
    symbol = p.symbol;
    side = sell;
    qty = qty;
    expected_price = pos 0;
    stage = a.stage;
  }

  -- The trade of the `n`-th sale.
  abbrev pub sell_slice : State J → Str → Position → ℤ → ℕ → State J × Result G
  sell_slice s account p qty n =
      let (name, trade_id, at) = a.fresh n in
      execute a.setup s (sale account p qty name) trade_id at

  -- After a sale: whether the loop ends, and with what.
  abbrev pub sold : Str → ℤ → State J × Result G → State J × Option (Option (OrderError G))
  sold account need (s, failed e) = (s, some (some (sale_error e)))
  sold account need (s, _) = (s, if leb_ℤ need (cash_of s.ledger account) then some none else none)

  abbrev pub slice_step :
      Str → ℤ → W → Position → ℕ → State J → State J × Option (Option (OrderError G))
  slice_step account need frac p n s =
      if leb_ℤ (slice p frac) (pos 0)
      then (s, none)
      else sold account need (sell_slice s account p (slice p frac) n)

  -- One position after the other, until there is enough cash or a sale fails.
  unfoldable pub sell_slices :
      Str → ℤ → W → List Position → ℕ → State J → State J × Option (OrderError G)
  sell_slices account need frac [] n s = (s, none)
  sell_slices account need frac (p ∷ ps) n s =
      let (s', stop) = slice_step account need frac p n s in
      let onward = sell_slices account need frac ps (suc n) s' in
      elim stop [ none ↦ onward | some e ↦ (s', e) ]

  unfoldable pub raise_fund_cash : State J → Str → ℤ → State J × Option (OrderError G)
  unfolding worth sell_slices
  raise_fund_cash s account need = elim (snapshot s.ledger account) [
    | none ↦ (s, some (move_error Error.unknown_account))
    | some snap ↦
        let held = worth a.setup.price (pos 0) snap.positions in
        let short = f.of_int (sub64 need snap.cash) in
        let frac =
          f.min f.one_float (f.add (f.mul (f.div short (f.of_int held)) f.spare) f.billionth) in
        if leb_ℤ need snap.cash
        then (s, none)
        else if leb_ℤ held (pos 0)
        then (s, some fund_illiquid)
        else sell_slices account need frac snap.positions 0 s
  ]

  abbrev pub take_out_of_fund :
      FundDesk J W → Event W → Str → Str → State J × Option (OrderError G) → Order a
  take_out_of_fund d ev account id (s, some e) = refuse a (record d { exec = s }) e
  take_out_of_fund d ev account id (s, none) =
      carry_out a (record d { exec = s }) ev account id move_error

  unfoldable pub units_out : W → W → Asked W → Option W
  units_out held nav req =
      if req.all
      then some held
      else if not (f.is_finite req.amount) || f.le req.amount f.zero_float
      then none
      else some (f.min held (floor_units (f.div req.amount nav)))

  -- Rounded down to the paisa.
  abbrev pub amount_out : W → W → ℤ
  amount_out units nav = f.to_int (f.floor (f.add (f.mul (f.mul units nav) f.hundred) f.billionth))

  -- The least share in funds would be missed.
  abbrev pub is_below_mandatory : FundDesk J W → User → Dict Str W → ℤ → Bool
  is_below_mandatory d u at_navs amount =
      let wallet = total_value d.exec.ledger a.setup.price d.book u.id at_navs in
      let in_funds = sub64 (units_value (at_key u.id d.book.holdings) at_navs) amount in
      ltb_ℤ (pos 0) wallet
      && f.lt (f.mul (f.of_int in_funds) f.hundred)
          (f.sub (f.mul (f.of_int wallet) a.rules.mandatory_allocation_percent) f.millionth)

  abbrev pub redeem_units : FundDesk J W → User → Fund W → ℤ → Dict Str W → Bool → W → Order a
  redeem_units d u fd window at_navs all units =
      let nav = nav_in at_navs fd.formed.id in
      let amount = amount_out units nav in
      if f.le units f.zero_float
      then refuse a d invalid_amount
      else if leb_ℤ amount (pos 0) || (not all && ltb_ℤ amount (pos 100))
      then refuse a d invalid_amount
      else if is_below_mandatory d u at_navs amount
      then refuse a d below_mandatory
      else take_out_of_fund d (order_event a op_redeem fd.formed.id u.id window amount units nav)
          fd.formed.account u.id (raise_fund_cash d.exec fd.formed.account amount)

  unfoldable pub take_from_fund : FundDesk J W → User → Fund W → ℤ → Asked W → Order a
  unfolding units_out carry_out raise_fund_cash
  take_from_fund d u fd window req =
      let at_navs = navs d.exec.ledger a.setup.price d.book.launch_nav d.book.funds in
      let held = (holding d.book u.id fd.formed.id).units in
      if f.le held f.zero_float
      then refuse a d nothing_to_redeem
      else elim (units_out held (nav_in at_navs fd.formed.id) req) [
        | none ↦ refuse a d invalid_amount
        | some units ↦ redeem_units d u fd window at_navs req.all units
      ]

  unfoldable pub redeem : FundDesk J W → User → Str → Asked W → Order a
  unfolding take_from_fund
  redeem d u fund_id req = elim (investor_check d.book u) [
    | some e ↦ refuse a d e
    | none ↦ if_in_window a d fund_id λ fd window. take_from_fund d u fd window req
  ]

  -- An attempt that is refused does not count.
  abbrev pub after_order : Str → Order a → Order a
  after_order key (d, inl e) = (record d { limiter = refund d.limiter key }, inl e)
  after_order key (d, inr r) = (d, inr r)

  abbrev pub if_order_allowed :
      FundDesk J W → Str → Limiter × Answer → (FundDesk J W → Order a) → Order a
  if_order_allowed d key (l, denied retry) act =
      refuse a (record d { limiter = l }) (rate_limited retry)
  if_order_allowed d key (l, panicked) act = refuse a (record d { limiter = l }) limit_panicked
  if_order_allowed d key (l, allowed) act = after_order key (act (record d { limiter = l }))

  -- `Allocate`
  unfoldable pub allocate_limited : FundDesk J W → User → Str → Asked W → Order a
  unfolding allocate
  allocate_limited d u fund_id req =
      if_order_allowed d u.id (allow d.limiter u.id a.now) λ d'. allocate a d' u fund_id req

  -- `Redeem`
  unfoldable pub redeem_limited : FundDesk J W → User → Str → Asked W → Order a
  unfolding redeem
  redeem_limited d u fund_id req =
      if_order_allowed d u.id (allow d.limiter u.id a.now) λ d'. redeem d' u fund_id req
