-- ===== src/FundDesk/Orders.antt =====
-- Money into and out of a fund (apps/api/internal/app/funds.go, `Allocate` and `Redeem`).
use stockastic.Prelude.Int64.{add64}
use stockastic.Funds.Book.{Outcome}
use stockastic.Prelude.Int.{ℤ, pos, ltb_ℤ}
use stockastic.Funds.Events.{Event, Op, op_other, Fund, op_alloc, unknown_fund}
use stockastic.Prelude.Str.{Str}
use stockastic.Funds.Float.{Float, rupees, from_rupees}
use stockastic.Prelude.Dict.{Dict, lookup, str_key}
use stockastic.Prelude.{Bool, ◌⊎◌, inl, Option, some, [], none, if◌then◌else◌, inr, not, ◌||◌}
use stockastic.FundDesk.{
  FundDesk, Around, OrderError, Receipt, User, navs, nav_in, total_value, book_error, move_error,
  short_of_cash, invalid_amount, fund_unavailable, window_closed, below_minimum,
  exceeds_single_fund_cap, divided_by_zero, fund_at_cap, no_ledger_account, while_paused,
}
use stockastic.FundDesk.Limits.{investor_check, floor_units, percent_of, min_investment, cap_rooms}
use stockastic.Funds.Reads.{fund, holding}
use stockastic.Funds.Apply.{apply}
use stockastic.Ledger.Moves.{move}
use stockastic.Ledger.Valuation.{snapshot}
use stockastic.Ledger.State.{Error, Ledger}

pub record Asked (W : Type 0) : Type 0 where
  pub amount : W
  pub all : Bool

-- `bad("insufficient_cash")` for the ledger's own word for it.
abbrev pub moved_error : {G : Type 0} → Error → OrderError G
moved_error Error.insufficient_cash = short_of_cash
moved_error e = move_error e

abbrev pub room_or_none : Option ℤ → ℤ
room_or_none none = pos 0
room_or_none (some r) = r

abbrev pub room_in : Dict Str ℤ → Str → ℤ
room_in d id = room_or_none (lookup id d)

module _ {J W G : Type 0} ⦃f : Float W⦄ (a : Around J W G) where
  abbrev pub stored : J × Option Str → J × Option Error
  stored (j, none) = (j, none)
  stored (j, some e) = (j, some (Error.other e))

  -- The commit function that an order hands to the ledger: the event is stored.
  abbrev pub store_event : Event W → J → J × Option Error
  store_event ev j = stored (a.append ev j)

  abbrev pub no_event : Event W
  no_event = record {
    op = op_other;
    at = a.at;
    funds = [];
    ranking = [];
    seed = pos 0;
    fund_id = [];
    profile = none;
    window = pos 0;
    investor = [];
    amount = pos 0;
    units = f.zero_float;
    nav = f.zero_float;
    values = [];
    navs = [];
    aums = [];
    div = [];
    checkpoint = none;
    moves = [];
    seeds = [];
    log = none;
    scores = [];
  }

  abbrev pub order_event : Op → Str → Str → ℤ → ℤ → W → W → Event W
  order_event op fund_id investor window amount units nav = record no_event {
    op = op;
    fund_id = fund_id;
    investor = investor;
    window = window;
    amount = amount;
    units = units;
    nav = nav;
  }

  abbrev pub Order : Type 0
  Order = FundDesk J W × (OrderError G ⊎ Receipt W)

  abbrev pub refuse : FundDesk J W → OrderError G → Order
  refuse d e = (d, inl e)

  abbrev pub receipt : Event W → Receipt W
  receipt ev = record {
    fund_id = ev.fund_id;
    units = ev.units;
    nav = ev.nav;
    amount = rupees ev.amount;
  }

  abbrev pub booked : FundDesk J W → Event W → Outcome W → Order
  booked d ev (b, some e) = refuse (record d { book = b }) (book_error e)
  booked d ev (b, none) = (record d { book = b }, inr (receipt ev))

  abbrev pub with_ledger : FundDesk J W → Ledger → J → FundDesk J W
  with_ledger d l j = record d { exec = let x = d.exec in record x { ledger = l; journal = j } }

  abbrev pub moved :
      FundDesk J W → Event W → (Error → OrderError G) → Ledger × J × Option Error → Order
  moved d ev why (l, j, some e) = refuse (with_ledger d l j) (why e)
  moved d ev why (l, j, none) = booked (with_ledger d l j) ev (apply d.book ev)

  -- The cash moves and the event is stored, in one step of the ledger; then the book changes.
  unfoldable pub carry_out : FundDesk J W → Event W → Str → Str → (Error → OrderError G) → Order
  carry_out d ev from to why =
      moved d ev why (move d.exec.ledger from to ev.amount (some (store_event ev)) d.exec.journal)

  -- Why an amount may not go into the fund, at these values and with this cash.
  unfoldable pub too_much :
      FundDesk J W → User → Fund W → ℤ → Dict Str W → ℤ → ℤ → Option (OrderError G)
  too_much d u fd window navs amount cash =
      let wallet = total_value d.exec.ledger a.setup.price d.book u.id navs in
      let held =
        from_rupees (f.mul (holding d.book u.id fd.formed.id).units (nav_in navs fd.formed.id)) in
      let limit = percent_of wallet a.rules.max_single_fund_wallet_percent in
      if ltb_ℤ cash amount
      then some short_of_cash
      else if ltb_ℤ amount (min_investment wallet a.rules)
      then some below_minimum
      else if ltb_ℤ limit (add64 held amount)
      then some exceeds_single_fund_cap
      else elim (cap_rooms d.exec.ledger a.setup.price d.book a.rules a.users window navs) [
        | none ↦ some divided_by_zero
        | some rooms ↦ if ltb_ℤ (room_in rooms fd.formed.id) amount then some fund_at_cap else none
      ]

  abbrev pub buy_units : FundDesk J W → User → Fund W → ℤ → Dict Str W → ℤ → Order
  buy_units d u fd window navs amount =
      let nav = nav_in navs fd.formed.id in
      let units = floor_units (f.div (rupees amount) nav) in
      if f.le units f.zero_float
      then refuse d invalid_amount
      else carry_out d (order_event op_alloc fd.formed.id u.id window amount units nav) u.id
          fd.formed.account moved_error

  -- Into a fund that was found, in an open window.
  unfoldable pub put_in_fund : FundDesk J W → User → Fund W → ℤ → W → Order
  unfolding too_much carry_out
  put_in_fund d u fd window rs =
      let at_navs = navs d.exec.ledger a.setup.price d.book.launch_nav d.book.funds in
      let amount = from_rupees rs in
      if fd.disqualified then refuse d fund_unavailable else elim (snapshot d.exec.ledger u.id) [
        | none ↦ refuse d no_ledger_account
        | some s ↦ elim (too_much d u fd window at_navs amount s.cash) [
          | some e ↦ refuse d e
          | none ↦ buy_units d u fd window at_navs amount
        ]
      ]

  -- `maxAdjustRupees`, of apps/api/internal/app/team.go
  abbrev max_adjust_rupees : W
  max_adjust_rupees = f.of_int (pos 100000000)

  abbrev pub is_no_amount : W → Bool
  is_no_amount rs = not (f.is_finite rs) || (f.le rs f.zero_float || f.lt max_adjust_rupees rs)

  abbrev pub if_in_window : FundDesk J W → Str → (Fund W → ℤ → Order) → Order
  if_in_window d fund_id act = if a.paused then refuse d while_paused else elim a.window [
    | none ↦ refuse d window_closed
    | some w ↦ elim (fund d.book fund_id) [
      | none ↦ refuse d (book_error unknown_fund)
      | some fd ↦ act fd w
    ]
  ]

  unfoldable pub allocate : FundDesk J W → User → Str → Asked W → Order
  unfolding put_in_fund
  allocate d u fund_id req = elim (investor_check d.book u) [
    | some e ↦ refuse d e
    | none ↦
        if is_no_amount req.amount
        then refuse d invalid_amount
        else if_in_window d fund_id λ fd window. put_in_fund d u fd window req.amount
  ]
