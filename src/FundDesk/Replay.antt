-- ===== src/FundDesk/Replay.antt =====
-- Applying an event that is already stored, live or when the log is replayed
-- (apps/api/internal/app/funds.go, `applyFundEvent` and `applyMoves`).
use stockastic.FundDesk.Orders.{order_event}
use stockastic.FundDesk.Allocating.{Allocated, navs_at, fund_again}
use stockastic.Funds.Indexed.{IsIndexed}
use stockastic.Funds.Apply.{apply}
use stockastic.Funds.Book.{Book, Outcome}
use stockastic.Prelude.Int.{ℤ, ltb_ℤ, pos}
use stockastic.Funds.Float.{Float, from_rupees}
use stockastic.Prelude.Str.{Str, codes}
use stockastic.Prelude.{
  Option, List, some, if◌then◌else◌, none, ◌++◌, ◌⊎◌, Bool, ◌∷◌, inr, true, [], false, inl, ◌≡◌, ap,
  ◌∙◌,
}
use stockastic.Funds.Events.{
  FundError, Move, Formed, MovedShares, Fund, Op, Event, unknown_fund, op_dissolve, op_formed,
  op_alloc, op_redeem,
}
use stockastic.Ledger.State.{fund, Ledger, Error, Account, open_account, remove}
use stockastic.Ledger.Moves.{replay_move, move_shares}
use stockastic.Funds.Reads
use stockastic.FundDesk.{FundRules, Around, FundDesk, User, nav_in}

pub data EventError : Type 0 where
  in_book : FundError → EventError
  in_ledger : Error → EventError

abbrev pub Moved : Type 0
Moved = Ledger × Option Error

abbrev pub and_then : Moved → (Ledger → Moved) → Moved
and_then (l, some e) next = (l, some e)
and_then (l, none) next = next l

unfoldable pub move_all_shares : Ledger → Str → Str → List MovedShares → Moved
move_all_shares l from to [] = (l, none)
move_all_shares l from to (s ∷ ss) =
    and_then (move_shares l from to s.symbol s.qty s.cost) λ l'. move_all_shares l' from to ss

abbrev pub move_cash : Ledger → Move → Moved
move_cash l m = if ltb_ℤ (pos 0) m.cash then replay_move l m.from m.to m.cash else (l, none)

unfoldable pub apply_moves : Ledger → List Move → Moved
unfolding move_all_shares
apply_moves l [] = (l, none)
apply_moves l (m ∷ ms) =
    and_then (and_then (move_cash l m) λ l'. move_all_shares l' m.from m.to m.shares)
      λ l'. apply_moves l' ms

abbrev fund_account : Formed → Account
fund_account g = record { id = g.account; name = codes "Fund " ++ g.id; kind = fund }

abbrev ignore_existing : Moved → Moved
ignore_existing (l, some Error.account_exists) = (l, none)
ignore_existing m = m

unfoldable pub open_accounts : Ledger → List Formed → ℤ → Moved
open_accounts l [] capital = (l, none)
open_accounts l (g ∷ gs) capital =
    and_then (ignore_existing (open_account l (fund_account g) capital))
      λ l'. open_accounts l' gs capital

unfoldable pub remove_accounts : {W : Type 0} → Ledger → List (Fund W) → Ledger
remove_accounts l [] = l
remove_accounts l (fd ∷ fs) = remove_accounts (remove l fd.formed.account) fs

module _ {W : Type 0} ⦃f : Float W⦄ (rules : FundRules W) where
  abbrev pub Applied : Type 0
  Applied = Ledger × Book W × Option EventError

  abbrev pub if_found : Option (Fund W) → (Fund W → Moved) → Moved ⊎ EventError
  if_found none act = inr (in_book unknown_fund)
  if_found (some fd) act = inl (act fd)

  -- What a replay does first: the cash moves that the live operation had moved.
  abbrev pub replayed_cash : Ledger → Book W → Event W → Op → Moved ⊎ EventError
  replayed_cash l b ev op_alloc =
      if_found (Reads.fund b ev.fund_id) λ fd. replay_move l ev.investor fd.formed.account ev.amount
  replayed_cash l b ev op_redeem =
      if_found (Reads.fund b ev.fund_id) λ fd. replay_move l fd.formed.account ev.investor ev.amount
  replayed_cash l b ev _ = inl (l, none)

  abbrev is_op_dissolve : Op → Bool
  is_op_dissolve op_dissolve = true
  is_op_dissolve _ = false

  abbrev is_op_formed : Op → Bool
  is_op_formed op_formed = true
  is_op_formed _ = false

  abbrev in_ledger_or_not : Book W → Moved → Applied
  in_ledger_or_not b (l, none) = (l, b, none)
  in_ledger_or_not b (l, some e) = (l, b, some (in_ledger e))

  -- What follows the change of the book: `gone` are the funds of a dissolved book.
  unfoldable pub settle_accounts : Ledger → Event W → List (Fund W) → Outcome W → Applied
  unfolding remove_accounts open_accounts apply_moves
  settle_accounts l ev gone (b, some e) = (l, b, some (in_book e))
  settle_accounts l ev gone (b, none) =
      let l' = remove_accounts l gone in
      if is_op_formed ev.op
      then in_ledger_or_not b (
          and_then (open_accounts l' ev.funds (from_rupees rules.seed_capital))
            λ x. apply_moves x ev.moves)
      else (l', b, none)

  -- The portfolios go back before the accounts are removed.
  abbrev dissolved : Book W → Event W → Moved → Applied
  dissolved b ev (l, some e) = (l, b, some (in_ledger e))
  dissolved b ev (l, none) = settle_accounts l ev b.funds (apply b ev)

  abbrev pub apply_with : Book W → Event W → Moved ⊎ EventError → Ledger → Applied
  apply_with b ev (inr e) l = (l, b, some e)
  apply_with b ev (inl (l, some e)) _ = (l, b, some (in_ledger e))
  apply_with b ev (inl (l, none)) _ =
      if is_op_dissolve ev.op
      then dissolved b ev (apply_moves l ev.moves)
      else settle_accounts l ev [] (apply b ev)

  unfoldable pub apply_fund_event : Ledger → Book W → Event W → Bool → Applied
  unfolding settle_accounts
  apply_fund_event l b ev replay =
      apply_with b ev (if replay then replayed_cash l b ev ev.op else inl (l, none)) l

module _ {J W G : Type 0} ⦃f : Float W⦄ (a : Around J W G) where
  -- The event that was stored takes the ledger and the book to where the order took them.
  abbrev pub IsReplayable : FundDesk J W → FundDesk J W → Type 0
  IsReplayable d d' =
      (ev : Event W) × (a.append ev d.exec.journal ≡ (d'.exec.journal, none))
      × (apply_fund_event a.rules d.exec.ledger d.book ev true ≡ (d'.exec.ledger, d'.book, none))

  pub Allocated-IsReplayable :
      (d d' : FundDesk J W) (u : User) (fund_id : Str)
      → IsIndexed d.book
      → Allocated a d u fund_id d'
      → IsReplayable d d'
  unfolding apply_fund_event settle_accounts remove_accounts
  Allocated-IsReplayable d d' u fund_id indexed
        (fd, window, amount, cash, units, found, _, _, _, _, (_, moved, kept, booked, _, _)) =
      let ev =
        order_event a op_alloc fd.formed.id u.id window amount units
          (nav_in (navs_at a d) fd.formed.id) in
      (
        ev,
        kept,
        ap
              (λ o.
                apply_with a.rules d.book ev
                  (if_found a.rules o λ x. replay_move d.exec.ledger u.id x.formed.account amount)
                  d.exec.ledger)
              (fund_again d.book fund_id fd indexed found)
            ∙ ap (λ m. apply_with a.rules d.book ev (inl m) d.exec.ledger) moved
            ∙ ap (settle_accounts a.rules d'.exec.ledger ev []) booked,
      )
