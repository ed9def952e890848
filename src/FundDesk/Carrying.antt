-- ===== src/FundDesk/Carrying.antt =====
-- What carrying out an order changes (apps/api/internal/app/funds.go, the calls of `Ledger.Move`).
use stockastic.Prelude.Dict.{found-cases, lookup, str_key}
use stockastic.Funds.Apply.{apply}
use stockastic.Funds.Book.{Outcome}
use stockastic.Ledger.State.{Error, Ledger, invalid, unknown_account, insufficient_cash}
use stockastic.Prelude.Int.{pos, ◌≤ℤ◌, leb_ℤ, ltb_ℤ, ℤ}
use stockastic.Prelude.Str.{Str, str_eq}
use stockastic.Funds.Events.{Event, Fund, unknown_fund}
use stockastic.Prelude.{◌≡◌, inl, inr, none, Option, some, if-cases, ◌||◌, refl, arith, false}
use stockastic.Funds.Float.{Float}
use stockastic.Funds.Reads.{fund}
use stockastic.FundDesk.{FundDesk, Around, OrderError, while_paused, window_closed, book_error}
use stockastic.FundDesk.Orders.{
  Order, carry_out, moved, booked, stored, with_ledger, refuse, if_in_window,
}
use stockastic.Ledger.Moves.{move, replay_move, shift_cash}
use stockastic.Ledger.Trades.{settle}

module _ {J W G : Type 0} ⦃f : Float W⦄ (a : Around J W G) where
  -- What holds of the desk when an order is refused, and when it is accepted.
  abbrev pub Told {κ} : (FundDesk J W → Type κ) → (FundDesk J W → Type κ) → Order a → Type κ
  Told Kept Done (d, inl e) = Kept d
  Told Kept Done (d, inr r) = Done d

  pub Told-map {κ} :
      (Kept Done Done' : FundDesk J W → Type κ) (o : Order a)
      → ((d : FundDesk J W) → Done d → Done' d)
      → Told Kept Done o
      → Told Kept Done' o
  Told-map Kept Done Done' (d, inl e) g h = h
  Told-map Kept Done Done' (d, inr r) g h = g d h

  pub if_in_window-cases {κ} :
      (P : Order a → Type κ) (d : FundDesk J W) (fund_id : Str) (act : Fund W → ℤ → Order a)
      → ((e : OrderError G) → P (refuse a d e))
      → ((fd : Fund W) (window : ℤ)
          → fund d.book fund_id ≡ some fd
          → a.window ≡ some window
          → a.paused ≡ false
          → P (act fd window))
      → P (if_in_window a d fund_id act)
  if_in_window-cases P d fund_id act refused done =
      if-cases P a.paused (refuse a d while_paused) _ (λ _. refused while_paused)
        (λ running.
          found-cases P a.window (refuse a d window_closed) _ (λ _. refused window_closed)
            (λ window window_is.
              found-cases P (fund d.book fund_id) (refuse a d (book_error unknown_fund)) _
                (λ _. refused (book_error unknown_fund))
                (λ fd found. done fd window found window_is running)))

  -- Nothing but the journal's own state may differ.
  abbrev pub Untouched : FundDesk J W → FundDesk J W → Type 0
  Untouched d d' =
      (d'.exec.ledger ≡ d.exec.ledger)
      × (d'.exec.seen ≡ d.exec.seen)
      × (d'.book ≡ d.book)
      × (d'.limiter ≡ d.limiter)

  -- The event is stored, the cash moved as a replay of the event moves it, and the book changed
  -- as the event says.
  abbrev pub Carried : FundDesk J W → Event W → Str → Str → FundDesk J W → Type 0
  Carried d ev from to d' =
      (pos 1 ≤ℤ ev.amount)
      × (replay_move d.exec.ledger from to ev.amount ≡ (d'.exec.ledger, none))
      × (a.append ev d.exec.journal ≡ (d'.exec.journal, none))
      × (apply d.book ev ≡ (d'.book, none))
      × (d'.exec.seen ≡ d.exec.seen)
      × (d'.limiter ≡ d.limiter)

  module _ (d : FundDesk J W) (ev : Event W) (from to : Str) (why : Error → OrderError G) where
    abbrev pub Carries : Order a → Type 0
    Carries = Told (Untouched d) (Carried d ev from to)

    booked-Carries :
        (l : Ledger) (j : J) (o : Outcome W)
        → pos 1 ≤ℤ ev.amount
        → replay_move d.exec.ledger from to ev.amount ≡ (l, none)
        → a.append ev d.exec.journal ≡ (j, none)
        → apply d.book ev ≡ o
        → o.1 ≡ none
        → Carries (booked a (with_ledger a d l j) ev o)
    booked-Carries l j (b, some _) positive replayed kept e known = cc
    booked-Carries l j (b, none) positive replayed kept e known =
        (positive, replayed, kept, e, refl, refl)

    moved-Carries :
        (l : Ledger)
        → pos 1 ≤ℤ ev.amount
        → replay_move d.exec.ledger from to ev.amount ≡ (l, none)
        → (apply d.book ev).1 ≡ none
        → (x : J × Option Str) → a.append ev d.exec.journal ≡ x
        → Carries (moved a d ev why (settle d.exec.ledger l (stored a x)))
    moved-Carries l positive replayed known (j, some text) h = (refl, refl, refl, refl)
    moved-Carries l positive replayed known (j, none) h =
        booked-Carries l j (apply d.book ev) positive replayed h refl known

    pub carry_out-Carries : (apply d.book ev).1 ≡ none → Carries (carry_out a d ev from to why)
    unfolding carry_out move replay_move
    carry_out-Carries known =
        if-cases (λ o. Carries (moved a d ev why o)) (leb_ℤ ev.amount (pos 0) || str_eq from to)
          (d.exec.ledger, d.exec.journal, some invalid) _ (λ _. (refl, refl, refl, refl))
          (λ positive.
            found-cases (λ o. Carries (moved a d ev why o)) (lookup from d.exec.ledger)
              (d.exec.ledger, d.exec.journal, some unknown_account) _
              (λ _. (refl, refl, refl, refl))
              (λ src has_src.
                found-cases (λ o. Carries (moved a d ev why o)) (lookup to d.exec.ledger)
                  (d.exec.ledger, d.exec.journal, some unknown_account) _
                  (λ _. (refl, refl, refl, refl))
                  (λ dst has_dst.
                    if-cases (λ o. Carries (moved a d ev why o)) (ltb_ℤ src.cash ev.amount)
                      (d.exec.ledger, d.exec.journal, some insufficient_cash) _
                      (λ _. (refl, refl, refl, refl))
                      (λ enough.
                        moved-Carries (shift_cash d.exec.ledger from to src ev.amount)
                          (ground arith) (ground arith) known (a.append ev d.exec.journal) refl))))
