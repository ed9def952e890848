-- ===== src/Ledger/Trades/Solvency.antt =====
-- No trade takes an account's cash or shares below zero (ledger.go, `Trade`).
use stockastic.Prelude.{Bool, true, false, Option, none, some, inl, inr, arith, Option-cases, ◌≡◌}
use stockastic.Prelude.Int.{ℤ, pos, ◌≤ℤ◌, ◌+ℤ◌, ◌*ℤ◌, *ℤ_nonneg}
use stockastic.Prelude.Int64.{Fits, Amount, wrap-eq_of_Fits, sub64-Amount, add64-Amount, mul64}
use stockastic.Prelude.Str.{Str}
use stockastic.Prelude.Dict.{str_key, lookup, Every, Every-insert}
use stockastic.Ledger.State.{Error, Position, Acct, Ledger, position}
use stockastic.Ledger.Trades.{put_in, take_out, apply_trade, refusal, trade}
use stockastic.Ledger.Trades.Effect.{Ends, trade-Ends}

abbrev pub IsHeld : Position → Type 0
IsHeld p = Amount p.qty

-- Cash and every holding are amounts: not negative, and within an int64.
pub record IsSolvent (a : Acct) : Type 0 where
  pub cash_amount : Amount a.cash
  pub shares_amount : Every IsHeld a.positions

abbrev pub AllSolvent : Ledger → Type 0
AllSolvent l = Every IsSolvent l

pub position-IsHeld : (a : Acct) (symbol : Str) → IsSolvent a → IsHeld (position a symbol)
unfolding position
position-IsHeld a symbol h = elim (Option-cases (lookup symbol a.positions)) [
  | inl missing ↦ rw (missing, position) (omega arith)
  | inr (p, found) ↦ rw (found, position) (h.shares_amount symbol p found)
]

pub put_in-IsHeld :
    (p : Position) (qty cost : ℤ)
    → IsHeld p
    → pos 0 ≤ℤ qty
    → Fits (p.qty +ℤ qty)
    → IsHeld (put_in p qty cost)
unfolding put_in
put_in-IsHeld p qty cost h k fits = add64-Amount p.qty qty h k fits

pub take_out-IsHeld :
    (p : Position) (qty : ℤ) → IsHeld p → pos 1 ≤ℤ qty → qty ≤ℤ p.qty → IsHeld (take_out p qty)
unfolding take_out
take_out-IsHeld p qty h k enough = ground (arith, sub64-Amount p.qty qty h (omega arith) enough)

-- The numbers of one trade stay within an int64.
abbrev pub NoOverflow : Str → Bool → ℤ → ℤ → Acct → Type 0
NoOverflow symbol true qty price a = Fits (price *ℤ qty) × Fits ((position a symbol).qty +ℤ qty)
NoOverflow symbol false qty price a = Fits (price *ℤ qty) × Fits (a.cash +ℤ price *ℤ qty)

affordable :
    (a : Acct) (symbol : Str) (qty price : ℤ)
    → refusal a symbol true qty price ≡ none
    → mul64 price qty ≤ℤ a.cash
unfolding refusal
affordable a symbol qty price fine = ground arith

covered :
    (a : Acct) (symbol : Str) (qty price : ℤ)
    → refusal a symbol false qty price ≡ none
    → qty ≤ℤ (position a symbol).qty
unfolding refusal position
covered a symbol qty price fine = ground arith

module _ (a : Acct) (symbol : Str) (qty price : ℤ) (h : IsSolvent a) (q : pos 1 ≤ℤ qty)
    (p : pos 1 ≤ℤ price) where
  notional_nonneg : Fits (price *ℤ qty) → pos 0 ≤ℤ price *ℤ qty
  notional_nonneg fits = rw (*ℤ_nonneg price qty (omega arith) (omega arith)) (omega arith)

  buy-IsSolvent :
      refusal a symbol true qty price ≡ none
      → NoOverflow symbol true qty price a
      → IsSolvent (apply_trade a symbol true qty price)
  unfolding refusal apply_trade
  buy-IsSolvent fine (fits, fits') = record {
    cash_amount = rw (wrap-eq_of_Fits (price *ℤ qty) fits) (
        sub64-Amount a.cash (price *ℤ qty) h.cash_amount (notional_nonneg fits)
          (rw (wrap-eq_of_Fits (price *ℤ qty) fits) at (affordable a symbol qty price fine)));
    shares_amount = Every-insert IsHeld symbol _ a.positions h.shares_amount (
        put_in-IsHeld (position a symbol) qty (mul64 price qty) (position-IsHeld a symbol h)
          (omega arith) fits');
  }

  sell-IsSolvent :
      refusal a symbol false qty price ≡ none
      → NoOverflow symbol false qty price a
      → IsSolvent (apply_trade a symbol false qty price)
  unfolding refusal apply_trade
  sell-IsSolvent fine (fits, fits') = record {
    cash_amount =
        rw (wrap-eq_of_Fits (price *ℤ qty) fits)
          (add64-Amount a.cash (price *ℤ qty) h.cash_amount (notional_nonneg fits) fits');
    shares_amount = Every-insert IsHeld symbol _ a.positions h.shares_amount (
        take_out-IsHeld (position a symbol) qty (position-IsHeld a symbol h) q
          (covered a symbol qty price fine));
  }

apply_trade-IsSolvent :
    (a : Acct) (symbol : Str) (buy : Bool) (qty price : ℤ)
    → IsSolvent a
    → pos 1 ≤ℤ qty
    → pos 1 ≤ℤ price
    → refusal a symbol buy qty price ≡ none
    → NoOverflow symbol buy qty price a
    → IsSolvent (apply_trade a symbol buy qty price)
apply_trade-IsSolvent a symbol true qty price h q p = buy-IsSolvent a symbol qty price h q p
apply_trade-IsSolvent a symbol false qty price h q p = sell-IsSolvent a symbol qty price h q p

module _ {J : Type 0} (l : Ledger) (id symbol : Str) (buy : Bool) (qty price : ℤ)
    (commit : Option (J → J × Option Error)) (j : J) where
  Ends-AllSolvent :
      (r : Ledger × J × Option Error)
      → Ends l id symbol buy qty price commit j r
      → AllSolvent l
      → ((a : Acct) → lookup id l ≡ some a → NoOverflow symbol buy qty price a)
      → AllSolvent r.0
  Ends-AllSolvent _ (Ends.refused e) h bounds = h
  Ends-AllSolvent _ (Ends.commit_failed a j' e found ran) h bounds = h
  Ends-AllSolvent _ (Ends.done a j' found fine ran q p) h bounds =
      Every-insert IsSolvent id _ l h
        (apply_trade-IsSolvent a symbol buy qty price (h id a found) q p fine (bounds a found))

  -- Whatever a trade asks for and however its commit ends, every account keeps cash and holdings that
  -- are not negative, provided that they were so before and that the trade's numbers fit an int64.
  pub trade-AllSolvent :
      AllSolvent l
      → ((a : Acct) → lookup id l ≡ some a → NoOverflow symbol buy qty price a)
      → AllSolvent (trade l id symbol buy qty price commit j).0
  trade-AllSolvent h bounds =
      Ends-AllSolvent _ (trade-Ends l id symbol buy qty price commit j) h bounds
