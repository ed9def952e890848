-- ===== src/Ledger/Corrections/Solvency.antt =====
-- The organiser's corrections keep every account solvent (ledger.go, `Grant`, `Revoke`, `AdjustCash`).
use stockastic.Prelude.Int64.{Fits, add64, wrap-Fits, mul64}
use stockastic.Prelude.Dict.{lookup, Every-insert, str_key}
use stockastic.Ledger.Trades.Solvency.{
  AllSolvent, IsSolvent, IsHeld, take_out-IsHeld, put_in-IsHeld, position-IsHeld,
}
use stockastic.Prelude.Int.{ℤ, leb_ℤ, pos, ◌+ℤ◌, ltb_ℤ}
use stockastic.Prelude.Str.{Str}
use stockastic.Ledger.State.{Ledger, Acct, position}
use stockastic.Ledger.Corrections.{adjust_cash, revoke, grant}
use stockastic.Prelude.{false, Bool-cases, ◌≡◌, some, Option-cases, ◌||◌, inl, inr, arith}

-- A correction that is not forced leaves every account solvent, if the new figures fit an int64.
pub adjust_cash-AllSolvent :
    (l : Ledger) (id : Str) (delta : ℤ)
    → AllSolvent l
    → ((a : Acct) → lookup id l ≡ some a → Fits (a.cash +ℤ delta))
    → AllSolvent (adjust_cash l id delta false).0
unfolding adjust_cash
adjust_cash-AllSolvent l id delta h bounds = elim (Option-cases (lookup id l)) [
  | inl missing ↦ rw (missing, adjust_cash) h
  | inr (a, found) ↦
      rw (found, adjust_cash)
        (elim (Bool-cases (ltb_ℤ (add64 a.cash delta) (pos 0))) [
          | inl short ↦ rw short h
          | inr enough ↦ rw enough (
              Every-insert IsSolvent id _ l h (record {
                cash_amount = (ground arith, wrap-Fits _);
                shares_amount = (h id a found).shares_amount;
              }))
        ])
]

pub revoke-AllSolvent :
    (l : Ledger) (id symbol : Str) (qty : ℤ)
    → AllSolvent l
    → AllSolvent (revoke l id symbol qty false).0
unfolding revoke
revoke-AllSolvent l id symbol qty h = elim (Bool-cases (leb_ℤ qty (pos 0))) [
  | inl bad ↦ rw bad h
  | inr good ↦ rw good (elim (Option-cases (lookup id l)) [
    | inl missing ↦ rw missing h
    | inr (a, found) ↦ rw found (elim (Option-cases (lookup symbol a.positions)) [
      | inl missing ↦ rw missing h
      | inr (p, here) ↦ rw here (elim (Bool-cases (ltb_ℤ p.qty qty)) [
        | inl short ↦ rw short h
        | inr enough ↦ rw enough (
            Every-insert IsSolvent id _ l h (record {
              cash_amount = (h id a found).cash_amount;
              shares_amount =
                  Every-insert IsHeld symbol _ a.positions ((h id a found).shares_amount) (
                    take_out-IsHeld p qty ((h id a found).shares_amount symbol p here)
                      (ground arith) (ground arith));
            }))
      ])
    ])
  ])
]

pub grant-AllSolvent :
    (l : Ledger) (id symbol : Str) (qty price : ℤ)
    → AllSolvent l
    → ((a : Acct) → lookup id l ≡ some a → Fits ((position a symbol).qty +ℤ qty))
    → AllSolvent (grant l id symbol qty price).0
unfolding grant
grant-AllSolvent l id symbol qty price h bounds =
    elim (Bool-cases (leb_ℤ qty (pos 0) || ltb_ℤ price (pos 0))) [
      | inl bad ↦ rw bad h
      | inr good ↦ rw good (elim (Option-cases (lookup id l)) [
        | inl missing ↦ rw missing h
        | inr (a, found) ↦ rw found (
            Every-insert IsSolvent id _ l h (record {
              cash_amount = (h id a found).cash_amount;
              shares_amount =
                  Every-insert IsHeld symbol _ a.positions ((h id a found).shares_amount) (
                    put_in-IsHeld (position a symbol) qty (mul64 price qty)
                      (position-IsHeld a symbol (h id a found)) (ground arith) (bounds a found));
            }))
      ])
    ]
