-- ===== src/Ledger/Corrections.antt =====
-- The organiser's corrections (ledger.go, `Grant`, `Revoke` and `AdjustCash`).
pub mod Solvency
use stockastic.Prelude.{Bool, ◌||◌, ◌&&◌, not, Option, none, some, if◌then◌else◌}
use stockastic.Prelude.Int.{ℤ, pos, ltb_ℤ, leb_ℤ, ◌+ℤ◌}
use stockastic.Prelude.Int64.{add64, mul64}
use stockastic.Prelude.Str.{Str}
use stockastic.Prelude.Dict.{str_key, lookup, insert}
use stockastic.Ledger.State.{
  Error, unknown_account, insufficient_cash, insufficient_shares, invalid, Acct, Ledger, position,
}
use stockastic.Ledger.Trades.{put_in, take_out}

unfoldable pub grant : Ledger → Str → Str → ℤ → ℤ → Ledger × Option Error
unfolding position put_in
grant l id symbol qty price =
    if leb_ℤ qty (pos 0) || ltb_ℤ price (pos 0) then (l, some invalid) else elim (lookup id l) [
      | none ↦ (l, some unknown_account)
      | some a ↦
          let p = put_in (position a symbol) qty (mul64 price qty) in
          (insert id (record a { positions = insert symbol p a.positions }) l, none)
    ]

unfoldable pub revoke : Ledger → Str → Str → ℤ → Bool → Ledger × Option Error
unfolding take_out
revoke l id symbol qty force = if leb_ℤ qty (pos 0) then (l, some invalid) else elim (lookup id l) [
  | none ↦ (l, some unknown_account)
  | some a ↦ elim (lookup symbol a.positions) [
    | none ↦ (l, some insufficient_shares)
    | some p ↦ if not force && ltb_ℤ p.qty qty then (l, some insufficient_shares) else (
      insert id (record a { positions = insert symbol (take_out p qty) a.positions }) l,
      none,
    )
  ]
]

unfoldable pub adjust_cash : Ledger → Str → ℤ → Bool → Ledger × Option Error
adjust_cash l id delta force = elim (lookup id l) [
  | none ↦ (l, some unknown_account)
  | some a ↦
      if not force && ltb_ℤ (add64 a.cash delta) (pos 0)
      then (l, some insufficient_cash)
      else (insert id (record a { cash = add64 a.cash delta }) l, none)
]
