-- ===== src/Ledger/Trades.antt =====
-- Trades (ledger.go, `Trade`, `ReplayTrade` and `applyTrade`). The commit function that makes a trade
-- durable acts on a state of its own, of any type.
pub mod Effect
pub mod Solvency
use stockastic.Prelude.{Bool, ◌||◌, Option, none, some, if◌then◌else◌}
use stockastic.Prelude.Int.{ℤ, pos, ltb_ℤ, leb_ℤ, min_ℤ, quot, ◌+ℤ◌, ◌-ℤ◌, ◌*ℤ◌}
use stockastic.Prelude.Int64.{add64, sub64, mul64}
use stockastic.Prelude.Str.{Str, is_empty}
use stockastic.Prelude.Dict.{str_key, lookup, insert}
use stockastic.Ledger.State.{
  Error, unknown_account, insufficient_cash, insufficient_shares, invalid, Position, Acct, Ledger,
  position,
}

unfoldable pub put_in : Position → ℤ → ℤ → Position
put_in p qty cost = record p { qty = add64 p.qty qty; cost = add64 p.cost cost }

-- Shares leave at average cost.
unfoldable pub take_out : Position → ℤ → Position
take_out p qty =
    let cost =
      if ltb_ℤ (pos 0) p.qty
      then sub64 p.cost (quot (mul64 p.cost (min_ℤ qty p.qty)) p.qty)
      else p.cost in
    let left = sub64 p.qty qty in
    if leb_ℤ left (pos 0)
    then record p { qty = pos 0; cost = pos 0 }
    else record p { qty = left; cost = cost }

unfoldable pub apply_trade : Acct → Str → Bool → ℤ → ℤ → Acct
unfolding position put_in take_out
apply_trade a symbol buy qty price =
    let notional = mul64 price qty in
    let p = position a symbol in
    if buy
    then record a {
      cash = sub64 a.cash notional;
      positions = insert symbol (put_in p qty notional) a.positions;
    }
    else record a {
      cash = add64 a.cash notional;
      positions = insert symbol (take_out p qty) a.positions;
    }

-- Why the account cannot make the trade, if it cannot.
unfoldable pub refusal : Acct → Str → Bool → ℤ → ℤ → Option Error
refusal a symbol buy qty price =
    if buy
    then if ltb_ℤ a.cash (mul64 price qty) then some insufficient_cash else none
    else elim (lookup symbol a.positions) [
      | none ↦ some insufficient_shares
      | some p ↦ if ltb_ℤ p.qty qty then some insufficient_shares else none
    ]

module _ {J : Type 0} where
  -- A nil commit function commits nothing and does not fail.
  abbrev pub run_commit : Option (J → J × Option Error) → J → J × Option Error
  run_commit none j = (j, none)
  run_commit (some commit) j = commit j

  abbrev pub settle : Ledger → Ledger → J × Option Error → Ledger × J × Option Error
  settle l l' (j, none) = (l', j, none)
  settle l l' (j, some e) = (l, j, some e)

  unfoldable pub trade :
      Ledger
      → Str
      → Str
      → Bool
      → ℤ
      → ℤ
      → Option (J → J × Option Error)
      → J
      → Ledger × J × Option Error
  unfolding refusal apply_trade
  trade l id symbol buy qty price commit j =
      if leb_ℤ qty (pos 0) || (leb_ℤ price (pos 0) || is_empty symbol)
      then (l, j, some invalid)
      else elim (lookup id l) [
        | none ↦ (l, j, some unknown_account)
        | some a ↦ elim (refusal a symbol buy qty price) [
          | some e ↦ (l, j, some e)
          | none ↦ settle l (insert id (apply_trade a symbol buy qty price) l) (run_commit commit j)
        ]
      ]

unfoldable pub replay_trade : Ledger → Str → Str → Bool → ℤ → ℤ → Ledger × Option Error
unfolding apply_trade
replay_trade l id symbol buy qty price = elim (lookup id l) [
  | none ↦ (l, some unknown_account)
  | some a ↦ (insert id (apply_trade a symbol buy qty price) l, none)
]
