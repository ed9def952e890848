-- ===== src/Ledger/Moves.antt =====
-- Moves of cash and shares between two accounts (ledger.go, `Move`, `ReplayMove` and `MoveShares`).
-- Both accounts are locked for the whole of a move, so the order of locking does not show here.
pub mod Totals
pub mod Conservation
use stockastic.Prelude.{◌||◌, Option, none, some, if◌then◌else◌}
use stockastic.Prelude.Int.{ℤ, pos, ltb_ℤ, leb_ℤ, ◌+ℤ◌, ◌-ℤ◌}
use stockastic.Prelude.Int64.{add64, sub64}
use stockastic.Prelude.Str.{Str, str_eq}
use stockastic.Prelude.Dict.{str_key, lookup, insert}
use stockastic.Ledger.State.{
  Error, unknown_account, insufficient_cash, invalid, Position, Acct, Ledger, position,
}
use stockastic.Ledger.Trades.{run_commit, settle, put_in}

-- `src.cash -= amount; dst.cash += amount`, where `from` and `to` may be one account.
unfoldable pub shift_cash : Ledger → Str → Str → Acct → ℤ → Ledger
shift_cash l from to src amount =
    let l' = insert from (record src { cash = sub64 src.cash amount }) l in
    elim (lookup to l') [
      | none ↦ l'
      | some dst ↦ insert to (record dst { cash = add64 dst.cash amount }) l'
    ]

module _ {J : Type 0} where
  unfoldable pub move :
      Ledger → Str → Str → ℤ → Option (J → J × Option Error) → J → Ledger × J × Option Error
  unfolding shift_cash
  move l from to amount commit j =
      if leb_ℤ amount (pos 0) || str_eq from to
      then (l, j, some invalid)
      else elim (lookup from l) [
        | none ↦ (l, j, some unknown_account)
        | some src ↦ elim (lookup to l) [
          | none ↦ (l, j, some unknown_account)
          | some _ ↦
              if ltb_ℤ src.cash amount
              then (l, j, some insufficient_cash)
              else settle l (shift_cash l from to src amount) (run_commit commit j)
        ]
      ]

unfoldable pub replay_move : Ledger → Str → Str → ℤ → Ledger × Option Error
unfolding shift_cash
replay_move l from to amount = elim (lookup from l) [
  | none ↦ (l, some unknown_account)
  | some src ↦ elim (lookup to l) [
    | none ↦ (l, some unknown_account)
    | some _ ↦ (shift_cash l from to src amount, none)
  ]
]

-- The shares and their cost leave; a position that is used up is cleared.
unfoldable pub hand_over : Position → ℤ → ℤ → Position
hand_over p qty cost =
    let left = sub64 p.qty qty in
    if leb_ℤ left (pos 0)
    then record p { qty = pos 0; cost = pos 0 }
    else record p { qty = left; cost = sub64 p.cost cost }

unfoldable pub hand_over_from : Acct → Str → ℤ → ℤ → Acct
unfolding hand_over
hand_over_from a symbol qty cost = elim (lookup symbol a.positions) [
  | none ↦ a
  | some p ↦ record a { positions = insert symbol (hand_over p qty cost) a.positions }
]

unfoldable pub take_over : Acct → Str → ℤ → ℤ → Acct
unfolding position put_in
take_over a symbol qty cost = record a {
  positions = insert symbol (put_in (position a symbol) qty cost) a.positions;
}

unfoldable pub move_shares : Ledger → Str → Str → Str → ℤ → ℤ → Ledger × Option Error
unfolding hand_over_from take_over
move_shares l from to symbol qty cost =
    if leb_ℤ qty (pos 0) || str_eq from to then (l, some invalid) else elim (lookup from l) [
      | none ↦ (l, some unknown_account)
      | some src ↦ elim (lookup to l) [
        | none ↦ (l, some unknown_account)
        | some dst ↦
            let l' = insert from (hand_over_from src symbol qty cost) l in
            (insert to (take_over dst symbol qty cost) l', none)
      ]
    ]
