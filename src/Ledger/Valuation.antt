-- ===== src/Ledger/Valuation.antt =====
-- What an account is worth, and the totals used for reconciliation (ledger.go, `Snapshot`, `Value`,
-- `DirectValue`, `Accounts` and `Total`).
use stockastic.Prelude.{Bool, Option, none, some, List, [], ◌∷◌, map, if◌then◌else◌}
use stockastic.Prelude.Int.{ℤ, pos, ltb_ℤ}
use stockastic.Prelude.Int64.{add64, mul64}
use stockastic.Prelude.Sort.{sort_by}
use stockastic.Prelude.Str.{Str, str_lt}
use stockastic.Prelude.Dict.{Dict, str_key, lookup, insert}
use stockastic.Ledger.State.{Account, Position, Ledger}

pub record Snapshot : Type 0 where
  pub account : Account
  pub cash : ℤ
  pub positions : List Position

unfoldable pub held : Dict Str Position → List Position
held [] = []
held ((_, p) ∷ ps) = if ltb_ℤ (pos 0) p.qty then p ∷ held ps else held ps

abbrev by_symbol : Position → Position → Bool
by_symbol p q = str_lt p.symbol q.symbol

-- `none` where the account is unknown.
unfoldable pub snapshot : Ledger → Str → Option Snapshot
unfolding held
snapshot l id = elim (lookup id l) [
  | none ↦ none
  | some a ↦ some (record {
    account = a.account;
    cash = a.cash;
    positions = sort_by by_symbol (held a.positions);
  })
]

unfoldable pub value_from : (Str → Option ℤ) → ℤ → List Position → ℤ
value_from price total [] = total
value_from price total (p ∷ ps) =
    value_from price
      (elim (price p.symbol) [ some px ↦ add64 total (mul64 px p.qty) | none ↦ add64 total p.cost ])
      ps

unfoldable pub value : Snapshot → (Str → Option ℤ) → ℤ
unfolding value_from
value s price = value_from price s.cash s.positions

unfoldable pub direct_value : Ledger → Str → (Str → Option ℤ) → Option ℤ
unfolding snapshot value
direct_value l id price = elim (snapshot l id) [ none ↦ none | some s ↦ some (value s price) ]

unfoldable pub accounts : Ledger → List Str
accounts l = sort_by str_lt (map (λ e. e.0) l)

abbrev pub shares_of : Dict Str ℤ → Str → ℤ
shares_of m symbol = elim (lookup symbol m) [ none ↦ pos 0 | some n ↦ n ]

-- `shares[s] += p.Qty` for every position of one account.
unfoldable pub add_shares : Dict Str Position → Dict Str ℤ → Dict Str ℤ
add_shares [] m = m
add_shares ((s, p) ∷ ps) m = add_shares ps (insert s (add64 (shares_of m s) p.qty) m)

unfoldable pub total_from : Ledger → ℤ → Dict Str ℤ → ℤ × Dict Str ℤ
unfolding add_shares
total_from [] cash shares = (cash, shares)
total_from ((_, a) ∷ l) cash shares =
    total_from l (add64 cash a.cash) (add_shares a.positions shares)

unfoldable pub total : Ledger → ℤ × Dict Str ℤ
unfolding total_from
total l = total_from l (pos 0) []
