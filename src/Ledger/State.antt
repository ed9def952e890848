-- ===== src/Ledger/State.antt =====
-- The ledger's state (apps/api/internal/ledger/ledger.go): accounts by id, each with its cash and its
-- positions by company. Every operation runs under the locks of the accounts that it changes, so it
-- is one step. A change through a `*acct` is a write of the account under its id.
use stockastic.Prelude.{Option, none, some, [], if◌then◌else◌}
use stockastic.Prelude.Int.{ℤ, pos, ltb_ℤ}
use stockastic.Prelude.Str.{Str, is_empty}
use stockastic.Prelude.Dict.{Dict, str_key, lookup, insert, erase}

pub data Kind : Type 0 where
  team fund : Kind

pub record Account : Type 0 where
  pub id : Str
  pub name : Str
  pub kind : Kind

-- `other` is an error of the caller's commit function, by its text.
pub data Error : Type 0 where
  empty_id unknown_account account_exists insufficient_cash insufficient_shares invalid : Error
  other : Str → Error

pub record Position : Type 0 where
  pub symbol : Str
  pub qty : ℤ  -- int64
  pub cost : ℤ  -- Paise

pub record Acct : Type 0 where
  pub account : Account
  pub cash : ℤ  -- Paise
  pub positions : Dict Str Position

abbrev pub Ledger : Type 0
Ledger = Dict Str Acct

abbrev pub new : Ledger
new = []

-- The account and its error, or the account opened.
unfoldable pub open_account : Ledger → Account → ℤ → Ledger × Option Error
open_account l a cash =
    if is_empty a.id
    then (l, some empty_id)
    else if ltb_ℤ cash (pos 0)
    then (l, some invalid)
    else elim (lookup a.id l) [
      | some _ ↦ (l, some account_exists)
      | none ↦ (insert a.id (record { account = a; cash = cash; positions = [] }) l, none)
    ]

-- `a.pos[symbol]`, or the new position that is put in its place.
unfoldable pub position : Acct → Str → Position
position a symbol = elim (lookup symbol a.positions) [
  | none ↦ record { symbol = symbol; qty = pos 0; cost = pos 0 }
  | some p ↦ p
]

unfoldable pub reset : Ledger → Ledger
reset l = []

unfoldable pub remove : Ledger → Str → Ledger
remove l id = erase id l
