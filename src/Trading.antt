-- ===== src/Trading.antt =====
-- The trade executor (apps/api/internal/trading/trading.go). One account's trades run one at a time,
-- and `seen` and the ledger have locks of their own, so a call of `Execute` is one step. The id of a
-- trade and the time are arguments, as are the price source, the guard and the journal.
pub mod Outcomes
pub mod Idempotence
pub mod Recovery
pub mod Once
pub mod FileJournal
use stockastic.Prelude.Dict.{Dict, insert, lookup, str_key}
use stockastic.Prelude.Int.{ℤ, eqb_ℤ, leb_ℤ, pos}
use stockastic.Prelude.Str.{Str, str_eq, is_empty, codes}
use stockastic.Prelude.{
  ℕ, inl, inr, Bool, ◌⊎◌, Option, ◌==◌, [], ◌++◌, some, if◌then◌else◌, ◌∷◌, ◌&&◌, ◌||◌, none, false,
  not, true,
}
use stockastic.Ledger.Trades
use stockastic.Ledger.State.{Ledger, Error}

-- uint8
abbrev pub Side : Type 0
Side = ℕ

abbrev pub buy : Side
buy = 1

abbrev pub sell : Side
sell = 2

pub record Request : Type 0 where
  pub client_trade_id : Str
  pub account_id : Str
  pub symbol : Str
  pub side : Side
  pub qty : ℤ  -- int64
  pub expected_price : ℤ  -- Paise
  pub stage : Str

pub record Trade : Type 0 where
  pub id : Str
  pub client_trade_id : Str
  pub account_id : Str
  pub symbol : Str
  pub side : Side
  pub qty : ℤ
  pub price : ℤ
  pub stage : Str
  pub at : ℤ

pub record Fingerprint : Type 0 where
  pub symbol : Str
  pub side : Side
  pub qty : ℤ

pub record Entry : Type 0 where
  pub fp : Fingerprint
  pub tr : Trade

-- `G` is the type of the guard's own errors.
pub data TradeError (G : Type 0) : Type 0 where
  invalid_trade unknown_symbol no_price idempotency_mismatch : TradeError G
  price_changed : ℤ → TradeError G
  guarded : G → TradeError G
  ledger_error : Error → TradeError G

pub data Result (G : Type 0) : Type 0 where
  completed : Trade → Result G
  deduped : Trade → Result G
  failed : TradeError G → Result G

-- What an executor is built from: the price of a company now, the guard if one is set, and the journal,
-- whose state is of type `J` and whose error is a text.
pub record Setup (J G : Type 0) : Type 0 where
  pub price : Str → Option ℤ
  pub guard : Option (Request → ℤ → Option G)
  pub commit : Trade → J → J × Option Str

-- The ledger, the journal and the trades seen, by account and client trade id.
pub record State (J : Type 0) : Type 0 where
  pub ledger : Ledger
  pub journal : J
  pub seen : Dict Str Entry

-- `account + "\x00" + clientID`
unfoldable pub key : Str → Str → Str
key account client_id = account ++ 0 ∷ client_id

abbrev pub fingerprint_eq : Fingerprint → Fingerprint → Bool
fingerprint_eq a b = str_eq a.symbol b.symbol && (a.side == b.side && eqb_ℤ a.qty b.qty)

abbrev pub fingerprint : Request → Fingerprint
fingerprint r = record { symbol = r.symbol; side = r.side; qty = r.qty }

abbrev pub entry : Trade → Entry
entry t = record { fp = record { symbol = t.symbol; side = t.side; qty = t.qty }; tr = t }

abbrev pub trade_key : Trade → Str
trade_key t = key t.account_id t.client_trade_id

unfoldable pub seen_before : {J : Type 0} → State J → Str → Str → Bool
seen_before s account client_id = elim (lookup (key account client_id) s.seen) [
  | none ↦ false
  | some _ ↦ true
]

unfoldable pub seed : {J : Type 0} → State J → Trade → State J
seed s t = record s { seen = insert (trade_key t) (entry t) s.seen }

unfoldable pub is_invalid : Request → Bool
is_invalid r =
    is_empty r.account_id
    || (is_empty r.client_trade_id
        || (is_empty r.symbol || (not (r.side == buy || r.side == sell) || leb_ℤ r.qty (pos 0))))

abbrev pub journal_error : Str → Error
journal_error e = Error.other (codes "journal_commit_failed: " ++ e)

abbrev pub wrap_commit : {J : Type 0} → J × Option Str → J × Option Error
wrap_commit (j, none) = (j, none)
wrap_commit (j, some e) = (j, some (journal_error e))

module _ {J G : Type 0} (c : Setup J G) where
  unfoldable pub guard_error : Request → ℤ → Option G
  guard_error r price = elim c.guard [ none ↦ none | some g ↦ g r price ]

  -- The price to trade at, or why there is no trade.
  unfoldable pub quote : Request → TradeError G ⊎ ℤ
  unfolding guard_error
  quote r = elim (c.price r.symbol) [
    | none ↦ inl unknown_symbol
    | some price ↦
        if leb_ℤ price (pos 0)
        then inl no_price
        else if not (eqb_ℤ r.expected_price (pos 0)) && not (eqb_ℤ r.expected_price price)
        then inl (price_changed price)
        else elim (guard_error r price) [ some e ↦ inl (guarded e) | none ↦ inr price ]
  ]

  abbrev pub new_trade : Request → ℤ → Str → ℤ → Trade
  new_trade r price id at = record {
    id = id;
    client_trade_id = r.client_trade_id;
    account_id = r.account_id;
    symbol = r.symbol;
    side = r.side;
    qty = r.qty;
    price = price;
    stage = r.stage;
    at = at;
  }

  -- The commit function that the executor hands to the ledger.
  unfoldable pub commit_trade : Trade → J → J × Option Error
  commit_trade t j = wrap_commit (c.commit t j)

  abbrev pub finish : State J → Trade → Ledger × J × Option Error → State J × Result G
  finish s t (l, j, none) = (seed (record s { ledger = l; journal = j }) t, completed t)
  finish s t (l, j, some e) = (record s { ledger = l; journal = j }, failed (ledger_error e))

  unfoldable pub place : State J → Trade → State J × Result G
  unfolding commit_trade seed
  place s t = finish s t (
      Trades.trade s.ledger t.account_id t.symbol (t.side == buy) t.qty t.price
        (some (commit_trade t)) s.journal)

  unfoldable pub execute : State J → Request → Str → ℤ → State J × Result G
  unfolding is_invalid quote place
  execute s r id at =
      if is_invalid r
      then (s, failed invalid_trade)
      else elim (lookup (key r.account_id r.client_trade_id) s.seen) [
        | some prev ↦
            if fingerprint_eq prev.fp (fingerprint r)
            then (s, deduped prev.tr)
            else (s, failed idempotency_mismatch)
        | none ↦ elim (quote r) [
          | inl e ↦ (s, failed e)
          | inr price ↦ place s (new_trade r price id at)
        ]
      ]

-- `Reset`: every trade id is forgotten.
unfoldable pub reset : {J : Type 0} → State J → State J
reset s = record s { seen = [] }
