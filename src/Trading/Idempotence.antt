-- ===== src/Trading/Idempotence.antt =====
-- A trade is made at most once, and only as asked (trading.go, `Execute`).
use stockastic.Prelude.Dict.{str_key}
use stockastic.Trading.Outcomes.{Executed-failed, Executed-price, execute-Executed, Executed-seen}
use stockastic.Prelude.Int.{ℤ, pos, ◌≤ℤ◌}
use stockastic.Prelude.Str.{Str}
use stockastic.Trading.{
  Setup, execute, State, Request, TradeError, Trade, quote, failed, completed, entry, fingerprint,
  guard_error,
}
use stockastic.Prelude.{◌≡◌, some, inr, ◌⊎◌, arith, none}

module _ {J G : Type 0} (c : Setup J G) (s : State J) (r : Request) (id : Str) (at : ℤ) where
  -- A call that fails changes neither the ledger nor the trades that count as seen.
  pub execute-failed_unchanged :
      (e : TradeError G)
      → (execute c s r id at).1 ≡ failed e
      → let s' = (execute c s r id at).0 in (s'.ledger ≡ s.ledger) × (s'.seen ≡ s.seen)
  execute-failed_unchanged e h = Executed-failed c s r id at e _ (execute-Executed c s r id at) h

  -- What a completed trade was made at.
  pub record AtQuotedPrice (t : Trade) : Type 0 where
    pub current : c.price r.symbol ≡ some t.price
    pub positive : pos 1 ≤ℤ t.price
    pub agreed : (r.expected_price ≡ pos 0) ⊎ (r.expected_price ≡ t.price)
    pub allowed : guard_error c r t.price ≡ none
    pub asked : (entry t).fp ≡ fingerprint r

  quote-AtQuotedPrice :
      (t : Trade) → quote c r ≡ inr t.price → (entry t).fp ≡ fingerprint r → AtQuotedPrice t
  unfolding quote
  quote-AtQuotedPrice t q f = record {
    current = ground arith;
    positive = ground arith;
    agreed = ground arith;
    allowed = ground arith;
    asked = f;
  }

  -- A completed trade is for what was asked, at the positive price that the price source gave, which is
  -- the price that the request expected if it named one; the guard did not object.
  pub execute-AtQuotedPrice : (t : Trade) → (execute c s r id at).1 ≡ completed t → AtQuotedPrice t
  execute-AtQuotedPrice t h =
      quote-AtQuotedPrice t (Executed-price c s r id at t _ (execute-Executed c s r id at) h)
        (Executed-seen c s r id at t _ (execute-Executed c s r id at) h).1
