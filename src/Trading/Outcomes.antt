-- ===== src/Trading/Outcomes.antt =====
-- How a call of `Execute` can end (trading.go), as two families that later proofs match on.
use stockastic.Prelude.Dict.{lookup, str_key, lookup-insert_self, insert}
use stockastic.Prelude.Int.{ℤ}
use stockastic.Prelude.Str.{Str}
use stockastic.Prelude.{
  ◌≡◌, some, none, Option, ◌==◌, ◌∙◌, ◌⊎◌, Bool-cases, inl, inr, Option-cases, true, false, ap, sym,
  refl,
}
use stockastic.Ledger.State.{Acct, Error, Ledger}
use stockastic.Trading.{
  Setup, State, Trade, Result, commit_trade, failed, ledger_error, journal_error, place, Request,
  wrap_commit, buy, TradeError, execute, seed, finish, Entry, completed, is_invalid, key,
  invalid_trade, fingerprint_eq, fingerprint, idempotency_mismatch, deduped, quote, new_trade,
  entry, trade_key,
}
use stockastic.Ledger.Trades
use stockastic.Ledger.Trades.Effect
use stockastic.Ledger.Trades.Effect.{Ends}

module _ {J G : Type 0} (c : Setup J G) (s : State J) (t : Trade) where
  -- How the placing of a trade can end. Nothing changes if it is refused; a failed commit changes at most
  -- the journal's own state, and a replay of its trade would go through; a stored trade changes the
  -- ledger just as its replay would.
  pub data Placed : State J × Result G → Type 0 where
    refused : (e : Error) → Placed (s, failed (ledger_error e))
    unstored :
        (l' : Ledger) (j' : J) (e : Error) (text : Str)
        → Trades.replay_trade s.ledger t.account_id t.symbol (t.side == buy) t.qty t.price
          ≡ (l', none)
        → c.commit t s.journal ≡ (j', some text)
        → e ≡ journal_error text
        → Placed (record s { journal = j' }, failed (ledger_error e))
    stored :
        (l' : Ledger) (j' : J)
        → Trades.replay_trade s.ledger t.account_id t.symbol (t.side == buy) t.qty t.price
          ≡ (l', none)
        → c.commit t s.journal ≡ (j', none)
        → Placed (seed (record s { ledger = l'; journal = j' }) t, completed t)

  failed-Placed :
      (r : J × Option Str) (l' : Ledger) (j' : J) (e : Error)
      → c.commit t s.journal ≡ r
      → wrap_commit r ≡ (j', some e)
      → Trades.replay_trade s.ledger t.account_id t.symbol (t.side == buy) t.qty t.price
        ≡ (l', none)
      → Placed (record s { journal = j' }, failed (ledger_error e))
  failed-Placed (j, none) l' j' e ran h replayed = cc
  failed-Placed (j, some text) l' j' e ran h replayed =
      unstored l' j' e text replayed (ran ∙ (cc)) (cc)

  stored-Placed :
      (r : J × Option Str) (l' : Ledger) (j' : J)
      → c.commit t s.journal ≡ r
      → wrap_commit r ≡ (j', none)
      → Trades.replay_trade s.ledger t.account_id t.symbol (t.side == buy) t.qty t.price
        ≡ (l', none)
      → Placed (seed (record s { ledger = l'; journal = j' }) t, completed t)
  stored-Placed (j, some text) l' j' ran h replayed = cc
  stored-Placed (j, none) l' j' ran h replayed = stored l' j' replayed (ran ∙ (cc))

  replay_trade-found :
      (a : Acct)
      → lookup t.account_id s.ledger ≡ some a
      → Trades.replay_trade s.ledger t.account_id t.symbol (t.side == buy) t.qty t.price ≡ (
        insert t.account_id (Trades.apply_trade a t.symbol (t.side == buy) t.qty t.price) s.ledger,
        none,
      )
  unfolding Trades.replay_trade
  replay_trade-found a found = rw (found, Trades.replay_trade)

  Ends-Placed :
      (r : Ledger × J × Option Error)
      → Ends s.ledger t.account_id t.symbol
          (t.side == buy)
          t.qty
          t.price
          (some (commit_trade c t))
          s.journal
          r
      → Placed (finish c s t r)
  unfolding commit_trade
  Ends-Placed _ (Ends.refused e) = refused e
  Ends-Placed _ (Ends.commit_failed a j' e found ran) =
      failed-Placed (c.commit t s.journal) _ j' e refl ran (replay_trade-found a found)
  Ends-Placed _ (Ends.done a j' found fine ran q p) =
      stored-Placed (c.commit t s.journal) _ j' refl ran (replay_trade-found a found)

  pub place-Placed : Placed (place c s t)
  unfolding place
  place-Placed = Ends-Placed _ (
      Effect.trade-Ends s.ledger t.account_id t.symbol (t.side == buy) t.qty t.price
        (some (commit_trade c t)) s.journal)

  pub Placed-completed :
      (t' : Trade) (x : State J × Result G)
      → Placed x
      → x.1 ≡ completed t'
      → (x.0.seen ≡ insert (trade_key t) (entry t) s.seen) × (t ≡ t')
  unfolding seed
  Placed-completed t' _ (refused e) h = cc
  Placed-completed t' _ (unstored l' j' e text replayed ran why) h = cc
  Placed-completed t' _ (stored l' j' replayed ran) h = (refl, (cc))

  pub Placed-failed :
      (e : TradeError G) (x : State J × Result G)
      → Placed x
      → x.1 ≡ failed e
      → (x.0.ledger ≡ s.ledger) × (x.0.seen ≡ s.seen)
  Placed-failed e _ (refused _) h = (refl, refl)
  Placed-failed e _ (unstored l' j' _ text replayed ran why) h = (refl, refl)
  Placed-failed e _ (stored l' j' replayed ran) h = cc

module _ {J G : Type 0} (c : Setup J G) (s : State J) (r : Request) (id : Str) (at : ℤ) where
  -- How a call can end.
  pub data Executed : State J × Result G → Type 0 where
    rejected : (e : TradeError G) → Executed (s, failed e)
    repeated :
        (prev : Entry)
        → lookup (key r.account_id r.client_trade_id) s.seen ≡ some prev
        → fingerprint_eq prev.fp (fingerprint r) ≡ true
        → Executed (s, deduped prev.tr)
    placed :
        (price : ℤ) (x : State J × Result G)
        → is_invalid r ≡ false
        → lookup (key r.account_id r.client_trade_id) s.seen ≡ none
        → quote c r ≡ inr price
        → Placed c s (new_trade c r price id at) x
        → Executed x

  quote-cases :
      (q : TradeError G ⊎ ℤ) → ((e : TradeError G) × (q ≡ inl e)) ⊎ ((p : ℤ) × (q ≡ inr p))
  quote-cases (inl e) = inl (e, refl)
  quote-cases (inr p) = inr (p, refl)

  pub execute-Executed : Executed (execute c s r id at)
  unfolding execute
  execute-Executed = elim (Bool-cases (is_invalid r)) [
    | inl bad ↦ rw (bad, execute) (rejected invalid_trade)
    | inr valid ↦ elim (Option-cases (lookup (key r.account_id r.client_trade_id) s.seen)) [
      | inr (prev, known) ↦ elim (Bool-cases (fingerprint_eq prev.fp (fingerprint r))) [
        | inl same ↦ rw (valid, known, same, execute) (repeated prev known same)
        | inr differs ↦ rw (valid, known, differs, execute) (rejected idempotency_mismatch)
      ]
      | inl new ↦ elim (quote-cases (quote c r)) [
        | inl (e, why) ↦ rw (valid, new, why, execute) (rejected e)
        | inr (price, fine) ↦
            rw (valid, new, fine, execute)
              (placed price _ valid new fine (place-Placed c s (new_trade c r price id at)))
      ]
    ]
  ]

  pub Executed-seen :
      (t : Trade) (x : State J × Result G)
      → Executed x
      → x.1 ≡ completed t
      → (lookup (key r.account_id r.client_trade_id) x.0.seen ≡ some (entry t))
        × ((entry t).fp ≡ fingerprint r)
  Executed-seen t _ (rejected e) h = cc
  Executed-seen t _ (repeated prev known same) h = cc
  Executed-seen t x (placed price _ valid new fine how) h =
      let made = new_trade c r price id at in
      let (kept, same) = Placed-completed c s made t x how h in
      (
        ap (lookup (key r.account_id r.client_trade_id)) kept
            ∙ lookup-insert_self (trade_key made) (entry made) s.seen
            ∙ ap (λ u. some (entry u)) same,
        ap (λ u. (entry u).fp) (sym same),
      )

  pub Executed-failed :
      (e : TradeError G) (x : State J × Result G)
      → Executed x
      → x.1 ≡ failed e
      → (x.0.ledger ≡ s.ledger) × (x.0.seen ≡ s.seen)
  Executed-failed e _ (rejected _) h = (refl, refl)
  Executed-failed e _ (repeated prev known same) h = cc
  Executed-failed e x (placed price _ valid new fine how) h =
      Placed-failed c s (new_trade c r price id at) e x how h

  pub Executed-price :
      (t : Trade) (x : State J × Result G)
      → Executed x
      → x.1 ≡ completed t
      → quote c r ≡ inr t.price
  Executed-price t _ (rejected e) h = cc
  Executed-price t _ (repeated prev known same) h = cc
  Executed-price t x (placed price _ valid new fine how) h =
      fine
      ∙ ap (λ (u : Trade). inr u.price)
          (Placed-completed c s (new_trade c r price id at) t x how h).1
