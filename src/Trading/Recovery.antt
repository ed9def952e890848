-- ===== src/Trading/Recovery.antt =====
-- A restart rebuilds what the executor had done (apps/api/internal/trading/trading.go, and the trade
-- records of `restore` in apps/api/internal/app/app.go).
use stockastic.Trading.Outcomes.{Placed, Executed, execute-Executed}
use stockastic.Prelude.Int.{ℤ}
use stockastic.Prelude.Str.{Str}
use stockastic.Prelude.Dict.{Dict, insert, lookup, str_key}
use stockastic.Ledger.State.{Ledger}
use stockastic.Trading.{
  Trade, Request, Setup, State, Result, Entry, buy, new_trade, trade_key, execute, entry, seed,
}
use stockastic.Prelude.{
  List, Option, ◌≡◌, none, ◌==◌, some, ◌++◌, ◌∷◌, [], arith, Option-cases, inl, inr, ◌∙◌, ◌⊎◌, Bool,
  true, false, ap,
}
use stockastic.Ledger.Trades

-- What the executor relies on in its journal. `stored` is what a restart finds for sure. Behind it a
-- restart may find any beginning of `in_doubt`: the trade of a commit that failed once its record was
-- written. `broken` is the latch of the log (`FileLog.broken` of apps/api/internal/store/store.go): a
-- commit that leaves a trade in doubt sets it, and while it is set no commit writes anything.
-- `file_journal` of `Trading.FileJournal.Durable` fills this record for the file log.
pub record DurableJournal (J : Type 0) : Type 0 where
  pub commit : Trade → J → J × Option Str
  pub stored : J → List Trade
  pub in_doubt : J → List Trade
  pub broken : J → Bool
  pub commit_stores :
      (t : Trade) (j j' : J)
      → commit t j ≡ (j', none)
      → (broken j ≡ false) × (stored j' ≡ stored j ++ t ∷ []) × (in_doubt j' ≡ in_doubt j)
  pub commit_fails :
      (t : Trade) (j j' : J) (e : Str)
      → commit t j ≡ (j', some e)
      → (stored j' ≡ stored j)
        × (((in_doubt j' ≡ in_doubt j) × (broken j ≡ true → broken j' ≡ true))
            ⊎ ((broken j ≡ false) × (broken j' ≡ true) × (in_doubt j' ≡ in_doubt j ++ t ∷ [])))

-- What is rebuilt from the trade records: the ledger and the trades that count as seen.
pub record Rebuilt : Type 0 where
  pub ledger : Ledger
  pub seen : Dict Str Entry

-- One record of `store.KindTrade` in `restore`: replay it on the ledger, then seed the executor.
unfoldable pub restore_trade : Trade → Rebuilt → Option Rebuilt
restore_trade t b =
    let (l', e) =
      Trades.replay_trade b.ledger t.account_id t.symbol (t.side == buy) t.qty t.price in
    elim e [
      | some _ ↦ none
      | none ↦ some (record { ledger = l'; seen = insert (trade_key t) (entry t) b.seen })
    ]

unfoldable pub restore_trades : Rebuilt → List Trade → Option Rebuilt
restore_trades b [] = some b
restore_trades b (t ∷ ts) = elim (restore_trade t b) [
  | none ↦ none
  | some b' ↦ restore_trades b' ts
]

restore_trades-append :
    (b : Rebuilt) (ts : List Trade) (t : Trade) (b' : Rebuilt)
    → restore_trades b ts ≡ some b'
    → restore_trades b (ts ++ t ∷ []) ≡ restore_trade t b'
unfolding restore_trades
restore_trades-append b [] t b' h = ground arith
restore_trades-append b (u ∷ ts) t b' h = elim (Option-cases (restore_trade u b)) [
  | inl refused ↦ ground arith
  | inr (b'', went) ↦
      rw (went, restore_trades) (restore_trades-append b'' ts t b' (rw (went, restore_trades) at h))
]

-- One call: who asks for what, and the price source, the guard, the id and the time that it meets.
pub record Call (G : Type 0) : Type 0 where
  pub request : Request
  pub price : Str → Option ℤ
  pub guard : Option (Request → ℤ → Option G)
  pub id : Str
  pub at : ℤ

restore_trade_replayed :
    (t : Trade) (b : Rebuilt) (l' : Ledger)
    → Trades.replay_trade b.ledger t.account_id t.symbol (t.side == buy) t.qty t.price ≡ (l', none)
    → restore_trade t b
      ≡ some (record { ledger = l'; seen = insert (trade_key t) (entry t) b.seen })
unfolding restore_trade
restore_trade_replayed t b l' replayed = ground arith

module _ {J : Type 0} (journal : DurableJournal J) where
  -- One trade is in doubt, and the log is broken. The executor does not count the trade as seen, and a
  -- restart that finds it replays it without an error.
  abbrev pub IsInDoubt : State J → Type 0
  IsInDoubt s =
      (t : Trade) × (b : Rebuilt) × (journal.broken s.journal ≡ true)
      × (journal.in_doubt s.journal ≡ t ∷ [])
      × (lookup (trade_key t) s.seen ≡ none)
      × (restore_trade t (record { ledger = s.ledger; seen = s.seen }) ≡ some b)

  abbrev pub IsSettled : State J → Type 0
  IsSettled s = (journal.in_doubt s.journal ≡ []) ⊎ IsInDoubt s

  -- What the journal has stored rebuilds the state that stands in memory, and at most one trade more is in
  -- doubt.
  abbrev pub IsRecoverable : Rebuilt → State J → Type 0
  IsRecoverable start s =
      (restore_trades start (journal.stored s.journal)
        ≡ some (record { ledger = s.ledger; seen = s.seen }))
      × IsSettled s

  -- An unbroken log leaves nothing in doubt.
  pub unbroken-settled :
      (s : State J)
      → IsSettled s
      → journal.broken s.journal ≡ false
      → journal.in_doubt s.journal ≡ []
  unbroken-settled s (inl none_left) h = none_left
  unbroken-settled s (inr (t, b, broken, one, unseen, replays)) h = cc

  -- Only the journal changes, and it leaves the doubt as it was.
  IsSettled-kept :
      (s : State J) (j' : J)
      → journal.in_doubt j' ≡ journal.in_doubt s.journal
      → (journal.broken s.journal ≡ true → journal.broken j' ≡ true)
      → IsSettled s
      → IsSettled (record s { journal = j' })
  IsSettled-kept s j' same latch (inl none_left) = inl (same ∙ none_left)
  IsSettled-kept s j' same latch (inr (t, b, broken, one, unseen, replays)) =
      inr (t, b, latch broken, same ∙ one, unseen, replays)

  -- A commit failed, and its trade may be in doubt.
  pub IsSettled-unstored :
      (s : State J) (t : Trade) (l' : Ledger) (j' : J)
      → lookup (trade_key t) s.seen ≡ none
      → Trades.replay_trade s.ledger t.account_id t.symbol (t.side == buy) t.qty t.price
        ≡ (l', none)
      → IsSettled s
      → ((journal.in_doubt j' ≡ journal.in_doubt s.journal)
          × (journal.broken s.journal ≡ true → journal.broken j' ≡ true))
        ⊎ ((journal.broken s.journal ≡ false)
            × (journal.broken j' ≡ true)
            × (journal.in_doubt j' ≡ journal.in_doubt s.journal ++ t ∷ []))
      → IsSettled (record s { journal = j' })
  IsSettled-unstored s t l' j' new replayed settled (inl (same, latch)) =
      IsSettled-kept s j' same latch settled
  IsSettled-unstored s t l' j' new replayed settled (inr (unbroken, broken, more)) = inr (
    t,
    _,
    broken,
    more ∙ ap (λ ts. ts ++ t ∷ []) (unbroken-settled s settled unbroken),
    new,
    restore_trade_replayed t (record { ledger = s.ledger; seen = s.seen }) l' replayed,
  )

module _ {J G : Type 0} (journal : DurableJournal J) where
  abbrev pub setup : Call G → Setup J G
  setup c = record { price = c.price; guard = c.guard; commit = journal.commit }

  -- The calls of any number of clients, in the order in which they took effect.
  unfoldable pub run : State J → List (Call G) → State J
  run s [] = s
  run s (c ∷ cs) = run (execute (setup c) s c.request c.id c.at).0 cs

  Placed-IsRecoverable :
      (start : Rebuilt) (c : Call G) (s : State J) (t : Trade) (x : State J × Result G)
      → Placed (setup c) s t x
      → lookup (trade_key t) s.seen ≡ none
      → IsRecoverable journal start s
      → IsRecoverable journal start x.0
  unfolding seed
  Placed-IsRecoverable start c s t _ (Placed.refused e) new h = h
  Placed-IsRecoverable start c s t _ (Placed.unstored l' j' e text replayed ran why) new
        (h, settled) =
      let (same, doubt) = journal.commit_fails t s.journal j' text ran in
      (
        ap (restore_trades start) same ∙ h,
        IsSettled-unstored journal s t l' j' new replayed settled doubt,
      )
  Placed-IsRecoverable start c s t _ (Placed.stored l' j' replayed ran) new (h, settled) =
      let (unbroken, more, same) = journal.commit_stores t s.journal j' ran in
      let b : Rebuilt = record { ledger = s.ledger; seen = s.seen } in
      (
        ap (restore_trades start) more
            ∙ restore_trades-append start (journal.stored s.journal) t b h
            ∙ restore_trade_replayed t b l' replayed,
        inl (same ∙ unbroken-settled journal s settled unbroken),
      )

  pub Executed-IsRecoverable :
      (start : Rebuilt) (c : Call G) (s : State J) (x : State J × Result G)
      → Executed (setup c) s c.request c.id c.at x
      → IsRecoverable journal start s
      → IsRecoverable journal start x.0
  Executed-IsRecoverable start c s _ (Executed.rejected e) h = h
  Executed-IsRecoverable start c s _ (Executed.repeated prev known same) h = h
  Executed-IsRecoverable start c s x (Executed.placed price _ valid new fine how) h =
      Placed-IsRecoverable start c s (new_trade (setup c) c.request price c.id c.at) x how new h

  -- After any sequence of calls, one at a time, whatever they asked for and wherever commits failed,
  -- replaying the stored trades on the ledger that the executor started from rebuilds its very ledger,
  -- and the very set of trades that a retry is answered from. At most one trade more can turn up in the
  -- file: one whose commit failed once its record was written, which broke the log. It is none of those
  -- that a retry is answered from, and a restart that finds it behind the others replays it without an
  -- error. This is provided that it held before.
  pub run-IsRecoverable :
      (start : Rebuilt) (s : State J) (cs : List (Call G))
      → IsRecoverable journal start s
      → IsRecoverable journal start (run s cs)
  unfolding run
  run-IsRecoverable start s [] h = h
  run-IsRecoverable start s (c ∷ cs) h =
      run-IsRecoverable start (execute (setup c) s c.request c.id c.at).0 cs
        (Executed-IsRecoverable start c s _ (execute-Executed (setup c) s c.request c.id c.at) h)
