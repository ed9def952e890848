-- ===== src/Trading/Once.antt =====
-- No trade is stored twice (apps/api/internal/trading/trading.go, the package's promise of idempotence
-- on account and client trade id).
use mathlib.Core.Path.{ap₂}
use mathlib.Core.List.{append-nil}
use stockastic.Trading.Outcomes.{Placed, Executed, execute-Executed}
use stockastic.Prelude.Dict.{lookup, str_key, lookup-insert}
use stockastic.Prelude.Str.{Str, str_eq_iff}
use stockastic.Trading.{Trade, State, trade_key, seed, key, Result, execute, entry, new_trade}
use stockastic.Trading.Recovery.{
  unbroken-settled, restore_trade, restore_trades, DurableJournal, Rebuilt, IsRecoverable, Call,
  run, setup, Executed-IsRecoverable,
}
use stockastic.Prelude.{
  All-append_left, refl, List, All, ◌≡◌, some, ◌≢◌, ◌++◌, none, ◌∷◌, [], Option-cases, All-append,
  inl, inr, arith, ap, ◌∙◌, ◌<◌,
}

-- The keys of the trades are pairwise different.
abbrev pub DistinctKeys : List Trade → Type 0
DistinctKeys [] = Unit
DistinctKeys (t ∷ ts) = All (λ (u : Trade). trade_key t ≢ trade_key u) ts × DistinctKeys ts

DistinctKeys-snoc :
    (ts : List Trade) (u : Trade)
    → DistinctKeys ts
    → All (λ (t : Trade). trade_key t ≢ trade_key u) ts
    → DistinctKeys (ts ++ u ∷ [])
DistinctKeys-snoc [] u h k = (tt, tt)
DistinctKeys-snoc (t ∷ ts) u h k = (
  All-append (λ (u : Trade). trade_key t ≢ trade_key u) ts (u ∷ []) h.0 (k.0, tt),
  DistinctKeys-snoc ts u h.1 k.1,
)

DistinctKeys-left : (ts us : List Trade) → DistinctKeys (ts ++ us) → DistinctKeys ts
DistinctKeys-left [] us h = tt
DistinctKeys-left (t ∷ ts) us h = (
  All-append_left (λ (u : Trade). trade_key t ≢ trade_key u) ts us h.0,
  DistinctKeys-left ts us h.1,
)

-- Restoring forgets no trade that was seen.
restore_trade-keeps :
    (k : Str) (t : Trade) (b b' : Rebuilt)
    → restore_trade t b ≡ some b'
    → lookup k b'.seen ≡ none
    → (trade_key t ≢ k) × (lookup k b.seen ≡ none)
unfolding restore_trade
restore_trade-keeps k t b b' h unseen = (
  λ same. ground (
    arith,
    h,
    unseen,
    same,
    lookup-insert (trade_key t) k (entry t) b.seen,
    str_eq_iff (trade_key t) k,
  ),
  ground (arith, h, unseen, lookup-insert (trade_key t) k (entry t) b.seen),
)

restore_trades-unseen :
    (k : Str) (ts : List Trade) (b b' : Rebuilt)
    → restore_trades b ts ≡ some b'
    → lookup k b'.seen ≡ none
    → All (λ (t : Trade). trade_key t ≢ k) ts × (lookup k b.seen ≡ none)
unfolding restore_trades
restore_trades-unseen k [] b b' h unseen =
    let same : b ≡ b' = cc in (tt, ap (λ (x : Rebuilt). lookup k x.seen) same ∙ unseen)
restore_trades-unseen k (t ∷ ts) b b' h unseen = elim (Option-cases (restore_trade t b)) [
  | inl refused ↦ absurd (cc)
  | inr (b'', went) ↦
      let (rest, unseen'') =
        restore_trades-unseen k ts b'' b' (rw (went, restore_trades) at h) unseen in
      let (differs, unseen') = restore_trade-keeps k t b b'' went unseen'' in
      ((differs, rest), unseen')
]

module _ {J : Type 0} (journal : DurableJournal J) (start : Rebuilt) where
  -- What is stored rebuilds what is in memory, and no trade is there twice, a trade in doubt included.
  abbrev pub IsOnce : State J → Type 0
  IsOnce s =
      IsRecoverable journal start s
      × DistinctKeys (journal.stored s.journal ++ journal.in_doubt s.journal)

  one_more :
      (s : State J) (t : Trade)
      → lookup (trade_key t) s.seen ≡ none
      → IsOnce s
      → DistinctKeys (journal.stored s.journal ++ t ∷ [])
  one_more s t new h =
      let unseen =
        restore_trades-unseen (trade_key t) (journal.stored s.journal) start
          (record { ledger = s.ledger; seen = s.seen }) h.0.0 new in
      DistinctKeys-snoc (journal.stored s.journal) t
        (DistinctKeys-left (journal.stored s.journal) (journal.in_doubt s.journal) h.1) (unseen.0)

module _ {J G : Type 0} (journal : DurableJournal J) (start : Rebuilt) where
  Placed-DistinctKeys :
      (c : Call G) (s : State J) (t : Trade) (x : State J × Result G)
      → Placed (setup journal c) s t x
      → lookup (trade_key t) s.seen ≡ none
      → IsOnce journal start s
      → DistinctKeys (journal.stored x.0.journal ++ journal.in_doubt x.0.journal)
  unfolding seed
  Placed-DistinctKeys c s t _ (Placed.refused e) new h = h.1
  Placed-DistinctKeys c s t _ (Placed.unstored l' j' e text replayed ran why) new h =
      let (same, doubt) = journal.commit_fails t s.journal j' text ran in
      elim doubt [
        | inl kept ↦ rw (same, kept.0) (h.1)
        | inr broke ↦
            rw (same, broke.2, unbroken-settled journal s h.0.1 broke.0)
              (one_more journal start s t new h)
      ]
  Placed-DistinctKeys c s t _ (Placed.stored l' j' replayed ran) new h =
      let (unbroken, more, still) = journal.commit_stores t s.journal j' ran in
      rw (more, still, unbroken-settled journal s h.0.1 unbroken, append-nil)
        (one_more journal start s t new h)

  Executed-IsOnce :
      (c : Call G) (s : State J) (x : State J × Result G)
      → Executed (setup journal c) s c.request c.id c.at x
      → IsOnce journal start s
      → IsOnce journal start x.0
  Executed-IsOnce c s _ (Executed.rejected e) h = h
  Executed-IsOnce c s _ (Executed.repeated prev known same) h = h
  Executed-IsOnce c s x (Executed.placed price _ valid new fine how) h = (
    Executed-IsRecoverable journal start c s x (Executed.placed price x valid new fine how) h.0,
    Placed-DistinctKeys c s (new_trade (setup journal c) c.request price c.id c.at) x how new h,
  )

  -- After any sequence of calls, one at a time, retries and failed commits among them, no two trades in the
  -- file have the same account and client trade id, be they stored or in doubt, provided that this held
  -- of what was there before and that the executor had been rebuilt from it. So a retry after a commit
  -- that failed with its record written does not write the trade again.
  pub run-IsOnce :
      (s : State J) (cs : List (Call G))
      → IsOnce journal start s
      → IsOnce journal start (run journal s cs)
  unfolding run
  run-IsOnce s [] h = h
  run-IsOnce s (c ∷ cs) h =
      run-IsOnce (execute (setup journal c) s c.request c.id c.at).0 cs
        (Executed-IsOnce c s _ (execute-Executed (setup journal c) s c.request c.id c.at) h)

-- Accounts whose ids have no zero byte share no key, whatever the client trade ids.
pub key-injective :
    (a a' c c' : Str)
    → All (λ b. 0 < b) a
    → All (λ b. 0 < b) a'
    → key a c ≡ key a' c'
    → (a ≡ a') × (c ≡ c')
unfolding key
key-injective [] [] c c' h k e = (refl, (cc))
key-injective [] (b ∷ a') c c' h k e = absurd (ground arith)
key-injective (b ∷ a) [] c c' h k e = absurd (ground arith)
key-injective (b ∷ a) (b' ∷ a') c c' h k e =
    let rest : a ++ 0 ∷ c ≡ a' ++ 0 ∷ c' = cc in
    let (same, same') = key-injective a a' c c' h.1 k.1 rest in (ap₂ ◌∷◌ (cc) same, same')
