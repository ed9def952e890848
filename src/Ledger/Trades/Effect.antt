-- ===== src/Ledger/Trades/Effect.antt =====
-- What a trade does (ledger.go, `Trade`): it is refused and leaves the ledger alone, or it changes
-- one account, after its commit; and a replay of it does the same.
use stockastic.Prelude.{
  Bool, ◌||◌, Option, none, some, ◌≡◌, refl, ap, ◌∙◌, ◌⊎◌, inl, inr, arith, Bool-cases,
  Option-cases,
}
use stockastic.Prelude.Int.{ℤ, pos, leb_ℤ, ◌≤ℤ◌}
use stockastic.Prelude.Str.{Str, is_empty}
use stockastic.Prelude.Dict.{str_key, lookup, insert}
use stockastic.Ledger.State.{Error, Acct, Ledger}
use stockastic.Ledger.Trades.{apply_trade, refusal, run_commit, settle, trade, replay_trade}

-- One trade: the ledger, the request, the commit function and the state that it acts on.
module _ {J : Type 0} (l : Ledger) (id symbol : Str) (buy : Bool) (qty price : ℤ)
    (commit : Option (J → J × Option Error)) (j : J) where
  -- How a trade can end.
  pub data Ends : Ledger × J × Option Error → Type 0 where
    refused : (e : Error) → Ends (l, j, some e)
    commit_failed :
        (a : Acct) (j' : J) (e : Error)
        → lookup id l ≡ some a
        → run_commit commit j ≡ (j', some e)
        → Ends (l, j', some e)
    done :
        (a : Acct) (j' : J)
        → lookup id l ≡ some a
        → refusal a symbol buy qty price ≡ none
        → run_commit commit j ≡ (j', none)
        → pos 1 ≤ℤ qty
        → pos 1 ≤ℤ price
        → Ends (insert id (apply_trade a symbol buy qty price) l, j', none)

  settle-Ends :
      (a : Acct) (r : J × Option Error)
      → run_commit commit j ≡ r
      → lookup id l ≡ some a
      → refusal a symbol buy qty price ≡ none
      → pos 1 ≤ℤ qty
      → pos 1 ≤ℤ price
      → Ends (settle l (insert id (apply_trade a symbol buy qty price) l) r)
  settle-Ends a (j', none) ran found fine q p = done a j' found fine ran q p
  settle-Ends a (j', some e) ran found fine q p = commit_failed a j' e found ran

  pub trade-Ends : Ends (trade l id symbol buy qty price commit j)
  unfolding trade
  trade-Ends = elim (Bool-cases (leb_ℤ qty (pos 0) || (leb_ℤ price (pos 0) || is_empty symbol))) [
    | inl bad ↦ rw bad (refused _)
    | inr good ↦ rw good (elim (Option-cases (lookup id l)) [
      | inl missing ↦ rw missing (refused _)
      | inr (a, found) ↦ rw found (elim (Option-cases (refusal a symbol buy qty price)) [
        | inr (e, why) ↦ rw why (refused e)
        | inl fine ↦
            rw fine
              (settle-Ends a (run_commit commit j) refl found fine (ground arith) (ground arith))
      ])
    ])
  ]

  -- What a failed trade leaves behind.
  abbrev pub LeavesLedger : Error → Ledger × J × Option Error → Type 0
  LeavesLedger e r = (r.0 ≡ l) × ((r.1 ≡ j) ⊎ (run_commit commit j ≡ (r.1, some e)))

  Ends-LeavesLedger :
      (e : Error) (r : Ledger × J × Option Error) → Ends r → r.2 ≡ some e → LeavesLedger e r
  Ends-LeavesLedger e _ (refused _) h = (refl, inl refl)
  Ends-LeavesLedger e _ (commit_failed a j' x found ran) h = (refl, inr (ran ∙ ap (λ o. (j', o)) h))
  Ends-LeavesLedger e _ (done a j' found fine ran q p) h = cc

  -- A trade that fails, for whatever reason, leaves the ledger as it was. If the journal changed, then
  -- the commit function ran, and the failure is its own.
  pub trade_failed_unchanged :
      (e : Error)
      → (trade l id symbol buy qty price commit j).2 ≡ some e
      → LeavesLedger e (trade l id symbol buy qty price commit j)
  trade_failed_unchanged e failed = Ends-LeavesLedger e _ trade-Ends failed

  Ends-replay :
      (r : Ledger × J × Option Error)
      → Ends r
      → r.2 ≡ none
      → replay_trade l id symbol buy qty price ≡ (r.0, none)
  unfolding replay_trade
  Ends-replay _ (refused e) h = cc
  Ends-replay _ (commit_failed a j' e found ran) h = cc
  Ends-replay _ (done a j' found fine ran q p) h = rw (found, replay_trade)

  -- Replaying a trade that succeeded gives the very ledger that the trade gave.
  pub replay_trade-trade :
      (trade l id symbol buy qty price commit j).2 ≡ none
      → replay_trade l id symbol buy qty price
        ≡ ((trade l id symbol buy qty price commit j).0, none)
  replay_trade-trade success = Ends-replay _ trade-Ends success
