-- ===== src/FundDesk/Once.antt =====
-- One checkpoint for each name (apps/api/internal/app/funds.go, `takeCheckpoint`).
use stockastic.Funds.Reads.{plan_checkpoint}
use stockastic.Ledger.State.{Error}
use stockastic.Funds.Apply.{apply}
use stockastic.Funds.Events.{Checkpoint}
use stockastic.Funds.Float.{Float}
use stockastic.Prelude.Str.{Str, str_eq, str_eq_iff}
use stockastic.Prelude.{
  List, ◌++◌, ◌≡◌, Option, if-cases, ◌∷◌, false, [], not, ◌||◌, arith, some, none, refl,
}
use stockastic.FundDesk.{FundDesk, Around}
use stockastic.FundDesk.Logs.{if_stored, store_and_apply}
use stockastic.FundDesk.Sampling.{take_checkpoint, is_taken, checkpoint_event}

module _ {W : Type 0} where
  abbrev pub AreDistinct : List (Checkpoint W) → Type 0
  AreDistinct [] = Unit
  AreDistinct (c ∷ cs) = (is_taken c.name cs ≡ false) × AreDistinct cs

  is_taken-append :
      (name : Str) (cs : List (Checkpoint W)) (c : Checkpoint W)
      → is_taken name (cs ++ c ∷ []) ≡ (is_taken name cs || str_eq c.name name)
  unfolding is_taken
  is_taken-append name [] c = ground arith
  is_taken-append name (x ∷ cs) c = rw (is_taken-append name cs c) (ground arith)

  append-AreDistinct :
      (cs : List (Checkpoint W)) (c : Checkpoint W)
      → AreDistinct cs
      → is_taken c.name cs ≡ false
      → AreDistinct (cs ++ c ∷ [])
  unfolding is_taken
  append-AreDistinct [] c h free = (refl, tt)
  append-AreDistinct (x ∷ cs) c h free = (
    rw (is_taken-append x.name cs c)
        (ground (arith, str_eq_iff x.name c.name, str_eq_iff c.name x.name)),
    append-AreDistinct cs c h.1 (ground arith),
  )

module _ {J W G : Type 0} ⦃f : Float W⦄ (a : Around J W G) where
  stored-AreDistinct :
      (d : FundDesk J W) (c : Checkpoint W) (x : J × Option Error)
      → AreDistinct d.book.checks
      → is_taken c.name d.book.checks ≡ false
      → AreDistinct (if_stored a d (checkpoint_event a c) x).0.book.checks
  unfolding apply
  stored-AreDistinct d c (j, some e) h free = h
  stored-AreDistinct d c (j, none) h free = append-AreDistinct d.book.checks c h free

  -- Taking a checkpoint, whether it is stored or not, leaves no two checkpoints with one name if there
  -- were none: it runs once for each name.
  pub take_checkpoint-AreDistinct :
      (d : FundDesk J W) (name : Str) (mgmt perf : W)
      → AreDistinct d.book.checks
      → AreDistinct (take_checkpoint a d name mgmt perf).book.checks
  unfolding take_checkpoint store_and_apply plan_checkpoint
  take_checkpoint-AreDistinct d name mgmt perf h =
      let Distinct : FundDesk J W → Type 0 = λ d'. AreDistinct d'.book.checks in
      if-cases Distinct (not d.book.formed) d _ (λ _. h)
        (λ _.
          if-cases Distinct (is_taken name d.book.checks) d _ (λ _. h)
            (λ free. stored-AreDistinct d _ _ h free))
