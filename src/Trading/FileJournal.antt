-- ===== src/Trading/FileJournal.antt =====
-- The file log as the executor's journal (apps/api/internal/store/store.go: `Journal.Commit`, and `Append`
-- from its call to its return). One commit runs at a time, and no other part of the server writes
-- meanwhile. The guard of the disk, the writer, the flush and the sync may fail at each commit.
pub mod Commits
pub mod Doubt
pub mod Restart
pub mod Durable
use stockastic.Log.{Envelope, Json, newline}
use stockastic.Log.FileLog.{
  FileLog, Event, called, looked, sync_ended, Written, Appending, waits_for, Waiting, acknowledged,
  append, look, step, run, put_line, start_sync, end_sync, noted, opened,
}
use stockastic.Log.Kinds
use stockastic.Prelude.Dict.{found-cases}
use stockastic.Trading.{Trade}
use stockastic.Prelude.{
  ℕ, ◌+◌, ◌≡◌, Bool, true, false, Option, none, some, List, [], ◌∷◌, ◌++◌, if◌then◌else◌, refl,
  arith, length, take, drop, ◌⊎◌, inl, inr, ◌||◌, leb, ltb, if-cases, length-append,
}
use stockastic.Prelude.Int.{ℤ}
use stockastic.Prelude.Str.{Str, codes}

-- What a commit meets: the time, the guard that finds the disk nearly full, a write that fails, a flush
-- that fails, a sync that fails.
pub record Moment : Type 0 where
  pub at : ℤ
  pub disk_low : Bool
  pub cut : Option ℕ
  pub flush_fails : Bool
  pub sync_fails : Bool

abbrev pub not_stored : Str
not_stored = codes "not stored"

abbrev pub answer : Waiting → Option Str
answer acknowledged = none
answer Waiting.not_saved = some not_stored
answer Waiting.waits = some not_stored
answer Waiting.syncs = some not_stored

-- Nothing was written.
abbrev pub IsRefusal : Appending → Type 0
IsRefusal (waits_for n) = ⊥
IsRefusal Appending.write_failed = ⊥
IsRefusal _ = Unit

module _ (json : Json Trade) where
  -- The append's goroutine has the log to itself, so it runs the sync that it waits for.
  abbrev pub await : Written json → Envelope Trade → Moment → Appending → Written json × Option Str
  await w e m (waits_for n) =
      let w' =
        run json w (called e m.cut ∷ looked n m.flush_fails ∷ sync_ended m.sync_fails ∷ []) in
      (w', answer (look w'.0 n false).1)
  await w e m _ = (step json w (called e m.cut), some not_stored)

  unfoldable pub append_alone : Written json → Envelope Trade → Moment → Written json × Option Str
  append_alone w e m = await w e m (append json w.0 e m.cut).1

  unfoldable pub commit_to_file : Trade → Written json → Moment → Written json × Option Str
  unfolding append_alone
  commit_to_file t w m =
      if m.disk_low
      then (w, some not_stored)
      else append_alone w (record { k = Kinds.trade; at = m.at; v = t }) m

  -- No sync runs, and all that was written is synced as long as the log is not broken.
  pub record IsAtRest (w : Written json) : Type 0 where
    pub idle : w.0.syncing ≡ false
    pub whole : w.0.broken ≡ false → (w.0.pending ≡ length w.1) × (w.0.synced ≡ length w.1)

  -- What a commit does to the log.
  abbrev pub Commits : Envelope Trade → Written json → Written json × Option Str → Type 0
  Commits e w (w', none) =
      (w.0.broken ≡ false)
      × (w'.0.broken ≡ false)
      × (w'.1 ≡ w.1 ++ e ∷ [])
      × (w'.0.synced ≡ length w.1 + 1)
  Commits e w (w', some _) =
      (w'.0.synced ≡ w.0.synced)
      × (((w'.1 ≡ w.1) × (w'.0.broken ≡ w.0.broken))
          ⊎ ((w.0.broken ≡ false) × (w'.0.broken ≡ true) × (w'.1 ≡ w.1 ++ e ∷ [])))

  abbrev pub IsGood : Envelope Trade → Written json → Written json × Option Str → Type 0
  IsGood e w x = IsAtRest x.0 × Commits e w x
