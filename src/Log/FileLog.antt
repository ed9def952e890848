-- ===== src/Log/FileLog.antt =====
-- Group commit (apps/api/internal/store/store.go): `Append`, the sync that appends share, and `Close`.
-- Each function is what one goroutine does while it holds the lock. The bytes are in three places: known
-- to be on disk, handed to the operating system, and in the writer's buffer; a writer that empties its
-- buffer early moves bytes between the last two, which nothing depends on.
use stockastic.Log.{Envelope, Json, newline}
use stockastic.Prelude.{
  ℕ, ◌+◌, Bool, true, false, ◌||◌, Option, none, some, List, [], ◌∷◌, ◌++◌, leb, ltb, if◌then◌else◌,
  take,
}
use stockastic.Prelude.Str.{Str}

pub record FileLog : Type 0 where
  pub disk : Str
  pub flushed : Str
  pub buffer : Str
  pub pending : ℕ
  pub synced : ℕ
  pub syncing : Bool
  pub broken : Bool
  pub closed : Bool
  -- What the goroutine that syncs remembers: `upTo`, and whether its flush or its file failed.
  pub up_to : ℕ
  pub refused : Bool

-- The log as `OpenFile` leaves it.
unfoldable pub opened : Str → FileLog
opened bytes = record {
  disk = bytes;
  flushed = [];
  buffer = [];
  pending = 0;
  synced = 0;
  syncing = false;
  broken = false;
  closed = false;
  up_to = 0;
  refused = false;
}

pub data Appending : Type 0 where
  not_encoded : Appending
  is_closed : Appending
  is_broken : Appending
  write_failed : Appending
  -- It waits for the sync of the record with this number.
  waits_for : ℕ → Appending

-- `cut` is set where the write fails, and is the number of bytes that it took.
unfoldable pub put_line : FileLog → Str → Option ℕ → FileLog × Appending
put_line l line (some n) =
    (record l { buffer = l.buffer ++ take n line; broken = true }, write_failed)
put_line l line none =
    (record l { buffer = l.buffer ++ line; pending = l.pending + 1 }, waits_for (l.pending + 1))

module _ {V : Type 0} (j : Json V) where
  unfoldable pub append : FileLog → Envelope V → Option ℕ → FileLog × Appending
  unfolding put_line
  append l e cut = elim (j.marshal e) [
    | none ↦ (l, not_encoded)
    | some s ↦
        if l.closed
        then (l, is_closed)
        else if l.broken
        then (l, is_broken)
        else put_line l (s ++ newline ∷ []) cut
  ]

pub data Waiting : Type 0 where
  acknowledged : Waiting
  not_saved : Waiting
  waits : Waiting
  syncs : Waiting

-- A flush, which may fail, and the choice of the file to sync: there is none once the log is closed.
unfoldable pub start_sync : FileLog → Bool → FileLog
start_sync l true = record l { syncing = true; up_to = l.pending; refused = true }
start_sync l false = record l {
  syncing = true;
  up_to = l.pending;
  refused = l.closed;
  flushed = l.flushed ++ l.buffer;
  buffer = [];
}

-- One look of the append that waits for record `mine`.
unfoldable pub look : FileLog → ℕ → Bool → FileLog × Waiting
unfolding start_sync
look l mine flush_fails =
    if leb mine l.synced
    then (l, acknowledged)
    else if l.broken
    then (l, not_saved)
    else if l.syncing
    then (l, waits)
    else (start_sync l flush_fails, syncs)

-- The sync is over: the lock is held again.
unfoldable pub end_sync : FileLog → Bool → FileLog
end_sync l sync_fails =
    if l.refused || sync_fails then record l { syncing = false; broken = true } else record l {
      syncing = false;
      disk = l.disk ++ l.flushed;
      flushed = [];
      synced = (if ltb l.synced l.up_to then l.up_to else l.synced);
    }

-- It waits while a sync runs. Its own flush and sync are not looked at.
unfoldable pub close : FileLog → FileLog
close l =
    if l.syncing || l.closed
    then l
    else record l { flushed = l.flushed ++ l.buffer; buffer = []; closed = true }

-- What goroutines do with the log, in the order in which they get the lock.
pub data Event (V : Type 0) : Type 0 where
  called : Envelope V → Option ℕ → Event V
  looked : ℕ → Bool → Event V
  sync_ended : Bool → Event V
  asked_to_close : Event V

module _ {V : Type 0} (j : Json V) where
  -- The records of which bytes were written, in order.
  abbrev pub Written : Type 0
  Written = FileLog × List (Envelope V)

  unfoldable pub noted : List (Envelope V) → Envelope V → FileLog × Appending → Written
  noted es e (l, waits_for n) = (l, es ++ e ∷ [])
  noted es e (l, write_failed) = (l, es ++ e ∷ [])
  noted es e (l, _) = (l, es)

  unfoldable pub step : Written → Event V → Written
  unfolding noted
  step (l, es) (called e cut) = noted es e (append j l e cut)
  step (l, es) (looked mine flush_fails) = ((look l mine flush_fails).0, es)
  step (l, es) (sync_ended sync_fails) = (if l.syncing then end_sync l sync_fails else l, es)
  step (l, es) asked_to_close = (close l, es)

  unfoldable pub run : Written → List (Event V) → Written
  unfolding step
  run w [] = w
  run w (e ∷ es) = run (step w e) es
