-- ===== src/Trading/FileJournal/Commits.antt =====
-- What a commit does to the file log (apps/api/internal/store/store.go, `Append` from its call to its
-- return).
use stockastic.Trading.FileJournal.{
  Moment, not_stored, answer, await, append_alone, IsAtRest, IsRefusal, IsGood,
}
use stockastic.Log.{Envelope, Json, newline}
use stockastic.Log.FileLog.{
  FileLog, Appending, waits_for, Waiting, append, look, step, run, put_line, start_sync, end_sync,
  noted,
}
use stockastic.Prelude.Dict.{found-cases}
use stockastic.Trading.{Trade}
use stockastic.Prelude.{
  ℕ, ◌+◌, ◌≡◌, Bool, true, false, Option, none, some, List, [], ◌∷◌, ◌++◌, if◌then◌else◌, refl,
  arith, take, inl, inr, ◌||◌, leb, if-cases, length-append,
}
use stockastic.Prelude.Str.{Str}

module _ (json : Json Trade) where
  module _ (l : FileLog) (es : List (Envelope Trade)) (e : Envelope Trade) (m : Moment)
      (h : IsAtRest json (l, es)) where
    unchanged-IsGood : (why : Str) → IsGood json e (l, es) ((l, es), some why)
    unchanged-IsGood why = (h, (refl, inl (refl, refl)))

    torn-IsGood :
        (buffer why : Str)
        → l.broken ≡ false
        → IsGood json e
            (l, es)
            ((record l { buffer = buffer; broken = true }, es ++ e ∷ []), some why)
    torn-IsGood buffer why b =
        (record { idle = h.idle; whole = λ u. cc }, (refl, inr (b, refl, refl)))

    -- The look after a sync that broke the log.
    broke-IsGood :
        (l3 : FileLog)
        → l.broken ≡ false
        → l3.broken ≡ true
        → l3.syncing ≡ false
        → l3.synced ≡ l.synced
        → IsGood json e (l, es) ((l3, es ++ e ∷ []), answer (look l3 (l.pending + 1) false).1)
    unfolding look
    broke-IsGood l3 b b3 idle s =
        let (pending_is, synced_is) = h.whole b in
        let late : leb (l.pending + 1) l3.synced ≡ false = ground arith in
        rw (late, b3) (record { idle = idle; whole = λ u. cc }, (s, inr (b, refl, refl)))

    -- The look after a sync that covered the record.
    saved-IsGood :
        (l3 : FileLog)
        → l.broken ≡ false
        → l3.broken ≡ false
        → l3.syncing ≡ false
        → l3.pending ≡ l.pending + 1
        → l3.synced ≡ l.pending + 1
        → IsGood json e (l, es) ((l3, es ++ e ∷ []), answer (look l3 (l.pending + 1) false).1)
    unfolding look
    saved-IsGood l3 b b3 idle p s =
        let (pending_is, synced_is) = h.whole b in
        let longer = length-append es (e ∷ []) in
        let covered : leb (l.pending + 1) l3.synced ≡ true = ground arith in
        rw covered (
          record { idle = idle; whole = λ _. (omega arith, omega arith) },
          (b, b3, refl, (omega arith)),
        )

    -- The sync of a record that was not synced before: it breaks the log, or the record is synced.
    ended-IsGood :
        (l2 : FileLog) (refused : Bool)
        → l.broken ≡ false
        → l2.broken ≡ false
        → l2.synced ≡ l.synced
        → l2.pending ≡ l.pending + 1
        → l2.up_to ≡ l.pending + 1
        → let l3 = end_sync l2 refused in
          IsGood json e (l, es) ((l3, es ++ e ∷ []), answer (look l3 (l.pending + 1) false).1)
    unfolding end_sync
    ended-IsGood l2 sync_fails b b2 s p u =
        let (pending_is, synced_is) = h.whole b in
        let End : FileLog → Type 0 = λ l3.
          IsGood json e (l, es) ((l3, es ++ e ∷ []), answer (look l3 (l.pending + 1) false).1) in
        if-cases End (l2.refused || sync_fails) _ _
          (λ _. broke-IsGood (record l2 { syncing = false; broken = true }) b refl refl s)
          (λ _. saved-IsGood _ b b2 refl p (ground arith))

    look-syncs :
        (l1 : FileLog) (n : ℕ) (flush_fails : Bool)
        → leb n l1.synced ≡ false
        → l1.broken ≡ false
        → l1.syncing ≡ false
        → look l1 n flush_fails ≡ (start_sync l1 flush_fails, Waiting.syncs)
    unfolding look
    look-syncs l1 n flush_fails late b idle = rw (late, b, idle)

    flushed-IsGood :
        (buffer : Str) (flush_fails : Bool)
        → l.broken ≡ false
        → let l2 = start_sync (record l { buffer = buffer; pending = l.pending + 1 }) flush_fails in
          let l3 = if l2.syncing then end_sync l2 m.sync_fails else l2 in
          IsGood json e (l, es) ((l3, es ++ e ∷ []), answer (look l3 (l.pending + 1) false).1)
    unfolding start_sync
    flushed-IsGood buffer true b = ended-IsGood _ m.sync_fails b b refl refl refl
    flushed-IsGood buffer false b = ended-IsGood _ m.sync_fails b b refl refl refl

    -- The record's line is in the buffer: what the sync makes of it.
    put-IsGood :
        (buffer : Str)
        → l.broken ≡ false
        → let l1 = record l { buffer = buffer; pending = l.pending + 1 } in
          let l2 = (look l1 (l.pending + 1) m.flush_fails).0 in
          let l3 = if l2.syncing then end_sync l2 m.sync_fails else l2 in
          IsGood json e (l, es) ((l3, es ++ e ∷ []), answer (look l3 (l.pending + 1) false).1)
    put-IsGood buffer b =
        let (pending_is, synced_is) = h.whole b in
        let late : leb (l.pending + 1) l.synced ≡ false = ground arith in
        let l1 : FileLog = record l { buffer = buffer; pending = l.pending + 1 } in
        rw (look-syncs l1 (l.pending + 1) m.flush_fails late b h.idle)
          (flushed-IsGood buffer m.flush_fails b)

    -- The append was refused before it wrote anything.
    refused-IsGood :
        (x : Appending)
        → IsRefusal x
        → append json l e m.cut ≡ (l, x)
        → IsGood json e (l, es) (await json (l, es) e m x)
    unfolding step noted
    refused-IsGood Appending.not_encoded r ran = rw ran (unchanged-IsGood not_stored)
    refused-IsGood Appending.is_closed r ran = rw ran (unchanged-IsGood not_stored)
    refused-IsGood Appending.is_broken r ran = rw ran (unchanged-IsGood not_stored)
    refused-IsGood Appending.write_failed r ran = absurd r
    refused-IsGood (waits_for n) r ran = absurd r

    put_line-IsGood :
        (line : Str) (cut : Option ℕ)
        → l.broken ≡ false
        → append json l e m.cut ≡ put_line l line cut
        → IsGood json e (l, es) (await json (l, es) e m (put_line l line cut).1)
    unfolding run step noted put_line
    put_line-IsGood line none b ran = rw ran (put-IsGood (l.buffer ++ line) b)
    put_line-IsGood line (some n) b ran =
        rw ran (torn-IsGood (l.buffer ++ take n line) not_stored b)

    pub append_alone-IsGood : IsGood json e (l, es) (append_alone json (l, es) e m)
    unfolding append_alone append
    append_alone-IsGood =
        let P : FileLog × Appending → Type 0 =
          λ x. append json l e m.cut ≡ x → IsGood json e (l, es) (await json (l, es) e m x.1) in
        found-cases P (json.marshal e) _ _ (λ _ ran. refused-IsGood Appending.not_encoded tt ran)
          (λ s _.
            if-cases P l.closed _ _ (λ _ ran. refused-IsGood Appending.is_closed tt ran)
              (λ _.
                if-cases P l.broken _ _ (λ _ ran. refused-IsGood Appending.is_broken tt ran)
                  (λ b ran. put_line-IsGood (s ++ newline ∷ []) m.cut b ran)))
          refl
