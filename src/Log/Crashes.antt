-- ===== src/Log/Crashes.antt =====
-- Where the bytes of the records are, at every moment (apps/api/internal/store/store.go, group commit).
use stockastic.Log.{Envelope, Json, newline}
use stockastic.Log.FileLog.{
  FileLog, Event, called, looked, sync_ended, asked_to_close, Written, opened, append, put_line,
  look, start_sync, end_sync, close, noted, step, run, Appending, Waiting,
}
use stockastic.Log.Reading.{IsGood, line_of, bytes_of, bytes_of-append, line_of-eq}
use stockastic.Prelude.{
  ℕ, ◌+◌, ◌≡◌, Bool, true, false, ◌||◌, Option, none, some, List, [], ◌∷◌, ◌++◌, leb, take, drop,
  length, length-append, take-append-drop, All, All-append, refl, sym, ap, ◌∙◌, arith, if-cases,
}
use mathlib.Core.List.{append_assoc, append-nil, append_cancel_left}
use stockastic.Prelude.Dict.{found-cases}
use stockastic.Prelude.Str.{Str, is_empty}

module _ {V : Type 0} (j : Json V) where
  -- The running sync's flush took whole records: those up to the number that the sync remembers.
  pub record IsSent (l : FileLog) (done later : List (Envelope V)) : Type 0 where
    pub sent : List (Envelope V)
    pub waiting : List (Envelope V)
    pub parts : later ≡ sent ++ waiting
    pub bytes : l.flushed ≡ bytes_of j sent
    pub number : l.up_to ≡ length (done ++ sent)

  -- The records `done` are on disk and are those that count as synced. The bytes of the others follow, but
  -- for `lost`, which a failed write did not take.
  pub record IsInOrder (base : Str) (l : FileLog) (es : List (Envelope V)) : Type 0 where
    pub done : List (Envelope V)
    pub later : List (Envelope V)
    pub lost : Str
    pub parts : es ≡ done ++ later
    pub on_disk : l.disk ≡ base ++ bytes_of j done
    pub counted : l.synced ≡ length done
    pub rest : l.flushed ++ (l.buffer ++ lost) ≡ bytes_of j later
    pub whole : l.broken ≡ false → (lost ≡ []) × (l.pending ≡ length es)
    pub sending : l.syncing ≡ true → l.refused ≡ false → IsSent l done later
    pub good : All (IsGood j) es

  pub opened-IsInOrder : (base : Str) → IsInOrder base (opened base) []
  unfolding opened
  opened-IsInOrder base = record {
    done = [];
    later = [];
    lost = [];
    parts = refl;
    on_disk = sym (append-nil base);
    counted = refl;
    rest = refl;
    whole = λ _. (refl, refl);
    sending = λ running. cc;
    good = tt;
  }

  module _ {base : Str} {l : FileLog} {es : List (Envelope V)} (h : IsInOrder base l es) where
    line_added :
        (e : Envelope V) → bytes_of j (h.later ++ e ∷ []) ≡ bytes_of j h.later ++ line_of j e
    line_added e =
        bytes_of-append j h.later (e ∷ [])
        ∙ ap (λ r. bytes_of j h.later ++ r) (append-nil (line_of j e))

    one_more : (e : Envelope V) → es ++ e ∷ [] ≡ h.done ++ (h.later ++ e ∷ [])
    one_more e = ap (λ r. r ++ e ∷ []) h.parts ∙ append_assoc h.done h.later (e ∷ [])

    rest_whole : l.broken ≡ false → l.flushed ++ l.buffer ≡ bytes_of j h.later
    rest_whole b =
        ap (λ r. l.flushed ++ r)
          (sym (append-nil l.buffer) ∙ ap (λ r. l.buffer ++ r) (sym (h.whole b).0))
        ∙ h.rest

    -- One more record, of which the writer took a part.
    append_part-IsInOrder :
        (e : Envelope V) (taken lost : Str) (pending : ℕ) (broken : Bool)
        → IsGood j e
        → l.broken ≡ false
        → taken ++ lost ≡ line_of j e
        → (broken ≡ false → (lost ≡ []) × (pending ≡ length es + 1))
        → IsInOrder base
            (record l { buffer = l.buffer ++ taken; pending = pending; broken = broken })
            (es ++ e ∷ [])
    append_part-IsInOrder e taken lost pending broken g b line whole = record {
      done = h.done;
      later = h.later ++ e ∷ [];
      lost = lost;
      parts = one_more e;
      on_disk = h.on_disk;
      counted = h.counted;
      rest = rw (line_added e, ← rest_whole b, ← line) (simp append_assoc);
      whole = λ u. ((whole u).0, omega (arith, (whole u).1, length-append es (e ∷ [])));
      sending = λ r f.
          let s = h.sending r f in
          record {
            sent = s.sent;
            waiting = s.waiting ++ e ∷ [];
            parts = ap (λ r. r ++ e ∷ []) s.parts ∙ append_assoc s.sent s.waiting (e ∷ []);
            bytes = s.bytes;
            number = s.number;
          };
      good = All-append (IsGood j) es (e ∷ []) h.good (g, tt);
    }

    put_line-IsInOrder :
        (e : Envelope V) (s : Str) (cut : Option ℕ)
        → is_empty e.k ≡ false
        → j.marshal e ≡ some s
        → l.broken ≡ false
        → let (l', es') = noted j es e (put_line l (s ++ newline ∷ []) cut) in IsInOrder base l' es'
    unfolding put_line noted
    put_line-IsInOrder e s none kind m b = rw (← line_of-eq j e s m) (
        append_part-IsInOrder e (line_of j e) [] (l.pending + 1) l.broken (kind, (s, m)) b
          (append-nil (line_of j e)) (λ u. (refl, omega (arith, (h.whole b).1))))
    put_line-IsInOrder e s (some n) kind m b = rw (← line_of-eq j e s m) (
        append_part-IsInOrder e (take n (line_of j e)) (drop n (line_of j e)) l.pending true
          (kind, (s, m)) b (take-append-drop n (line_of j e)) (λ u. cc))

    append-IsInOrder :
        (e : Envelope V) (cut : Option ℕ)
        → is_empty e.k ≡ false
        → let (l', es') = noted j es e (append j l e cut) in IsInOrder base l' es'
    unfolding append noted
    append-IsInOrder e cut kind =
        let InOrder : FileLog × Appending → Type 0 =
          λ x. IsInOrder base (noted j es e x).0 (noted j es e x).1 in
        found-cases InOrder (j.marshal e) _ _ (λ _. h)
          (λ s m.
            if-cases InOrder l.closed _ _ (λ _. h)
              (λ _.
                if-cases InOrder l.broken _ _ (λ _. h) (λ b. put_line-IsInOrder e s cut kind m b)))

    start_sync-IsInOrder :
        (flush_fails : Bool) → l.broken ≡ false → IsInOrder base (start_sync l flush_fails) es
    unfolding start_sync
    start_sync-IsInOrder true b = record {
      done = h.done;
      later = h.later;
      lost = h.lost;
      parts = h.parts;
      on_disk = h.on_disk;
      counted = h.counted;
      rest = h.rest;
      whole = h.whole;
      sending = λ r f. cc;
      good = h.good;
    }
    start_sync-IsInOrder false b = record {
      done = h.done;
      later = h.later;
      lost = h.lost;
      parts = h.parts;
      on_disk = h.on_disk;
      counted = h.counted;
      rest = append_assoc l.flushed l.buffer h.lost ∙ h.rest;
      whole = h.whole;
      sending = λ r f. record {
        sent = h.later;
        waiting = [];
        parts = sym (append-nil h.later);
        bytes = rest_whole b;
        number = (h.whole b).1 ∙ ap length h.parts;
      };
      good = h.good;
    }

    look-IsInOrder : (mine : ℕ) (flush_fails : Bool) → IsInOrder base (look l mine flush_fails).0 es
    unfolding look
    look-IsInOrder mine flush_fails =
        let InOrder : FileLog × Waiting → Type 0 = λ x. IsInOrder base x.0 es in
        if-cases InOrder (leb mine l.synced) _ _ (λ _. h)
          (λ _.
            if-cases InOrder l.broken _ _ (λ _. h)
              (λ b.
                if-cases InOrder l.syncing _ _ (λ _. h) (λ _. start_sync-IsInOrder flush_fails b)))

    end_sync-IsInOrder :
        (sync_fails : Bool) → l.syncing ≡ true → IsInOrder base (end_sync l sync_fails) es
    unfolding end_sync
    end_sync-IsInOrder sync_fails r =
        if-cases (λ l'. IsInOrder base l' es) (l.refused || sync_fails) _ _
          (λ _. record {
            done = h.done;
            later = h.later;
            lost = h.lost;
            parts = h.parts;
            on_disk = h.on_disk;
            counted = h.counted;
            rest = h.rest;
            whole = λ b. cc;
            sending = λ r f. cc;
            good = h.good;
          })
          (λ fine.
            let s = h.sending r (ground arith) in
            record {
              done = h.done ++ s.sent;
              later = s.waiting;
              lost = h.lost;
              parts =
                  h.parts
                  ∙ ap (λ r. h.done ++ r) s.parts
                  ∙ sym (append_assoc h.done s.sent s.waiting);
              on_disk =
                  rw (h.on_disk, s.bytes, bytes_of-append j h.done s.sent)
                    (append_assoc base (bytes_of j h.done) (bytes_of j s.sent));
              counted = ground (arith, h.counted, s.number, length-append h.done s.sent);
              rest = append_cancel_left (bytes_of j s.sent) _ _ (
                  ap (λ r. r ++ (l.buffer ++ h.lost)) (sym s.bytes)
                  ∙ h.rest
                  ∙ ap (bytes_of j) s.parts
                  ∙ bytes_of-append j s.sent s.waiting);
              whole = h.whole;
              sending = λ r f. cc;
              good = h.good;
            })

    close-IsInOrder : IsInOrder base (close l) es
    unfolding close
    close-IsInOrder =
        if-cases (λ l'. IsInOrder base l' es) (l.syncing || l.closed) _ _ (λ _. h)
          (λ open_still. record {
            done = h.done;
            later = h.later;
            lost = h.lost;
            parts = h.parts;
            on_disk = h.on_disk;
            counted = h.counted;
            rest = append_assoc l.flushed l.buffer h.lost ∙ h.rest;
            whole = h.whole;
            sending = λ r f. absurd (ground arith);
            good = h.good;
          })

  -- Every record that is written can be read back.
  abbrev pub HasKind : Event V → Type 0
  HasKind (called e _) = is_empty e.k ≡ false
  HasKind _ = Unit {0}

  step-IsInOrder :
      {base : Str} {w : Written j} (e : Event V)
      → HasKind e
      → IsInOrder base w.0 w.1
      → IsInOrder base (step j w e).0 (step j w e).1
  unfolding step
  step-IsInOrder (called e cut) kind h = append-IsInOrder h e cut kind
  step-IsInOrder (looked mine flush_fails) kind h = look-IsInOrder h mine flush_fails
  step-IsInOrder {base} {w} (sync_ended sync_fails) kind h =
      if-cases (λ l'. IsInOrder base l' w.1) w.0.syncing _ _ (end_sync-IsInOrder h sync_fails)
        (λ _. h)
  step-IsInOrder asked_to_close kind h = close-IsInOrder h

  pub run-IsInOrder :
      {base : Str} (w : Written j) (events : List (Event V))
      → All HasKind events
      → IsInOrder base w.0 w.1
      → IsInOrder base (run j w events).0 (run j w events).1
  unfolding run
  run-IsInOrder w [] kinds h = h
  run-IsInOrder w (e ∷ es) kinds h =
      run-IsInOrder (step j w e) es kinds.1 (step-IsInOrder e kinds.0 h)
