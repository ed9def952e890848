-- ===== src/Log/Durability.antt =====
-- What a crash leaves of the log (apps/api/internal/store/store.go).
use stockastic.Log.{Envelope, Json, open_file, replay}
use stockastic.Log.FileLog.{
  FileLog, Event, called, Written, opened, append, put_line, look, noted, step, run, Appending,
  waits_for, Waiting, acknowledged,
}
use stockastic.Log.Crashes.{IsInOrder, opened-IsInOrder, run-IsInOrder, HasKind}
use stockastic.Log.Reading.{
  IsJson, IsGood, bytes_of, bytes_of-append, cut_file, open_file-torn, replay-records, hand_all,
}
use stockastic.Prelude.{
  ℕ, ◌+◌, ◌≡◌, ◌≤◌, Bool, false, Option, none, List, [], ◌∷◌, ◌++◌, leb, take, drop, length,
  length-append, take-append-drop, All, All-append, All-take, All-append_left, All-append_right,
  refl, sym, ap, ◌∙◌, arith, if-cases, leb→le,
}
use mathlib.Core.Path.{subst}
use mathlib.Core.List.{append_assoc, append-nil, tail-eq_of_cons-eq, head-eq_of_cons-eq}
use stockastic.Prelude.Dict.{found-cases}
use stockastic.Prelude.Str.{Str, is_empty}

-- Of two beginnings of a list, the longer one begins with the other.
pub longer_begins {ℓ} :
    {A : Type ℓ} (xs ys kept rest : List A)
    → xs ++ ys ≡ kept ++ rest
    → length xs ≤ length kept
    → (more : List A) × (kept ≡ xs ++ more)
longer_begins [] ys kept rest e h = (kept, refl)
longer_begins (x ∷ xs) ys [] rest e h = absurd (omega arith)
longer_begins (x ∷ xs) ys (y ∷ kept) rest e h =
    let (more, m) = longer_begins xs ys kept rest (tail-eq_of_cons-eq e) (omega arith) in
    (more, rw (head-eq_of_cons-eq e) (ap (λ r. y ∷ r) m))

module _ {V : Type 0} (j : Json V) where
  -- An append that waits for a sync has written its record, and has its number.
  append-waits :
      (l : FileLog) (es : List (Envelope V)) (e : Envelope V) (n : ℕ)
      → (append j l e none).1 ≡ waits_for n
      → (l.broken ≡ false)
        × (n ≡ l.pending + 1)
        × ((noted j es e (append j l e none)).1 ≡ es ++ e ∷ [])
  unfolding append put_line noted
  append-waits l es e n =
      let Waits : FileLog × Appending → Type 0 = λ x.
        x.1 ≡ waits_for n
        → (l.broken ≡ false) × (n ≡ l.pending + 1) × ((noted j es e x).1 ≡ es ++ e ∷ []) in
      found-cases Waits (j.marshal e) _ _ (λ _ w. cc)
        (λ s m.
          if-cases Waits l.closed _ _ (λ _ w. cc)
            (λ _. if-cases Waits l.broken _ _ (λ _ w. cc) (λ b w. (b, cc, refl))))

  acknowledged-le :
      (l : FileLog) (mine : ℕ) (flush_fails : Bool)
      → (look l mine flush_fails).1 ≡ acknowledged
      → mine ≤ l.synced
  unfolding look
  acknowledged-le l mine flush_fails =
      let Acked : FileLog × Waiting → Type 0 = λ x. x.1 ≡ acknowledged → mine ≤ l.synced in
      if-cases Acked (leb mine l.synced) _ _ (λ le _. leb→le mine l.synced le)
        (λ _.
          if-cases Acked l.broken _ _ (λ _ w. cc)
            (λ _. if-cases Acked l.syncing _ _ (λ _ w. cc) (λ _ w. cc)))

  noted-grows :
      (es : List (Envelope V)) (e : Envelope V) (x : FileLog × Appending)
      → (more : List (Envelope V)) × ((noted j es e x).1 ≡ es ++ more)
  unfolding noted
  noted-grows es e (l, waits_for n) = (e ∷ [], refl)
  noted-grows es e (l, Appending.write_failed) = (e ∷ [], refl)
  noted-grows es e (l, Appending.not_encoded) = ([], sym (append-nil es))
  noted-grows es e (l, Appending.is_closed) = ([], sym (append-nil es))
  noted-grows es e (l, Appending.is_broken) = ([], sym (append-nil es))

  step-grows :
      (w : Written j) (e : Event V) → (more : List (Envelope V)) × ((step j w e).1 ≡ w.1 ++ more)
  unfolding step
  step-grows (l, es) (called e cut) = noted-grows es e (append j l e cut)
  step-grows (l, es) (Event.looked _ _) = ([], sym (append-nil es))
  step-grows (l, es) (Event.sync_ended _) = ([], sym (append-nil es))
  step-grows (l, es) Event.asked_to_close = ([], sym (append-nil es))

  -- The list of written records only grows.
  run-grows :
      (w : Written j) (events : List (Event V))
      → (more : List (Envelope V)) × ((run j w events).1 ≡ w.1 ++ more)
  unfolding run
  run-grows w [] = ([], sym (append-nil w.1))
  run-grows w (e ∷ events) =
      let (first, s) = step-grows w e in
      let (more, r) = run-grows (step j w e) events in
      (first ++ more, r ∙ ap (λ es. es ++ more) s ∙ append_assoc w.1 first more)

  module _ (law : IsJson j) where
    bytes_left :
        {base : Str} {l : FileLog} {es : List (Envelope V)} (h : IsInOrder j base l es) (p q : Str)
        → p ++ q ≡ l.flushed ++ l.buffer
        → p ++ (q ++ h.lost) ≡ bytes_of j h.later
    bytes_left {base} {l} h p q e =
        sym (append_assoc p q h.lost)
        ∙ ap (λ r. r ++ h.lost) e
        ∙ append_assoc l.flushed l.buffer h.lost
        ∙ h.rest

    -- A crash leaves what was on disk and a beginning of the rest.
    pub crash-keeps :
        (saved : List (Envelope V)) {l : FileLog} {es : List (Envelope V)} (p q : Str)
        → All (IsGood j) saved
        → IsInOrder j (bytes_of j saved) l es
        → p ++ q ≡ l.flushed ++ l.buffer
        → (kept : List (Envelope V)) × (rest : List (Envelope V)) × (es ≡ kept ++ rest)
          × (l.synced ≤ length kept)
          × All (IsGood j) (saved ++ kept)
          × ((open_file j (l.disk ++ p)).0 ≡ bytes_of j (saved ++ kept))
    crash-keeps saved {l} {es} p q s h e =
        let parts_good = subst (All (IsGood j)) h.parts h.good in
        let later_good = All-append_right (IsGood j) h.done h.later parts_good in
        let (k, torn, p_is, u) =
          cut_file j law h.later p (q ++ h.lost) later_good (bytes_left h p q e) in
        let kept = h.done ++ take k h.later in
        let kept_good : All (IsGood j) (saved ++ kept) = All-append (IsGood j) saved kept s (
          All-append (IsGood j) h.done (take k h.later)
            (All-append_left (IsGood j) h.done h.later parts_good)
            (All-take (IsGood j) k h.later later_good)) in
        (
          kept,
          drop k h.later,
          h.parts
              ∙ ap (λ r. h.done ++ r) (sym (take-append-drop k h.later))
              ∙ sym (append_assoc h.done (take k h.later) (drop k h.later)),
          omega (arith, h.counted, length-append h.done (take k h.later)),
          kept_good,
          ap (λ file. (open_file j file).0)
                (rw
                  (
                    h.on_disk,
                    p_is,
                    bytes_of-append j saved kept,
                    bytes_of-append j h.done (take k h.later),
                  )
                  (simp append_assoc))
              ∙ open_file-torn j law (saved ++ kept) torn kept_good u,
        )

    -- No acknowledged record is lost: take a log that was opened with records that were saved, any
    -- appends, syncs that fail or not, and closing, in whatever order; a record whose append was given a
    -- number; anything after it; and a moment at which the append with that number is acknowledged. If
    -- the server crashes then, and the file has what was on disk and any beginning of the bytes that
    -- followed, then opening it leaves whole records, and a replay hands on what was saved, what was
    -- written before the record, the record, and some of what was written after it, in order, once each.
    -- Every record has a kind, and JSON reads back what it wrote.
    pub append-Survives :
        {S X : Type 0} (fn : S → Str → V → S × Option X) (s : S) (saved : List (Envelope V))
        (before after : List (Event V)) (e : Envelope V) (n : ℕ) (flush_fails : Bool) (p q : Str)
        → All (IsGood j) saved
        → All (HasKind j) before
        → is_empty e.k ≡ false
        → All (HasKind j) after
        → let w = run j (opened (bytes_of j saved), []) before in
          let (l, es) = run j w (called e none ∷ after) in
          (append j w.0 e none).1 ≡ waits_for n
          → (look l n flush_fails).1 ≡ acknowledged
          → p ++ q ≡ l.flushed ++ l.buffer
          → let file = (open_file j (l.disk ++ p)).0 in
            (more : List (Envelope V)) × (rest : List (Envelope V)) × (es
              ≡ (w.1 ++ e ∷ more) ++ rest)
            × (file ≡ bytes_of j (saved ++ (w.1 ++ e ∷ more)))
            × (replay j fn s file ≡ hand_all fn s (saved ++ (w.1 ++ e ∷ more)))
    unfolding run step
    append-Survives fn s saved before after e n flush_fails p q good kinds kind later numbered acked
          cut =
        let w = run j (opened (bytes_of j saved), []) before in
        let ordered =
          run-IsInOrder j (opened (bytes_of j saved), []) before kinds
            (opened-IsInOrder j (bytes_of j saved)) in
        let (unbroken, n_is, wrote) = append-waits w.0 w.1 e n numbered in
        let (others, grows) = run-grows (step j w (called e none)) after in
        let end = run j w (called e none ∷ after) in
        let (kept, rest, es_is, synced_le, kept_good, opens) =
          crash-keeps saved p q good
            (run-IsInOrder j w (called e none ∷ after) (kind, later) ordered) cut in
        let long : length (w.1 ++ e ∷ []) ≤ length kept = omega (
          arith,
          acknowledged-le end.0 n flush_fails acked,
          synced_le,
          n_is,
          (ordered.whole unbroken).1,
          length-append w.1 (e ∷ []),
        ) in
        let (more, begins) =
          longer_begins (w.1 ++ e ∷ []) others kept rest
            (ap (λ r. r ++ others) (sym wrote) ∙ sym grows ∙ es_is) long in
        let kept_is : kept ≡ w.1 ++ e ∷ more = begins ∙ append_assoc w.1 (e ∷ []) more in
        (
          more,
          rest,
          es_is ∙ ap (λ r. r ++ rest) kept_is,
          opens ∙ ap (λ r. bytes_of j (saved ++ r)) kept_is,
          ap (λ file. replay j fn s file) opens
              ∙ replay-records j law fn s (saved ++ kept) kept_good
              ∙ ap (λ r. hand_all fn s (saved ++ r)) kept_is,
        )
