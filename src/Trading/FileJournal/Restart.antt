-- ===== src/Trading/FileJournal/Restart.antt =====
-- What a restart finds after a crash (apps/api/internal/store/store.go: `OpenFile`, `Replay`).
use stockastic.Trading.FileJournal.{Moment, await, append_alone, commit_to_file}
use stockastic.Trading.FileJournal.Doubt.{trades, stored, in_doubt}
use stockastic.Log.{Envelope, Json}
use stockastic.Log.FileLog.{Written, Appending, called, looked, sync_ended, append, run, waits_for}
use stockastic.Log.Crashes.{IsInOrder, run-IsInOrder}
use stockastic.Log.Durability.{longer_begins}
use stockastic.Log.Reading.{hand_all}
use stockastic.Log.Kinds
use stockastic.Trading.{Trade}
use stockastic.Trading.Recovery.{Rebuilt, restore_trade, restore_trades}
use stockastic.Prelude.{
  zero, suc, ℕ, ◌≡◌, ◌≤◌, List, [], ◌∷◌, ◌++◌, refl, arith, ap, length, take, drop, map, if-cases,
  ◌∙◌, Option, Option-cases, none, some, inl, inr, take-append-drop, false,
}
use mathlib.Core.List.{map-append, append_assoc, append_cancel_left}
use stockastic.Prelude.Str.{Str, is_empty}

length-take_le {ℓ} : {A : Type ℓ} (n : ℕ) (xs : List A) → length (take n xs) ≤ n
length-take_le zero xs = omega arith
length-take_le (suc n) [] = omega arith
length-take_le (suc n) (x ∷ xs) = omega (arith, length-take_le n xs)

module _ (json : Json Trade) where
  await-IsInOrder :
      {base : Str} (w : Written json) (e : Envelope Trade) (m : Moment) (a : Appending)
      → is_empty e.k ≡ false
      → IsInOrder json base w.0 w.1
      → let w' = (await json w e m a).0 in IsInOrder json base w'.0 w'.1
  unfolding run
  await-IsInOrder w e m (waits_for n) kind h =
      run-IsInOrder json w (called e m.cut ∷ looked n m.flush_fails ∷ sync_ended m.sync_fails ∷ [])
        (kind, (tt, (tt, tt))) h
  await-IsInOrder w e m Appending.not_encoded kind h =
      run-IsInOrder json w (called e m.cut ∷ []) (kind, tt) h
  await-IsInOrder w e m Appending.is_closed kind h =
      run-IsInOrder json w (called e m.cut ∷ []) (kind, tt) h
  await-IsInOrder w e m Appending.is_broken kind h =
      run-IsInOrder json w (called e m.cut ∷ []) (kind, tt) h
  await-IsInOrder w e m Appending.write_failed kind h =
      run-IsInOrder json w (called e m.cut ∷ []) (kind, tt) h

  pub commit_to_file-IsInOrder :
      {base : Str} (t : Trade) (w : Written json) (m : Moment)
      → IsInOrder json base w.0 w.1
      → let w' = (commit_to_file json t w m).0 in IsInOrder json base w'.0 w'.1
  unfolding commit_to_file append_alone
  commit_to_file-IsInOrder {base} t w m h =
      let e : Envelope Trade = record { k = Kinds.trade; at = m.at; v = t } in
      if-cases (λ (r : Written json × _). IsInOrder json base r.0.0 r.0.1) m.disk_low _ _ (λ _. h)
        (λ _. await-IsInOrder w e m (append json w.0 e m.cut).1 refl h)

  -- What is found behind the trades that are stored is a beginning of those in doubt.
  pub finds-stored :
      (w : Written json) (kept rest : List (Envelope Trade))
      → w.1 ≡ kept ++ rest
      → w.0.synced ≤ length kept
      → (found : List Trade) × (in_doubt json w ≡ found ++ trades json rest)
        × (trades json kept ≡ stored json w ++ found)
  finds-stored w kept rest e h =
      let (l, es) = w in
      let first = take l.synced es in
      let short : length first ≤ length kept = omega (arith, length-take_le l.synced es, h) in
      let whole = take-append-drop l.synced es in
      let (more, begins) = longer_begins first (drop l.synced es) kept rest (whole ∙ e) short in
      let left : drop l.synced es ≡ more ++ rest =
        append_cancel_left first _ _
          (whole ∙ e ∙ ap (λ r. r ++ rest) begins ∙ append_assoc first more rest) in
      (
        trades json more,
        ap (trades json) left ∙ map-append (λ (x : Envelope Trade). x.v) more rest,
        ap (trades json) begins ∙ map-append (λ (x : Envelope Trade). x.v) first more,
      )

-- A record of the log, in a log that has trades only.
abbrev pub restore_record : Rebuilt → Str → Trade → Rebuilt × Option (Unit {0})
restore_record b kind t = elim (restore_trade t b) [ none ↦ (b, some tt) | some b' ↦ (b', none) ]

pub hand_all-restore_trades :
    (b b' : Rebuilt) (es : List (Envelope Trade))
    → restore_trades b (map (λ (e : Envelope Trade). e.v) es) ≡ some b'
    → hand_all restore_record b es ≡ (b', none)
unfolding restore_trades
hand_all-restore_trades b b' [] h = cc
hand_all-restore_trades b b' (e ∷ es) h = elim (Option-cases (restore_trade e.v b)) [
  | inl refused ↦ absurd (ground (arith, h, refused))
  | inr (b'', went) ↦
      let recorded : restore_record b e.k e.v ≡ (b'', none) = rw (went, restore_record) refl in
      ap
        (λ (x : Rebuilt × Option (Unit {0})). elim x.1 [
          | none ↦ hand_all restore_record x.0 es
          | some y ↦ (x.0, some y)
        ])
        recorded
      ∙ hand_all-restore_trades b'' b' es (rw (went, restore_trades) at h)
]

pub restore_trades-after :
    (b b' : Rebuilt) (ts us : List Trade)
    → restore_trades b ts ≡ some b'
    → restore_trades b (ts ++ us) ≡ restore_trades b' us
unfolding restore_trades
restore_trades-after b b' [] us h =
    ap (λ (o : Option Rebuilt). elim o [ none ↦ none | some x ↦ restore_trades x us ]) h
restore_trades-after b b' (t ∷ ts) us h = elim (Option-cases (restore_trade t b)) [
  | inl refused ↦ absurd (ground (arith, h, refused))
  | inr (b'', went) ↦
      rw (went, restore_trades) (restore_trades-after b'' b' ts us (rw (went, restore_trades) at h))
]
