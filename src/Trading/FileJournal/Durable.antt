-- ===== src/Trading/FileJournal/Durable.antt =====
-- The file log is a journal as the executor needs it (apps/api/internal/store/store.go, `Journal`).
use stockastic.Trading.FileJournal.Doubt.{
  stored, in_doubt, Fails, Commits-stored, Commits-in_doubt, commit_to_file-IsGood,
}
use stockastic.Trading.FileJournal.Restart.{
  commit_to_file-IsInOrder, finds-stored, restore_record, restore_trades-after,
  hand_all-restore_trades,
}
use stockastic.Log.Crashes.{IsInOrder}
use stockastic.Log.Durability.{crash-keeps}
use stockastic.Log.Reading.{IsJson, IsGood, bytes_of, replay-records}
use stockastic.Trading.FileJournal.Doubt.{trades}
use stockastic.Trading.FileJournal.{Moment, commit_to_file, IsAtRest}
use stockastic.Log.{Envelope, Json, open_file, replay}
use stockastic.Log.FileLog.{Written}
use stockastic.Log.Kinds
use stockastic.Trading.{Trade, State}
use stockastic.Trading.Recovery.{
  DurableJournal, Rebuilt, restore_trade, restore_trades, IsSettled, IsRecoverable,
}
use stockastic.Prelude.{
  All, ℕ, suc, ◌≡◌, true, false, Option, none, some, List, [], ◌∷◌, ◌++◌, refl, ap, sym, ◌⊎◌, inl,
  inr, ◌∙◌,
}
use mathlib.Core.Path.{subst}
use mathlib.Core.List.{map-append}
use stockastic.Prelude.Str.{Str}

-- `base` is what the log's file holds when it is opened.
module _ (json : Json Trade) (base : Str) where
  -- The log between two commits, and what the commits to come will meet.
  pub record Journal : Type 0 where
    pub log : Written json
    pub at_rest : IsAtRest json log
    pub in_order : IsInOrder json base log.0 log.1
    pub ahead : ℕ → Moment

  unfoldable pub commit : Trade → Journal → Journal × Option Str
  unfolding commit_to_file
  commit t j =
      let r = commit_to_file json t j.log (j.ahead 0) in
      (
        record {
          log = r.0;
          at_rest = (commit_to_file-IsGood json t j.log (j.ahead 0) j.at_rest).0;
          in_order = commit_to_file-IsInOrder json t j.log (j.ahead 0) j.in_order;
          ahead = λ n. j.ahead (suc n);
        },
        r.1,
      )

  pub commit-stores :
      (t : Trade) (j j' : Journal)
      → commit t j ≡ (j', none)
      → (j.log.0.broken ≡ false)
        × (stored json j'.log ≡ stored json j.log ++ t ∷ [])
        × (in_doubt json j'.log ≡ in_doubt json j.log)
  unfolding commit
  commit-stores t j j' h =
      let m = j.ahead 0 in
      let e : Envelope Trade = record { k = Kinds.trade; at = m.at; v = t } in
      let r = commit_to_file json t j.log m in
      let log_is : r.0 ≡ j'.log = ap (λ (x : Journal × Option Str). x.0.log) h in
      let (unbroken, more, same) =
        Commits-stored json e j.log j.at_rest r (ap (λ (x : Journal × Option Str). x.1) h)
          (commit_to_file-IsGood json t j.log m j.at_rest).1 in
      (unbroken, ap (stored json) (sym log_is) ∙ more, ap (in_doubt json) (sym log_is) ∙ same)

  pub commit-fails :
      (t : Trade) (j j' : Journal) (text : Str)
      → commit t j ≡ (j', some text)
      → (stored json j'.log ≡ stored json j.log)
        × (((in_doubt json j'.log ≡ in_doubt json j.log)
              × (j.log.0.broken ≡ true → j'.log.0.broken ≡ true))
            ⊎ ((j.log.0.broken ≡ false)
                × (j'.log.0.broken ≡ true)
                × (in_doubt json j'.log ≡ in_doubt json j.log ++ t ∷ [])))
  unfolding commit
  commit-fails t j j' text h =
      let m = j.ahead 0 in
      let e : Envelope Trade = record { k = Kinds.trade; at = m.at; v = t } in
      let r = commit_to_file json t j.log m in
      let log_is : r.0 ≡ j'.log = ap (λ (x : Journal × Option Str). x.0.log) h in
      subst (λ (w : Written json). Fails json e j.log w) log_is
        (Commits-in_doubt json e j.log j.at_rest r text (ap (λ (x : Journal × Option Str). x.1) h)
          (commit_to_file-IsGood json t j.log m j.at_rest).1)

  -- The law that the executor relies on holds of the file log, whatever fails in it.
  unfoldable pub file_journal : DurableJournal Journal
  unfolding commit
  file_journal = record {
    commit = commit;
    stored = λ j. stored json j.log;
    in_doubt = λ j. in_doubt json j.log;
    broken = λ j. j.log.0.broken;
    commit_stores = commit-stores;
    commit_fails = commit-fails;
  }

begins_one :
    {A : Type 0} (found rest : List A) (x : A)
    → found ++ rest ≡ x ∷ []
    → (found ≡ []) ⊎ (found ≡ x ∷ [])
begins_one [] rest x h = inl refl
begins_one (y ∷ []) rest x h = inr (cc)
begins_one (y ∷ z ∷ found) rest x h = absurd (cc)

begins_none : {A : Type 0} (found rest : List A) → found ++ rest ≡ [] → found ≡ []
begins_none [] rest h = refl
begins_none (y ∷ found) rest h = absurd (cc)

module _ (json : Json Trade) (law : IsJson json) (saved : List (Envelope Trade))
    (s : State (Journal json (bytes_of json saved))) where
  abbrev memory : Rebuilt
  memory = record { ledger = s.ledger; seen = s.seen }

  -- The restart has what stood in memory, or it has made the trade in doubt as well.
  abbrev IsRestarted : Rebuilt → Type 0
  IsRestarted b =
      (b ≡ memory)
      ⊎ ((t : Trade) × (in_doubt json s.journal.log ≡ t ∷ []) × (restore_trade t memory ≡ some b))

  restored-IsRestarted :
      (found rest : List Trade)
      → in_doubt json s.journal.log ≡ found ++ rest
      → IsSettled (file_journal json (bytes_of json saved)) s
      → (b : Rebuilt) × (restore_trades memory found ≡ some b) × IsRestarted b
  unfolding file_journal restore_trades
  restored-IsRestarted found rest e (inl none_left) =
      let nothing = begins_none found rest (sym e ∙ none_left) in
      (memory, ap (restore_trades memory) nothing, inl refl)
  restored-IsRestarted found rest e (inr (t, b, broken, one, unseen, replays)) =
      elim (begins_one found rest t (sym e ∙ one)) [
        | inl nothing ↦ (memory, ap (restore_trades memory) nothing, inl refl)
        | inr it ↦ (
          b,
          ap (restore_trades memory) it ∙ rw (replays, restore_trades) refl,
          inr (t, one, replays),
        )
      ]

  -- After a crash that leaves what was on disk and any beginning of the other bytes, the log opens, and
  -- its replay ends without an error in what stood in memory or, if a trade was in doubt, possibly in
  -- what a replay of that trade makes of it.
  restart-IsRestarted :
      (first start : Rebuilt) (p q : Str)
      → All (IsGood json) saved
      → restore_trades first (trades json saved) ≡ some start
      → IsRecoverable (file_journal json (bytes_of json saved)) start s
      → p ++ q ≡ s.journal.log.0.flushed ++ s.journal.log.0.buffer
      → let file = (open_file json (s.journal.log.0.disk ++ p)).0 in
        (b : Rebuilt) × (replay json restore_record first file ≡ (b, none)) × IsRestarted b
  unfolding file_journal
  restart-IsRestarted first start p q good restored (h, settled) cut =
      let (kept, rest, es_is, synced_le, kept_good, opens) =
        crash-keeps json law saved p q good s.journal.in_order cut in
      let (found, doubt, kept_is) = finds-stored json s.journal.log kept rest es_is synced_le in
      let (b, made, restarted) = restored-IsRestarted found (trades json rest) doubt settled in
      let all_restored : restore_trades first (trades json (saved ++ kept)) ≡ some b =
        ap (restore_trades first) (map-append (λ (e : Envelope Trade). e.v) saved kept)
        ∙ restore_trades-after first start (trades json saved) (trades json kept) restored
        ∙ ap (restore_trades start) kept_is
        ∙ restore_trades-after start memory (stored json s.journal.log) found h
        ∙ made in
      (
        b,
        ap (λ file. replay json restore_record first file) opens
            ∙ replay-records json law restore_record first (saved ++ kept) kept_good
            ∙ hand_all-restore_trades first b (saved ++ kept) all_restored,
        restarted,
      )
