-- ===== src/Trading/FileJournal/Doubt.antt =====
-- What a restart finds of the file log, and what it may find (apps/api/internal/store/store.go).
use stockastic.Trading.FileJournal.{Moment, commit_to_file, IsAtRest, IsGood, Commits}
use stockastic.Trading.FileJournal.Commits.{append_alone-IsGood}
use stockastic.Log.{Envelope, Json}
use stockastic.Log.FileLog.{Written}
use stockastic.Log.Kinds
use stockastic.Trading.{Trade}
use stockastic.Prelude.{
  take-append_exact, drop-append_exact, ℕ, ◌≡◌, true, false, Option, none, some, List, [], ◌∷◌,
  ◌++◌, refl, arith, ap, sym, length, take, drop, ◌⊎◌, inl, inr, map, if-cases, ◌∙◌, take_all,
  length-append,
}
use mathlib.Core.List.{map-append, append-nil}
use stockastic.Prelude.Str.{Str}

module _ (json : Json Trade) where
  pub commit_to_file-IsGood :
      (t : Trade) (w : Written json) (m : Moment)
      → IsAtRest json w
      → IsGood json (record { k = Kinds.trade; at = m.at; v = t }) w (commit_to_file json t w m)
  unfolding commit_to_file
  commit_to_file-IsGood t (l, es) m h =
      let e : Envelope Trade = record { k = Kinds.trade; at = m.at; v = t } in
      if-cases (IsGood json e (l, es)) m.disk_low _ _ (λ _. (h, (refl, inl (refl, refl))))
        (λ _. append_alone-IsGood json l es e m h)

  abbrev pub trades : List (Envelope Trade) → List Trade
  trades = map (λ (e : Envelope Trade). e.v)

  -- The records that count as synced, and the others that were written.
  abbrev pub stored : Written json → List Trade
  stored (l, es) = trades (take l.synced es)

  abbrev pub in_doubt : Written json → List Trade
  in_doubt (l, es) = trades (drop l.synced es)

  -- What a failed commit of the record does.
  abbrev pub Fails : Envelope Trade → Written json → Written json → Type 0
  Fails e w w' =
      (stored w' ≡ stored w)
      × (((in_doubt w' ≡ in_doubt w) × (w.0.broken ≡ true → w'.0.broken ≡ true))
          ⊎ ((w.0.broken ≡ false) × (w'.0.broken ≡ true) × (in_doubt w' ≡ in_doubt w ++ e.v ∷ [])))

  module _ (e : Envelope Trade) (w : Written json) (h : IsAtRest json w) where
    drop_whole : (ts : List (Envelope Trade)) (n : ℕ) → n ≡ length ts → drop n ts ≡ []
    drop_whole ts n same =
        ap (λ k. drop k ts) same
        ∙ ap (drop (length ts)) (sym (append-nil ts))
        ∙ drop-append_exact ts []

    pub Commits-stored :
        (r : Written json × Option Str)
        → r.1 ≡ none
        → Commits json e w r
        → (w.0.broken ≡ false) × (stored r.0 ≡ stored w ++ e.v ∷ []) × (in_doubt r.0 ≡ in_doubt w)
    Commits-stored (w', some _) refused c = cc
    Commits-stored (w', none) _ (unbroken, _, more, synced) =
        let (_, whole) = h.whole unbroken in
        let longer = length-append w.1 (e ∷ []) in
        (
          unbroken,
          ap trades (
                ap (take w'.0.synced) more
                ∙ take_all w'.0.synced (w.1 ++ e ∷ []) (omega arith)
                ∙ ap (λ r. r ++ e ∷ []) (sym (take_all w.0.synced w.1 (omega arith))))
              ∙ map-append (λ (x : Envelope Trade). x.v) (take w.0.synced w.1) (e ∷ []),
          ap trades (
              drop_whole w'.1 w'.0.synced
                (omega (arith, longer, ap (λ (r : List (Envelope Trade)). length r) more))
              ∙ sym (drop_whole w.1 w.0.synced whole)),
        )

    pub Commits-in_doubt :
        (r : Written json × Option Str) (text : Str)
        → r.1 ≡ some text
        → Commits json e w r
        → Fails e w r.0
    Commits-in_doubt (w', none) text refused c = cc
    Commits-in_doubt (w', some _) text _ (synced, inl (same, latch)) = (
      ap trades (ap (take w'.0.synced) same ∙ ap (λ n. take n w.1) synced),
      inl (ap trades (ap (drop w'.0.synced) same ∙ ap (λ n. drop n w.1) synced), λ b. latch ∙ b),
    )
    Commits-in_doubt (w', some _) text _ (synced, inr (unbroken, broken, more)) =
        let (_, whole) = h.whole unbroken in
        let covers : w'.0.synced ≡ length w.1 = synced ∙ whole in
        (
          ap trades (
              ap (take w'.0.synced) more
              ∙ ap (λ n. take n (w.1 ++ e ∷ [])) covers
              ∙ take-append_exact w.1 (e ∷ [])
              ∙ sym (take_all w.0.synced w.1 (omega arith))),
          inr (
            unbroken,
            broken,
            ap trades (
                  ap (drop w'.0.synced) more
                  ∙ ap (λ n. drop n (w.1 ++ e ∷ [])) covers
                  ∙ drop-append_exact w.1 (e ∷ []))
                ∙ ap (λ r. trades r ++ e.v ∷ []) (sym (drop_whole w.1 w.0.synced whole)),
          ),
        )
