-- ===== src/Log/Compaction/Newest.antt =====
-- The plan keeps the newest records of a group (apps/api/internal/store/compact.go).
use stockastic.Log.Compaction.{
  Rule, RecPos, Plan, Group, mark_all, last_of, keep_newest, latest_of, plan_group,
}
use stockastic.Log.Compaction.Positions.{IsIncreasing}
use stockastic.Log.Compaction.Plans.{
  newest, FreshAt, written_at, written_at-fresh, written_at-dropped, written_at-append,
  mark_all-other, mark_all-hits,
}
use stockastic.Log.Compaction.Rewriting.{read_at, text_at}
use stockastic.Prelude.{
  ℕ, zero, suc, ◌-◌, ◌<◌, ◌≤◌, ◌≡◌, ◌≢◌, ◌∙◌, ◌==◌, ==_iff, leb, leb→le, List, [], ◌∷◌, ◌++◌, map,
  length, take, drop, All, refl, sym, ap, arith, if-cases, All-take, All-drop, All-both,
  All-of_each, All-weaken, length-map, take-append-drop,
}
use stockastic.Prelude.Dict.{Dict, nat_key, lookup-insert_self}
use stockastic.Prelude.Str.{Str}

pub drop_nil {ℓ} : {A : Type ℓ} (n : ℕ) → drop {A = A} n [] ≡ []
drop_nil zero = refl
drop_nil (suc n) = refl

drop-map {ℓ κ} :
    {A : Type ℓ} {B : Type κ} (f : A → B) (n : ℕ) (xs : List A)
    → drop n (map f xs) ≡ map f (drop n xs)
drop-map f zero xs = refl
drop-map f (suc n) [] = refl
drop-map f (suc n) (x ∷ xs) = drop-map f n xs

newest_all {ℓ} : {A : Type ℓ} (n : ℕ) (xs : List A) → length xs ≤ n → newest n xs ≡ xs
newest_all n xs h = let none_left : length xs - n ≡ 0 = omega arith in ap (λ k. drop k xs) none_left

newest-one :
    {A : Type 0} (f : RecPos → A) (p : RecPos) (ps : List RecPos)
    → newest 1 (map f (p ∷ ps)) ≡ f (last_of p ps) ∷ []
unfolding last_of
newest-one f p [] = refl
newest-one f p (q ∷ ps) =
    let one_more : length (map f (p ∷ q ∷ ps)) - 1 ≡ suc (length (map f (q ∷ ps)) - 1) =
      omega arith in
    ap (λ n. drop n (map f (p ∷ q ∷ ps))) one_more ∙ newest-one f q ps

-- Positions that are dropped are not those that are kept.
separated :
    (n : ℕ) (ps : List RecPos)
    → IsIncreasing ps
    → All (λ q. All (λ p. p.idx ≢ q.idx) (take n ps)) (drop n ps)
separated zero ps h = All-of_each (λ q. Unit) ps (λ q. tt)
separated (suc n) [] h = tt
separated (suc n) (p ∷ ps) h =
    All-both (λ q. p.idx < q.idx) (λ q. All (λ p. p.idx ≢ q.idx) (take n ps))
      (λ q. All (λ p. p.idx ≢ q.idx) (take (suc n) (p ∷ ps))) (drop n ps)
      (λ q lt rest. (λ e. absurd (omega arith), rest)) (All-drop (λ q. p.idx < q.idx) n ps h.0)
      (separated n ps h.1)

module _ (bytes : Str) where
  keep_newest-newest :
      (pl : Plan) (p : RecPos) (ps : List RecPos)
      → IsIncreasing (p ∷ ps)
      → All (λ q. q.idx < length pl.dropped) ps
      → FreshAt pl p.idx
      → written_at bytes (keep_newest pl (p ∷ ps)) (p ∷ ps)
        ≡ newest 1 (map (read_at bytes) (p ∷ ps))
  unfolding keep_newest written_at
  keep_newest-newest pl p ps up range fresh =
      let others : All (λ q. q.idx ≢ p.idx) ps =
        All-weaken (λ (q : RecPos). p.idx < q.idx) (λ q. q.idx ≢ p.idx) ps
          (λ q lt e. absurd (omega arith)) up.0 in
      rw
        (
          mark_all-other ps pl.dropped p.idx others,
          fresh.0,
          text_at,
          lookup-insert_self p.idx (last_of p ps) pl.replace_with,
        )
        (ap (λ r. read_at bytes (last_of p ps) ∷ r)
            (written_at-dropped bytes (keep_newest pl (p ∷ ps)) ps
              (mark_all-hits ps pl.dropped range))
          ∙ sym (newest-one (read_at bytes) p ps))

  keep_newest_of_any :
      (pl : Plan) (recs : List RecPos)
      → IsIncreasing recs
      → All (λ q. q.idx < length pl.dropped) recs
      → All (λ q. FreshAt pl q.idx) recs
      → written_at bytes (keep_newest pl recs) recs ≡ newest 1 (map (read_at bytes) recs)
  unfolding written_at
  keep_newest_of_any pl [] up range fresh = sym (drop_nil (0 - 1))
  keep_newest_of_any pl (p ∷ ps) up range fresh = keep_newest-newest pl p ps up range.1 fresh.0

  drop_oldest-newest :
      (pl : Plan) (n : ℕ) (recs : List RecPos)
      → IsIncreasing recs
      → All (λ q. q.idx < length pl.dropped) recs
      → All (λ q. FreshAt pl q.idx) recs
      → written_at bytes (record pl { dropped = mark_all (take n recs) pl.dropped }) recs
        ≡ drop n (map (read_at bytes) recs)
  drop_oldest-newest pl n recs up range fresh =
      let pl' : Plan = record pl { dropped = mark_all (take n recs) pl.dropped } in
      let kept : All (λ q. FreshAt pl' q.idx) (drop n recs) =
        All-both (λ q. All (λ p. p.idx ≢ q.idx) (take n recs)) (λ q. FreshAt pl q.idx)
          (λ q. FreshAt pl' q.idx) (drop n recs)
          (λ q apart h. (mark_all-other (take n recs) pl.dropped q.idx apart ∙ h.0, h.1))
          (separated n recs up) (All-drop (λ q. FreshAt pl q.idx) n recs fresh) in
      ap (written_at bytes pl') (sym (take-append-drop n recs))
      ∙ written_at-append bytes pl' (take n recs) (drop n recs)
      ∙ ap (λ r. r ++ written_at bytes pl' (drop n recs))
          (written_at-dropped bytes pl' (take n recs) (
            mark_all-hits (take n recs) pl.dropped
              (All-take (λ q. q.idx < length pl.dropped) n recs range)))
      ∙ written_at-fresh bytes pl' (drop n recs) kept
      ∙ sym (drop-map (read_at bytes) n recs)

  module _ {V : Type 0} (rules : Dict Str (Rule V)) where
    -- Of a group that nothing was decided of, the plan keeps the newest records, as many as the rule says.
    pub plan_group-newest :
        (pl : Plan) (g : Group) (recs : List RecPos)
        → IsIncreasing recs
        → All (λ q. q.idx < length pl.dropped) recs
        → All (λ q. FreshAt pl q.idx) recs
        → written_at bytes (plan_group rules pl g recs) recs
          ≡ newest (latest_of rules g.0) (map (read_at bytes) recs)
    unfolding plan_group
    plan_group-newest pl g recs up range fresh =
        let keep = latest_of rules g.0 in
        let all = map (read_at bytes) recs in
        let Newest : Plan → Type 0 = λ pl'. written_at bytes pl' recs ≡ newest keep all in
        if-cases Newest (leb (length recs) keep) _ _
          (λ few.
            written_at-fresh bytes pl recs fresh
            ∙ sym (newest_all keep all (rw (length-map (read_at bytes) recs) (leb→le _ _ few))))
          (λ many.
            if-cases Newest (keep == 1) _ _
              (λ one.
                keep_newest_of_any pl recs up range fresh
                ∙ ap (λ n. newest n all) (sym ((==_iff keep 1).0 one)))
              (λ _.
                drop_oldest-newest pl (length recs - keep) recs up range fresh
                ∙ ap (λ n. drop (n - keep) all) (sym (length-map (read_at bytes) recs))))
