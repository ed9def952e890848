-- ===== src/Log/Compaction/Groups.antt =====
-- The plan for all groups: what it does to one group's records is what that group's turn does
-- (apps/api/internal/store/compact.go).
use stockastic.Log.{Json}
use stockastic.Log.Compaction.{
  Rule, RecPos, Plan, Group, last_of, keep_newest, latest_of, plan_group, plan_all,
}
use stockastic.Log.Compaction.Positions.{IsIncreasing, TaggedAt, tag}
use stockastic.Log.Compaction.Plans.{
  newest, SameAt, FreshAt, written_at, written_at-same, plan_group-other, length-plan_group,
}
use stockastic.Log.Compaction.Newest.{plan_group-newest}
use stockastic.Log.Compaction.Rewriting.{read_at}
use stockastic.Prelude.{
  ℕ, ◌<◌, ◌≡◌, ◌≢◌, ◌∙◌, inl, inr, ◌==◌, ==_iff, leb, Option, none, some, List, [], ◌∷◌, map,
  length, get_elem?, All, refl, sym, ap, Bool-cases, if-cases, All-weaken, All-both,
}
use mathlib.Core.Path.{subst}
use stockastic.Prelude.Dict.{
  Dict, str_pair_key, pair_eq_iff, nat_key, lookup, lookup-insert, AllEntries, HasOnce, some_eq,
}
use stockastic.Prelude.Str.{Str}

module _ {V : Type 0} (j : Json V) (rules : Dict Str (Rule V)) (bytes : Str) (all : List Str) where
  abbrev pub AreTagged : Group → List RecPos → Type 0
  AreTagged g recs = All (TaggedAt j rules bytes all (some g)) recs

  -- The line of record `k` is in the group, or in none.
  abbrev pub HasTag : Option Group → ℕ → Type 0
  HasTag t k = (line : Str) × (get_elem? all k ≡ some line) × (tag j rules line ≡ t)

  apart :
      (t u : Option Group) (k : ℕ) (p : RecPos)
      → HasTag t k
      → t ≢ u
      → TaggedAt j rules bytes all u p
      → p.idx ≢ k
  apart t u k p (line, at_k, has_t) differ h same = differ (
      sym has_t
      ∙ ap (tag j rules) (some_eq line h.line (sym at_k ∙ ap (get_elem? all) (sym same) ∙ h.found))
      ∙ h.tagged)

  -- There is no entry for the group.
  abbrev pub Lacks : Option Group → Dict Group (List RecPos) → Type 0
  Lacks none groups = Unit
  Lacks (some g) groups = lookup g groups ≡ none

  Lacks-next :
      (t : Option Group) (g : Group) (recs : List RecPos) (groups : Dict Group (List RecPos))
      → Lacks t ((g, recs) ∷ groups)
      → (t ≢ some g) × Lacks t groups
  unfolding lookup
  Lacks-next none g recs groups h = (λ e. cc, tt)
  Lacks-next (some k) g recs groups h = elim (Bool-cases (str_pair_key.beq g k)) [
    | inl same ↦ absurd (missing (rw same at h))
    | inr other ↦ (λ e. cc ((pair_eq_iff g k).1 (sym (some_eq k g e))), rw other at h)
  ]
    where
      missing : some recs ≡ none → ⊥
      missing e = cc

  pub plan_all-other :
      (pl : Plan) (groups : Dict Group (List RecPos)) (t : Option Group) (k : ℕ)
      → AllEntries AreTagged groups
      → Lacks t groups
      → HasTag t k
      → SameAt (plan_all rules pl groups) pl k
  unfolding plan_all
  plan_all-other pl [] t k tagged lacks has = (refl, refl)
  plan_all-other pl ((g, recs) ∷ groups) t k tagged lacks has =
      let (differ, rest) = Lacks-next t g recs groups lacks in
      let far =
        All-weaken (TaggedAt j rules bytes all (some g)) (λ p. p.idx ≢ k) recs
          (λ p h. apart t (some g) k p has differ h) tagged.0 in
      let now = plan_group-other rules pl g recs k far in
      let later = plan_all-other (plan_group rules pl g recs) groups t k tagged.1 rest has in
      (later.0 ∙ now.0, later.1 ∙ now.1)

  of_group :
      (g : Group) (p : RecPos) → TaggedAt j rules bytes all (some g) p → HasTag (some g) p.idx
  of_group g p h = (h.line, h.found, h.tagged)

  -- Of each group, the newest records are written, as many as the rule says.
  pub plan_all-newest :
      (pl : Plan) (groups : Dict Group (List RecPos)) (g : Group) (recs : List RecPos)
      → AllEntries AreTagged groups
      → HasOnce groups
      → lookup g groups ≡ some recs
      → AreTagged g recs
      → IsIncreasing recs
      → All (λ q. q.idx < length pl.dropped) recs
      → All (λ q. FreshAt pl q.idx) recs
      → written_at bytes (plan_all rules pl groups) recs
        ≡ newest (latest_of rules g.0) (map (read_at bytes) recs)
  unfolding plan_all lookup
  plan_all-newest pl [] g recs tagged once found ours up range fresh = cc
  plan_all-newest pl ((h, hs) ∷ groups) g recs tagged once found ours up range fresh =
      elim (Bool-cases (str_pair_key.beq h g)) [
        | inl same ↦
            let is_g = (pair_eq_iff h g).0 same in
            let is_recs = some_eq hs recs (rw same at found) in
            let pl' = plan_group rules pl h hs in
            let rest_same =
              All-weaken (TaggedAt j rules bytes all (some g))
                (λ p. SameAt (plan_all rules pl' groups) pl' p.idx) recs
                (λ p has.
                  plan_all-other pl' groups (some g) p.idx tagged.1
                    (subst (λ k. lookup k groups ≡ none) is_g once.0) (of_group g p has))
                ours in
            written_at-same bytes (plan_all rules pl' groups) pl' recs rest_same
            ∙ ap (λ k. written_at bytes (plan_group rules pl k hs) recs) is_g
            ∙ ap (λ r. written_at bytes (plan_group rules pl g r) recs) is_recs
            ∙ plan_group-newest bytes rules pl g recs up range fresh
        | inr other ↦
            let pl' = plan_group rules pl h hs in
            let differ : some g ≢ some h = λ e. cc ((pair_eq_iff h g).1 (sym (some_eq g h e))) in
            let same_here : All (λ p. SameAt pl' pl p.idx) recs =
              All-weaken (TaggedAt j rules bytes all (some g)) (λ p. SameAt pl' pl p.idx) recs
                (λ p has. plan_group-other rules pl h hs p.idx (
                  All-weaken (TaggedAt j rules bytes all (some h)) (λ q. q.idx ≢ p.idx) hs
                    (λ q has_q. apart (some g) (some h) p.idx q (of_group g p has) differ has_q)
                    tagged.0))
                ours in
            plan_all-newest pl' groups g recs tagged.1 once.1 (rw other at found) ours up
              (All-weaken (λ (q : RecPos). q.idx < length pl.dropped)
                (λ q. q.idx < length pl'.dropped) recs
                (λ q lt. rw (length-plan_group rules pl h hs) lt) range)
              (All-both (λ (q : RecPos). SameAt pl' pl q.idx) (λ q. FreshAt pl q.idx)
                (λ q. FreshAt pl' q.idx) recs (λ q s f. (s.0 ∙ f.0, s.1 ∙ f.1)) same_here fresh)
      ]

  -- A record that is replaced is replaced by one of its own group.
  abbrev pub ReplacesAlike : Plan → Type 0
  ReplacesAlike pl =
      (k : ℕ) (p : RecPos)
      → lookup k pl.replace_with ≡ some p
      → (t : Option Group) × HasTag t k × TaggedAt j rules bytes all t p

  All-last_of :
      (P : RecPos → Type 0) (p : RecPos) (ps : List RecPos) → All P (p ∷ ps) → P (last_of p ps)
  unfolding last_of
  All-last_of P p [] h = h.0
  All-last_of P p (q ∷ ps) h = All-last_of P q ps h.1

  keep_newest-ReplacesAlike :
      (pl : Plan) (g : Group) (recs : List RecPos)
      → AreTagged g recs
      → ReplacesAlike pl
      → ReplacesAlike (keep_newest pl recs)
  unfolding keep_newest
  keep_newest-ReplacesAlike pl g [] tagged h k p found = h k p found
  keep_newest-ReplacesAlike pl g (first ∷ rest) tagged h k p found =
      let last = last_of first rest in
      elim (Bool-cases (first.idx == k)) [
        | inl same ↦
            let is_last =
              some_eq last p (rw (lookup-insert first.idx k last pl.replace_with, same) at found) in
            let at_k = (==_iff first.idx k).0 same in
            (
              some g,
              subst (HasTag (some g)) at_k (of_group g first tagged.0),
              subst (TaggedAt j rules bytes all (some g)) is_last
                  (All-last_of (TaggedAt j rules bytes all (some g)) first rest tagged),
            )
        | inr other ↦ h k p (rw (lookup-insert first.idx k last pl.replace_with, other) at found)
      ]

  plan_group-ReplacesAlike :
      (pl : Plan) (g : Group) (recs : List RecPos)
      → AreTagged g recs
      → ReplacesAlike pl
      → ReplacesAlike (plan_group rules pl g recs)
  unfolding plan_group
  plan_group-ReplacesAlike pl g recs tagged h =
      let keep = latest_of rules g.0 in
      if-cases ReplacesAlike (leb (length recs) keep) _ _ (λ _. h)
        (λ _.
          if-cases ReplacesAlike (keep == 1) _ _ (λ _. keep_newest-ReplacesAlike pl g recs tagged h)
            (λ _. h))

  pub plan_all-ReplacesAlike :
      (pl : Plan) (groups : Dict Group (List RecPos))
      → AllEntries AreTagged groups
      → ReplacesAlike pl
      → ReplacesAlike (plan_all rules pl groups)
  unfolding plan_all
  plan_all-ReplacesAlike pl [] tagged h = h
  plan_all-ReplacesAlike pl ((g, recs) ∷ groups) tagged h =
      plan_all-ReplacesAlike (plan_group rules pl g recs) groups tagged.1
        (plan_group-ReplacesAlike pl g recs tagged.0 h)
