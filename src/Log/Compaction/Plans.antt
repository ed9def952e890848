-- ===== src/Log/Compaction/Plans.antt =====
-- What the plan does to the records of one group (apps/api/internal/store/compact.go).
use stockastic.Log.Compaction.{
  Rule, RecPos, Plan, Group, mark_all, last_of, keep_newest, latest_of, plan_group,
}
use stockastic.Log.Compaction.Rewriting.{read_at, text_at}
use stockastic.Prelude.{
  ℕ, zero, suc, ◌-◌, ◌<◌, ◌≡◌, ◌≢◌, ◌∙◌, ◌==◌, leb, Bool, true, false, none, List, [], ◌∷◌, ◌++◌,
  map, if◌then◌else◌, length, take, drop, set, get_or, All, refl, arith, Bool-cases, if-cases,
  All-take, All-weaken, get_or-set_other, get_or-set_self, length-set, inl, inr,
}
use stockastic.Prelude.Dict.{Dict, nat_key, lookup, lookup-insert}
use stockastic.Prelude.Str.{Str}

-- The last `n` elements.
abbrev pub newest {ℓ} : {A : Type ℓ} → ℕ → List A → List A
newest n xs = drop (length xs - n) xs

pub mark_all-other :
    (ps : List RecPos) (d : List Bool) (k : ℕ)
    → All (λ p. p.idx ≢ k) ps
    → get_or (mark_all ps d) k false ≡ get_or d k false
unfolding mark_all
mark_all-other [] d k h = refl
mark_all-other (p ∷ ps) d k h =
    mark_all-other ps (set d p.idx true) k h.1 ∙ get_or-set_other d p.idx k true false h.0

get_or-set-true :
    (d : List Bool) (i k : ℕ) → get_or d k false ≡ true → get_or (set d i true) k false ≡ true
get_or-set-true [] i k h = h
get_or-set-true (x ∷ d) zero zero h = refl
get_or-set-true (x ∷ d) zero (suc k) h = h
get_or-set-true (x ∷ d) (suc i) zero h = h
get_or-set-true (x ∷ d) (suc i) (suc k) h = get_or-set-true d i k h

mark_all-keeps :
    (ps : List RecPos) (d : List Bool) (k : ℕ)
    → get_or d k false ≡ true
    → get_or (mark_all ps d) k false ≡ true
unfolding mark_all
mark_all-keeps [] d k h = h
mark_all-keeps (p ∷ ps) d k h = mark_all-keeps ps (set d p.idx true) k (get_or-set-true d p.idx k h)

length-mark_all : (ps : List RecPos) (d : List Bool) → length (mark_all ps d) ≡ length d
unfolding mark_all
length-mark_all [] d = refl
length-mark_all (p ∷ ps) d = length-mark_all ps (set d p.idx true) ∙ length-set d p.idx true

pub mark_all-hits :
    (ps : List RecPos) (d : List Bool)
    → All (λ p. p.idx < length d) ps
    → All (λ p. get_or (mark_all ps d) p.idx false ≡ true) ps
unfolding mark_all
mark_all-hits [] d h = tt
mark_all-hits (p ∷ ps) d h = (
  mark_all-keeps ps (set d p.idx true) p.idx (get_or-set_self d p.idx true false h.0),
  mark_all-hits ps (set d p.idx true) (
      All-weaken (λ (q : RecPos). q.idx < length d) (λ q. q.idx < length (set d p.idx true)) ps
        (λ q lt. rw (length-set d p.idx true) lt) h.1),
)

-- Two plans say the same of record `k`.
abbrev pub SameAt : Plan → Plan → ℕ → Type 0
SameAt pl pl' k =
    (get_or pl.dropped k false ≡ get_or pl'.dropped k false)
    × (lookup k pl.replace_with ≡ lookup k pl'.replace_with)

-- A plan says nothing of record `k`: it stays as it is.
abbrev pub FreshAt : Plan → ℕ → Type 0
FreshAt pl k = (get_or pl.dropped k false ≡ false) × (lookup k pl.replace_with ≡ none)

keep_newest-other :
    (pl : Plan) (recs : List RecPos) (k : ℕ)
    → All (λ p. p.idx ≢ k) recs
    → SameAt (keep_newest pl recs) pl k
unfolding keep_newest
keep_newest-other pl [] k h = (refl, refl)
keep_newest-other pl (p ∷ ps) k h = (
  mark_all-other ps pl.dropped k h.1,
  rw (lookup-insert p.idx k (last_of p ps) pl.replace_with) (ground (arith, h.0)),
)

module _ {V : Type 0} (rules : Dict Str (Rule V)) where
  pub plan_group-other :
      (pl : Plan) (g : Group) (recs : List RecPos) (k : ℕ)
      → All (λ p. p.idx ≢ k) recs
      → SameAt (plan_group rules pl g recs) pl k
  unfolding plan_group
  plan_group-other pl g recs k h =
      let keep = latest_of rules g.0 in
      let Same : Plan → Type 0 = λ pl'. SameAt pl' pl k in
      if-cases Same (leb (length recs) keep) _ _ (λ _. (refl, refl))
        (λ _.
          if-cases Same (keep == 1) _ _ (λ _. keep_newest-other pl recs k h)
            (λ _. (
              mark_all-other (take (length recs - keep) recs) pl.dropped k
                  (All-take (λ p. p.idx ≢ k) (length recs - keep) recs h),
              refl,
            )))

  length-keep_newest :
      (pl : Plan) (recs : List RecPos) → length (keep_newest pl recs).dropped ≡ length pl.dropped
  unfolding keep_newest
  length-keep_newest pl [] = refl
  length-keep_newest pl (p ∷ ps) = length-mark_all ps pl.dropped

  pub length-plan_group :
      (pl : Plan) (g : Group) (recs : List RecPos)
      → length (plan_group rules pl g recs).dropped ≡ length pl.dropped
  unfolding plan_group
  length-plan_group pl g recs =
      let keep = latest_of rules g.0 in
      let Same : Plan → Type 0 = λ pl'. length pl'.dropped ≡ length pl.dropped in
      if-cases Same (leb (length recs) keep) _ _ (λ _. refl)
        (λ _.
          if-cases Same (keep == 1) _ _ (λ _. length-keep_newest pl recs)
            (λ _. length-mark_all (take (length recs - keep) recs) pl.dropped))

module _ (bytes : Str) where
  -- What is written for the records at these positions.
  unfoldable pub written_at : Plan → List RecPos → List Str
  written_at pl [] = []
  written_at pl (p ∷ ps) =
      let rest = written_at pl ps in
      if get_or pl.dropped p.idx false
      then rest
      else text_at pl bytes p.idx (read_at bytes p) ∷ rest

  pub written_at-same :
      (pl pl' : Plan) (ps : List RecPos)
      → All (λ p. SameAt pl pl' p.idx) ps
      → written_at pl ps ≡ written_at pl' ps
  unfolding written_at
  written_at-same pl pl' [] h = refl
  written_at-same pl pl' (p ∷ ps) h = rw (h.0.0, h.0.1, text_at, written_at-same pl pl' ps h.1) refl

  pub written_at-fresh :
      (pl : Plan) (ps : List RecPos)
      → All (λ p. FreshAt pl p.idx) ps
      → written_at pl ps ≡ map (read_at bytes) ps
  unfolding written_at
  written_at-fresh pl [] h = refl
  written_at-fresh pl (p ∷ ps) h = rw (h.0.0, h.0.1, text_at, written_at-fresh pl ps h.1) refl

  pub written_at-dropped :
      (pl : Plan) (ps : List RecPos)
      → All (λ p. get_or pl.dropped p.idx false ≡ true) ps
      → written_at pl ps ≡ []
  unfolding written_at
  written_at-dropped pl [] h = refl
  written_at-dropped pl (p ∷ ps) h = rw h.0 (written_at-dropped pl ps h.1)

  pub written_at-append :
      (pl : Plan) (ps qs : List RecPos)
      → written_at pl (ps ++ qs) ≡ written_at pl ps ++ written_at pl qs
  unfolding written_at
  written_at-append pl [] qs = refl
  written_at-append pl (p ∷ ps) qs =
      rw (written_at-append pl ps qs) (elim (Bool-cases (get_or pl.dropped p.idx false)) [
        | inl e ↦ rw e refl
        | inr e ↦ rw e refl
      ])
