-- ===== src/RateLimit/Counting.antt =====
-- What a limiter holds of an account, against the log of the trades that it allowed
-- (apps/api/internal/ratelimit/ratelimit.go).
use stockastic.RateLimit.Hits.{skip-All, skip-skip}
use stockastic.RateLimit.{skip, Limiter, allow, hits_of, allowed, Answer}
use stockastic.Prelude.Str.{Str, str_eq}
use stockastic.Prelude.Int.{ℤ, ◌≤ℤ◌, ◌-ℤ◌, pos, int_laws, leb_ℤ}
use stockastic.Prelude.{
  ℕ, List, ◌≡◌, All, ◌∷◌, if◌then◌else◌, ◌≤◌, length, arith, [], ◌++◌, ◌+◌, Bool-cases, inl, inr,
  length-append, ◌∙◌, ◌<◌, All-append,
}

abbrev pub recent : ℤ → List ℤ → ℕ
recent cutoff [] = 0
recent cutoff (t ∷ log) = (if leb_ℤ t cutoff then 0 else 1) + recent cutoff log

-- How many of the times lie in the window of length `w` that ends at `end`.
abbrev pub in_window : ℤ → ℤ → List ℤ → ℕ
in_window w end [] = 0
in_window w end (t ∷ log) =
    (if leb_ℤ t (end -ℤ w) then 0 else if leb_ℤ t end then 1 else 0) + in_window w end log

-- The times at which the account `k` was allowed, after an answer to `account`.
abbrev pub next_log : Str → Str → ℤ → List ℤ → Answer → List ℤ
next_log k account now log allowed = if str_eq account k then now ∷ log else log
next_log k account now log _ = log

-- Calls of `Allow`, and the times at which one account was allowed, newest first.
unfoldable pub calls : Str → Limiter → List ℤ → List (Str × ℤ) → Limiter × List ℤ
calls k l log [] = (l, log)
calls k l log ((account, now) ∷ cs) =
    let (l', answer) = allow l account now in calls k l' (next_log k account now log answer) cs

-- The clock does not run backwards.
abbrev pub InOrder : ℤ → List (Str × ℤ) → Type 0
InOrder last [] = Unit
InOrder last ((_, now) ∷ cs) = (last ≤ℤ now) × InOrder now cs

-- Each allowed time had at most `m` allowed times in the window that it ended.
abbrev pub WithinLimit : ℕ → ℤ → List ℤ → Type 0
WithinLimit m w [] = Unit
WithinLimit m w (t ∷ log) = (recent (t -ℤ w) (t ∷ log) ≤ m) × WithinLimit m w log

-- What the limiter holds for one account, against all the times at which it was allowed.
pub record Tracks (m : ℕ) (w : ℤ) (k : Str) (l : Limiter) (log : List ℤ) (last : ℤ) : Type 0 where
  pub limit : l.n ≡ pos m
  pub window : l.window ≡ w
  pub past : All (λ t. t ≤ℤ last) (hits_of l k)
  pub counted :
      (now : ℤ) → last ≤ℤ now → length (skip (now -ℤ w) (hits_of l k)) ≡ recent (now -ℤ w) log
  pub within : WithinLimit m w log

pub length-skip_snoc :
    (c now : ℤ) (h : List ℤ)
    → All (λ t. t ≤ℤ now) h
    → length (skip c (h ++ now ∷ [])) ≡ (if leb_ℤ now c then 0 else 1) + length (skip c h)
unfolding skip
length-skip_snoc c now [] p = ground arith
length-skip_snoc c now (t ∷ h) p = elim (Bool-cases (leb_ℤ t c)) [
  | inl old ↦ rw (old, skip) (length-skip_snoc c now h p.1)
  | inr young ↦ rw (young, skip) (ground (arith, young, p.0, length-append h (now ∷ [])))
]

pub All-later : (a b : ℤ) (h : List ℤ) → a ≤ℤ b → All (λ t. t ≤ℤ a) h → All (λ t. t ≤ℤ b) h
All-later a b [] m p = tt
All-later a b (t ∷ h) m p = (omega arith, All-later a b h m p.1)

pub window_mono : (a b w : ℤ) → a ≤ℤ b → a -ℤ w ≤ℤ b -ℤ w
window_mono a b w m = omega int_laws

module _ (m : ℕ) (w : ℤ) (k : Str) (l l' : Limiter) (log : List ℤ) (last now : ℤ)
    (t : Tracks m w k l log last) (later : last ≤ℤ now) (n : l'.n ≡ l.n)
    (window : l'.window ≡ l.window) where
  pub Tracks-other : hits_of l' k ≡ hits_of l k → Tracks m w k l' log now
  Tracks-other same = record {
    limit = n ∙ t.limit;
    window = window ∙ t.window;
    past = rw same (All-later last now (hits_of l k) later t.past);
    counted = λ x h. rw same (t.counted x (omega (arith, h, later)));
    within = t.within;
  }

  pub Tracks-kept : hits_of l' k ≡ skip (now -ℤ w) (hits_of l k) → Tracks m w k l' log now
  Tracks-kept pruned = record {
    limit = n ∙ t.limit;
    window = window ∙ t.window;
    past = rw pruned (
        skip-All (λ x. x ≤ℤ now) (now -ℤ w) (hits_of l k)
          (All-later last now (hits_of l k) later t.past));
    counted = λ x h.
        rw (pruned, skip-skip (now -ℤ w) (x -ℤ w) (hits_of l k) (window_mono now x w h))
          (t.counted x (omega (arith, h, later)));
    within = t.within;
  }

  pub Tracks-allowed :
      hits_of l' k ≡ skip (now -ℤ w) (hits_of l k) ++ now ∷ []
      → length (skip (now -ℤ w) (hits_of l k)) < m
      → Tracks m w k l' (now ∷ log) now
  Tracks-allowed added room =
      let p : All (λ x. x ≤ℤ now) (skip (now -ℤ w) (hits_of l k)) =
        skip-All (λ x. x ≤ℤ now) (now -ℤ w) (hits_of l k)
          (All-later last now (hits_of l k) later t.past) in
      record {
        limit = n ∙ t.limit;
        window = window ∙ t.window;
        past = rw added (
            All-append (λ x. x ≤ℤ now) (skip (now -ℤ w) (hits_of l k)) (now ∷ []) p
              (omega arith, tt));
        counted = λ x h. rw (
          added,
          length-skip_snoc (x -ℤ w) now (skip (now -ℤ w) (hits_of l k)) p,
          skip-skip (now -ℤ w) (x -ℤ w) (hits_of l k) (window_mono now x w h),
          t.counted x (omega (arith, h, later)),
        );
        within = (ground (arith, room, t.counted now later), t.within);
      }
