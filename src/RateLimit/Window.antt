-- ===== src/RateLimit/Window.antt =====
-- The promise of the limiter (ratelimit.go): at most N trades in any rolling window.
use stockastic.RateLimit.Counting.{
  next_log, Tracks, calls, recent, in_window, WithinLimit, InOrder, window_mono, Tracks-other,
  Tracks-kept, Tracks-allowed,
}
use mathlib.Core.Path.{ap₂, subst}
use stockastic.RateLimit.Hits.{
  kept, hits_of-allow, allow_denied, store_hits-same, allow_allowed, hits_of-new,
}
use stockastic.RateLimit.{skip, Limiter, allow, hits_of, allowed, Answer, retry_after, new}
use stockastic.Prelude.Str.{Str, str_eq, str_eq_iff}
use stockastic.Prelude.Int.{ℤ, ◌≤ℤ◌, ◌-ℤ◌, pos, leb_ℤ}
use stockastic.Prelude.{
  refl, ℕ, List, ◌≡◌, ◌∷◌, ◌≤◌, length, arith, [], ◌++◌, Bool-cases, inl, inr, ◌∙◌, false, true,
  sym, ap,
}

-- How many of the times are later than a cutoff.
allow-same :
    (l : Limiter) (account : Str) (now : ℤ)
    → ((allow l account now).0.n ≡ l.n) × ((allow l account now).0.window ≡ l.window)
allow-same l account now = elim (Bool-cases (leb_ℤ l.n (pos (length (kept l account now))))) [
  | inl full ↦ rw (allow_denied l account now full) (store_hits-same l account (kept l account now))
  | inr room ↦
      rw (allow_allowed l account now room) (store_hits-same l account (kept l account now))
]

next_log-other :
    (k account : Str) (now : ℤ) (log : List ℤ) (answer : Answer)
    → str_eq account k ≡ false
    → next_log k account now log answer ≡ log
next_log-other k account now log allowed other = rw other
next_log-other k account now log _ other = refl

next_log-retry_after :
    (k account : Str) (now : ℤ) (log : List ℤ) (l : Limiter) (h : List ℤ)
    → next_log k account now log (retry_after l h now) ≡ log
next_log-retry_after k account now log l [] = refl
next_log-retry_after k account now log l (t ∷ h) = refl

module _ (m : ℕ) (w : ℤ) (k account : Str) (l : Limiter) (log : List ℤ) (last now : ℤ)
    (t : Tracks m w k l log last) (later : last ≤ℤ now) where
  l₁ : Limiter
  l₁ = (allow l account now).0

  HoldsAfter : List ℤ → Type 0
  HoldsAfter g = Tracks m w k l₁ g now

  other-Tracks :
      str_eq account k ≡ false → HoldsAfter (next_log k account now log (allow l account now).1)
  unfolding l₁ HoldsAfter
  other-Tracks other =
      subst HoldsAfter (sym (next_log-other k account now log (allow l account now).1 other)) (
        Tracks-other m w k l l₁ log last now t later (allow-same l account now).0
          (allow-same l account now).1 (rw other at (hits_of-allow l account k now)))

  full-Tracks :
      kept l account now ≡ skip (now -ℤ w) (hits_of l k)
      → str_eq account k ≡ true
      → leb_ℤ l.n (pos (length (kept l account now))) ≡ true
      → HoldsAfter (next_log k account now log (allow l account now).1)
  unfolding l₁ HoldsAfter
  full-Tracks e same full =
      subst HoldsAfter
        (sym (
          ap (λ (r : Limiter × Answer). next_log k account now log r.1)
            (allow_denied l account now full)
          ∙ next_log-retry_after k account now log l (kept l account now)))
        (Tracks-kept m w k l l₁ log last now t later (allow-same l account now).0
          (allow-same l account now).1 ((rw (same, full) at (hits_of-allow l account k now)) ∙ e))

  room-Tracks :
      kept l account now ≡ skip (now -ℤ w) (hits_of l k)
      → str_eq account k ≡ true
      → leb_ℤ l.n (pos (length (kept l account now))) ≡ false
      → HoldsAfter (next_log k account now log (allow l account now).1)
  unfolding l₁ HoldsAfter
  room-Tracks e same room =
      subst HoldsAfter
        (sym (
          ap (λ (r : Limiter × Answer). next_log k account now log r.1)
            (allow_allowed l account now room)
          ∙ (rw same)))
        (Tracks-allowed m w k l l₁ log last now t later (allow-same l account now).0
          (allow-same l account now).1
          ((rw (same, room) at (hits_of-allow l account k now)) ∙ ap (λ h. h ++ now ∷ []) e)
          (ground (arith, room, e, t.limit)))

  allow-Tracks : HoldsAfter (next_log k account now log (allow l account now).1)
  unfolding HoldsAfter
  allow-Tracks = elim (Bool-cases (str_eq account k)) [
    | inr other ↦ other-Tracks other
    | inl same ↦
        let e : kept l account now ≡ skip (now -ℤ w) (hits_of l k) =
          ap₂ (λ v a. skip (now -ℤ v) (hits_of l a)) t.window ((str_eq_iff account k).0 same) in
        elim (Bool-cases (leb_ℤ l.n (pos (length (kept l account now))))) [
          | inl full ↦ full-Tracks e same full
          | inr room ↦ room-Tracks e same room
        ]
  ]

calls-Tracks :
    (m : ℕ) (w : ℤ) (k : Str) (l : Limiter) (log : List ℤ) (last : ℤ) (cs : List (Str × ℤ))
    → Tracks m w k l log last
    → InOrder last cs
    → WithinLimit m w (calls k l log cs).1
unfolding calls HoldsAfter l₁
calls-Tracks m w k l log last [] t o = t.within
calls-Tracks m w k l log last ((account, now) ∷ cs) t o =
    calls-Tracks m w k (allow l account now).0 (next_log k account now log (allow l account now).1)
      now cs (allow-Tracks m w k account l log last now t o.0) o.1

new-Tracks : (m : ℕ) (w : ℤ) (k : Str) (last : ℤ) → Tracks m w k (new (pos m) w) [] last
unfolding hits_of skip
new-Tracks m w k last =
    let none_held : hits_of (new (pos m) w) k ≡ [] = hits_of-new (pos m) w k in
    record {
      limit = refl;
      window = refl;
      past = rw none_held tt;
      counted = λ now h. rw none_held;
      within = tt;
    }

recent_mono : (c c' : ℤ) (log : List ℤ) → c ≤ℤ c' → recent c' log ≤ recent c log
recent_mono c c' [] m = omega arith
recent_mono c c' (t ∷ log) m = ground (arith, recent_mono c c' log m)

in_window-le-recent : (w end : ℤ) (log : List ℤ) → in_window w end log ≤ recent (end -ℤ w) log
in_window-le-recent w end [] = omega arith
in_window-le-recent w end (t ∷ log) = ground (arith, in_window-le-recent w end log)

in_window-le : (m : ℕ) (w end : ℤ) (log : List ℤ) → WithinLimit m w log → in_window w end log ≤ m
in_window-le m w end [] h = omega arith
in_window-le m w end (t ∷ log) h = elim (Bool-cases (leb_ℤ t end)) [
  | inl past ↦ omega (
    arith,
    in_window-le-recent w end (t ∷ log),
    recent_mono (t -ℤ w) (end -ℤ w) (t ∷ log) (window_mono t end w (ground arith)),
    h.0,
  )
  | inr future ↦ ground (arith, in_window-le m w end log h.1)
]

-- Whatever calls come in, by any accounts, at times that do not run backwards: of the trades that a
-- limiter allowed to one account, no window of its length has more than its number.
pub in_window-calls :
    (m : ℕ) (w end last : ℤ) (k : Str) (cs : List (Str × ℤ))
    → InOrder last cs
    → in_window w end (calls k (new (pos m) w) [] cs).1 ≤ m
in_window-calls m w end last k cs o =
    in_window-le m w end (calls k (new (pos m) w) [] cs).1
      (calls-Tracks m w k (new (pos m) w) [] last cs (new-Tracks m w k last) o)
