-- ===== src/RateLimit/Retry.antt =====
-- Waiting as long as a refusal says is enough, and a refund undoes an allowance (ratelimit.go).
use mathlib.Core.Path.{ap₂}
use stockastic.RateLimit.Hits.{
  kept, hits_of-allow, allow_allowed, allow_denied, store_hits-same, length-skip,
  hits_of-store_hits,
}
use stockastic.Prelude.Str.{Str, str_eq_refl, str_eq}
use stockastic.Prelude.Int.{ℤ, pos, ◌<ℤ◌, leb_ℤ, ◌+ℤ◌, ◌-ℤ◌, +ℤ_cancel, ◌≤ℤ◌, int_laws}
use stockastic.RateLimit.{
  skip, Limiter, hits_of, allow, denied, Answer, allowed, drop_last, refund, retry_after,
  refund_hits, store_hits,
}
use stockastic.Prelude.{
  refl, List, ◌≡◌, ℕ, ◌∷◌, [], ◌⊎◌, suc, arith, inl, length, inr, ◌≤◌, true, Bool-cases, ◌<◌, sym,
  ap, ◌∙◌, false, ◌++◌, if◌then◌else◌, ◌≢◌,
}

skip-head : (c t : ℤ) (h r : List ℤ) → skip c h ≡ t ∷ r → c <ℤ t
unfolding skip
skip-head c t [] r e = cc
skip-head c t (u ∷ h) r e = ground (arith, skip-head c t h r)

skip-own : (t : ℤ) (r : List ℤ) → skip t (t ∷ r) ≡ skip t r
unfolding skip
skip-own t r = ground arith

List-cases : (h : List ℤ) → (h ≡ []) ⊎ ((t : ℤ) × (r : List ℤ) × (h ≡ t ∷ r))
List-cases [] = inl refl
List-cases (t ∷ r) = inr (t, r, refl)

module _ (l : Limiter) (account : Str) (m : ℕ) (limit : l.n ≡ pos (suc m))
    (bounded : length (hits_of l account) ≤ suc m) (now d : ℤ) where
  denied_full :
      (allow l account now).1 ≡ denied d → leb_ℤ l.n (pos (length (kept l account now))) ≡ true
  denied_full h = elim (Bool-cases (leb_ℤ l.n (pos (length (kept l account now))))) [
    | inl full ↦ full
    | inr room ↦
        let no : Answer.allowed ≡ denied d =
          sym (ap (λ (r : Limiter × Answer). r.1) (allow_allowed l account now room)) ∙ h in
        absurd (cc)
  ]

  module _ (t : ℤ) (r : List ℤ) (e : kept l account now ≡ t ∷ r)
      (full : leb_ℤ l.n (pos (length (kept l account now))) ≡ true) where
    freed : length (kept (allow l account now).0 account (t +ℤ l.window)) < suc m
    freed =
        let held : hits_of (allow l account now).0 account ≡ t ∷ r =
          (rw (str_eq_refl account, full) at (hits_of-allow l account account now)) ∙ e in
        let window : (allow l account now).0.window ≡ l.window =
          ap (λ (x : Limiter × Answer). x.0.window) (allow_denied l account now full)
          ∙ (store_hits-same l account (kept l account now)).1 in
        let left : kept (allow l account now).0 account (t +ℤ l.window) ≡ skip t r =
          ap₂ (λ v g. skip (t +ℤ l.window -ℤ v) g) window held
          ∙ ap (λ c. skip c (t ∷ r)) (+ℤ_cancel t l.window)
          ∙ skip-own t r in
        omega (
          arith,
          ap length left,
          ap length e,
          length-skip t r,
          length-skip (now -ℤ l.window) (hits_of l account),
          bounded,
        )

    allowed_then : (allow (allow l account now).0 account (t +ℤ l.window)).1 ≡ allowed
    allowed_then =
        let l' : Limiter = (allow l account now).0 in
        let limit' : l'.n ≡ pos (suc m) =
          ap (λ (x : Limiter × Answer). x.0.n) (allow_denied l account now full)
          ∙ (store_hits-same l account (kept l account now)).0
          ∙ limit in
        let room : leb_ℤ l'.n (pos (length (kept l' account (t +ℤ l.window)))) ≡ false =
          rw limit' (ground (arith, freed)) in
        ap (λ (x : Limiter × Answer). x.1) (allow_allowed l' account (t +ℤ l.window) room)

  -- A refused trade is told how long to wait: a positive time, after which, with no trade of the account
  -- in between, it is allowed. The limiter allows at least one trade, and holds for the account
  -- no more times than its limit.
  pub allow_after_retry :
      (allow l account now).1 ≡ denied d
      → (pos 1 ≤ℤ d) × ((allow (allow l account now).0 account (now +ℤ d)).1 ≡ allowed)
  allow_after_retry h =
      let full = denied_full h in
      let answer : retry_after l (kept l account now) now ≡ denied d =
        sym (ap (λ (x : Limiter × Answer). x.1) (allow_denied l account now full)) ∙ h in
      elim (List-cases (kept l account now)) [
        | inl empty ↦ absurd (ground (arith, answer, empty, full, limit))
        | inr (t, r, e) ↦
            let wait : t +ℤ l.window -ℤ now ≡ d = ground (arith, answer, e) in
            let then_at : now +ℤ d ≡ t +ℤ l.window = rw (← wait) (omega int_laws) in
            (
              rw (← wait) (omega (int_laws, skip-head (now -ℤ l.window) t (hits_of l account) r e)),
              rw then_at (allowed_then t r e full),
            )
      ]

not_allowed :
    (l : Limiter) (account : Str) (now : ℤ)
    → leb_ℤ l.n (pos (length (kept l account now))) ≡ true
    → (allow l account now).1 ≢ allowed
not_allowed l account now full h = elim (List-cases (kept l account now)) [
  | inl empty ↦ absurd (ground (arith, h, empty, allow_denied l account now full))
  | inr (t, r, e) ↦ absurd (ground (arith, h, e, allow_denied l account now full))
]

drop_last-snoc : (h : List ℤ) (t : ℤ) → drop_last (h ++ t ∷ []) ≡ h
unfolding drop_last
drop_last-snoc [] t = refl
drop_last-snoc (u ∷ []) t = refl
drop_last-snoc (u ∷ v ∷ h) t = ap (λ r. u ∷ r) (drop_last-snoc (v ∷ h) t)

hits_of-refund_hits :
    (l : Limiter) (account k : Str) (h : List ℤ) (t : ℤ)
    → hits_of (refund_hits l account (h ++ t ∷ [])) k
      ≡ (if str_eq account k then h else hits_of l k)
unfolding drop_last
hits_of-refund_hits l account k [] t = hits_of-store_hits l account k []
hits_of-refund_hits l account k (u ∷ h) t =
    ap (λ g. hits_of (store_hits l account g) k) (drop_last-snoc (u ∷ h) t)
    ∙ hits_of-store_hits l account k (u ∷ h)

-- A refund right after a trade was allowed gives the account its earlier times back, less those that
-- had left the window, and touches no other account.
pub hits_of-refund-allow :
    (l : Limiter) (account k : Str) (now : ℤ)
    → (allow l account now).1 ≡ allowed
    → hits_of (refund (allow l account now).0 account) k
      ≡ (if str_eq account k then kept l account now else hits_of l k)
unfolding refund
hits_of-refund-allow l account k now h =
    elim (Bool-cases (leb_ℤ l.n (pos (length (kept l account now))))) [
      | inl full ↦ absurd (not_allowed l account now full h)
      | inr room ↦
          let held = rw (str_eq_refl account, room) at (hits_of-allow l account account now) in
          let held' = rw room at (hits_of-allow l account k now) in
          rw (held, refund)
            (hits_of-refund_hits (allow l account now).0 account k (kept l account now) now
              ∙ (rw held' (ground arith)))
    ]
