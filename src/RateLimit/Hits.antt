-- ===== src/RateLimit/Hits.antt =====
-- The times that the limiter holds for an account, under each operation (ratelimit.go).
use stockastic.Prelude.Dict.{insert, lookup-erase, lookup-insert, str_key, lookup-nil}
use stockastic.Prelude.Int.{ℤ, leb_ℤ, ◌-ℤ◌, pos, ◌≤ℤ◌}
use stockastic.Prelude.Str.{Str, str_eq}
use stockastic.RateLimit.{
  hits_of, Limiter, allow, skip, store_hits, retry_after, allowed, new, denied, panicked, Answer,
}
use stockastic.Prelude.{
  refl, List, ◌≡◌, if◌then◌else◌, length, All, true, false, ◌≤◌, ◌++◌, arith, ◌∷◌, [], Bool-cases,
  inl, inr, ◌≢◌, ◌∙◌, ap,
}

pub hits_of-store_hits :
    (l : Limiter) (key k : Str) (h : List ℤ)
    → hits_of (store_hits l key h) k ≡ (if str_eq key k then h else hits_of l k)
unfolding hits_of
hits_of-store_hits l key k [] = rw (lookup-erase key k l.hits, hits_of) (ground arith)
hits_of-store_hits l key k (t ∷ h) = rw (lookup-insert key k (t ∷ h) l.hits, hits_of) (ground arith)

pub hits_of-insert :
    (l : Limiter) (key k : Str) (h : List ℤ)
    → hits_of (record l { hits = insert key h l.hits }) k
      ≡ (if str_eq key k then h else hits_of l k)
unfolding hits_of
hits_of-insert l key k h = rw (lookup-insert key k h l.hits, hits_of) (ground arith)

-- What `prune` keeps of the account's times.
abbrev pub kept : Limiter → Str → ℤ → List ℤ
kept l account now = skip (now -ℤ l.window) (hits_of l account)

pub store_hits-same :
    (l : Limiter) (key : Str) (h : List ℤ)
    → ((store_hits l key h).n ≡ l.n) × ((store_hits l key h).window ≡ l.window)
store_hits-same l key [] = (refl, refl)
store_hits-same l key (t ∷ h) = (refl, refl)

-- A call that is not allowed keeps the limit and the window, and prunes the account's times.
pub allow_denied :
    (l : Limiter) (account : Str) (now : ℤ)
    → leb_ℤ l.n (pos (length (kept l account now))) ≡ true
    → allow l account now
      ≡ (store_hits l account (kept l account now), retry_after l (kept l account now) now)
unfolding allow
allow_denied l account now full = rw (full, allow)

pub allow_allowed :
    (l : Limiter) (account : Str) (now : ℤ)
    → leb_ℤ l.n (pos (length (kept l account now))) ≡ false
    → let l' = store_hits l account (kept l account now) in
      allow l account now
      ≡ (record l' { hits = insert account (kept l account now ++ now ∷ []) l'.hits }, allowed)
unfolding allow
allow_allowed l account now room = rw (room, allow)

-- The times of each account after a call.
pub hits_of-allow :
    (l : Limiter) (account k : Str) (now : ℤ)
    → hits_of (allow l account now).0 k ≡ (
        if str_eq account k
        then (if leb_ℤ l.n (pos (length (kept l account now)))
            then kept l account now
            else kept l account now ++ now ∷ [])
        else hits_of l k)
hits_of-allow l account k now =
    let l' : Limiter = store_hits l account (kept l account now) in
    elim (Bool-cases (leb_ℤ l.n (pos (length (kept l account now))))) [
      | inl full ↦
          rw (allow_denied l account now full, full)
            (hits_of-store_hits l account k (kept l account now))
      | inr room ↦
          rw (allow_allowed l account now room, room)
            (ground (
              arith,
              hits_of-insert l' account k (kept l account now ++ now ∷ []),
              hits_of-store_hits l account k (kept l account now),
            ))
    ]

-- A later prune makes an earlier one superfluous.
pub skip-skip : (c c' : ℤ) (h : List ℤ) → c ≤ℤ c' → skip c' (skip c h) ≡ skip c' h
unfolding skip
skip-skip c c' [] m = refl
skip-skip c c' (t ∷ h) m = ground (arith, skip-skip c c' h m)

pub length-skip : (c : ℤ) (h : List ℤ) → length (skip c h) ≤ length h
unfolding skip
length-skip c [] = omega arith
length-skip c (t ∷ h) = ground (arith, length-skip c h)

pub skip-All {κ} : (P : ℤ → Type κ) (c : ℤ) (h : List ℤ) → All P h → All P (skip c h)
unfolding skip
skip-All P c [] p = p
skip-All P c (t ∷ h) p = elim (Bool-cases (leb_ℤ t c)) [
  | inl old ↦ rw (old, skip) (skip-All P c h p.1)
  | inr young ↦ rw (young, skip) p
]

pub hits_of-new : (n w : ℤ) (k : Str) → hits_of (new n w) k ≡ []
unfolding hits_of
hits_of-new n w k = rw (lookup-nil k, hits_of)

pub denied_not_allowed : (t : ℤ) → denied t ≢ allowed
denied_not_allowed t e = cc

pub panicked_not_allowed : panicked ≢ allowed
panicked_not_allowed e = cc

-- A call that is not allowed leaves the times as a look at them does.
pub not_allowed_hits :
    (l : Limiter) (key k : Str) (now : ℤ)
    → (allow l key now).1 ≢ allowed
    → hits_of (allow l key now).0 k ≡ (if str_eq key k then kept l key now else hits_of l k)
not_allowed_hits l key k now untraded =
    elim (Bool-cases (leb_ℤ l.n (pos (length (kept l key now))))) [
      | inl full ↦ hits_of-allow l key k now ∙ rw full refl
      | inr room ↦
          absurd (untraded (ap (λ (r : Limiter × Answer). r.1) (allow_allowed l key now room)))
    ]
