-- ===== src/RateLimit.antt =====
-- The trade-rate limit (apps/api/internal/ratelimit/ratelimit.go). Times and durations are integers of
-- nanoseconds; each operation holds the limiter's lock, so it is one step.
pub mod Hits
pub mod Counting
pub mod Window
pub mod Retry
use stockastic.Prelude.Dict.{Dict, lookup, erase, insert, str_key}
use stockastic.Prelude.Str.{Str}
use stockastic.Prelude.Int.{ℤ, ◌-ℤ◌, leb_ℤ, ◌+ℤ◌, pos}
use stockastic.Prelude.{ℕ, List, length, [], if◌then◌else◌, ◌∷◌, ◌++◌, none, some}

pub record Limiter : Type 0 where
  pub n : ℤ
  pub window : ℤ
  pub hits : Dict Str (List ℤ)  -- oldest first

abbrev pub new : ℤ → ℤ → Limiter
new n window = record { n = n; window = window; hits = [] }

-- `for i < len(h) && !h[i].After(cutoff)`
unfoldable pub skip : ℤ → List ℤ → List ℤ
skip cutoff [] = []
skip cutoff (t ∷ h) = if leb_ℤ t cutoff then skip cutoff h else t ∷ h

unfoldable pub hits_of : Limiter → Str → List ℤ
hits_of l key = elim (lookup key l.hits) [ none ↦ [] | some h ↦ h ]

abbrev pub store_hits : Limiter → Str → List ℤ → Limiter
store_hits l key [] = record l { hits = erase key l.hits }
store_hits l key (t ∷ h) = record l { hits = insert key (t ∷ h) l.hits }

unfoldable pub prune : Limiter → Str → ℤ → Limiter × List ℤ
unfolding hits_of skip
prune l key now = let h = skip (now -ℤ l.window) (hits_of l key) in (store_hits l key h, h)

-- `panicked`: with a limit below one, `h[0]` of an empty slice.
pub data Answer : Type 0 where
  allowed : Answer
  denied : ℤ → Answer
  panicked : Answer

abbrev pub retry_after : Limiter → List ℤ → ℤ → Answer
retry_after l [] now = panicked
retry_after l (t ∷ h) now = denied (t +ℤ l.window -ℤ now)

unfoldable pub allow : Limiter → Str → ℤ → Limiter × Answer
unfolding prune
allow l account now =
    let (l', h) = prune l account now in
    if leb_ℤ l.n (pos (length h))
    then (l', retry_after l h now)
    else (record l' { hits = insert account (h ++ now ∷ []) l'.hits }, allowed)

-- `h[:len(h)-1]`
unfoldable pub drop_last : List ℤ → List ℤ
drop_last [] = []
drop_last (t ∷ []) = []
drop_last (t ∷ u ∷ h) = t ∷ drop_last (u ∷ h)

abbrev pub refund_hits : Limiter → Str → List ℤ → Limiter
refund_hits l account [] = l
refund_hits l account (t ∷ h) = store_hits l account (drop_last (t ∷ h))

unfoldable pub refund : Limiter → Str → Limiter
unfolding hits_of
refund l account = refund_hits l account (hits_of l account)

-- `for k := range l.hits`
unfoldable pub sweep_keys : Limiter → ℤ → Dict Str (List ℤ) → Limiter
unfolding prune
sweep_keys l now [] = l
sweep_keys l now ((k, _) ∷ ks) = sweep_keys (prune l k now).0 now ks

unfoldable pub sweep : Limiter → ℤ → Limiter
unfolding sweep_keys
sweep l now = sweep_keys l now l.hits

unfoldable pub tracked : Limiter → ℕ
tracked l = length l.hits

unfoldable pub reset : Limiter → Limiter
reset l = record l { hits = [] }
