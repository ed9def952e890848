-- ===== src/Tests/LimitRuns.antt =====
-- The limiter at work: two trades in sixty.
use stockastic.RateLimit.Hits.{kept}
use stockastic.RateLimit.Retry.{allow_after_retry, hits_of-refund-allow}
use stockastic.Prelude.Dict.{lookup, insert, erase}
use stockastic.Prelude.Int.{ℤ, pos, ◌-ℤ◌, ◌+ℤ◌, ◌≤ℤ◌}
use stockastic.RateLimit.Counting.{calls, in_window}
use stockastic.RateLimit.Window.{in_window-calls}
use stockastic.RateLimit.{Limiter, allow, new, hits_of, allowed, refund}
use stockastic.Prelude.Str.{Str, codes, str_eq}
use stockastic.Prelude.{refl, List, ◌∷◌, [], ◌≤◌, ◌≡◌, arith, if◌then◌else◌}

abbrev team : Str
team = codes "a"

abbrev other : Str
other = codes "b"

abbrev two_a_minute : Limiter
two_a_minute = new (pos 2) (pos 60)

abbrev requests : List (Str × ℤ)
requests = (team, pos 0) ∷ (team, pos 10) ∷ (other, pos 20) ∷ (team, pos 59) ∷ (team, pos 60) ∷ []

-- The trade at 59 is refused; the one at 60 is allowed, since the first has left the window.
third_waits : (calls team two_a_minute [] requests).1 ≡ pos 60 ∷ pos 10 ∷ pos 0 ∷ []
unfolding calls allow lookup insert erase str_eq ◌-ℤ◌ ◌+ℤ◌
third_waits = refl

in_window-calls_example : in_window (pos 60) (pos 61) (calls team two_a_minute [] requests).1 ≤ 2
in_window-calls_example = in_window-calls 2 (pos 60) (pos 61) (pos 0) team requests (omega arith)

abbrev busy : Limiter
busy = record { n = pos 2; window = pos 60; hits = (team, pos 0 ∷ pos 10 ∷ []) ∷ [] }

allow_after_retry_example :
    (pos 1 ≤ℤ pos 30) × ((allow (allow busy team (pos 30)).0 team (pos 30 +ℤ pos 30)).1 ≡ allowed)
unfolding allow lookup str_eq ◌-ℤ◌ ◌+ℤ◌
allow_after_retry_example = allow_after_retry busy team 1 refl (omega arith) (pos 30) (pos 30) refl

hits_of-refund-allow_example :
    hits_of (refund (allow busy team (pos 65)).0 team) team
    ≡ (if str_eq team team then kept busy team (pos 65) else hits_of busy team)
unfolding allow lookup str_eq ◌-ℤ◌ ◌+ℤ◌
hits_of-refund-allow_example = hits_of-refund-allow busy team team (pos 65) refl
