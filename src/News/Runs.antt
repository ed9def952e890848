-- ===== src/News/Runs.antt =====
-- What happens to a dispatcher, one call after the other (apps/api/internal/news/news.go).
use stockastic.Prelude.Dict.{lookup, str_key}
use stockastic.Prelude.Str.{Str}
use stockastic.Prelude.Int.{ℤ}
use stockastic.Prelude.{Bool, List, ℕ, [], ◌≡◌, ◌∷◌, none, true, All, ◌≢◌}
use stockastic.News.{
  Dispatcher, Item, Told, publish, wake, subscribe, stop, reset, and_then, tiered, Timer,
}

-- An item is published, a timer runs, a subscriber comes, the dispatcher is stopped or reset.
pub data Call : Type 0 where
  publish_item : Item → Bool → Bool → Call
  wake_timer : ℕ → Bool → Call
  subscribe_to : ℕ → Call
  stop_all : (ℕ → Bool) → Call
  reset_all : (ℕ → Bool) → Call

unfoldable pub step : Dispatcher → Call → ℤ → Told
step d (publish_item item phase2 paused) now = publish d item phase2 paused now
step d (wake_timer i paused) now = wake d i paused now
step d (subscribe_to s) now = (subscribe d s, [])
step d (stop_all begun) now = (stop d begun, [])
step d (reset_all begun) now = (reset d begun, [])

-- The calls of a run, each with its time.
unfoldable pub run : Dispatcher → List (Call × ℤ) → Told
run d [] = (d, [])
run d ((c, now) ∷ cs) = and_then (step d c now) λ d'. run d' cs

-- A new item has an id that neither a release nor a timer has.
abbrev pub IsNew : Dispatcher → Str → Type 0
IsNew d id = (lookup id d.by_id ≡ none) × All (λ (t : Timer). t.item.id ≢ id) d.timers

-- What the ids' supply and the stage are in a run of phase 2 with news only.
abbrev pub IsStaggered : Dispatcher → Call → Type 0
IsStaggered d (publish_item item phase2 paused) = IsNew d item.id × (tiered item.kind phase2 ≡ true)
IsStaggered d _ = Unit

abbrev pub AllStaggered : Dispatcher → List (Call × ℤ) → Type 0
AllStaggered d [] = Unit
AllStaggered d ((c, now) ∷ cs) = IsStaggered d c × AllStaggered (step d c now).0 cs
