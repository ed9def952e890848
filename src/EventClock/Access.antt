-- ===== src/EventClock/Access.antt =====
-- What is open right now (eventclock.go, `MarketOpen` and `WindowOpen`).
use stockastic.Prelude.Int.{ℤ, eqb_ℤ, ltb_ℤ, pos, leb_ℤ, pos_part}
use stockastic.EventClock.State.{Clock}
use stockastic.EventClock.State.{position}
use stockastic.Prelude.{
  Option, Bool, if◌then◌else◌, false, some, not, none, ◌||◌, ◌&&◌, length, get_or,
}

abbrev override_or : Option Bool → Bool → Bool
override_or none scheduled = scheduled
override_or (some v) scheduled = v

unfoldable pub market_open : Clock → ℤ → Bool
market_open c now =
    let p = position c now in
    if c.ov.frozen
    then false
    else if not p.started || p.paused
    then false
    else override_or c.ov.market_open (not p.ended && p.block.market_open)

abbrev is_window : Option ℤ → ℤ → Bool
is_window none w = false
is_window (some v) w = eqb_ℤ v w

unfoldable pub window_open : Clock → ℤ → ℤ → Bool
window_open c now w =
    let p = position c now in
    if ltb_ℤ w (pos 0) || leb_ℤ (pos (length c.ov.windows)) w
    then false
    else if not p.started || p.paused
    then false
    else override_or (get_or c.ov.windows (pos_part w) none)
        (not p.ended && is_window p.block.allocation_window w)
