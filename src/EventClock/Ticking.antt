-- ===== src/EventClock/Ticking.antt =====
-- Ticks (eventclock.go, `Tick`): a transition for every block entered, delivered to every listener.
-- One time stands for the readings of a tick. A listener that panics is recovered from, and the
-- next one is called all the same.
pub mod Announcing
use stockastic.EventClock.Blocks.{Block, zero_block}
use stockastic.EventClock.State.{position}
use stockastic.EventClock.State.{Clock}
use stockastic.Prelude.Int.{ℤ, leb_ℤ, ◌+ℤ◌, max_ℤ, pos, pos_part, ◌-ℤ◌}
use stockastic.Prelude.{ℕ, List, [], if◌then◌else◌, ◌∷◌, ◌++◌, suc, get_or, length, zero}

pub record Transition : Type 0 where
  pub index : ℤ
  pub block : Block
  pub at : ℤ

-- `for i := from; i < from+count; i++`
unfoldable pub due_from : Clock → ℤ → ℤ → ℕ → List Transition
due_from c now from zero = []
due_from c now from (suc count) =
    record { index = from; block = get_or c.blocks (pos_part from) zero_block; at = now }
    ∷ due_from c now (from +ℤ pos 1) count

-- The last block that has been entered; -1 before any.
unfoldable pub entered : Clock → ℤ → ℤ
entered c now =
    let i = (position c now).index in
    if leb_ℤ (pos (length c.durations)) i then pos (length c.durations) -ℤ pos 1 else i

unfoldable pub due : Clock → ℤ → List Transition
due c now =
    if c.started then due_from c now (c.last +ℤ pos 1) (pos_part (entered c now -ℤ c.last)) else []

abbrev to_each : Transition → List ℕ → List (ℕ × Transition)
to_each t [] = []
to_each t (l ∷ ls) = (l, t) ∷ to_each t ls

unfoldable pub deliveries : List ℕ → List Transition → List (ℕ × Transition)
deliveries ls [] = []
deliveries ls (t ∷ ts) = to_each t ls ++ deliveries ls ts

-- The clock after a tick, and the calls of listeners in order.
unfoldable pub tick : Clock → ℤ → Clock × List (ℕ × Transition)
tick c now = (
  record c { last = if c.started then max_ℤ c.last (entered c now) else c.last },
  deliveries c.listeners (due c now),
)
