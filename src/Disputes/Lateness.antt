-- ===== src/Disputes/Lateness.antt =====
-- When a dispute is late (disputes.go, `Raise`).
use stockastic.Prelude.Str.{Str}
use stockastic.Prelude.Int.{ℤ, ◌≤ℤ◌, ◌-ℤ◌, int_laws}
use stockastic.Prelude.{Option, ◌≡◌, true, arith, some, none}
use stockastic.EventClock.State.{time_sub}
use stockastic.Disputes.{Config, raise}

time_sub_later : (t u v : ℤ) → t ≤ℤ u → time_sub t v ≤ℤ time_sub u v
unfolding time_sub
time_sub_later t u v le = let order : t -ℤ v ≤ℤ u -ℤ v = omega int_laws in ground arith

-- Waiting never makes a dispute timely: if one that is raised at a time is late, so is the same one
-- raised at any later time.
pub raise-late :
    (c : Config) (id account : Str) (category summary : Str) (incident : Option ℤ) (t u : ℤ)
    → t ≤ℤ u
    → (raise c id account category summary incident t).late ≡ true
    → (raise c id account category summary incident u).late ≡ true
unfolding raise
raise-late c id account category summary none t u le late = late
raise-late c id account category summary (some incident) t u le late =
    ground (arith, time_sub_later t u incident le)
