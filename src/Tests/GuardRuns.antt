-- ===== src/Tests/GuardRuns.antt =====
-- The login guard at work.
use stockastic.Prelude.Dict.{lookup, insert, lookup-nil, str_key}
use stockastic.Prelude.Str.{Str, str_eq, codes}
use stockastic.Prelude.Int.{ℤ, ◌-ℤ◌, pos, ◌+ℤ◌, ◌≤ℤ◌}
use stockastic.Prelude.{ℕ, List, replicate, ◌*◌, ◌≡◌, arith, ◌∷◌, refl}
use stockastic.LoginGuard.{new_guard, failed, blocked, pair_key, bump, lock_for, trim, blocked_in}
use stockastic.LoginGuard.Locks.{blocked-failed}
use stockastic.LoginGuard.Repeated.{blocked-failures, failures, last_time}

abbrev seconds : ℕ → ℤ
seconds n = pos (n * 1_000_000_000)

abbrev team : Str
team = codes "team@x"

abbrev attempts : List ℤ
attempts = replicate 8 (pos 30_000_000_000)

blocked-failed_example :
    blocked
      (failed new_guard team (codes "10.0.0.1") (pos 5))
      (codes "other@x")
      (codes "10.0.0.1")
      (pos 9)
    ≡ blocked new_guard (codes "other@x") (codes "10.0.0.1") (pos 9)
unfolding str_eq
blocked-failed_example =
    blocked-failed new_guard team (codes "other@x") (codes "10.0.0.1") (codes "10.0.0.1") (pos 5)
      (pos 9) refl refl (omega arith)

blocked-failures_example :
    last_time (pos 20_000_000_000) attempts +ℤ lock_for -ℤ pos 60_000_000_000
    ≤ℤ blocked
        (failures new_guard team (codes "a") (pos 0 ∷ pos 20_000_000_000 ∷ attempts))
        team
        (codes "a")
        (pos 60_000_000_000)
unfolding ◌-ℤ◌
blocked-failures_example =
    blocked-failures new_guard team (codes "a") (pos 0) (pos 20_000_000_000) (pos 60_000_000_000)
      attempts (lookup-nil (pair_key team (codes "a"))) (omega arith) (omega arith)

locked_for_ninety_seconds :
    blocked
      (failures new_guard team (codes "a") (pos 0 ∷ pos 20_000_000_000 ∷ attempts))
      team
      (codes "a")
      (pos 60_000_000_000)
    ≡ pos 90_000_000_000
unfolding failures failed bump trim blocked blocked_in lookup insert str_eq ◌-ℤ◌ ◌+ℤ◌
locked_for_ninety_seconds = refl
