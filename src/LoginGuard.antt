-- ===== src/LoginGuard.antt =====
-- The guard against password guessing (apps/api/internal/httpapi/loginguard.go). An email is given as
-- `key` writes it, without spaces around it and in lower case. Times are nanoseconds; a lock that
-- was never set is `none`, the zero time.
pub mod Locks
pub mod Repeated
use stockastic.Prelude.Str.{Str}
use stockastic.Prelude.Dict.{Dict, lookup, insert, erase, str_key}
use stockastic.Prelude.Int.{ℤ, pos, max_ℤ, ◌-ℤ◌, ltb_ℤ, ◌+ℤ◌}
use stockastic.Prelude.{
  ℕ, [], Option, List, ◌++◌, Bool, if◌then◌else◌, none, ◌+◌, some, ◌∷◌, true, ◌&&◌, ltb, leb,
  length, suc, map,
}

pub record Attempts : Type 0 where
  pub count : ℕ
  pub first : ℤ
  pub until : Option ℤ

abbrev pub Failures : Type 0
Failures = Dict Str Attempts

-- Failures by email and address together, and by email alone.
pub record Guard : Type 0 where
  pub pair : Failures
  pub mail : Failures

abbrev pub pair_failures : ℕ
pair_failures = 10

abbrev pub mail_failures : ℕ
mail_failures = 100

-- Five minutes
abbrev pub fail_window : ℤ
fail_window = pos 300_000_000_000

-- Two minutes
abbrev pub lock_for : ℤ
lock_for = pos 120_000_000_000

abbrev pub new_guard : Guard
new_guard = record { pair = []; mail = [] }

-- How long a lock still holds, zero if it does not.
abbrev pub left : Option ℤ → ℤ → ℤ
left none now = pos 0
left (some until) now = max_ℤ (until -ℤ now) (pos 0)

unfoldable pub blocked_in : Failures → Str → ℤ → ℤ
blocked_in m k now = elim (lookup k m) [ none ↦ pos 0 | some a ↦ left a.until now ]

-- `e + "|" + addr`
abbrev pub pair_key : Str → Str → Str
pair_key e addr = e ++ 124 ∷ addr

unfoldable pub blocked : Guard → Str → Str → ℤ → ℤ
blocked g e addr now = max_ℤ (blocked_in g.pair (pair_key e addr) now) (blocked_in g.mail e now)

-- `now.After(until)`
abbrev pub is_past : Option ℤ → ℤ → Bool
is_past none now = true
is_past (some until) now = ltb_ℤ until now

abbrev pub is_old : Attempts → ℤ → Bool
is_old a now = ltb_ℤ fail_window (now -ℤ a.first)

unfoldable pub forget_old : List Str → Failures → ℤ → Failures
forget_old [] m now = m
forget_old (x ∷ xs) m now = elim (lookup x m) [
  | none ↦ forget_old xs m now
  | some a ↦
      if is_past a.until now && is_old a now
      then forget_old xs (erase x m) now
      else forget_old xs m now
]

unfoldable pub trim : Failures → ℤ → Failures
trim m now = if ltb 20_000 (length m) then forget_old (map (λ e. e.0) m) m now else m

abbrev pub fresh : ℤ → Attempts
fresh now = record { count = 0; first = now; until = none }

abbrev pub current : Option Attempts → ℤ → Attempts
current none now = fresh now
current (some a) now = if is_old a now then fresh now else a

-- One more failure; from the limit on, each sets the lock again.
abbrev pub strike : Attempts → ℕ → ℤ → Attempts
strike a limit now =
    if leb limit (suc a.count)
    then record a { count = suc a.count; until = some (now +ℤ lock_for) }
    else record a { count = suc a.count }

unfoldable pub bump : Failures → Str → ℕ → ℤ → Failures
bump m k limit now =
    let m' = trim m now in insert k (strike (current (lookup k m') now) limit now) m'

unfoldable pub failed : Guard → Str → Str → ℤ → Guard
failed g e addr now = record {
  pair = bump g.pair (pair_key e addr) pair_failures now;
  mail = bump g.mail e mail_failures now;
}

unfoldable pub signed_in : Guard → Str → Str → Guard
signed_in g e addr = record g { pair = erase (pair_key e addr) g.pair }

unfoldable pub in_force : Failures → ℤ → ℕ
in_force [] now = 0
in_force ((_, a) ∷ m) now =
    let rest = in_force m now in if ltb_ℤ (pos 0) (left a.until now) then suc rest else rest

-- The locks that were in force, and the guard without any.
unfoldable pub clear : Guard → ℤ → Guard × ℕ
clear g now = (new_guard, in_force g.pair now + in_force g.mail now)
