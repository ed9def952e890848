-- ===== src/LoginGuard/Locks.antt =====
-- Whom a failed sign-in leaves alone (loginguard.go, `bump` and `failed`).
use mathlib.Core.Path.{ap₂}
use stockastic.LoginGuard.{current}
use stockastic.Prelude.Dict.{lookup, erase, lookup-erase, str_key, insert, lookup-insert}
use stockastic.Prelude.Str.{Str, str_eq, str_eq_iff}
use stockastic.Prelude.Int.{ℤ, ◌≤ℤ◌, pos, max_ℤ, pos_part, negsuc, neg_part, ◌-ℤ◌, int_laws}
use stockastic.Prelude.{
  ℕ, Option, List, ◌≡◌, true, some, Bool-cases, false, ◌∷◌, suc, Option-cases, ltb, arith, length,
  inl, ◌+◌, map, inr, sym, ◌&&◌, refl, ◌≤◌, ◌∙◌, [], none,
}
use stockastic.LoginGuard.{
  Failures, Attempts, Guard, bump, trim, forget_old, blocked_in, left, is_past, is_old, strike,
  failed, blocked, pair_key, pair_failures, mail_failures,
}

max_ℤ_zero : (z : ℤ) → z ≤ℤ pos 0 → max_ℤ z (pos 0) ≡ pos 0
max_ℤ_zero (pos n) h = ground arith
max_ℤ_zero (negsuc n) h = ground arith

left-past : (u : Option ℤ) (now t : ℤ) → is_past u now ≡ true → now ≤ℤ t → left u t ≡ pos 0
left-past none now t h le = refl
left-past (some until) now t h le =
    let lt : suc (pos_part until + neg_part now) ≤ pos_part now + neg_part until = ground arith in
    max_ℤ_zero (until -ℤ t) (omega int_laws)

blocked_in-erase :
    (m : Failures) (x j : Str) (a : Attempts) (now t : ℤ)
    → lookup x m ≡ some a
    → is_past a.until now ≡ true
    → now ≤ℤ t
    → blocked_in (erase x m) j t ≡ blocked_in m j t
unfolding blocked_in
blocked_in-erase m x j a now t found past le =
    rw (lookup-erase x j m, blocked_in)
      (elim (Bool-cases (str_eq x j)) [
        | inl same ↦ rw same (
            rw (← (str_eq_iff x j).0 same, found, blocked_in)
              (sym (left-past a.until now t past le)))
        | inr other ↦ rw other refl
      ])

-- Forgetting old failures lifts no lock.
blocked_in-forget_old :
    (xs : List Str) (m : Failures) (j : Str) (now t : ℤ)
    → now ≤ℤ t
    → blocked_in (forget_old xs m now) j t ≡ blocked_in m j t
unfolding forget_old
blocked_in-forget_old [] m j now t le = refl
blocked_in-forget_old (x ∷ xs) m j now t le = elim (Option-cases (lookup x m)) [
  | inl missing ↦ rw (missing, forget_old) (blocked_in-forget_old xs m j now t le)
  | inr (a, found) ↦
      rw (found, forget_old)
        (elim (Bool-cases (is_past a.until now && is_old a now)) [
          | inl old ↦ rw old (
              blocked_in-forget_old xs (erase x m) j now t le
              ∙ blocked_in-erase m x j a now t found (ground arith) le)
          | inr kept ↦ rw kept (blocked_in-forget_old xs m j now t le)
        ])
]

blocked_in-trim :
    (m : Failures) (j : Str) (now t : ℤ) → now ≤ℤ t → blocked_in (trim m now) j t ≡ blocked_in m j t
unfolding trim
blocked_in-trim m j now t le = elim (Bool-cases (ltb 20_000 (length m))) [
  | inl many ↦ rw many (blocked_in-forget_old (map (λ e. e.0) m) m j now t le)
  | inr few ↦ rw few refl
]

blocked_in-insert :
    (m : Failures) (k j : Str) (a : Attempts) (t : ℤ)
    → str_eq k j ≡ false
    → blocked_in (insert k a m) j t ≡ blocked_in m j t
unfolding blocked_in
blocked_in-insert m k j a t other = rw (lookup-insert k j a m, blocked_in) (rw other refl)

blocked_in-bump :
    (m : Failures) (k j : Str) (limit : ℕ) (now t : ℤ)
    → str_eq k j ≡ false
    → now ≤ℤ t
    → blocked_in (bump m k limit now) j t ≡ blocked_in m j t
unfolding bump
blocked_in-bump m k j limit now t other le =
    blocked_in-insert (trim m now) k j (strike (current (lookup k (trim m now)) now) limit now) t
      other
    ∙ blocked_in-trim m j now t le

-- A failed sign-in locks no one else out, and lifts no one else's lock: at every later time, an email that is not
-- the one of the failure is blocked for as long as it would have been, from every address that does not make the same key
-- with it.
pub blocked-failed :
    (g : Guard) (e e' addr addr' : Str) (now t : ℤ)
    → str_eq e e' ≡ false
    → str_eq (pair_key e addr) (pair_key e' addr') ≡ false
    → now ≤ℤ t
    → blocked (failed g e addr now) e' addr' t ≡ blocked g e' addr' t
unfolding blocked failed
blocked-failed g e e' addr addr' now t other other_pair le =
    ap₂ max_ℤ
      (blocked_in-bump g.pair (pair_key e addr) (pair_key e' addr') pair_failures now t other_pair
        le)
      (blocked_in-bump g.mail e e' mail_failures now t other le)
