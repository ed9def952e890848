-- ===== src/LoginGuard/Repeated.antt =====
-- How repeated failures lock an email at an address (loginguard.go, `bump` and `failed`).
use mathlib.Core.Path.{subst}
use stockastic.LoginGuard.{current, fresh, fail_window, lock_for}
use stockastic.Prelude.Dict.{lookup, erase, lookup-erase, str_key, lookup-insert_self}
use stockastic.Prelude.Str.{Str, str_eq, str_eq_iff}
use stockastic.Prelude.Int.{ℤ, ◌≤ℤ◌, pos, max_ℤ, ◌-ℤ◌, ◌+ℤ◌}
use stockastic.Prelude.{
  ℕ, Option, List, ◌≡◌, true, some, Bool-cases, false, ◌∷◌, suc, Option-cases, ltb, arith, length,
  inl, ◌+◌, map, inr, sym, ◌&&◌, refl, ◌≤◌, ◌∙◌, [], none, All, ap, leb, Bool, if◌then◌else◌,
}
use stockastic.LoginGuard.{
  Failures, Attempts, Guard, bump, trim, forget_old, blocked_in, left, is_past, is_old, strike,
  failed, blocked, pair_key, pair_failures,
}

lookup-erase_old :
    (m : Failures) (x k : Str) (a b : Attempts) (now : ℤ)
    → lookup x m ≡ some b
    → lookup k m ≡ some a
    → is_old b now ≡ true
    → is_old a now ≡ false
    → lookup k (erase x m) ≡ some a
lookup-erase_old m x k a b now there found old young =
    rw (lookup-erase x k m) (elim (Bool-cases (str_eq x k)) [
      | inl same ↦
          let one : some b ≡ some a =
            sym there ∙ ap (λ z. lookup z m) ((str_eq_iff x k).0 same) ∙ found in
          let age : is_old b now ≡ is_old a now =
            ap (λ (o : Option Attempts). elim o [ none ↦ false | some c ↦ is_old c now ]) one in
          absurd (ground arith)
      | inr other ↦ rw other found
    ])

-- An entry that is not old is kept.
lookup-forget_old :
    (xs : List Str) (m : Failures) (k : Str) (a : Attempts) (now : ℤ)
    → lookup k m ≡ some a
    → is_old a now ≡ false
    → lookup k (forget_old xs m now) ≡ some a
unfolding forget_old
lookup-forget_old [] m k a now found young = found
lookup-forget_old (x ∷ xs) m k a now found young = elim (Option-cases (lookup x m)) [
  | inl missing ↦ rw (missing, forget_old) (lookup-forget_old xs m k a now found young)
  | inr (b, there) ↦
      rw (there, forget_old)
        (elim (Bool-cases (is_past b.until now && is_old b now)) [
          | inl old ↦ rw old (
              lookup-forget_old xs (erase x m) k a now
                (lookup-erase_old m x k a b now there found (ground arith) young) young)
          | inr kept ↦ rw kept (lookup-forget_old xs m k a now found young)
        ])
]

lookup-trim :
    (m : Failures) (k : Str) (a : Attempts) (now : ℤ)
    → lookup k m ≡ some a
    → is_old a now ≡ false
    → lookup k (trim m now) ≡ some a
unfolding trim
lookup-trim m k a now found young = elim (Bool-cases (ltb 20_000 (length m))) [
  | inl many ↦ rw many (lookup-forget_old (map (λ e. e.0) m) m k a now found young)
  | inr few ↦ rw few found
]

lookup-bump :
    (m : Failures) (k : Str) (a : Attempts) (limit : ℕ) (now : ℤ)
    → lookup k m ≡ some a
    → is_old a now ≡ false
    → lookup k (bump m k limit now) ≡ some (strike a limit now)
unfolding bump
lookup-bump m k a limit now found young =
    lookup-insert_self k (strike (current (lookup k (trim m now)) now) limit now) (trim m now)
    ∙ ap (λ o. some (strike (current o now) limit now)) (lookup-trim m k a now found young)
    ∙ rw young refl

-- Failures of one key, one after the other.
unfoldable pub bumps : Failures → Str → ℕ → List ℤ → Failures
bumps m k limit [] = m
bumps m k limit (now ∷ times) = bumps (bump m k limit now) k limit times

abbrev pub last_time : ℤ → List ℤ → ℤ
last_time t [] = t
last_time t (u ∷ us) = last_time u us

strike-count : (a : Attempts) (limit : ℕ) (now : ℤ) → (strike a limit now).count ≡ suc a.count
strike-count a limit now = ground arith

strike-first : (a : Attempts) (limit : ℕ) (now : ℤ) → (strike a limit now).first ≡ a.first
strike-first a limit now = elim (Bool-cases (leb limit (suc a.count))) [
  | inl e ↦ rw e refl
  | inr e ↦ rw e refl
]

bumps-locked :
    (m : Failures) (k : Str) (a : Attempts) (limit : ℕ) (now : ℤ) (times : List ℤ)
    → lookup k m ≡ some a
    → is_old a now ≡ false
    → All (λ t. t -ℤ a.first ≤ℤ fail_window) times
    → limit ≤ suc (a.count + length times)
    → (b : Attempts) × (lookup k (bumps (bump m k limit now) k limit times) ≡ some b)
      × (b.until ≡ some (last_time now times +ℤ lock_for))
unfolding bumps
bumps-locked m k a limit now [] found young within enough =
    let reached : leb limit (suc a.count) ≡ true = ground arith in
    (strike a limit now, lookup-bump m k a limit now found young, rw reached refl)
bumps-locked m k a limit now (t ∷ times) found young within enough =
    bumps-locked (bump m k limit now) k (strike a limit now) limit t times
      (lookup-bump m k a limit now found young) (young_still within.0)
      (subst (λ f. All (λ u. u -ℤ f ≤ℤ fail_window) times) (sym (strike-first a limit now))
        within.1)
      (omega (arith, strike-count a limit now))
  where
    young_still : t -ℤ a.first ≤ℤ fail_window → is_old (strike a limit now) t ≡ false
    young_still h = rw (strike-first a limit now) (ground arith)

lookup-forget_none :
    (xs : List Str) (m : Failures) (k : Str) (now : ℤ)
    → lookup k m ≡ none
    → lookup k (forget_old xs m now) ≡ none
unfolding forget_old
lookup-forget_none [] m k now unknown = unknown
lookup-forget_none (x ∷ xs) m k now unknown = elim (Option-cases (lookup x m)) [
  | inl missing ↦ rw (missing, forget_old) (lookup-forget_none xs m k now unknown)
  | inr (b, there) ↦
      rw (there, forget_old)
        (elim (Bool-cases (is_past b.until now && is_old b now)) [
          | inl old ↦ rw old (
              lookup-forget_none xs (erase x m) k now (rw (lookup-erase x k m) (gone (str_eq x k))))
          | inr kept ↦ rw kept (lookup-forget_none xs m k now unknown)
        ])
]
  where
    gone : (c : Bool) → (if c then none else lookup k m) ≡ none
    gone true = refl
    gone false = unknown

first_failure :
    (m : Failures) (k : Str) (limit : ℕ) (now : ℤ)
    → lookup k m ≡ none
    → lookup k (bump m k limit now) ≡ some (strike (fresh now) limit now)
unfolding bump trim
first_failure m k limit now unknown =
    lookup-insert_self k (strike (current (lookup k (trim m now)) now) limit now) (trim m now)
    ∙ ap (λ o. some (strike (current o now) limit now)) trimmed
  where
    trimmed : lookup k (trim m now) ≡ none
    trimmed = elim (Bool-cases (ltb 20_000 (length m))) [
      | inl many ↦ rw many (lookup-forget_none (map (λ e. e.0) m) m k now unknown)
      | inr few ↦ rw few unknown
    ]

-- Failures of one email at one address, one after the other.
unfoldable pub failures : Guard → Str → Str → List ℤ → Guard
failures g e addr [] = g
failures g e addr (now ∷ times) = failures (failed g e addr now) e addr times

failures-pair :
    (g : Guard) (e addr : Str) (times : List ℤ)
    → (failures g e addr times).pair ≡ bumps g.pair (pair_key e addr) pair_failures times
unfolding failures failed bumps
failures-pair g e addr [] = refl
failures-pair g e addr (now ∷ times) = failures-pair (failed g e addr now) e addr times

le_max : (a b : ℤ) → a ≤ℤ max_ℤ a b
le_max a b = ground arith

-- Ten failures within five minutes lock the pair for two minutes: if nothing is held of an email at an address, and
-- it fails there ten times or more, each within five minutes of the first, then at every time it is blocked at
-- least for what is left of two minutes after the last failure.
pub blocked-failures :
    (g : Guard) (e addr : Str) (start now t : ℤ) (times : List ℤ)
    → lookup (pair_key e addr) g.pair ≡ none
    → All (λ u. u -ℤ start ≤ℤ fail_window) (now ∷ times)
    → 8 ≤ length times
    → last_time now times +ℤ lock_for -ℤ t
      ≤ℤ blocked (failures g e addr (start ∷ now ∷ times)) e addr t
unfolding blocked blocked_in bumps
blocked-failures g e addr start now t times unknown within enough =
    let k = pair_key e addr in
    let a = strike (fresh start) pair_failures start in
    let (b, found, lock) =
      bumps-locked (bump g.pair k pair_failures start) k a pair_failures now times
        (first_failure g.pair k pair_failures start unknown) (ground arith) within.1
        (omega arith) in
    let held : lookup k (failures g e addr (start ∷ now ∷ times)).pair ≡ some b =
      ap (lookup k) (failures-pair g e addr (start ∷ now ∷ times)) ∙ found in
    let x = last_time now times +ℤ lock_for -ℤ t in
    let g' = failures g e addr (start ∷ now ∷ times) in
    let here : blocked_in g'.pair k t ≡ max_ℤ x (pos 0) =
      rw (held, blocked_in) (ap (λ u. left u t) lock) in
    subst (λ p. x ≤ℤ max_ℤ p (blocked_in g'.mail e t)) (sym here)
      (omega (arith, le_max (max_ℤ x (pos 0)) (blocked_in g'.mail e t), le_max x (pos 0)))
