-- ===== src/Prelude/Dict.antt =====
-- Go maps, as association lists. The order of the entries is that of insertion; Go's is not fixed.
use stockastic.Prelude.{◌+◌}
use mathlib.Core.Path.{◌≡◌, refl, subst}
use mathlib.Core.Logic.{◌↔◌, ◌⊎◌, inl, inr}
use mathlib.Core.Bool.{Bool, true, ◌&&◌}
use mathlib.Core.Option.{Option, none, some}
use mathlib.Core.List.{List, [], ◌∷◌}
use Prim.Native.Nat.{ℕ}
use native.Mathlib.Omega.{arith}
use stockastic.Prelude.Tests.{if◌then◌else◌, ◌==◌, ==_iff, Bool-cases, if-cases}
use stockastic.Prelude.Int.{ℤ, eqb_ℤ, eq_of_parts}
use stockastic.Prelude.Str.{Str, str_eq, str_eq_iff}

pub record Eq (K : Type 0) : Type 0 where
  pub beq : K → K → Bool
  pub beq_iff : (a b : K) → (beq a b ≡ true) ↔ (a ≡ b)

instance abbrev pub str_key : Eq Str
str_key = record { beq = str_eq; beq_iff = str_eq_iff }

instance abbrev pub nat_key : Eq ℕ
nat_key = record { beq = ◌==◌; beq_iff = ==_iff }

pub eqb_ℤ_iff : (a b : ℤ) → (eqb_ℤ a b ≡ true) ↔ (a ≡ b)
eqb_ℤ_iff a b = (λ h. eq_of_parts a b (ground arith), λ h. rw h (ground arith))

pub pair_eq_iff : (a b : Str × Str) → ((str_eq a.0 b.0 && str_eq a.1 b.1) ≡ true) ↔ (a ≡ b)
pair_eq_iff (a, c) (b, d) = (
  λ h. ground (arith, str_eq_iff a b, str_eq_iff c d),
  λ h. ground (arith, str_eq_iff a b, str_eq_iff c d),
)

instance abbrev pub str_pair_key : Eq (Str × Str)
str_pair_key = record { beq = λ a b. str_eq a.0 b.0 && str_eq a.1 b.1; beq_iff = pair_eq_iff }

instance abbrev pub int_key : Eq ℤ
int_key = record { beq = eqb_ℤ; beq_iff = eqb_ℤ_iff }

abbrev pub Dict {ℓ} : Type 0 → Type ℓ → Type ℓ
Dict K V = List (K × V)

pub some_eq {ℓ} : {V : Type ℓ} (v w : V) → some v ≡ some w → v ≡ w
some_eq v w h = cc

-- What holds in both cases of a lookup holds of its elimination.
pub found-cases {ℓ κ μ} :
    {V : Type ℓ} {A : Type κ} (P : A → Type μ) (found : Option V) (x : A) (act : V → A)
    → (found ≡ none → P x)
    → ((v : V) → found ≡ some v → P (act v))
    → P (elim found [ none ↦ x | some v ↦ act v ])
found-cases P none x act missed hit = missed refl
found-cases P (some v) x act missed hit = hit v refl

pub sum-cases {ℓ ℓ' κ μ} :
    {A : Type ℓ} {B : Type ℓ'} {C : Type κ} (P : C → Type μ) (x : A ⊎ B) (g : A → C) (h : B → C)
    → ((v : A) → x ≡ inl v → P (g v))
    → ((v : B) → x ≡ inr v → P (h v))
    → P (elim x [ inl v ↦ g v | inr v ↦ h v ])
sum-cases P (inl v) g h left right = left v refl
sum-cases P (inr v) g h left right = right v refl

module _ {ℓ} {K : Type 0} {V : Type ℓ} ⦃e : Eq K⦄ where
  unfoldable pub lookup : K → Dict K V → Option V
  lookup k [] = none
  lookup k ((j, v) ∷ d) = if e.beq j k then some v else lookup k d

  -- `d[k] = v`
  unfoldable pub insert : K → V → Dict K V → Dict K V
  insert k v [] = (k, v) ∷ []
  insert k v ((j, w) ∷ d) = if e.beq j k then (k, v) ∷ d else (j, w) ∷ insert k v d

  -- `delete(d, k)`
  unfoldable pub erase : K → Dict K V → Dict K V
  erase k [] = []
  erase k ((j, w) ∷ d) = if e.beq j k then erase k d else (j, w) ∷ erase k d

  pub lookup-insert :
      (k j : K) (v : V) (d : Dict K V)
      → lookup j (insert k v d) ≡ (if e.beq k j then some v else lookup j d)
  unfolding lookup insert
  lookup-insert k j v [] = refl
  lookup-insert k j v ((i, w) ∷ d) =
      ground (arith, e.beq_iff k j, e.beq_iff i k, e.beq_iff i j, lookup-insert k j v d)

  pub lookup-insert_self : (k : K) (v : V) (d : Dict K V) → lookup k (insert k v d) ≡ some v
  lookup-insert_self k v d = rw (lookup-insert k k v d, (e.beq_iff k k).1 refl)

  pub lookup-erase :
      (k j : K) (d : Dict K V) → lookup j (erase k d) ≡ (if e.beq k j then none else lookup j d)
  unfolding lookup erase
  lookup-erase k j [] = ground arith
  lookup-erase k j ((i, w) ∷ d) =
      ground (arith, e.beq_iff k j, e.beq_iff i k, e.beq_iff i j, lookup-erase k j d)

  -- Every value of the map has the property.
  abbrev pub Every {κ} : (V → Type κ) → Dict K V → Type (ℓ ⊔ κ)
  Every P d = (k : K) (v : V) → lookup k d ≡ some v → P v

  pub Every-insert {κ} :
      (P : V → Type κ) (k : K) (v : V) (d : Dict K V) → Every P d → P v → Every P (insert k v d)
  Every-insert P k v d h p j w found = elim (Bool-cases (e.beq k j)) [
    | inl same ↦ subst P (some_eq v w (rw (← found, lookup-insert k j v d, same))) p
    | inr other ↦ h j w (rw (lookup-insert k j v d, other) at found)
  ]

  -- Every entry of the map has the property, and writing one that has it keeps this.
  abbrev pub AllEntries {κ} : (K → V → Type κ) → Dict K V → Type κ
  AllEntries P [] = Unit
  AllEntries P ((k, v) ∷ d) = P k v × AllEntries P d

  pub AllEntries-insert {κ} :
      (P : K → V → Type κ) (k : K) (v : V) (d : Dict K V)
      → AllEntries P d
      → P k v
      → AllEntries P (insert k v d)
  unfolding insert
  AllEntries-insert P k v [] h p = (p, tt)
  AllEntries-insert P k v ((j, w) ∷ d) h p =
      if-cases (AllEntries P) (e.beq j k) ((k, v) ∷ d) ((j, w) ∷ insert k v d) (λ _. (p, h.1))
        (λ _. (h.0, AllEntries-insert P k v d h.1 p))

  pub AllEntries-lookup {κ} :
      (P : K → V → Type κ) (k : K) (v : V) (d : Dict K V)
      → AllEntries P d
      → lookup k d ≡ some v
      → P k v
  unfolding lookup
  AllEntries-lookup P k v [] h found = cc
  AllEntries-lookup P k v ((j, w) ∷ d) h found = elim (Bool-cases (e.beq j k)) [
    | inl same ↦
        subst (λ i. P i v) ((e.beq_iff j k).0 same)
          (subst (P j) (some_eq w v (rw same at found)) h.0)
    | inr other ↦ AllEntries-lookup P k v d h.1 (rw other at found)
  ]

  -- No key has two entries.
  abbrev pub HasOnce : Dict K V → Type ℓ
  HasOnce [] = Unit
  HasOnce ((k, v) ∷ d) = (lookup k d ≡ none) × HasOnce d

  pub HasOnce-insert : (k : K) (v : V) (d : Dict K V) → HasOnce d → HasOnce (insert k v d)
  unfolding insert lookup
  HasOnce-insert k v [] h = (refl, tt)
  HasOnce-insert k v ((j, w) ∷ d) h = elim (Bool-cases (e.beq j k)) [
    | inl same ↦ rw same (subst (λ i. lookup i d ≡ none) ((e.beq_iff j k).0 same) h.0, h.1)
    | inr other ↦ rw other (
      rw (lookup-insert k j v d) (ground (arith, e.beq_iff k j, e.beq_iff j k, h.0)),
      HasOnce-insert k v d h.1,
    )
  ]

  -- The sum of a number for each entry, and how a write changes it.
  unfoldable pub weigh : (K → V → ℕ) → Dict K V → ℕ
  weigh f [] = 0
  weigh f ((j, w) ∷ d) = f j w + weigh f d

  abbrev pub weight_at : (K → V → ℕ) → K → Option V → ℕ
  weight_at f k none = 0
  weight_at f k (some w) = f k w

  pub weigh-insert :
      (f : K → V → ℕ) (k : K) (v : V) (d : Dict K V)
      → weigh f (insert k v d) + weight_at f k (lookup k d) ≡ weigh f d + f k v
  unfolding weigh insert lookup
  weigh-insert f k v [] = omega arith
  weigh-insert f k v ((j, w) ∷ d) = elim (Bool-cases (e.beq j k)) [
    | inl same ↦ rw same (rw ((e.beq_iff j k).0 same) (omega arith))
    | inr other ↦ rw other (omega (arith, weigh-insert f k v d))
  ]

  pub weigh-nil : (f : K → V → ℕ) → weigh f [] ≡ 0
  unfolding weigh
  weigh-nil f = refl

  pub weigh-cons :
      (f : K → V → ℕ) (k : K) (v : V) (d : Dict K V) → weigh f ((k, v) ∷ d) ≡ f k v + weigh f d
  unfolding weigh
  weigh-cons f k v d = refl

  pub Every-nil {κ} : (P : V → Type κ) → Every P []
  unfolding lookup
  Every-nil P k v h = cc

  pub lookup-nil : (k : K) → lookup k [] ≡ none
  unfolding lookup
  lookup-nil k = refl
