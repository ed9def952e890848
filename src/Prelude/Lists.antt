-- ===== src/Prelude/Lists.antt =====
-- Lists measured and indexed by native numbers, under the library's names.
use Prim.Native.Nat.{ℕ, zero, suc, ◌+◌, ◌-◌, ◌<◌, ◌≤◌}
use mathlib.Core.Path.{◌≡◌, refl, ap, sym, ◌∙◌}
use mathlib.Core.List.{List, [], ◌∷◌, ◌++◌, map}
use mathlib.Core.Bool.{Bool}
use stockastic.Prelude.Tests.{if◌then◌else◌}
use mathlib.Core.Logic.{◌⊎◌, inl, inr}
use mathlib.Core.Option.{Option, none, some}
use native.Mathlib.Omega.{arith}

module _ {ℓ} {A : Type ℓ} where
  abbrev pub length : List A → ℕ
  length [] = 0
  length (x ∷ xs) = suc (length xs)

  abbrev pub get_elem? : List A → ℕ → Option A
  get_elem? [] i = none
  get_elem? (x ∷ xs) zero = some x
  get_elem? (x ∷ xs) (suc i) = get_elem? xs i

  -- A write out of bounds changes nothing.
  abbrev pub set : List A → ℕ → A → List A
  set [] i v = []
  set (x ∷ xs) zero v = v ∷ xs
  set (x ∷ xs) (suc i) v = x ∷ set xs i v

  abbrev pub get_or : List A → ℕ → A → A
  get_or [] i d = d
  get_or (x ∷ xs) zero d = x
  get_or (x ∷ xs) (suc i) d = get_or xs i d

  abbrev pub update : List A → ℕ → (A → A) → List A
  update [] i g = []
  update (x ∷ xs) zero g = g x ∷ xs
  update (x ∷ xs) (suc i) g = x ∷ update xs i g

  abbrev pub take : ℕ → List A → List A
  take zero xs = []
  take (suc n) [] = []
  take (suc n) (x ∷ xs) = x ∷ take n xs

  abbrev pub drop : ℕ → List A → List A
  drop zero xs = xs
  drop (suc n) [] = []
  drop (suc n) (x ∷ xs) = drop n xs

  abbrev pub replicate : ℕ → A → List A
  replicate zero a = []
  replicate (suc n) a = a ∷ replicate n a

  -- The elements that pass a test.
  abbrev pub select : (A → Bool) → List A → List A
  select t [] = []
  select t (x ∷ xs) = let rest = select t xs in if t x then x ∷ rest else rest

  pub length-append : (xs ys : List A) → length (xs ++ ys) ≡ length xs + length ys
  length-append [] ys = omega arith
  length-append (x ∷ xs) ys = omega (arith, length-append xs ys)

  pub length-set : (xs : List A) (i : ℕ) (v : A) → length (set xs i v) ≡ length xs
  length-set [] i v = refl
  length-set (x ∷ xs) zero v = refl
  length-set (x ∷ xs) (suc i) v = ap suc (length-set xs i v)

  pub length-replicate : (n : ℕ) (a : A) → length (replicate n a) ≡ n
  length-replicate zero a = refl
  length-replicate (suc n) a = ap suc (length-replicate n a)

  pub length-drop : (n : ℕ) (xs : List A) → length (drop n xs) ≡ length xs - n
  length-drop zero xs = omega arith
  length-drop (suc n) [] = omega arith
  length-drop (suc n) (x ∷ xs) = omega (arith, length-drop n xs)

module _ {ℓ κ} {A : Type ℓ} {B : Type κ} where
  pub length-map : (f : A → B) (xs : List A) → length (map f xs) ≡ length xs
  length-map f [] = refl
  length-map f (x ∷ xs) = ap suc (length-map f xs)

-- Every element has the property: by recursion, so that tactics read and build it.
abbrev pub All {ℓ κ} : {A : Type ℓ} → (A → Type κ) → List A → Type κ
All P [] = Unit
All P (x ∷ xs) = P x × All P xs

pub All-append {ℓ κ} :
    {A : Type ℓ} (P : A → Type κ) (xs ys : List A) → All P xs → All P ys → All P (xs ++ ys)
All-append P [] ys h k = k
All-append P (x ∷ xs) ys h k = (h.0, All-append P xs ys h.1 k)

-- Some element has the property.
abbrev pub Any {ℓ} : {A : Type ℓ} → (A → Type 0) → List A → Type 0
Any P [] = ⊥
Any P (x ∷ xs) = P x ⊎ Any P xs

module _ {ℓ} {A : Type ℓ} where
  pub get_elem?-some : (xs : List A) (i : ℕ) → i < length xs → (x : A) × (get_elem? xs i ≡ some x)
  get_elem?-some [] i h = elim h [ ]
  get_elem?-some (x ∷ xs) zero h = (x, refl)
  get_elem?-some (x ∷ xs) (suc i) h = get_elem?-some xs i (omega arith)

  pub take-drop_first :
      (xs : List A) (i c : ℕ) (x : A)
      → get_elem? xs i ≡ some x
      → take (suc c) (drop i xs) ≡ x ∷ take c (drop (suc i) xs)
  take-drop_first [] i c x h = cc
  take-drop_first (y ∷ xs) zero c x h = ground arith
  take-drop_first (y ∷ xs) (suc i) c x h = take-drop_first xs i c x h

  pub get_elem?-drop : (xs : List A) (i c : ℕ) → get_elem? (drop i xs) c ≡ get_elem? xs (c + i)
  get_elem?-drop xs zero c = ap (get_elem? xs) (omega arith)
  get_elem?-drop [] (suc i) c = refl
  get_elem?-drop (x ∷ xs) (suc i) c =
      get_elem?-drop xs i c ∙ ap (get_elem? (x ∷ xs)) (suc-shift c i)
    where
      suc-shift : (c i : ℕ) → suc (c + i) ≡ c + suc i
      suc-shift c i = omega arith

  pub take_snoc :
      (ys : List A) (c : ℕ) (x : A)
      → get_elem? ys c ≡ some x
      → take (suc c) ys ≡ take c ys ++ x ∷ []
  take_snoc [] c x h = cc
  take_snoc (y ∷ ys) zero x h = ground arith
  take_snoc (y ∷ ys) (suc c) x h = ap (λ r. y ∷ r) (take_snoc ys c x h)

  pub take-drop_last :
      (xs : List A) (i c : ℕ) (x : A)
      → get_elem? xs (c + i) ≡ some x
      → take (suc c) (drop i xs) ≡ take c (drop i xs) ++ x ∷ []
  take-drop_last xs i c x h = take_snoc (drop i xs) c x (get_elem?-drop xs i c ∙ h)

  pub take-append-drop : (n : ℕ) (xs : List A) → take n xs ++ drop n xs ≡ xs
  take-append-drop zero xs = refl
  take-append-drop (suc n) [] = refl
  take-append-drop (suc n) (x ∷ xs) = rw (take-append-drop n xs)

  pub take_all : (n : ℕ) (xs : List A) → length xs ≤ n → take n xs ≡ xs
  take_all zero [] h = refl
  take_all zero (x ∷ xs) h = absurd (omega arith)
  take_all (suc n) [] h = refl
  take_all (suc n) (x ∷ xs) h = rw (take_all n xs (omega arith))

  pub length-take : (n : ℕ) (xs : List A) → n ≤ length xs → length (take n xs) ≡ n
  length-take zero xs h = refl
  length-take (suc n) [] h = absurd (omega arith)
  length-take (suc n) (x ∷ xs) h = ap suc (length-take n xs (omega arith))

pub All-set {ℓ} :
    {A : Type ℓ} (P : A → Type 0) (xs : List A) (i : ℕ) (v : A)
    → All P xs
    → P v
    → All P (set xs i v)
All-set P [] i v h p = h
All-set P (x ∷ xs) zero v h p = (p, h.1)
All-set P (x ∷ xs) (suc i) v h p = (h.0, All-set P xs i v h.1 p)

pub All-update {ℓ} :
    {A : Type ℓ} (P : A → Type 0) (xs : List A) (i : ℕ) (g : A → A)
    → All P xs
    → ((x : A) → get_elem? xs i ≡ some x → P (g x))
    → All P (update xs i g)
All-update P [] i g h k = h
All-update P (x ∷ xs) zero g h k = (k x refl, h.1)
All-update P (x ∷ xs) (suc i) g h k = (h.0, All-update P xs i g h.1 k)

module _ {ℓ} {A : Type ℓ} where
  pub length-update : (xs : List A) (i : ℕ) (g : A → A) → length (update xs i g) ≡ length xs
  length-update [] i g = refl
  length-update (x ∷ xs) zero g = refl
  length-update (x ∷ xs) (suc i) g = ap suc (length-update xs i g)

  -- An element after an update is one from before, updated or not.
  pub get_elem?-of_update :
      (xs : List A) (i j : ℕ) (g : A → A) (y : A)
      → get_elem? (update xs i g) j ≡ some y
      → (x : A) × (get_elem? xs j ≡ some x) × ((some y ≡ some x) ⊎ (some y ≡ some (g x)))
  get_elem?-of_update [] i j g y h = cc
  get_elem?-of_update (x ∷ xs) zero zero g y h = (x, refl, inr (sym h))
  get_elem?-of_update (x ∷ xs) zero (suc j) g y h = (y, h, inl refl)
  get_elem?-of_update (x ∷ xs) (suc i) zero g y h = (x, refl, inl (sym h))
  get_elem?-of_update (x ∷ xs) (suc i) (suc j) g y h = get_elem?-of_update xs i j g y h

  -- Below the length, an appended list is the first one.
  pub get_elem?-append :
      (xs ys : List A) (i : ℕ) → i < length xs → get_elem? (xs ++ ys) i ≡ get_elem? xs i
  get_elem?-append [] ys i h = absurd (omega arith)
  get_elem?-append (x ∷ xs) ys zero h = refl
  get_elem?-append (x ∷ xs) ys (suc i) h = get_elem?-append xs ys i (omega arith)

  pub get_elem?-last : (xs : List A) (y : A) → get_elem? (xs ++ y ∷ []) (length xs) ≡ some y
  get_elem?-last [] y = refl
  get_elem?-last (x ∷ xs) y = get_elem?-last xs y

  pub get_elem?-update_self :
      (xs : List A) (i : ℕ) (g : A → A) (x : A)
      → get_elem? xs i ≡ some x
      → get_elem? (update xs i g) i ≡ some (g x)
  get_elem?-update_self [] i g x h = cc
  get_elem?-update_self (y ∷ xs) zero g x h = cc
  get_elem?-update_self (y ∷ xs) (suc i) g x h = get_elem?-update_self xs i g x h

  pub update-last :
      (xs : List A) (y : A) (g : A → A) → update (xs ++ y ∷ []) (length xs) g ≡ xs ++ g y ∷ []
  update-last [] y g = refl
  update-last (x ∷ xs) y g = ap (λ r. x ∷ r) (update-last xs y g)

pub All-weaken {ℓ κ μ} :
    {A : Type ℓ} (P : A → Type κ) (Q : A → Type μ) (xs : List A)
    → ((x : A) → P x → Q x)
    → All P xs
    → All Q xs
All-weaken P Q [] g h = tt
All-weaken P Q (x ∷ xs) g h = (g x h.0, All-weaken P Q xs g h.1)
