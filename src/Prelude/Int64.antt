-- ===== src/Prelude/Int64.antt =====
-- Go's `int64`: integers in [-2 ^ 63, 2 ^ 63), with arithmetic that wraps around.
use stockastic.Prelude.{◌<◌, ◌*◌, ◌∙◌}
use Prim.Native.Nat.{ℕ, ◌+◌, ◌-◌, ◌%◌, ◌^◌, ◌≤◌}
use mathlib.Core.Path.{◌≡◌, refl}
use native.Mathlib.Omega.{arith}
use stockastic.Prelude.Tests.{ltb, if◌then◌else◌}
use stockastic.Prelude.Int.{
  ℤ, pos, negsuc, pos_part, neg_part, sub_ℕ, ◌+ℤ◌, ◌-ℤ◌, ◌*ℤ◌, ◌≤ℤ◌, int_laws, parts_disjoint,
  *ℤ_nonneg,
}

abbrev pub max_int64 : ℤ
max_int64 = pos 0x7fff_ffff_ffff_ffff

-- The bits of an integer's representation in two's complement, as a number below 2 ^ 64.
unfoldable pub residue : ℤ → ℕ
residue (pos n) = n % 2 ^ 64
residue (negsuc n) = 2 ^ 64 - 1 - n % 2 ^ 64

-- The int64 that a bit pattern stands for.
unfoldable pub signed : ℕ → ℤ
signed r = if ltb r (2 ^ 63) then pos r else negsuc (2 ^ 64 - r - 1)

-- The int64 that an integer becomes when it is stored.
unfoldable pub wrap : ℤ → ℤ
unfolding residue signed
wrap z = signed (residue z)

abbrev pub add64 : ℤ → ℤ → ℤ
add64 a b = wrap (a +ℤ b)

abbrev pub sub64 : ℤ → ℤ → ℤ
sub64 a b = wrap (a -ℤ b)

abbrev pub mul64 : ℤ → ℤ → ℤ
mul64 a b = wrap (a *ℤ b)

abbrev pub Fits : ℤ → Type 0
Fits z = (pos_part z ≤ 0x7fff_ffff_ffff_ffff) × (neg_part z ≤ 0x8000_0000_0000_0000)

pub wrap-eq_of_Fits : (z : ℤ) → Fits z → wrap z ≡ z
unfolding wrap
wrap-eq_of_Fits (pos n) h = ground arith
wrap-eq_of_Fits (negsuc n) h = ground arith

pub wrap-Fits : (z : ℤ) → Fits (wrap z)
unfolding wrap
wrap-Fits (pos n) = ground arith
wrap-Fits (negsuc n) = ground arith

overflow_wraps : mul64 (pos 4) (pos (2 ^ 62)) ≡ pos 0
unfolding wrap ◌*ℤ◌
overflow_wraps = refl

pub residue-wrap : (z : ℤ) → residue (wrap z) ≡ residue z
unfolding wrap
residue-wrap (pos n) = ground arith
residue-wrap (negsuc n) = ground arith

residue-sub_ℕ : (m n : ℕ) → residue (sub_ℕ m n) ≡ (m % 2 ^ 64 + (2 ^ 64 - n % 2 ^ 64)) % 2 ^ 64
unfolding residue
residue-sub_ℕ m n = ground arith

residue_parts :
    (a : ℤ) → residue a ≡ (pos_part a % 2 ^ 64 + (2 ^ 64 - neg_part a % 2 ^ 64)) % 2 ^ 64
unfolding residue
residue_parts (pos n) = omega arith
residue_parts (negsuc n) = omega arith

pub residue-+ℤ : (a b : ℤ) → residue (a +ℤ b) ≡ (residue a + residue b) % 2 ^ 64
unfolding ◌+ℤ◌
residue-+ℤ a b =
    rw (residue-sub_ℕ (pos_part a + pos_part b) (neg_part a + neg_part b))
      (omega (arith, residue_parts a, residue_parts b))

-- Integers with the same bits are stored as the same int64.
pub wrap_of_residue : (a b : ℤ) → residue a ≡ residue b → wrap a ≡ wrap b
unfolding wrap
wrap_of_residue a b h = rw h

-- Wrapping early or late gives the same sum.
pub wrap-add_wrap : (a b : ℤ) → wrap (wrap a +ℤ b) ≡ wrap (a +ℤ b)
wrap-add_wrap a b =
    wrap_of_residue (wrap a +ℤ b) (a +ℤ b)
      (omega (arith, residue-+ℤ (wrap a) b, residue-+ℤ a b, residue-wrap a))

-- A sum of money or a number of shares that is not negative, in an int64.
abbrev pub Amount : ℤ → Type 0
Amount z = (pos 0 ≤ℤ z) × Fits z

pub sub64-eq_of_le : (a b : ℤ) → Amount a → pos 0 ≤ℤ b → b ≤ℤ a → sub64 a b ≡ a -ℤ b
sub64-eq_of_le a b h k m =
    wrap-eq_of_Fits (a -ℤ b)
      (omega (int_laws, parts_disjoint (a -ℤ b), parts_disjoint a, parts_disjoint b))

pub sub64-Amount : (a b : ℤ) → Amount a → pos 0 ≤ℤ b → b ≤ℤ a → Amount (sub64 a b)
sub64-Amount a b h k m =
    rw (sub64-eq_of_le a b h k m)
      (omega (int_laws, parts_disjoint (a -ℤ b), parts_disjoint a, parts_disjoint b))

pub add64-Amount : (a b : ℤ) → Amount a → pos 0 ≤ℤ b → Fits (a +ℤ b) → Amount (add64 a b)
add64-Amount a b h k fits = rw (wrap-eq_of_Fits (a +ℤ b) fits) (omega int_laws)

pub residue--ℤ : (a b : ℤ) → residue (a -ℤ b) ≡ (residue a + (2 ^ 64 - residue b)) % 2 ^ 64
unfolding ◌-ℤ◌
residue--ℤ a b =
    rw (residue-sub_ℕ (pos_part a + neg_part b) (neg_part a + pos_part b))
      (omega (arith, residue_parts a, residue_parts b))

pub residue-lt : (a : ℤ) → residue a < 2 ^ 64
unfolding residue
residue-lt (pos n) = omega arith
residue-lt (negsuc n) = omega arith

-- What one account loses the other gains, bit for bit.
pub residue_transfer :
    (a b x : ℤ)
    → (residue (sub64 a x) + residue (add64 b x)) % 2 ^ 64 ≡ (residue a + residue b) % 2 ^ 64
residue_transfer a b x = omega (
  arith,
  residue-wrap (a -ℤ x),
  residue-wrap (b +ℤ x),
  residue--ℤ a x,
  residue-+ℤ b x,
  residue-lt x,
  residue-lt a,
  residue-lt b,
)

pub mul64-eq_of_nonneg :
    (a b : ℤ)
    → pos 0 ≤ℤ a
    → pos 0 ≤ℤ b
    → pos_part a * pos_part b ≤ 0x7fff_ffff_ffff_ffff
    → mul64 a b ≡ pos (pos_part a * pos_part b)
mul64-eq_of_nonneg a b h k fits =
    rw (*ℤ_nonneg a b h k) (wrap-eq_of_Fits (pos (pos_part a * pos_part b)) (omega (arith, fits)))

-- Adding the distance from where a sum is to where it should be.
pub add64_shift : (t a g : ℤ) → Fits g → add64 t (add64 a (sub64 g (add64 t a))) ≡ g
add64_shift t a g fits =
    let d = sub64 g (add64 t a) in
    wrap_of_residue (t +ℤ add64 a d) g (
      omega (
        arith,
        residue-+ℤ t (add64 a d),
        residue-wrap (a +ℤ d),
        residue-+ℤ a d,
        residue-wrap (g -ℤ add64 t a),
        residue--ℤ g (add64 t a),
        residue-wrap (t +ℤ a),
        residue-+ℤ t a,
        residue-lt g,
        residue-lt t,
        residue-lt a,
      ))
    ∙ wrap-eq_of_Fits g fits
