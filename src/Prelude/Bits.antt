-- ===== src/Prelude/Bits.antt =====
-- Bytes: their range, and the masks and table checks that the encoders' proofs use.
use Prim.Native.Nat.{
  ℕ, zero, suc, ◌+◌, ◌*◌, ◌/◌, ◌%◌, ◌≤◌, ◌<◌, min, bit_and, digits, bit_and-bitwise,
}
use mathlib.Core.Path.{◌≡◌, refl}
use mathlib.Core.Bool.{Bool, true, ◌&&◌}
use mathlib.Core.List.{List}
use native.Mathlib.Omega.{arith}

-- A byte slice; an element is a byte if it is below 256.
abbrev pub Bytes : Type 0
Bytes = List ℕ

abbrev pub IsByte : ℕ → Type 0
IsByte b = b < 256

-- Go's conversion byte(n) of a non-negative integer.
abbrev pub byte : ℕ → ℕ
byte n = n % 256

-- A check of every value below a bound, by evaluation.
unfoldable pub check_below : ℕ → (ℕ → Bool) → Bool
check_below zero p = true
check_below (suc n) p = p n && check_below n p

pub check_below_sound : (n : ℕ) (p : ℕ → Bool) (x : ℕ) → check_below n p ≡ true → x < n → p x ≡ true
unfolding check_below
check_below_sound zero p x h lt = absurd (omega arith)
check_below_sound (suc n) p x h lt = ground (arith, check_below_sound n p x)

abbrev mask_digits : ℕ → ℕ → ℕ → ℕ
mask_digits n a b = digits (λ b. zero) min n a b

-- More fuel than the number has digits changes nothing.
mask_digits_stable : (n m a b : ℕ) → a ≤ n → a ≤ m → mask_digits n a b ≡ mask_digits m a b
mask_digits_stable n m zero b p q = zero_case n m
  where
    zero_case : (n m : ℕ) → mask_digits n zero b ≡ mask_digits m zero b
    zero_case zero zero = refl
    zero_case zero (suc m) = refl
    zero_case (suc n) zero = refl
    zero_case (suc n) (suc m) = refl
mask_digits_stable zero m (suc a) b p q = absurd (omega arith)
mask_digits_stable (suc n) zero (suc a) b p q = absurd (omega arith)
mask_digits_stable (suc n) (suc m) (suc a) b p q =
    omega (arith, mask_digits_stable n m (suc a / 2) (b / 2) (omega arith) (omega arith))

pub bit_and_halves : (a b : ℕ) → bit_and a b ≡ bit_and (a / 2) (b / 2) * 2 + min (a % 2) (b % 2)
bit_and_halves zero b = omega (arith, bit_and-bitwise 0 b, bit_and-bitwise 0 (b / 2))
bit_and_halves (suc a) b = omega (
  arith,
  bit_and-bitwise (suc a) b,
  bit_and-bitwise (suc a / 2) (b / 2),
  mask_digits_stable a (suc a / 2) (suc a / 2) (b / 2) (omega arith) (omega arith),
)

bit_and-zero_bounded : (n a : ℕ) → a ≤ n → bit_and a 0 ≡ 0
bit_and-zero_bounded n zero h = refl
bit_and-zero_bounded zero (suc a) h = absurd (omega arith)
bit_and-zero_bounded (suc n) (suc a) h =
    omega (arith, bit_and_halves (suc a) 0, bit_and-zero_bounded n (suc a / 2) (omega arith))

-- The masks of one, two and three bits, and of a byte, are remainders.
pub bit_and-one : (a : ℕ) → bit_and a 1 ≡ a % 2
bit_and-one a =
    omega (arith, bit_and_halves a 1, bit_and-zero_bounded (a / 2) (a / 2) (omega arith))

pub bit_and-three : (a : ℕ) → bit_and a 3 ≡ a % 4
bit_and-three a = omega (arith, bit_and_halves a 3, bit_and-one (a / 2))

pub bit_and-seven : (a : ℕ) → bit_and a 7 ≡ a % 8
bit_and-seven a = omega (arith, bit_and_halves a 7, bit_and-three (a / 2))

bit_and-nibble : (a : ℕ) → bit_and a 15 ≡ a % 16
bit_and-nibble a = omega (arith, bit_and_halves a 15, bit_and-seven (a / 2))

bit_and-six : (a : ℕ) → bit_and a 63 ≡ a % 64
bit_and-six a =
    omega (arith, bit_and_halves a 63, bit_and_halves (a / 2) 31, bit_and-nibble (a / 2 / 2))

pub bit_and-byte : (a : ℕ) → bit_and a 255 ≡ a % 256
bit_and-byte a =
    omega (arith, bit_and_halves a 255, bit_and_halves (a / 2) 127, bit_and-six (a / 2 / 2))
