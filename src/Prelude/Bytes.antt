-- ===== src/Prelude/Bytes.antt =====
-- Or and exclusive or on bytes: the laws that shifting into place and masking with a key need.
use Prim.Native.Nat.{
  ℕ, zero, suc, ◌+◌, ◌*◌, ◌/◌, ◌%◌, ◌^◌, ◌≤◌, ◌<◌, max, bit_or, bit_xor, differ, digits,
  bit_or-bitwise, bit_xor-bitwise,
}
use mathlib.Core.Path.{◌≡◌, refl, ap, ◌∙◌, sym}
use native.Mathlib.Nat.{pow-suc}
use native.Mathlib.Omega.{arith}

abbrev or_digits : (ℕ → ℕ → ℕ) → ℕ → ℕ → ℕ → ℕ
or_digits f n a b = digits (λ b. b) f n a b

or_digits-zero : (f : ℕ → ℕ → ℕ) (n b : ℕ) → or_digits f n zero b ≡ b
or_digits-zero f zero b = refl
or_digits-zero f (suc n) b = refl

-- More fuel than the first number has digits changes nothing.
or_digits_stable :
    (f : ℕ → ℕ → ℕ) (n m a b : ℕ) → a ≤ n → a ≤ m → or_digits f n a b ≡ or_digits f m a b
or_digits_stable f n m zero b p q = or_digits-zero f n b ∙ sym (or_digits-zero f m b)
or_digits_stable f zero m (suc a) b p q = absurd (omega arith)
or_digits_stable f (suc n) zero (suc a) b p q = absurd (omega arith)
or_digits_stable f (suc n) (suc m) (suc a) b p q =
    ap (λ t. t * 2 + f (suc a % 2) (b % 2))
      (or_digits_stable f n m (suc a / 2) (b / 2) (omega arith) (omega arith))

pub bit_or_halves : (a b : ℕ) → bit_or a b ≡ bit_or (a / 2) (b / 2) * 2 + max (a % 2) (b % 2)
bit_or_halves zero b = omega (arith, bit_or-bitwise 0 b, bit_or-bitwise 0 (b / 2))
bit_or_halves (suc a) b = omega (
  arith,
  bit_or-bitwise (suc a) b,
  bit_or-bitwise (suc a / 2) (b / 2),
  or_digits_stable max a (suc a / 2) (suc a / 2) (b / 2) (omega arith) (omega arith),
)

differ_digits : (x y : ℕ) → x < 2 → y < 2 → differ x y ≡ (x + y) % 2
differ_digits zero y p q = omega arith
differ_digits (suc zero) zero p q = refl
differ_digits (suc zero) (suc zero) p q = refl
differ_digits (suc zero) (suc (suc y)) p q = absurd (omega arith)
differ_digits (suc (suc x)) y p q = absurd (omega arith)

pub bit_xor_halves : (a b : ℕ) → bit_xor a b ≡ bit_xor (a / 2) (b / 2) * 2 + (a + b) % 2
bit_xor_halves zero b = omega (arith, bit_xor-bitwise 0 b, bit_xor-bitwise 0 (b / 2))
bit_xor_halves (suc a) b = omega (
  arith,
  bit_xor-bitwise (suc a) b,
  bit_xor-bitwise (suc a / 2) (b / 2),
  or_digits_stable differ a (suc a / 2) (suc a / 2) (b / 2) (omega arith) (omega arith),
  differ_digits (suc a % 2) (b % 2) (omega arith) (omega arith),
)

bit_or-zero : (n a : ℕ) → a ≤ n → bit_or a 0 ≡ a
bit_or-zero n zero h = refl
bit_or-zero zero (suc a) h = absurd (omega arith)
bit_or-zero (suc n) (suc a) h =
    omega (arith, bit_or_halves (suc a) 0, bit_or-zero n (suc a / 2) (omega arith))

-- A number shifted left by k digits, and one of at most k digits, do not meet.
or_shifted : (k a b : ℕ) → b < 2 ^ k → bit_or (a * 2 ^ k) b ≡ a * 2 ^ k + b
or_shifted zero a b h =
    let e : b ≡ 0 = omega arith in rw e (omega (arith, bit_or-zero (a * 1) (a * 1) (omega arith)))
or_shifted (suc k) a b h =
    let double : a * 2 ^ suc k ≡ 2 * (a * 2 ^ k) = omega (arith, ap (λ t. a * t) (pow-suc 2 k)) in
    let half : a * 2 ^ suc k / 2 ≡ a * 2 ^ k = omega arith in
    omega (
      arith,
      bit_or_halves (a * 2 ^ suc k) b,
      ap (λ t. bit_or t (b / 2)) half,
      or_shifted k a (b / 2) (omega (arith, pow-suc 2 k)),
    )

pub bit_or-byte : (a b : ℕ) → b < 256 → bit_or (a * 256) b ≡ a * 256 + b
bit_or-byte a b h = or_shifted 8 a b h

xor-lt : (k a b : ℕ) → a < 2 ^ k → b < 2 ^ k → bit_xor a b < 2 ^ k
xor-lt zero a b p q =
    let e : a ≡ 0 = omega arith in let e' : b ≡ 0 = omega arith in rw (e, e') (omega arith)
xor-lt (suc k) a b p q = omega (
  arith,
  bit_xor_halves a b,
  pow-suc 2 k,
  xor-lt k (a / 2) (b / 2) (omega (arith, pow-suc 2 k)) (omega (arith, pow-suc 2 k)),
)

pub bit_xor-byte : (a b : ℕ) → a < 256 → b < 256 → bit_xor a b < 256
bit_xor-byte a b p q = xor-lt 8 a b p q

xor_undo_fuel : (n a b : ℕ) → a ≤ n → b ≤ n → bit_xor (bit_xor a b) b ≡ a
xor_undo_fuel zero a b p q =
    let e : a ≡ 0 = omega arith in let e' : b ≡ 0 = omega arith in rw (e, e') refl
xor_undo_fuel (suc n) a b p q =
    let half : bit_xor a b / 2 ≡ bit_xor (a / 2) (b / 2) = omega (arith, bit_xor_halves a b) in
    omega (
      arith,
      bit_xor_halves a b,
      bit_xor_halves (bit_xor a b) b,
      ap (λ t. bit_xor t (b / 2)) half,
      xor_undo_fuel n (a / 2) (b / 2) (omega arith) (omega arith),
    )

pub bit_xor_undo : (a b : ℕ) → bit_xor (bit_xor a b) b ≡ a
bit_xor_undo a b = xor_undo_fuel (max a b) a b (omega arith) (omega arith)
