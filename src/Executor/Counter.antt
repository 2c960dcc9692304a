-- ===== src/Executor/Counter.antt =====
-- The counter of a command packet, as its five bytes.
use ota_platform.Prelude.{ℕ, ◌+◌, ◌*◌, ◌%◌, ◌^◌, ◌≡◌, [], ◌∷◌, arith}
use ota_platform.Prelude.Bits.{Bytes}
use ota_platform.Executor.Activate.{counter_bytes}

-- The number that bytes write, the highest first.
unfoldable pub big_endian : ℕ → Bytes → ℕ
big_endian n [] = n
big_endian n (b ∷ bs) = big_endian (n * 256 + b) bs

-- The five counter bytes write the counter, the highest byte first, modulo 2 ^ 40.
pub big_endian-counter_bytes : (v : ℕ) → big_endian 0 (counter_bytes v) ≡ v % 2 ^ 40
unfolding big_endian counter_bytes
big_endian-counter_bytes v = omega arith
