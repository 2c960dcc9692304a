-- ===== src/Hex/Ber.antt =====
-- The BER length field against a reader of such fields (X.690, 8.1.3).
use ota_platform.Prelude.{
  ℕ, ◌+◌, ◌*◌, ◌<◌, ◌≡◌, [], ◌∷◌, ◌++◌, Option, none, some, ltb, ◌==◌, arith, if◌then◌else◌, All,
  length,
}
use ota_platform.Prelude.Bits.{Bytes, IsByte}
use ota_platform.Hex.{ber_length}

-- A length field and what follows it, for the forms of one, two and three bytes.
pub read_ber : Bytes → Option (ℕ × Bytes)
read_ber [] = none
read_ber (a ∷ rest) = if ltb a 0x80 then some (a, rest) else long a rest
  where
    long : ℕ → Bytes → Option (ℕ × Bytes)
    long a [] = none
    long a (b ∷ []) = if a == 0x81 then some (b, []) else none
    long a (b ∷ c ∷ rest) =
        if a == 0x81
        then some (b, c ∷ rest)
        else if a == 0x82
        then some (b * 256 + c, rest)
        else none

-- A length below 2 ^ 16 is read back from its field, whatever follows, and the field is the
-- shortest of the three forms that holds it.
pub read_ber-ber_length :
    (n : ℕ) (rest : Bytes)
    → n < 65536
    → (read_ber (ber_length n ++ rest) ≡ some (n, rest))
      × (All IsByte (ber_length n))
      × (length (ber_length n) ≡ (if ltb n 0x80 then 1 else if ltb n 0x100 then 2 else 3))
unfolding read_ber ber_length
read_ber-ber_length n [] h = (ground arith, ground arith, ground arith)
read_ber-ber_length n (r ∷ rest) h = (ground arith, ground arith, ground arith)
