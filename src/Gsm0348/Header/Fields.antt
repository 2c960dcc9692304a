-- ===== src/Gsm0348/Header/Fields.antt =====
-- Each header byte read back field by field.
use ota_platform.Prelude.{
  ℕ, ◌*◌, ◌/◌, ◌%◌, ◌<◌, ◌≡◌, refl, Bool, true, false, ◌==◌, ==_iff, if◌then◌else◌, bit_and, bit_or,
  arith, ◌+◌,
}
use ota_platform.Prelude.Bits.{byte, check_below, check_below_sound, bit_and-three, bit_and-seven}
use ota_platform.Gsm0348.Types.{SecurityProfile}
use ota_platform.Gsm0348.Header.{encode_spi1, encode_spi2, encode_kic, encode_kid}

-- A property of two small numbers, by evaluation.
check_below₂ : (ℕ → ℕ → Bool) → ℕ → ℕ → Bool
check_below₂ p m n = check_below m (λ r. check_below n (p r))

check_below₂-sound :
    (p : ℕ → ℕ → Bool) (m n r s : ℕ) → check_below₂ p m n ≡ true → r < m → s < n → p r s ≡ true
unfolding check_below₂
check_below₂-sound p m n r s h hr hs =
    check_below_sound n (p r) s (check_below_sound m (λ r. check_below n (p r)) r h hr) hs

-- The three fields of a byte, put together by shifts and or, are its digits.
abbrev join_spi1 : ℕ → Bool → ℕ → ℕ
join_spi1 r flag s = let b = bit_or 0 r in bit_or (if flag then bit_or b 0x04 else b) (byte (s * 8))

spi1_table :
    (flag : Bool)
    → check_below₂ (λ r s. join_spi1 r flag s == r + (if flag then 4 else 0) + s * 8) 4 4 ≡ true
unfolding check_below check_below₂
spi1_table true = refl
spi1_table false = refl

pub encode_spi1-digits :
    (sp : SecurityProfile)
    → encode_spi1 sp ≡ sp.cert_mode % 4 + (if sp.ciphered then 4 else 0) + sp.counter_mode % 4 * 8
unfolding encode_spi1
encode_spi1-digits sp =
    rw (bit_and-three sp.cert_mode, bit_and-three sp.counter_mode)
      ((==_iff _ _).0 (
        check_below₂-sound _ 4 4 (sp.cert_mode % 4) (sp.counter_mode % 4) (spi1_table sp.ciphered)
          (omega arith) (omega arith)))

check_below₃ : (ℕ → ℕ → ℕ → Bool) → ℕ → ℕ → ℕ → Bool
check_below₃ p l m n = check_below l (λ r. check_below₂ (p r) m n)

check_below₃-sound :
    (p : ℕ → ℕ → ℕ → Bool) (l m n r s t : ℕ)
    → check_below₃ p l m n ≡ true
    → r < l
    → s < m
    → t < n
    → p r s t ≡ true
unfolding check_below₃
check_below₃-sound p l m n r s t h hr hs ht =
    check_below₂-sound (p r) m n s t (check_below_sound l (λ r. check_below₂ (p r) m n) r h hr) hs
      ht

abbrev join_spi2 : ℕ → ℕ → Bool → ℕ → ℕ
join_spi2 r s flag t =
    let b = bit_or (bit_or 0 r) (byte (s * 4)) in
    bit_or (if flag then bit_or b 0x10 else b) (byte (t * 32))

spi2_table :
    (flag : Bool)
    → check_below₃
        (λ r s t. join_spi2 r s flag t == r + s * 4 + (if flag then 16 else 0) + t * 32)
        4
        4
        4
      ≡ true
unfolding check_below check_below₂ check_below₃
spi2_table true = refl
spi2_table false = refl

pub encode_spi2-digits :
    (sp : SecurityProfile)
    → encode_spi2 sp
      ≡ sp.por_mode % 4
        + sp.por_cert_mode % 4 * 4
        + (if sp.por_ciphered then 16 else 0)
        + sp.por_protocol % 4 * 32
unfolding encode_spi2
encode_spi2-digits sp =
    rw (bit_and-three sp.por_mode, bit_and-three sp.por_cert_mode, bit_and-three sp.por_protocol)
      ((==_iff _ _).0 (
        check_below₃-sound _ 4 4 4 (sp.por_mode % 4) (sp.por_cert_mode % 4) (sp.por_protocol % 4)
          (spi2_table sp.por_ciphered) (omega arith) (omega arith) (omega arith)))

abbrev join_key : ℕ → ℕ → ℕ → ℕ
join_key r s t = bit_or (bit_or (bit_or 0 r) (byte (s * 4))) (byte (t * 16))

key_table : check_below₃ (λ r s t. join_key r s t == r + s * 4 + t * 16) 4 4 8 ≡ true
unfolding check_below check_below₂ check_below₃
key_table = refl

key_digits :
    (algo mode keyset : ℕ)
    → join_key (bit_and algo 0x03) (bit_and mode 0x03) (bit_and keyset 0x07)
      ≡ algo % 4 + mode % 4 * 4 + keyset % 8 * 16
key_digits algo mode keyset =
    rw (bit_and-three algo, bit_and-three mode, bit_and-seven keyset)
      ((==_iff _ _).0 (
        check_below₃-sound _ 4 4 8 (algo % 4) (mode % 4) (keyset % 8) key_table (omega arith)
          (omega arith) (omega arith)))

abbrev pub bit_of : Bool → ℕ
bit_of flag = if flag then 1 else 0

abbrev pub HasFields : ℕ → ℕ → ℕ → ℕ → Type 0
HasFields key algo mode keyset =
    (key % 4 ≡ algo % 4) × (key / 4 % 4 ≡ mode % 4) × (key / 16 ≡ keyset % 8)

-- From the four header bytes every field of the profile is read back at its place, as far as the
-- place has room: two bits for modes and algorithms, one for flags, three for a keyset number.
pub header_fields :
    (sp : SecurityProfile)
    → ((encode_spi1 sp % 4 ≡ sp.cert_mode % 4)
        × (encode_spi1 sp / 4 % 2 ≡ bit_of sp.ciphered)
        × (encode_spi1 sp / 8 ≡ sp.counter_mode % 4))
      × ((encode_spi2 sp % 4 ≡ sp.por_mode % 4)
          × (encode_spi2 sp / 4 % 4 ≡ sp.por_cert_mode % 4)
          × (encode_spi2 sp / 16 % 2 ≡ bit_of sp.por_ciphered)
          × (encode_spi2 sp / 32 ≡ sp.por_protocol % 4))
      × HasFields (encode_kic sp) sp.kic_algo sp.kic_mode sp.kic_keyset_id
      × HasFields (encode_kid sp) sp.kid_algo sp.kid_mode sp.kid_keyset_id
unfolding encode_kic encode_kid
header_fields sp = (
  ground (arith, encode_spi1-digits sp),
  ground (arith, encode_spi2-digits sp),
  omega (arith, key_digits sp.kic_algo sp.kic_mode sp.kic_keyset_id),
  omega (arith, key_digits sp.kid_algo sp.kid_mode sp.kid_keyset_id),
)
