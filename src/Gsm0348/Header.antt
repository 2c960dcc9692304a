-- ===== src/Gsm0348/Header.antt =====
-- pkg/gsm0348/builder.go: the bytes of the security header, and the names of algorithms and modes.
pub mod Fields
use Prim.Native.String.{String}
use ota_platform.Prelude.{ℕ, ◌*◌, Bool, true, false, ◌==◌, if◌then◌else◌, bit_and, bit_or}
use ota_platform.Prelude.Bits.{byte}
use ota_platform.Gsm0348.Types.{
  SecurityProfile, cert_rc, cert_cc, cipher_aes_cbc, cipher_3des_cbc_2_keys, cipher_3des_cbc_3_keys,
}

-- The shifts are of bytes.
unfoldable pub encode_spi1 : SecurityProfile → ℕ
encode_spi1 sp =
    let b = bit_or 0 (bit_and sp.cert_mode 0x03) in
    let b' = if sp.ciphered then bit_or b 0x04 else b in
    bit_or b' (byte (bit_and sp.counter_mode 0x03 * 8))

unfoldable pub encode_spi2 : SecurityProfile → ℕ
encode_spi2 sp =
    let b =
      bit_or (bit_or 0 (bit_and sp.por_mode 0x03)) (byte (bit_and sp.por_cert_mode 0x03 * 4)) in
    let b' = if sp.por_ciphered then bit_or b 0x10 else b in
    bit_or b' (byte (bit_and sp.por_protocol 0x03 * 32))

unfoldable pub encode_kic : SecurityProfile → ℕ
encode_kic sp =
    bit_or (bit_or (bit_or 0 (bit_and sp.kic_algo 0x03)) (byte (bit_and sp.kic_mode 0x03 * 4)))
      (byte (bit_and sp.kic_keyset_id 0x07 * 16))

unfoldable pub encode_kid : SecurityProfile → ℕ
encode_kid sp =
    bit_or (bit_or (bit_or 0 (bit_and sp.kid_algo 0x03)) (byte (bit_and sp.kid_mode 0x03 * 4)))
      (byte (bit_and sp.kid_keyset_id 0x07 * 16))

unfoldable pub signature_length : SecurityProfile → ℕ
signature_length sp =
    if sp.cert_mode == cert_rc then 4 else if sp.cert_mode == cert_cc then 8 else 0

unfoldable pub cipher_block_size : SecurityProfile → ℕ
cipher_block_size sp = if sp.kic_mode == cipher_aes_cbc then 16 else 8

unfoldable pub algo_name : ℕ → String
algo_name algo = if algo == 0x02 then "AES" else "DES"

unfoldable pub cipher_mode_name : ℕ → String
cipher_mode_name mode =
    if mode == cipher_3des_cbc_2_keys
    then "TRIPLE_DES_CBC_2_KEYS"
    else if mode == cipher_3des_cbc_3_keys
    then "TRIPLE_DES_CBC_3_KEYS"
    else if mode == cipher_aes_cbc
    then "AES_CBC"
    else "DES_CBC"
