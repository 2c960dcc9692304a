-- ===== src/Gsm0348/Crypto.antt =====
-- pkg/gsm0348/builder.go and response.go: padding, checksums, MACs and the CBC modes.
-- The block functions of crypto/des and crypto/aes are parameters; triple DES and CBC are those of
-- crypto/des and crypto/cipher.
pub mod Padding
pub mod Cbc
use ota_platform.Prelude.{
  ℕ, zero, suc, ◌+◌, ◌-◌, ◌*◌, ◌/◌, ◌%◌, List, [], ◌∷◌, ◌++◌, ltb, leb, ◌==◌, if◌then◌else◌, length,
  take, drop, slice, replicate, bit_xor,
}
use ota_platform.Prelude.Bits.{Bytes, byte}
use ota_platform.Prelude.Results.{Result, ok, err, ◌>>=◌}
use ota_platform.Gsm0348.Types.{
  CryptoError, key_too_short, unsupported_mode, not_whole_blocks, out_of_range, cipher_des_cbc,
  cipher_3des_cbc_2_keys, cipher_3des_cbc_3_keys, cipher_aes_cbc,
}

-- The block functions: a key, then a block of 8 bytes (DES) or 16 bytes (AES).
pub record BlockCiphers : Type 0 where
  pub des_encrypt : Bytes → Bytes → Bytes
  pub des_decrypt : Bytes → Bytes → Bytes
  pub aes_encrypt : Bytes → Bytes → Bytes

-- A slice data padded to whole blocks with zeros, and the number of bytes added.
unfoldable pub pad_data : Bytes → ℕ → Bytes × ℕ
pad_data [] block_size = (replicate block_size 0, byte block_size)
pad_data (b ∷ bs) block_size =
    let user : Bytes = b ∷ bs in
    let remainder = length user % block_size in
    let pad_len = block_size - remainder in
    if remainder == 0 then (user, 0) else (user ++ replicate pad_len 0, byte pad_len)

-- dst[i] ^= src[i] for as long as both have bytes
unfoldable pub xor_bytes : Bytes → Bytes → Bytes
xor_bytes [] src = []
xor_bytes (d ∷ dst) [] = d ∷ dst
xor_bytes (d ∷ dst) (s ∷ src) = bit_xor d s ∷ xor_bytes dst src

-- crc[i] ^= b
unfoldable pub xor_at : Bytes → ℕ → ℕ → Bytes
xor_at [] i b = []
xor_at (c ∷ crc) zero b = bit_xor c b ∷ crc
xor_at (c ∷ crc) (suc i) b = c ∷ xor_at crc i b

-- The loop of computeCRC over bytes whose first stands at index `offset` of the whole.
unfoldable pub crc_loop : ℕ → ℕ → Bytes → Bytes → Bytes
unfolding xor_at
crc_loop size offset [] crc = crc
crc_loop size offset (b ∷ bs) crc = crc_loop size (offset + 1) bs (xor_at crc (offset % size) b)

unfoldable pub compute_crc : Bytes → Bytes → ℕ → Bytes
unfolding crc_loop
compute_crc header padded size =
    crc_loop size (length header) padded (crc_loop size 0 header (replicate size 0))

-- The chaining loop of the MACs: one block of eight bytes a round.
unfoldable pub mac_loop : ℕ → (Bytes → Bytes) → Bytes → Bytes → Bytes
unfolding xor_bytes
mac_loop zero encrypt input mac = mac
mac_loop (suc rounds) encrypt input mac =
    mac_loop rounds encrypt (drop 8 input) (encrypt (xor_bytes mac (take 8 input)))

-- The rounds of `for i := 0; i < len(data); i += 8`.
unfoldable pub cbc_mac : (Bytes → Bytes) → Bytes → Bytes
unfolding mac_loop
cbc_mac encrypt input = mac_loop ((length input + 7) / 8) encrypt input (replicate 8 0)

unfoldable pub compute_retail_mac_des : BlockCiphers → Bytes → Bytes → Result CryptoError Bytes
unfolding cbc_mac
compute_retail_mac_des bc key input =
    if ltb (length key) 8
    then err (key_too_short (length key))
    else ok (cbc_mac (bc.des_encrypt (take 8 key)) input)

unfoldable pub compute_retail_mac_3des_2_keys :
    BlockCiphers → Bytes → Bytes → Result CryptoError Bytes
unfolding cbc_mac
compute_retail_mac_3des_2_keys bc key input =
    let k1 = take 8 key in
    let k2 = slice key 8 16 in
    let mac = cbc_mac (bc.des_encrypt k1) input in
    if ltb (length key) 16
    then err (key_too_short (length key))
    else ok (bc.des_encrypt k1 (bc.des_decrypt k2 mac))

unfoldable pub compute_retail_mac_3des_3_keys :
    BlockCiphers → Bytes → Bytes → Result CryptoError Bytes
unfolding cbc_mac
compute_retail_mac_3des_3_keys bc key input =
    let k1 = take 8 key in
    let k2 = slice key 8 16 in
    let k3 = slice key 16 24 in
    let mac = cbc_mac (bc.des_encrypt k1) input in
    if ltb (length key) 24
    then err (key_too_short (length key))
    else ok (bc.des_encrypt k3 (bc.des_decrypt k2 mac))

-- header ++ data, zero-filled to whole blocks of eight bytes
unfoldable pub mac_input : Bytes → Bytes → Bytes
mac_input header padded =
    let rem = (length header + length padded) % 8 in
    header ++ (padded ++ (if rem == 0 then [] else replicate (8 - rem) 0))

unfoldable pub compute_mac : BlockCiphers → ℕ → Bytes → Bytes → Bytes → Result CryptoError Bytes
unfolding compute_retail_mac_des compute_retail_mac_3des_2_keys compute_retail_mac_3des_3_keys
compute_mac bc mode key header padded =
    let input = mac_input header padded in
    if mode == cipher_des_cbc
    then compute_retail_mac_des bc key input
    else if mode == cipher_3des_cbc_2_keys
    then compute_retail_mac_3des_2_keys bc key input
    else if mode == cipher_3des_cbc_3_keys
    then compute_retail_mac_3des_3_keys bc key input
    else err (unsupported_mode mode)

-- crypto/des, triple DES under a key of 24 bytes: encrypt, decrypt, encrypt.
unfoldable pub triple_des_encrypt : BlockCiphers → Bytes → Bytes → Bytes
triple_des_encrypt bc key block =
    bc.des_encrypt (slice key 16 24)
      (bc.des_decrypt (slice key 8 16) (bc.des_encrypt (slice key 0 8) block))

unfoldable pub triple_des_decrypt : BlockCiphers → Bytes → Bytes → Bytes
triple_des_decrypt bc key block =
    bc.des_decrypt (slice key 0 8)
      (bc.des_encrypt (slice key 8 16) (bc.des_decrypt (slice key 16 24) block))

-- crypto/cipher, CBC: the first argument counts the blocks.
unfoldable pub cbc_encrypt : ℕ → (Bytes → Bytes) → ℕ → Bytes → Bytes → Bytes
unfolding xor_bytes
cbc_encrypt zero encrypt block_size previous input = []
cbc_encrypt (suc blocks) encrypt block_size previous input =
    let block = encrypt (xor_bytes (take block_size input) previous) in
    block ++ cbc_encrypt blocks encrypt block_size block (drop block_size input)

unfoldable pub cbc_decrypt : ℕ → (Bytes → Bytes) → ℕ → Bytes → Bytes → Bytes
unfolding xor_bytes
cbc_decrypt zero decrypt block_size previous input = []
cbc_decrypt (suc blocks) decrypt block_size previous input =
    let block = take block_size input in
    xor_bytes (decrypt block) previous
    ++ cbc_decrypt blocks decrypt block_size block (drop block_size input)

-- The block function and block size that a mode and a key select.
pub record BlockMode : Type 0 where
  pub run : Bytes → Bytes
  pub block_size : ℕ

-- K1 | K2 | K1
abbrev pub expand_key : Bytes → Bytes
expand_key key = take 16 key ++ take 8 key

unfoldable pub aes_key : Bytes → Bytes
aes_key key =
    if leb 32 (length key)
    then take 32 key
    else if leb 24 (length key)
    then take 24 key
    else take 16 key

unfoldable pub encrypt_mode : BlockCiphers → ℕ → Bytes → Result CryptoError BlockMode
unfolding aes_key triple_des_encrypt
encrypt_mode bc mode key =
    if mode == cipher_aes_cbc
    then if leb 16 (length key)
      then ok (record { run = bc.aes_encrypt (aes_key key); block_size = 16 })
      else err (key_too_short (length key))
    else if mode == cipher_des_cbc
    then if ltb (length key) 8
      then err (key_too_short (length key))
      else ok (record { run = bc.des_encrypt (take 8 key); block_size = 8 })
    else if mode == cipher_3des_cbc_2_keys
    then if ltb (length key) 16
      then err (key_too_short (length key))
      else ok (record { run = triple_des_encrypt bc (expand_key key); block_size = 8 })
    else if mode == cipher_3des_cbc_3_keys
    then if ltb (length key) 24
      then err (key_too_short (length key))
      else ok (record { run = triple_des_encrypt bc (take 24 key); block_size = 8 })
    else err (unsupported_mode mode)

-- key[:n]
unfoldable pub key_prefix : ℕ → Bytes → Result CryptoError Bytes
key_prefix n key = if ltb (length key) n then err out_of_range else ok (take n key)

unfoldable pub decrypt_mode : BlockCiphers → ℕ → Bytes → Result CryptoError BlockMode
unfolding triple_des_decrypt key_prefix
decrypt_mode bc mode key =
    let des : Result CryptoError BlockMode = (do
      k ← key_prefix 8 key
      ok (record { run = bc.des_decrypt k; block_size = 8 })) in
    let two_keys : Result CryptoError BlockMode = (do
      k ← key_prefix 16 key
      k1 ← key_prefix 8 key
      ok (record { run = triple_des_decrypt bc (k ++ k1); block_size = 8 })) in
    let three_keys : Result CryptoError BlockMode = (do
      k ← key_prefix 24 key
      ok (record { run = triple_des_decrypt bc k; block_size = 8 })) in
    if mode == cipher_des_cbc
    then if ltb (length key) 8 then err (key_too_short (length key)) else des
    else if mode == cipher_3des_cbc_2_keys
    then if ltb (length key) 16 then err (key_too_short (length key)) else two_keys
    else if mode == cipher_3des_cbc_3_keys
    then if ltb (length key) 24 then err (key_too_short (length key)) else three_keys
    else err (unsupported_mode mode)

-- The initial vector is all zeros.
unfoldable pub encrypt_data : BlockCiphers → ℕ → Bytes → Bytes → Result CryptoError Bytes
encrypt_data bc mode key input = do
  m ← encrypt_mode bc mode key
  if length input % m.block_size == 0
      then ok (
          cbc_encrypt (length input / m.block_size) m.run m.block_size (replicate m.block_size 0)
            input)
      else err (not_whole_blocks (length input) m.block_size)

unfoldable pub decrypt_data : BlockCiphers → ℕ → Bytes → Bytes → Result CryptoError Bytes
decrypt_data bc mode key input = do
  m ← decrypt_mode bc mode key
  if length input % m.block_size == 0
      then ok (
          cbc_decrypt (length input / m.block_size) m.run m.block_size (replicate m.block_size 0)
            input)
      else err (not_whole_blocks (length input) m.block_size)
