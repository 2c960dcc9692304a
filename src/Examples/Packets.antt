-- ===== src/Examples/Packets.antt =====
-- pkg/gsm0348 at small inputs, with toy block functions.
use ota_platform.Prelude.{
  length-map, ◌∙◌, ℕ, ◌+◌, ◌-◌, ◌≡◌, ◌≢◌, refl, Bool, true, false, [], ◌∷◌, ◌++◌, map, none, some,
  arith, length, bit_xor,
}
use ota_platform.Gsm0348.Crypto.Cbc.{IsBlockCipher, decrypt_data-encrypt_data}
use ota_platform.Prelude.Bytes.{bit_xor_undo}
use ota_platform.Prelude.Bits.{Bytes}
use ota_platform.Prelude.Results.{Result, ok, err, is_ok}
use ota_platform.Gsm0348.Types.{
  ResponsePacket, CryptoError, SecurityProfile, CommandPacketInput, cert_rc, cert_cc,
  cipher_des_cbc,
}
use ota_platform.Gsm0348.Header.{
  encode_spi1, encode_spi2, encode_kic, encode_kid, signature_length, cipher_block_size,
}
use ota_platform.Gsm0348.Crypto.{
  encrypt_data, decrypt_data, encrypt_mode, cbc_encrypt, compute_mac, compute_retail_mac_des,
  mac_input, cbc_mac, mac_loop, xor_bytes, BlockCiphers, compute_crc, crc_loop, xor_at,
}
use ota_platform.Gsm0348.Command.{
  card_mac, cut_mac, BuildError, padded_data, build_header, sign, encipher, assemble_packet,
  build_command_packet,
}
use ota_platform.Gsm0348.Command.Layout.{reading, reading-build_command_packet}
use ota_platform.Gsm0348.Command.Outcome.{
  build_command_packet-misaligned, build_command_packet-MacKeyFits, MacKeyFits,
}
use ota_platform.Gsm0348.Response.{panicked, parse_response_packet}
use ota_platform.Gsm0348.Response.RoundTrip.{format_response, parse_response_packet-format_response}
use ota_platform.Gsm0348.Response.Safety.{parse_response_packet_never_panics}

-- Block functions that exclusive-or every byte with the first byte of the key.
abbrev toy_encrypt : Bytes → Bytes → Bytes
toy_encrypt [] block = block
toy_encrypt (k ∷ ks) block = map (λ b. bit_xor b k) block

abbrev toy_ciphers : BlockCiphers
toy_ciphers = record {
  des_encrypt = toy_encrypt;
  des_decrypt = toy_encrypt;
  aes_encrypt = toy_encrypt;
}

abbrev profile_with : ℕ → Bool → ℕ → SecurityProfile
profile_with cert ciphered mode = record {
  cert_mode = cert;
  ciphered = ciphered;
  counter_mode = 2;
  por_mode = 1;
  por_cert_mode = 0;
  por_ciphered = false;
  por_protocol = 2;
  kic_algo = 1;
  kic_mode = mode;
  kic_keyset_id = 3;
  kid_algo = 1;
  kid_mode = mode;
  kid_keyset_id = 3;
  security_bytes_with_lengths_and_udhl = true;
}

abbrev eight_bytes : Bytes
eight_bytes = 1 ∷ 2 ∷ 3 ∷ 4 ∷ 5 ∷ 6 ∷ 7 ∷ 8 ∷ []

abbrev input : CommandPacketInput
input = record {
  tar = 0xB0 ∷ 0x00 ∷ 0x10 ∷ [];
  counter = 0 ∷ 0 ∷ 0 ∷ 0 ∷ 5 ∷ [];
  ciphering_key = eight_bytes ++ eight_bytes;
  signing_key = eight_bytes ++ eight_bytes;
  user_data = 0xA0 ∷ 0xA4 ∷ [];
  crypto_provider = none;
  card_id = "";
}

abbrev rc_profile : SecurityProfile
rc_profile = profile_with cert_rc false cipher_des_cbc

abbrev result_bytes : Result BuildError Bytes → Bytes
result_bytes (ok bs) = bs
result_bytes (err e) = []

abbrev packet_of : SecurityProfile → Bytes
packet_of sp = result_bytes (build_command_packet toy_ciphers sp input)

abbrev rc_packet : Bytes
rc_packet = packet_of rc_profile

reading-build_command_packet_example :
    let (padded, pcntr) = padded_data rc_profile input.user_data in
    (signature : Bytes) × (sealed : Bytes) × (sign toy_ciphers rc_profile input
        (build_header rc_profile input pcntr)
        padded
      ≡ ok signature)
    × (encipher toy_ciphers rc_profile input (signature ++ padded) ≡ ok sealed)
    × (reading rc_packet
        ≡ some (record {
          cpl = length rc_packet - 2;
          chl = 13 + signature_length rc_profile;
          control =
              encode_spi1 rc_profile
              ∷ encode_spi2 rc_profile
              ∷ encode_kic rc_profile
              ∷ encode_kid rc_profile
              ∷ [];
          tar = input.tar;
          counter = input.counter;
          pcntr = pcntr ∷ [];
          sealed = sealed;
        }))
unfolding build_command_packet sign encipher padded_data compute_crc crc_loop xor_at assemble_packet
    build_header signature_length encode_spi1 encode_spi2 encode_kic encode_kid
reading-build_command_packet_example =
    reading-build_command_packet toy_ciphers rc_profile input rc_packet refl refl (omega arith) refl

build_command_packet-misaligned_example :
    is_ok (build_command_packet toy_ciphers (profile_with cert_rc true cipher_des_cbc) input)
    ≡ false
unfolding signature_length cipher_block_size
build_command_packet-misaligned_example =
    build_command_packet-misaligned toy_ciphers (profile_with cert_rc true cipher_des_cbc) input
      refl refl (λ h. omega (arith, h))

abbrev cc_profile : SecurityProfile
cc_profile = profile_with cert_cc false cipher_des_cbc

build_command_packet-MacKeyFits_example : MacKeyFits cipher_des_cbc input.signing_key
unfolding build_command_packet sign encipher padded_data card_mac compute_mac compute_retail_mac_des
    cut_mac build_header signature_length assemble_packet mac_input cbc_mac mac_loop xor_bytes
build_command_packet-MacKeyFits_example =
    build_command_packet-MacKeyFits toy_ciphers cc_profile input (packet_of cc_profile) refl refl
      refl

parse_response_packet_never_panics_example :
    parse_response_packet toy_ciphers rc_profile (0 ∷ 3 ∷ 10 ∷ 0xB0 ∷ []) [] ≢ err panicked
parse_response_packet_never_panics_example =
    parse_response_packet_never_panics toy_ciphers rc_profile (0 ∷ 3 ∷ 10 ∷ 0xB0 ∷ []) []

length-toy_encrypt : (key block : Bytes) → length (toy_encrypt key block) ≡ length block
length-toy_encrypt [] block = refl
length-toy_encrypt (k ∷ ks) block = length-map (λ b. bit_xor b k) block

map-bit_xor_undo :
    (k : ℕ) (block : Bytes) → map (λ b. bit_xor b k) (map (λ b. bit_xor b k) block) ≡ block
map-bit_xor_undo k [] = refl
map-bit_xor_undo k (b ∷ block) = cc (bit_xor_undo b k, map-bit_xor_undo k block)

toy_encrypt_undo : (key block : Bytes) → toy_encrypt key (toy_encrypt key block) ≡ block
toy_encrypt_undo [] block = refl
toy_encrypt_undo (k ∷ ks) block = map-bit_xor_undo k block

toy_encrypt-IsBlockCipher : (key : Bytes) → IsBlockCipher 8 (toy_encrypt key) (toy_encrypt key)
toy_encrypt-IsBlockCipher key = record {
  keeps = λ block h. length-toy_encrypt key block ∙ h;
  undone = λ block h. toy_encrypt_undo key block;
}

abbrev enciphered : Bytes
enciphered =
    crypto_bytes (encrypt_data toy_ciphers cipher_des_cbc eight_bytes (eight_bytes ++ eight_bytes))
  where
    crypto_bytes : Result CryptoError Bytes → Bytes
    crypto_bytes (ok bs) = bs
    crypto_bytes (err e) = []

decrypt_data-encrypt_data_example :
    decrypt_data toy_ciphers cipher_des_cbc eight_bytes enciphered ≡ ok (eight_bytes ++ eight_bytes)
unfolding encrypt_data encrypt_mode cbc_encrypt xor_bytes
decrypt_data-encrypt_data_example =
    decrypt_data-encrypt_data toy_ciphers cipher_des_cbc eight_bytes (eight_bytes ++ eight_bytes)
      enciphered toy_encrypt-IsBlockCipher toy_encrypt-IsBlockCipher refl refl

abbrev response : ResponsePacket
response = record {
  tar = 0xB0 ∷ 0x00 ∷ 0x10 ∷ [];
  counter = 0 ∷ 0 ∷ 0 ∷ 0 ∷ 5 ∷ [];
  pcntr = 3;
  status_code = 0;
  signature = 1 ∷ 2 ∷ 3 ∷ 4 ∷ [];
  body = 0x90 ∷ 0x00 ∷ [];
}

parse_response_packet-format_response_example :
    parse_response_packet toy_ciphers rc_profile (format_response response) [] ≡ ok response
parse_response_packet-format_response_example =
    parse_response_packet-format_response toy_ciphers rc_profile [] response refl refl refl
      (omega arith)
