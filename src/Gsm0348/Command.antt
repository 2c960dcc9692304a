-- ===== src/Gsm0348/Command.antt =====
-- pkg/gsm0348/builder.go, BuildCommandPacket.
pub mod Layout
pub mod Outcome
use ota_platform.Prelude.{
  ℕ, ◌+◌, ◌-◌, ◌/◌, ◌%◌, ◌*◌, Bool, true, false, List, [], ◌∷◌, ◌++◌, Option, none, some, ltb, leb,
  ◌==◌, if◌then◌else◌, length, take, replicate, bit_and,
}
use ota_platform.Prelude.Bits.{Bytes, byte}
use ota_platform.Prelude.Results.{Result, ok, err, ◌>>=◌}
use ota_platform.Gsm0348.Types.{
  SecurityProfile, CryptoError, CommandPacketInput, cert_rc, cert_cc, cert_ds,
}
use ota_platform.Gsm0348.Header.{
  encode_spi1, encode_spi2, encode_kic, encode_kid, signature_length, cipher_block_size, algo_name,
  cipher_mode_name,
}
use ota_platform.Gsm0348.Crypto.{
  BlockCiphers, pad_data, compute_crc, compute_mac, encrypt_data, mac_input,
}

pub data BuildError : Type 0 where
  compute_mac_failed : CryptoError → BuildError
  encrypt_failed : CryptoError → BuildError
  ds_not_implemented : BuildError
  -- a slice expression out of range, which panics
  panicked : BuildError

-- fmt.Errorf("...: %w", err)
abbrev pub wrap_error :
    (CryptoError → BuildError) → Result CryptoError Bytes → Result BuildError Bytes
wrap_error wrap (ok bs) = ok bs
wrap_error wrap (err e) = err (wrap e)

-- The user data as it is sent, and PCNTR.
unfoldable pub padded_data : SecurityProfile → Bytes → Bytes × ℕ
padded_data sp user_data =
    if sp.ciphered then pad_data user_data (cipher_block_size sp) else (user_data, 0)

unfoldable pub build_header : SecurityProfile → CommandPacketInput → ℕ → Bytes
build_header sp input pcntr =
    encode_spi1 sp
    ∷ encode_spi2 sp
    ∷ encode_kic sp
    ∷ encode_kid sp
    ∷ (input.tar ++ (input.counter ++ pcntr ∷ []))

-- copy(signature, mac[:sigLen]) with a signature of sigLen bytes. Go checks the bound against the
-- capacity of `mac`: that of computeMAC has none beyond its length, and of a provider's MAC the bytes
-- here are all up to its capacity.
unfoldable pub cut_mac : ℕ → Bytes → Result BuildError Bytes
cut_mac sig_len mac = if ltb (length mac) sig_len then err panicked else ok (take sig_len mac)

unfoldable pub card_mac :
    BlockCiphers → SecurityProfile → CommandPacketInput → Bytes → Bytes → Result CryptoError Bytes
card_mac bc sp input header padded = elim input.crypto_provider [
  | none ↦ compute_mac bc sp.kid_mode input.signing_key header padded
  | some p ↦
      p.compute_mac input.card_id (algo_name sp.kid_algo) (cipher_mode_name sp.kid_mode)
        (mac_input header padded)
]

-- The switch on the certification mode.
unfoldable pub sign :
    BlockCiphers → SecurityProfile → CommandPacketInput → Bytes → Bytes → Result BuildError Bytes
unfolding cut_mac
sign bc sp input header padded =
    let sig_len = signature_length sp in
    let signed : Result BuildError Bytes = (do
      mac ← wrap_error compute_mac_failed (card_mac bc sp input header padded)
      cut_mac sig_len mac) in
    if sp.cert_mode == cert_rc
    then ok (compute_crc header padded sig_len)
    else if sp.cert_mode == cert_cc
    then signed
    else if sp.cert_mode == cert_ds
    then err ds_not_implemented
    else ok (replicate sig_len 0)

unfoldable pub encipher :
    BlockCiphers → SecurityProfile → CommandPacketInput → Bytes → Result BuildError Bytes
encipher bc sp input secured =
    if sp.ciphered
    then elim input.crypto_provider [
      | none ↦ wrap_error encrypt_failed (encrypt_data bc sp.kic_mode input.ciphering_key secured)
      | some p ↦
          wrap_error encrypt_failed
            (p.encrypt input.card_id (algo_name sp.kic_algo) (cipher_mode_name sp.kic_mode) secured)
    ]
    else ok secured

-- CPL(2) + CHL(1) + header + secured data
unfoldable pub assemble_packet : ℕ → Bytes → Bytes → Bytes
assemble_packet chl header secured =
    let cpl = 1 + length header + length secured in
    byte (cpl / 256) ∷ byte (bit_and cpl 0xFF) ∷ chl ∷ (header ++ secured)

unfoldable pub build_command_packet :
    BlockCiphers → SecurityProfile → CommandPacketInput → Result BuildError Bytes
unfolding sign encipher
build_command_packet bc sp input =
    let chl = byte (13 + signature_length sp) in
    let (padded, pcntr) = padded_data sp input.user_data in
    let header = build_header sp input pcntr in
    (do
      signature ← sign bc sp input header padded
      secured ← encipher bc sp input (signature ++ padded)
      ok (assemble_packet chl header secured))
