-- ===== src/Gsm0348/Command/Layout.antt =====
-- What a receiver reads off a command packet: the lengths, the header's fields, and what is sealed.
use ota_platform.Prelude.{
  ℕ, ◌+◌, ◌-◌, ◌*◌, ◌/◌, ◌<◌, ◌≡◌, refl, [], ◌∷◌, ◌++◌, Option, none, some, arith, length, take,
  drop, slice, bit_and,
}
use ota_platform.Prelude.Bits.{Bytes, byte, bit_and-byte}
use ota_platform.Prelude.Results.{ok, bind-eq-ok}
use ota_platform.Gsm0348.Types.{SecurityProfile, CommandPacketInput}
use ota_platform.Gsm0348.Header.{encode_spi1, encode_spi2, encode_kic, encode_kid, signature_length}
use ota_platform.Gsm0348.Crypto.{BlockCiphers}
use ota_platform.Gsm0348.Command.{
  padded_data, build_header, sign, encipher, assemble_packet, build_command_packet,
}

-- The fields of a packet, read at the offsets of the standard.
pub record Reading : Type 0 where
  pub cpl : ℕ
  pub chl : ℕ
  pub control : Bytes
  pub tar : Bytes
  pub counter : Bytes
  pub pcntr : Bytes
  pub sealed : Bytes

unfoldable pub reading : Bytes → Option Reading
reading (a ∷ b ∷ chl ∷ rest) = some (record {
  cpl = a * 256 + b;
  chl = chl;
  control = take 4 rest;
  tar = slice rest 4 7;
  counter = slice rest 7 12;
  pcntr = slice rest 12 13;
  sealed = drop 13 rest;
})
reading [] = none
reading (a ∷ []) = none
reading (a ∷ b ∷ []) = none

pub three_bytes : (xs : Bytes) → length xs ≡ 3 → (a : ℕ) × (b : ℕ) × (c : ℕ) × (xs ≡ a ∷ b ∷ c ∷ [])
three_bytes (a ∷ b ∷ c ∷ []) h = (a, b, c, refl)
three_bytes [] h = absurd (omega arith)
three_bytes (a ∷ []) h = absurd (omega arith)
three_bytes (a ∷ b ∷ []) h = absurd (omega arith)
three_bytes (a ∷ b ∷ c ∷ d ∷ xs) h = absurd (omega arith)

pub five_bytes :
    (xs : Bytes)
    → length xs ≡ 5
    → (a : ℕ) × (b : ℕ) × (c : ℕ) × (d : ℕ) × (e : ℕ) × (xs ≡ a ∷ b ∷ c ∷ d ∷ e ∷ [])
five_bytes (a ∷ b ∷ xs) h =
    let (c, d, e, same) = three_bytes xs (omega arith) in (a, b, c, d, e, cc same)
five_bytes [] h = absurd (omega arith)
five_bytes (a ∷ []) h = absurd (omega arith)

-- Two bytes hold a length below 65536.
length_bytes : (n : ℕ) → n < 65536 → byte (n / 256) * 256 + byte (bit_and n 0xFF) ≡ n
length_bytes n h = omega (arith, bit_and-byte n)

reading-assemble_packet :
    (sp : SecurityProfile) (input : CommandPacketInput) (pcntr chl : ℕ) (sealed : Bytes)
    → length input.tar ≡ 3
    → length input.counter ≡ 5
    → length sealed + 14 < 65536
    → reading (assemble_packet chl (build_header sp input pcntr) sealed)
      ≡ some (record {
        cpl = 14 + length sealed;
        chl = chl;
        control = encode_spi1 sp ∷ encode_spi2 sp ∷ encode_kic sp ∷ encode_kid sp ∷ [];
        tar = input.tar;
        counter = input.counter;
        pcntr = pcntr ∷ [];
        sealed = sealed;
      })
unfolding reading assemble_packet build_header
reading-assemble_packet sp input pcntr chl sealed ht hc small =
    let (t0, t1, t2, et) = three_bytes input.tar ht in
    let (c0, c1, c2, c3, c4, ec) = five_bytes input.counter hc in
    rw (et, ec, length_bytes (14 + length sealed) (omega arith)) refl

length-assemble_packet :
    (sp : SecurityProfile) (input : CommandPacketInput) (pcntr chl : ℕ) (sealed : Bytes)
    → length input.tar ≡ 3
    → length input.counter ≡ 5
    → length (assemble_packet chl (build_header sp input pcntr) sealed) ≡ 16 + length sealed
unfolding assemble_packet build_header
length-assemble_packet sp input pcntr chl sealed ht hc =
    let (t0, t1, t2, et) = three_bytes input.tar ht in
    let (c0, c1, c2, c3, c4, ec) = five_bytes input.counter hc in rw (et, ec) (omega arith)

signature_length-bound :
    (sp : SecurityProfile) → byte (13 + signature_length sp) ≡ 13 + signature_length sp
unfolding signature_length
signature_length-bound sp = ground arith

-- A packet that was built reads back as its input: CPL counts all that follows it, CHL counts the
-- header and the signature, the four control bytes, TAR, the counter and PCNTR stand in place, and
-- the rest is what was signed and enciphered. That holds of every profile: the flag
-- security_bytes_with_lengths_and_udhl, which by its comment makes CPL count more, changes nothing.
-- The TAR has three bytes, the counter five, and the packet is shorter than 65538 bytes.
pub reading-build_command_packet :
    (bc : BlockCiphers) (sp : SecurityProfile) (input : CommandPacketInput) (packet : Bytes)
    → length input.tar ≡ 3
    → length input.counter ≡ 5
    → length packet < 65538
    → build_command_packet bc sp input ≡ ok packet
    → let (padded, pcntr) = padded_data sp input.user_data in
      (signature : Bytes) × (sealed : Bytes) × (sign bc sp input
          (build_header sp input pcntr)
          padded
        ≡ ok signature)
      × (encipher bc sp input (signature ++ padded) ≡ ok sealed)
      × (reading packet
          ≡ some (record {
            cpl = length packet - 2;
            chl = 13 + signature_length sp;
            control = encode_spi1 sp ∷ encode_spi2 sp ∷ encode_kic sp ∷ encode_kid sp ∷ [];
            tar = input.tar;
            counter = input.counter;
            pcntr = pcntr ∷ [];
            sealed = sealed;
          }))
unfolding build_command_packet
reading-build_command_packet bc sp input packet ht hc small h =
    let (padded, pcntr) = padded_data sp input.user_data in
    let header = build_header sp input pcntr in
    let (signature, signs, h1) = bind-eq-ok (sign bc sp input header padded) _ packet h in
    let (sealed, seals, h2) = bind-eq-ok (encipher bc sp input (signature ++ padded)) _ packet h1 in
    let chl = byte (13 + signature_length sp) in
    let same : packet ≡ assemble_packet chl header sealed = cc h2 in
    let n = length-assemble_packet sp input pcntr chl sealed ht hc in
    let long : length packet ≡ 16 + length sealed = cc (n, same) in
    let cpl : 14 + length sealed ≡ length packet - 2 = omega arith in
    let r = reading-assemble_packet sp input pcntr chl sealed ht hc (omega arith) in
    (signature, sealed, signs, seals, cc (r, same, cpl, signature_length-bound sp))
