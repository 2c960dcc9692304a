-- ===== src/Gsm0348/Command/Outcome.antt =====
-- Which profiles a command packet can be built for.
use ota_platform.Prelude.{
  ==_iff, ◌∙◌, ap, zero, suc, take, ltb→ge, length-take, ℕ, ◌+◌, ◌%◌, ◌≤◌, ◌≡◌, ◌≢◌, ◌⊎◌, refl, sym,
  inl, inr, true, false, [], ◌∷◌, ◌++◌, none, arith, length, Bool-cases, ◌==◌, length-append,
  length-replicate, ltb, replicate,
}
use ota_platform.Prelude.Bits.{Bytes}
use ota_platform.Prelude.Results.{ok, ◌>>=◌, is_ok, Result-cases, bind-eq-ok}
use ota_platform.Gsm0348.Types.{
  SecurityProfile, CommandPacketInput, cert_rc, cert_cc, cert_ds, cipher_des_cbc,
  cipher_3des_cbc_2_keys, cipher_3des_cbc_3_keys, cipher_aes_cbc,
}
use ota_platform.Gsm0348.Header.{signature_length, cipher_block_size}
use ota_platform.Gsm0348.Crypto.{
  compute_mac, compute_retail_mac_des, compute_retail_mac_3des_2_keys,
  compute_retail_mac_3des_3_keys, BlockCiphers, BlockMode, pad_data, compute_crc, compute_mac,
  encrypt_data, encrypt_mode, xor_at, crc_loop,
}
use ota_platform.Gsm0348.Crypto.Padding.{pad_data_lem}
use ota_platform.Gsm0348.Command.{
  compute_mac_failed, cut_mac, padded_data, build_header, card_mac, sign, encipher,
  build_command_packet, wrap_error,
}

length-xor_at : (crc : Bytes) (i b : ℕ) → length (xor_at crc i b) ≡ length crc
unfolding xor_at
length-xor_at [] i b = refl
length-xor_at (c ∷ crc) zero b = refl
length-xor_at (c ∷ crc) (suc i) b = omega (arith, length-xor_at crc i b)

length-crc_loop :
    (size offset : ℕ) (bs crc : Bytes) → length (crc_loop size offset bs crc) ≡ length crc
unfolding crc_loop
length-crc_loop size offset [] crc = refl
length-crc_loop size offset (b ∷ bs) crc = omega (
  arith,
  length-crc_loop size (offset + 1) bs (xor_at crc (offset % size) b),
  length-xor_at crc (offset % size) b,
)

length-compute_crc :
    (header padded : Bytes) (size : ℕ) → length (compute_crc header padded size) ≡ size
unfolding compute_crc
length-compute_crc header padded size = omega (
  arith,
  length-crc_loop size (length header) padded (crc_loop size 0 header (replicate size 0)),
  length-crc_loop size 0 header (replicate size 0),
  length-replicate {A = ℕ} size 0,
)

length-cut_mac :
    (n : ℕ) (mac signature : Bytes) → cut_mac n mac ≡ ok signature → length signature ≡ n
unfolding cut_mac
length-cut_mac n mac signature h = elim (Bool-cases (ltb (length mac) n)) [
  | inl e ↦ absurd (ground (arith, e, h))
  | inr e ↦
      let long : n ≤ length mac = ltb→ge (length mac) n e in
      let same : signature ≡ take n mac = ground (arith, e, h) in
      omega (arith, ap (λ t. length t) same, length-take n mac)
]

length-sign :
    (bc : BlockCiphers) (sp : SecurityProfile) (input : CommandPacketInput)
    (header padded signature : Bytes)
    → sign bc sp input header padded ≡ ok signature
    → length signature ≡ signature_length sp
unfolding sign
length-sign bc sp input header padded signature h =
    let n = signature_length sp in
    elim (Bool-cases (sp.cert_mode == cert_rc)) [
      | inl e ↦
          let same : signature ≡ compute_crc header padded n = ground (arith, e, h) in
          ap (λ t. length t) same ∙ length-compute_crc header padded n
      | inr e ↦ elim (Bool-cases (sp.cert_mode == cert_cc)) [
        | inl c ↦
            let signs : wrap_error compute_mac_failed (card_mac bc sp input header padded)
                  >>= (λ mac. cut_mac n mac)
                ≡ ok signature =
              ground (arith, e, c, h) in
            let (mac, got, cut) =
              bind-eq-ok (wrap_error compute_mac_failed (card_mac bc sp input header padded))
                (cut_mac n) signature signs in
            length-cut_mac n mac signature cut
        | inr c ↦ elim (Bool-cases (sp.cert_mode == cert_ds)) [
          | inl d ↦ absurd (ground (arith, e, c, d, h))
          | inr d ↦
              let same : signature ≡ replicate n 0 = ground (arith, e, c, d, h) in
              ap (λ t. length t) same ∙ length-replicate {A = ℕ} n 0
        ]
      ]
    ]

encrypt_mode-block_size :
    (bc : BlockCiphers) (sp : SecurityProfile) (key : Bytes) (m : BlockMode)
    → encrypt_mode bc sp.kic_mode key ≡ ok m
    → m.block_size ≡ cipher_block_size sp
unfolding encrypt_mode cipher_block_size
encrypt_mode-block_size bc sp key m h = ground arith

encrypt_data-misaligned :
    (bc : BlockCiphers) (sp : SecurityProfile) (key input : Bytes)
    → length input % cipher_block_size sp ≢ 0
    → is_ok (encrypt_data bc sp.kic_mode key input) ≡ false
unfolding encrypt_data
encrypt_data-misaligned bc sp key input odd =
    elim (Result-cases (encrypt_mode bc sp.kic_mode key)) [
      | inr (e, failed) ↦ rw failed refl
      | inl (m, got) ↦
          let same = encrypt_mode-block_size bc sp key m got in
          elim (Bool-cases (length input % m.block_size == 0)) [
            | inl e ↦ absurd (odd (rw (sym same) ((==_iff _ 0).0 e)))
            | inr e ↦ rw (got, e) refl
          ]
    ]

cipher_block_size-cases :
    (sp : SecurityProfile) → (cipher_block_size sp ≡ 8) ⊎ (cipher_block_size sp ≡ 16)
unfolding cipher_block_size
cipher_block_size-cases sp = elim (Bool-cases (sp.kic_mode == cipher_aes_cbc)) [
  | inl e ↦ rw e (inr refl)
  | inr e ↦ rw e (inl refl)
]

add_whole_blocks : (s p b : ℕ) → (b ≡ 8) ⊎ (b ≡ 16) → p % b ≡ 0 → (s + p) % b ≡ s % b
add_whole_blocks s p b (inl e) whole = let w : p % 8 ≡ 0 = cc (whole, e) in rw e (omega arith)
add_whole_blocks s p b (inr e) whole = let w : p % 16 ≡ 0 = cc (whole, e) in rw e (omega arith)

-- What is enciphered is the signature and whole blocks of data.
secured_remainder :
    (sp : SecurityProfile) (signature user : Bytes)
    → length signature ≡ signature_length sp
    → length (signature ++ (pad_data user (cipher_block_size sp)).0) % cipher_block_size sp
      ≡ signature_length sp % cipher_block_size sp
secured_remainder sp signature user n =
    let (whole, _, _, _) = pad_data_lem user (cipher_block_size sp) (cipher_block_size-cases sp) in
    let long = length-append signature (pad_data user (cipher_block_size sp)).0 in
    let sum = add_whole_blocks (length signature) _ _ (cipher_block_size-cases sp) whole in
    ap (λ t. t % cipher_block_size sp) long ∙ sum ∙ ap (λ t. t % cipher_block_size sp) n

padded_data-ciphered :
    (sp : SecurityProfile) (user : Bytes)
    → sp.ciphered ≡ true
    → padded_data sp user ≡ pad_data user (cipher_block_size sp)
unfolding padded_data
padded_data-ciphered sp user h = ground (arith, h)

encipher-misaligned :
    (bc : BlockCiphers) (sp : SecurityProfile) (input : CommandPacketInput) (secured out : Bytes)
    → input.crypto_provider ≡ none
    → sp.ciphered ≡ true
    → length secured % cipher_block_size sp ≢ 0
    → encipher bc sp input secured ≢ ok out
unfolding encipher
encipher-misaligned bc sp input secured out raw ciphered odd h =
    let refused = encrypt_data-misaligned bc sp input.ciphering_key secured odd in
    elim (Result-cases (encrypt_data bc sp.kic_mode input.ciphering_key secured)) [
      | inl (bs, got) ↦ absurd (ground (arith, got, refused))
      | inr (e, failed) ↦ ground (arith, raw, ciphered, failed, h)
    ]

-- With raw keys, no ciphered packet is built for a profile whose signature does not fill whole
-- cipher blocks, whatever the keys and the data are: a redundancy check (4 bytes) under every
-- cipher, and a cryptographic checksum (8 bytes) under AES.
pub build_command_packet-misaligned :
    (bc : BlockCiphers) (sp : SecurityProfile) (input : CommandPacketInput)
    → input.crypto_provider ≡ none
    → sp.ciphered ≡ true
    → signature_length sp % cipher_block_size sp ≢ 0
    → is_ok (build_command_packet bc sp input) ≡ false
unfolding build_command_packet
build_command_packet-misaligned bc sp input raw ciphered odd =
    let (padded, pcntr) = padded_data sp input.user_data in
    let header = build_header sp input pcntr in
    elim (Result-cases (build_command_packet bc sp input)) [
      | inr (e, failed) ↦ rw (failed, build_command_packet) refl
      | inl (packet, built) ↦
          let (signature, signs, enciphers) =
            bind-eq-ok (sign bc sp input header padded) _ packet built in
          let (secured, seals, _) =
            bind-eq-ok (encipher bc sp input (signature ++ padded)) _ packet enciphers in
          let n = length-sign bc sp input header padded signature signs in
          let rest = secured_remainder sp signature input.user_data n in
          let same : padded ≡ (pad_data input.user_data (cipher_block_size sp)).0 =
            ap (λ t. t.0) (padded_data-ciphered sp input.user_data ciphered) in
          let refused =
            encipher-misaligned bc sp input (signature ++ padded) secured raw ciphered
              (rw same (rw rest odd)) in
          absurd (refused seals)
    ]

-- The keys that the MAC takes: a mode of DES or triple DES, and enough bytes for it.
abbrev pub MacKeyFits : ℕ → Bytes → Type 0
MacKeyFits mode key =
    ((mode ≡ cipher_des_cbc) × (8 ≤ length key))
    ⊎ (((mode ≡ cipher_3des_cbc_2_keys) × (16 ≤ length key))
        ⊎ ((mode ≡ cipher_3des_cbc_3_keys) × (24 ≤ length key)))

compute_mac-eq-ok :
    (bc : BlockCiphers) (mode : ℕ) (key header padded mac : Bytes)
    → compute_mac bc mode key header padded ≡ ok mac
    → MacKeyFits mode key
unfolding compute_mac compute_retail_mac_des compute_retail_mac_3des_2_keys
    compute_retail_mac_3des_3_keys
compute_mac-eq-ok bc mode key header padded mac h = elim (Bool-cases (mode == cipher_des_cbc)) [
  | inl e ↦ inl ((==_iff mode cipher_des_cbc).0 e, ground (arith, e, h))
  | inr e ↦ elim (Bool-cases (mode == cipher_3des_cbc_2_keys)) [
    | inl e' ↦ inr (inl ((==_iff mode cipher_3des_cbc_2_keys).0 e', ground (arith, e, e', h)))
    | inr e' ↦ elim (Bool-cases (mode == cipher_3des_cbc_3_keys)) [
      | inl f ↦ inr (inr ((==_iff mode cipher_3des_cbc_3_keys).0 f, ground (arith, e, e', f, h)))
      | inr f ↦ absurd (ground (arith, e, e', f, h))
    ]
  ]
]

sign-mac :
    (bc : BlockCiphers) (sp : SecurityProfile) (input : CommandPacketInput)
    (header padded signature : Bytes)
    → input.crypto_provider ≡ none
    → sp.cert_mode ≡ cert_cc
    → sign bc sp input header padded ≡ ok signature
    → (mac : Bytes) × (compute_mac bc sp.kid_mode input.signing_key header padded ≡ ok mac)
unfolding sign card_mac
sign-mac bc sp input header padded signature raw checksum h =
    elim (Result-cases (compute_mac bc sp.kid_mode input.signing_key header padded)) [
      | inl (mac, e) ↦ (mac, e)
      | inr (x, e) ↦ absurd (ground (arith, e, raw, checksum, h))
    ]

-- A packet with a cryptographic checksum that was built from raw keys had a signing key that fits:
-- its mode is DES or triple DES with two or three keys, never AES, and it is long enough for it.
pub build_command_packet-MacKeyFits :
    (bc : BlockCiphers) (sp : SecurityProfile) (input : CommandPacketInput) (packet : Bytes)
    → input.crypto_provider ≡ none
    → sp.cert_mode ≡ cert_cc
    → build_command_packet bc sp input ≡ ok packet
    → MacKeyFits sp.kid_mode input.signing_key
unfolding build_command_packet
build_command_packet-MacKeyFits bc sp input packet raw checksum h =
    let (padded, pcntr) = padded_data sp input.user_data in
    let header = build_header sp input pcntr in
    let (signature, signs, _) = bind-eq-ok (sign bc sp input header padded) _ packet h in
    let (mac, macs) = sign-mac bc sp input header padded signature raw checksum signs in
    compute_mac-eq-ok bc sp.kid_mode input.signing_key header padded mac macs
