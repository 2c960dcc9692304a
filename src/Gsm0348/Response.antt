-- ===== src/Gsm0348/Response.antt =====
-- pkg/gsm0348/response.go, ParseResponsePacket. Indices are checked as Go checks them: reading out
-- of range is the error `panicked`.
pub mod Safety
pub mod RoundTrip
use Prim.Native.String.{String}
use ota_platform.Prelude.{
  ℕ, ◌+◌, ◌-◌, ◌*◌, ◌%◌, Bool, true, false, ◌&&◌, ◌||◌, List, [], ◌∷◌, Option, none, some, ltb, leb,
  if◌then◌else◌, length, take, slice, get_elem?, bit_or,
}
use ota_platform.Prelude.Bits.{Bytes}
use ota_platform.Prelude.Results.{Result, ok, err, ◌>>=◌, ◌>>◌, fail_if}
use ota_platform.Gsm0348.Types.{
  SecurityProfile, CryptoError, out_of_range, ResponsePacket, CryptoProvider,
}
use ota_platform.Gsm0348.Crypto.{BlockCiphers, decrypt_data}

pub data ResponseError : Type 0 where
  too_short_rpl : ResponseError
  truncated : ℕ → ℕ → ResponseError
  too_short_rhl : ResponseError
  too_short_tar : ResponseError
  too_short_cntr : ResponseError
  too_short_pcntr : ResponseError
  too_short_status : ResponseError
  too_short_signature : ResponseError
  decrypt_failed : CryptoError → ResponseError
  provider_decryption_unsupported : ResponseError
  panicked : ResponseError

-- raw[i]
unfoldable pub byte_at : Bytes → ℕ → Result ResponseError ℕ
byte_at raw i = elim (get_elem? raw i) [ none ↦ err panicked | some b ↦ ok b ]

-- raw[lo:hi]
unfoldable pub bytes_at : Bytes → ℕ → ℕ → Result ResponseError Bytes
bytes_at raw lo hi = if ltb hi lo || ltb (length raw) hi then err panicked else ok (slice raw lo hi)

unfoldable pub read_signature : Bytes → ℕ → Result ResponseError (Bytes × ℕ)
read_signature raw rhl =
    let sig_len = rhl - 10 in
    let signed : Result ResponseError (Bytes × ℕ) = (do
      fail_if (ltb (length raw) (13 + sig_len)) too_short_signature
      signature ← bytes_at raw 13 (13 + sig_len)
      ok (signature, 13 + sig_len)) in
    if ltb 0 sig_len then signed else ok ([], 13)

unfoldable pub read_body : Bytes → ℕ → ℕ → Result ResponseError Bytes
read_body raw pos data_end = if ltb pos data_end then bytes_at raw pos data_end else ok []

abbrev pub wrap_decrypt : Result CryptoError Bytes → Result ResponseError Bytes
wrap_decrypt (ok bs) = ok bs
wrap_decrypt (err out_of_range) = err panicked
wrap_decrypt (err e) = err (decrypt_failed e)

unfoldable pub decipher :
    BlockCiphers → SecurityProfile → Bytes → Bytes → Result ResponseError Bytes
decipher bc sp cipher_key body =
    if sp.por_ciphered && ltb 0 (length body)
    then wrap_decrypt (decrypt_data bc sp.kic_mode cipher_key body)
    else ok body

-- data[:len(data)-n], which panics where the difference is negative
unfoldable pub drop_end : ℕ → Bytes → Result ResponseError Bytes
drop_end n body = if ltb (length body) n then err panicked else ok (take (length body - n) body)

-- The padding that PCNTR counts is removed where the data is that long.
unfoldable pub strip_padding : ℕ → Bytes → Result ResponseError Bytes
unfolding drop_end
strip_padding pcntr body =
    if ltb 0 pcntr && leb pcntr (length body) then drop_end pcntr body else ok body

-- raw[0] << 8 | raw[1]
unfoldable pub read_rpl : Bytes → Result ResponseError ℕ
unfolding byte_at
read_rpl raw = do
  fail_if (ltb (length raw) 2) too_short_rpl
  hi ← byte_at raw 0
  lo ← byte_at raw 1
  ok (bit_or (hi * 256) lo)

-- The positions are those that the running index has: RHL at 2, TAR from 3, the counter from 6,
-- PCNTR at 11, the status at 12, the signature from 13.
unfoldable pub parse_response_packet :
    BlockCiphers → SecurityProfile → Bytes → Bytes → Result ResponseError ResponsePacket
unfolding byte_at bytes_at read_signature read_body decipher read_rpl strip_padding
parse_response_packet bc sp raw cipher_key = do
  rpl ← read_rpl raw
  fail_if (ltb (length raw) (2 + rpl)) (truncated rpl (length raw - 2))
  fail_if (leb (length raw) 2) too_short_rhl
  rhl ← byte_at raw 2
  fail_if (ltb (length raw) 6) too_short_tar
  tar ← bytes_at raw 3 6
  fail_if (ltb (length raw) 11) too_short_cntr
  counter ← bytes_at raw 6 11
  fail_if (leb (length raw) 11) too_short_pcntr
  pcntr ← byte_at raw 11
  fail_if (leb (length raw) 12) too_short_status
  status_code ← byte_at raw 12
  (signature, pos) ← read_signature raw rhl
  body ← read_body raw pos (2 + rpl)
  plain ← decipher bc sp cipher_key body
  stripped ← strip_padding pcntr plain
  ok (record {
    tar = tar;
    counter = counter;
    pcntr = pcntr;
    status_code = status_code;
    signature = signature;
    body = stripped;
  })

-- Without the raw keys, only a response that is not ciphered is read.
unfoldable pub parse_response_packet_with_provider :
    BlockCiphers
    → SecurityProfile
    → Bytes
    → String
    → CryptoProvider
    → Result ResponseError ResponsePacket
parse_response_packet_with_provider bc sp raw card_id provider =
    if sp.por_ciphered
    then err provider_decryption_unsupported
    else parse_response_packet bc sp raw []
