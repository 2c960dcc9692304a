-- ===== src/Gsm0348/Response/RoundTrip.antt =====
-- A response in the standard's layout is read back field by field.
use ota_platform.Prelude.{
  ℕ, ◌+◌, ◌-◌, ◌*◌, ◌/◌, ◌%◌, ◌<◌, ◌≡◌, ◌∙◌, ap, sym, refl, inl, inr, false, [], ◌∷◌, ◌++◌, arith,
  length, take, drop, length-append, length-replicate, take-append, drop-append, drop-drop,
  take-all, append-nil, replicate, ltb, ge→ltb, le→leb, gt→leb, Bool-cases, ltb→ge,
}
use ota_platform.Prelude.Bits.{Bytes}
use ota_platform.Prelude.Bytes.{bit_or-byte}
use ota_platform.Prelude.Results.{ok}
use ota_platform.Gsm0348.Types.{SecurityProfile, ResponsePacket}
use ota_platform.Gsm0348.Crypto.{BlockCiphers}
use ota_platform.Gsm0348.Command.Layout.{three_bytes, five_bytes}
use ota_platform.Gsm0348.Response.{
  read_signature, read_body, read_rpl, decipher, strip_padding, drop_end, byte_at, bytes_at,
  parse_response_packet,
}

-- RPL, RHL, three bytes of TAR, five of the counter, PCNTR, the status, the signature, and the data
-- with as many zeros behind it as PCNTR says.
unfoldable pub format_response : ResponsePacket → Bytes
format_response r =
    let sealed : Bytes = r.signature ++ (r.body ++ replicate r.pcntr 0) in
    let rpl = 11 + length sealed in
    rpl / 256
    ∷ rpl % 256
    ∷ (10 + length r.signature)
    ∷ (r.tar ++ (r.counter ++ r.pcntr ∷ r.status_code ∷ sealed))

pub strip_padding-replicate :
    (user : Bytes) (n : ℕ) → strip_padding n (user ++ replicate n 0) ≡ ok user
unfolding strip_padding drop_end
strip_padding-replicate user n =
    let long = length-append user (replicate n 0) in
    let zeros = length-replicate {A = ℕ} n 0 in
    elim (Bool-cases (ltb 0 n)) [
      | inl e ↦
          rw
            (
              e,
              le→leb n (length (user ++ replicate n 0)) (omega (arith, long, zeros)),
              ge→ltb (length (user ++ replicate n 0)) n (omega (arith, long, zeros)),
            )
            (ap (λ t. ok t) (take-append user (replicate n 0) _ (omega (arith, long, zeros))))
      | inr e ↦
          let none_left : n ≡ 0 = omega (arith, ltb→ge 0 n e) in
          rw e (ap (λ k. ok (user ++ replicate k 0)) none_left ∙ ap (λ t. ok t) (append-nil user))
    ]

read_rpl-format : (n : ℕ) (rest : Bytes) → n < 65536 → read_rpl (n / 256 ∷ n % 256 ∷ rest) ≡ ok n
unfolding read_rpl byte_at
read_rpl-format n rest h =
    let sum : n / 256 * 256 + n % 256 ≡ n = omega arith in
    rw
      (
        ge→ltb (length (n / 256 ∷ n % 256 ∷ rest)) 2 (omega arith),
        bit_or-byte (n / 256) (n % 256) (omega arith),
        sum,
      )
      refl

nothing : (bs : Bytes) → length bs ≡ 0 → [] ≡ bs
nothing [] h = refl
nothing (b ∷ bs) h = absurd (omega arith)

module _ (raw signature user : Bytes) (behind : drop 13 raw ≡ signature ++ user)
    (long : length raw ≡ 13 + length (signature ++ user)) where
  read_signature-format :
      read_signature raw (10 + length signature) ≡ ok (signature, 13 + length signature)
  unfolding read_signature bytes_at
  read_signature-format =
      let n = length signature in
      let whole = length-append signature user in
      let less : 10 + n - 10 ≡ n = omega arith in
      let part : take (13 + n - 13) (drop 13 raw) ≡ signature =
        ap (λ bs. take (13 + n - 13) bs) behind ∙ take-append signature user _ (omega arith) in
      elim (Bool-cases (ltb 0 n)) [
        | inl e ↦
            rw
              (
                less,
                e,
                ge→ltb (length raw) (13 + n) (omega (arith, long, whole)),
                ge→ltb (13 + n) 13 (omega arith),
                part,
              )
              refl
        | inr e ↦
            let gone : n ≡ 0 = omega (arith, ltb→ge 0 n e) in
            let at_end : 13 ≡ 13 + n = omega arith in
            rw (less, e, read_signature) (cc (nothing signature gone, at_end))
      ]

  read_body-format :
      read_body raw (13 + length signature) (13 + length (signature ++ user)) ≡ ok user
  unfolding read_body bytes_at
  read_body-format =
      let n = length signature in
      let whole = length-append signature user in
      let rest : drop (13 + n) raw ≡ user =
        sym (drop-drop raw 13 n (13 + n) refl)
        ∙ ap (λ bs. drop n bs) behind
        ∙ drop-append signature user n refl in
      let all = 13 + length (signature ++ user) in
      elim (Bool-cases (ltb (13 + n) all)) [
        | inl e ↦
            rw
              (
                e,
                ge→ltb all (13 + n) (omega (arith, whole)),
                ge→ltb (length raw) all (omega (arith, long)),
              )
              (ap (λ bs. ok (take (all - (13 + n)) bs)) rest
                ∙ ap (λ bs. ok bs) (take-all user (all - (13 + n)) (omega (arith, whole))))
        | inr e ↦
            let gone : length user ≡ 0 = omega (arith, whole, ltb→ge (13 + n) all e) in
            rw (e, read_body) (ap (λ bs. ok bs) (nothing user gone))
      ]

plain-decipher :
    (bc : BlockCiphers) (sp : SecurityProfile) (key body : Bytes)
    → sp.por_ciphered ≡ false
    → decipher bc sp key body ≡ ok body
unfolding decipher
plain-decipher bc sp key body plain = ground (arith, plain)

module _ (bc : BlockCiphers) (sp : SecurityProfile) (key : Bytes)
    (t0 t1 t2 c0 c1 c2 c3 c4 pcntr status : ℕ) (signature user : Bytes) where
  abbrev rpl_of : ℕ
  rpl_of = 11 + length (signature ++ user)

  abbrev raw_of : Bytes
  raw_of =
      rpl_of / 256
      ∷ rpl_of % 256
      ∷ (10 + length signature)
      ∷ t0
      ∷ t1
      ∷ t2
      ∷ c0
      ∷ c1
      ∷ c2
      ∷ c3
      ∷ c4
      ∷ pcntr
      ∷ status
      ∷ (signature ++ user)

  parse_raw :
      sp.por_ciphered ≡ false
      → rpl_of < 65536
      → (body : Bytes) → strip_padding pcntr user ≡ ok body
      → parse_response_packet bc sp raw_of key
        ≡ ok (record {
          tar = t0 ∷ t1 ∷ t2 ∷ [];
          counter = c0 ∷ c1 ∷ c2 ∷ c3 ∷ c4 ∷ [];
          pcntr = pcntr;
          status_code = status;
          signature = signature;
          body = body;
        })
  unfolding parse_response_packet byte_at bytes_at
  parse_raw plain small body stripped =
      let rpl : read_rpl raw_of ≡ ok rpl_of = read_rpl-format rpl_of (drop 2 raw_of) small in
      let long : length raw_of ≡ 13 + length (signature ++ user) = omega arith in
      let end : 2 + rpl_of ≡ 13 + length (signature ++ user) = omega arith in
      rw
        (
          rpl,
          read_signature-format raw_of signature user refl long,
          end,
          read_body-format raw_of signature user refl long,
          plain-decipher bc sp key user plain,
          stripped,
          ge→ltb (length raw_of) (13 + length (signature ++ user)) (omega (arith, long)),
          gt→leb (length raw_of) 2 (omega (arith, long)),
          ge→ltb (length raw_of) 6 (omega (arith, long)),
          ge→ltb (length raw_of) 11 (omega (arith, long)),
          gt→leb (length raw_of) 11 (omega (arith, long)),
          gt→leb (length raw_of) 12 (omega (arith, long)),
        )
        refl

-- A response that is not ciphered, in the standard's layout, is parsed to its fields, the padding of
-- its data taken off, with whatever signature it has. The TAR has three bytes, the counter five, and
-- the length fits its two bytes.
pub parse_response_packet-format_response :
    (bc : BlockCiphers) (sp : SecurityProfile) (key : Bytes) (r : ResponsePacket)
    → sp.por_ciphered ≡ false
    → length r.tar ≡ 3
    → length r.counter ≡ 5
    → 11 + length (r.signature ++ (r.body ++ replicate r.pcntr 0)) < 65536
    → parse_response_packet bc sp (format_response r) key ≡ ok r
unfolding format_response
parse_response_packet-format_response bc sp key r plain ht hc small =
    let user = r.body ++ replicate r.pcntr 0 in
    let (t0, t1, t2, et) = three_bytes r.tar ht in
    let (c0, c1, c2, c3, c4, ec) = five_bytes r.counter hc in
    let hi = (11 + length (r.signature ++ user)) / 256 in
    let lo = (11 + length (r.signature ++ user)) % 256 in
    let rest : Bytes = r.pcntr ∷ r.status_code ∷ (r.signature ++ user) in
    let same =
      ap (λ t. hi ∷ lo ∷ (10 + length r.signature) ∷ (t ++ (r.counter ++ rest))) et
      ∙ ap (λ c. hi ∷ lo ∷ (10 + length r.signature) ∷ t0 ∷ t1 ∷ t2 ∷ (c ++ rest)) ec in
    ap (λ raw. parse_response_packet bc sp raw key) same
    ∙ parse_raw bc sp key t0 t1 t2 c0 c1 c2 c3 c4 r.pcntr r.status_code r.signature user plain small
        r.body (strip_padding-replicate r.body r.pcntr)
    ∙ cc (et, ec)
