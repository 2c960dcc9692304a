-- ===== src/Gsm0348/Response/Safety.antt =====
-- Parsing a response reads no byte out of range, on any input.
use ota_platform.Prelude.{
  ℕ, ◌+◌, ◌-◌, ◌*◌, ◌≤◌, ◌<◌, ◌≡◌, ◌∙◌, ap, ◌≢◌, refl, inl, inr, Bool, true, false, ◌&&◌, [], ltb,
  leb, arith, length, Bool-cases, ge→ltb, ltb→ge, ltb→lt, leb→gt, get_elem?-lt, slice, bit_or,
}
use ota_platform.Prelude.Bits.{Bytes}
use ota_platform.Prelude.Results.{Result, ok, err, ◌>>=◌, ◌>>◌, fail_if, Result-cases}
use ota_platform.Gsm0348.Types.{
  SecurityProfile, CryptoError, out_of_range, key_too_short, unsupported_mode, not_whole_blocks,
  provider_failed,
}
use ota_platform.Gsm0348.Crypto.{BlockCiphers, decrypt_data, decrypt_mode, key_prefix}
use ota_platform.Gsm0348.Response.{
  ResponseError, panicked, too_short_rpl, truncated, too_short_rhl, too_short_tar, too_short_cntr,
  too_short_pcntr, too_short_status, too_short_signature, decrypt_failed, byte_at, bytes_at,
  wrap_decrypt, drop_end, strip_padding, read_signature, read_body, decipher, read_rpl,
  parse_response_packet,
}

abbrev Safe {ℓ} : {A : Type ℓ} → Result ResponseError A → Type ℓ
Safe r = r ≢ err panicked

ok-Safe {ℓ} : {A : Type ℓ} (a : A) → Safe (ok a)
ok-Safe a h = cc

Safe-bind {ℓ κ} :
    {A : Type ℓ} {B : Type κ} (m : Result ResponseError A) (f : A → Result ResponseError B)
    → Safe m
    → ((a : A) → m ≡ ok a → Safe (f a))
    → Safe (m >>= f)
Safe-bind (ok a) f safe next = next a refl
Safe-bind (err e) f safe next = λ h. safe (cc h)

-- The tests return errors of their own, and let through what they do not refuse.
Safe-test {κ} :
    {B : Type κ} (test : Bool) (e : ResponseError) (k : Result ResponseError B)
    → e ≢ panicked
    → (test ≡ false → Safe k)
    → Safe (fail_if test e >> k)
Safe-test true e k own next = λ h. own (cc h)
Safe-test false e k own next = next refl

byte_at-Safe : (raw : Bytes) (i : ℕ) → i < length raw → Safe (byte_at raw i)
unfolding byte_at
byte_at-Safe raw i h = let (b, e) = get_elem?-lt raw i h in rw (e, byte_at) (ok-Safe b)

bytes_at-Safe : (raw : Bytes) (lo hi : ℕ) → lo ≤ hi → hi ≤ length raw → Safe (bytes_at raw lo hi)
unfolding bytes_at
bytes_at-Safe raw lo hi h k =
    rw (ge→ltb hi lo h, ge→ltb (length raw) hi k, bytes_at) (ok-Safe (slice raw lo hi))

fails-Safe {ℓ} : {A : Type ℓ} (e : ResponseError) → e ≢ panicked → Safe {A = A} (err e)
fails-Safe e own h = own (cc h)

read_rpl-Safe : (raw : Bytes) → Safe (read_rpl raw)
unfolding read_rpl
read_rpl-Safe raw =
    Safe-test (ltb (length raw) 2) too_short_rpl _ (λ h. cc h)
      (λ long.
        let n : 2 ≤ length raw = ltb→ge (length raw) 2 long in
        Safe-bind (byte_at raw 0) _ (byte_at-Safe raw 0 (omega arith)) (λ hi _.
          Safe-bind (byte_at raw 1) _ (byte_at-Safe raw 1 (omega arith))
            (λ lo _. ok-Safe (bit_or (hi * 256) lo))))

read_signature-Safe : (raw : Bytes) (rhl : ℕ) → Safe (read_signature raw rhl)
unfolding read_signature
read_signature-Safe raw rhl = elim (Bool-cases (ltb 0 (rhl - 10))) [
  | inl e ↦
      rw (e, read_signature)
        (Safe-test (ltb (length raw) (13 + (rhl - 10))) too_short_signature _ (λ h. cc h)
          (λ long.
            Safe-bind (bytes_at raw 13 (13 + (rhl - 10))) _
              (bytes_at-Safe raw 13 (13 + (rhl - 10)) (omega arith)
                (ltb→ge (length raw) (13 + (rhl - 10)) long))
              (λ signature _. ok-Safe (signature, 13 + (rhl - 10)))))
  | inr e ↦ rw (e, read_signature) (ok-Safe ([], 13))
]

read_body-Safe :
    (raw : Bytes) (pos data_end : ℕ) → data_end ≤ length raw → Safe (read_body raw pos data_end)
unfolding read_body
read_body-Safe raw pos data_end h = elim (Bool-cases (ltb pos data_end)) [
  | inl e ↦
      rw (e, read_body)
        (bytes_at-Safe raw pos data_end (let k = ltb→lt pos data_end e in omega arith) h)
  | inr e ↦ rw (e, read_body) (ok-Safe [])
]

-- The keys are cut only after their lengths are checked.
decrypt_mode-in_range :
    (bc : BlockCiphers) (mode : ℕ) (key : Bytes) → decrypt_mode bc mode key ≢ err out_of_range
unfolding decrypt_mode key_prefix
decrypt_mode-in_range bc mode key h = ground (arith, h)

decrypt_data-in_range :
    (bc : BlockCiphers) (mode : ℕ) (key input : Bytes)
    → decrypt_data bc mode key input ≢ err out_of_range
unfolding decrypt_data
decrypt_data-in_range bc mode key input h = elim (Result-cases (decrypt_mode bc mode key)) [
  | inl (m, e) ↦ ground (arith, e, h)
  | inr (x, e) ↦
      let at_err : err x ≡ err out_of_range = rw (e, decrypt_data) at h in
      let same : x ≡ out_of_range = cc at_err in decrypt_mode-in_range bc mode key (e ∙ ap err same)
]

wrap_decrypt-Safe : (r : Result CryptoError Bytes) → r ≢ err out_of_range → Safe (wrap_decrypt r)
wrap_decrypt-Safe (ok bs) h = ok-Safe bs
wrap_decrypt-Safe (err out_of_range) h = absurd (h refl)
wrap_decrypt-Safe (err (key_too_short n)) h =
    fails-Safe (decrypt_failed (key_too_short n)) (λ e. cc e)
wrap_decrypt-Safe (err (unsupported_mode n)) h =
    fails-Safe (decrypt_failed (unsupported_mode n)) (λ e. cc e)
wrap_decrypt-Safe (err (not_whole_blocks n m)) h =
    fails-Safe (decrypt_failed (not_whole_blocks n m)) (λ e. cc e)
wrap_decrypt-Safe (err (provider_failed n)) h =
    fails-Safe (decrypt_failed (provider_failed n)) (λ e. cc e)

decipher-Safe :
    (bc : BlockCiphers) (sp : SecurityProfile) (key body : Bytes) → Safe (decipher bc sp key body)
unfolding decipher
decipher-Safe bc sp key body = elim (Bool-cases (sp.por_ciphered && ltb 0 (length body))) [
  | inl e ↦
      rw (e, decipher)
        (wrap_decrypt-Safe (decrypt_data bc sp.kic_mode key body)
          (decrypt_data-in_range bc sp.kic_mode key body))
  | inr e ↦ rw (e, decipher) (ok-Safe body)
]

-- The padding is cut off only where the data is that long.
strip_padding-Safe : (pcntr : ℕ) (body : Bytes) → Safe (strip_padding pcntr body)
unfolding strip_padding drop_end
strip_padding-Safe pcntr body h = ground (arith, h)

-- Parsing a response never reads or slices out of range, whatever the bytes, the profile and the
-- keys are: its result is never the error that stands for a panic.
pub parse_response_packet_never_panics :
    (bc : BlockCiphers) (sp : SecurityProfile) (raw key : Bytes)
    → Safe (parse_response_packet bc sp raw key)
unfolding parse_response_packet
parse_response_packet_never_panics bc sp raw key =
    Safe-bind (read_rpl raw) _ (read_rpl-Safe raw) (λ rpl _.
      Safe-test (ltb (length raw) (2 + rpl)) (truncated rpl (length raw - 2)) _ (λ h. cc h)
        (λ l0.
          let n0 : 2 + rpl ≤ length raw = ltb→ge (length raw) (2 + rpl) l0 in
          Safe-test (leb (length raw) 2) too_short_rhl _ (λ h. cc h)
            (λ l1.
              Safe-bind (byte_at raw 2) _ (byte_at-Safe raw 2 (leb→gt (length raw) 2 l1)) (λ rhl _.
                Safe-test (ltb (length raw) 6) too_short_tar _ (λ h. cc h)
                  (λ l2.
                    Safe-bind (bytes_at raw 3 6) _
                      (bytes_at-Safe raw 3 6 (omega arith) (ltb→ge (length raw) 6 l2))
                      (λ tar _.
                        Safe-test (ltb (length raw) 11) too_short_cntr _ (λ h. cc h)
                          (λ l3.
                            Safe-bind (bytes_at raw 6 11) _
                              (bytes_at-Safe raw 6 11 (omega arith) (ltb→ge (length raw) 11 l3))
                              (λ counter _.
                                Safe-test (leb (length raw) 11) too_short_pcntr _ (λ h. cc h)
                                  (λ l4.
                                    Safe-bind (byte_at raw 11) _
                                      (byte_at-Safe raw 11 (leb→gt (length raw) 11 l4))
                                      (λ pcntr _.
                                        Safe-test (leb (length raw) 12) too_short_status _
                                          (λ h. cc h)
                                          (λ l5.
                                            Safe-bind (byte_at raw 12) _
                                              (byte_at-Safe raw 12 (leb→gt (length raw) 12 l5))
                                              (λ status _.
                                                Safe-bind (read_signature raw rhl) _
                                                  (read_signature-Safe raw rhl)
                                                  (λ signed _.
                                                    Safe-bind (read_body raw signed.1 (2 + rpl)) _
                                                      (read_body-Safe raw signed.1 (2 + rpl) n0)
                                                      (λ body _.
                                                        Safe-bind (decipher bc sp key body) _
                                                          (decipher-Safe bc sp key body)
                                                          (λ plain _.
                                                            Safe-bind (strip_padding pcntr plain) _
                                                            (strip_padding-Safe pcntr plain)
                                                            (λ stripped _. ok-Safe _))))))))))))))))
