-- ===== src/Hex/RoundTrip.antt =====
-- Decoding after encoding, and what decoding accepts.
use ota_platform.Prelude.{
  ℕ, ◌+◌, ◌*◌, ◌/◌, ◌%◌, ◌<◌, ◌≡◌, refl, sym, ap, ◌∙◌, inl, inr, true, false, List, [], ◌∷◌, ◌++◌,
  map, ◌==◌, arith, length, append-nil, Bool-cases, All,
}
use ota_platform.Prelude.Bits.{Bytes, IsByte}
use ota_platform.Prelude.Results.{ok, Result-cases}
use ota_platform.Hex.{
  hex_digit, encode_to_string, to_upper, encode, from_hex_char, decode_string, is_space, trim_left,
  trim_right, trim_space, decode,
}

abbrev pub IsSpaceFree : List ℕ → Type 0
IsSpaceFree = All (λ c. is_space c ≡ false)

trim_left-free : (s : List ℕ) → IsSpaceFree s → trim_left s ≡ s
unfolding trim_left
trim_left-free [] h = refl
trim_left-free (c ∷ s) h = rw h.0 refl

trim_right-free : (s : List ℕ) → IsSpaceFree s → trim_right s ≡ s
unfolding trim_right
trim_right-free [] h = refl
trim_right-free (c ∷ s) h = rw (h.0, trim_right-free s h.1) refl

-- Spaces before a text are dropped.
trim_left-append :
    (ws s : List ℕ) → All (λ c. is_space c ≡ true) ws → trim_left (ws ++ s) ≡ trim_left s
unfolding trim_left
trim_left-append [] s h = refl
trim_left-append (w ∷ ws) s h = rw h.0 (trim_left-append ws s h.1)

trim_right-spaces : (ws : List ℕ) → All (λ c. is_space c ≡ true) ws → trim_right ws ≡ []
unfolding trim_right
trim_right-spaces [] h = refl
trim_right-spaces (w ∷ ws) h = rw (h.0, trim_right-spaces ws h.1) refl

trim_right-append :
    (s ws : List ℕ) → IsSpaceFree s → All (λ c. is_space c ≡ true) ws → trim_right (s ++ ws) ≡ s
unfolding trim_right
trim_right-append [] ws h k = trim_right-spaces ws k
trim_right-append (c ∷ s) ws h k = rw (h.0, trim_right-append s ws h.1 k) refl

trim_around :
    (before after s : List ℕ)
    → IsSpaceFree s
    → All (λ c. is_space c ≡ true) before
    → All (λ c. is_space c ≡ true) after
    → trim_right (trim_left (before ++ (s ++ after))) ≡ s
unfolding trim_left
trim_around before after [] free spaces spaces' =
    ap trim_right (
      trim_left-append before after spaces
      ∙ sym (ap trim_left (append-nil after))
      ∙ trim_left-append after [] spaces')
    ∙ unfold trim_right in refl
trim_around before after (c ∷ s) free spaces spaces' =
    ap trim_right (trim_left-append before ((c ∷ s) ++ after) spaces)
    ∙ rw free.0 (trim_right-append (c ∷ s) after free spaces')

-- The digits of a byte, upper case, are read back and are no spaces.
digits_read :
    (d : ℕ)
    → d < 16
    → (from_hex_char (to_upper (hex_digit d)) ≡ ok d) × (is_space (to_upper (hex_digit d)) ≡ false)
unfolding from_hex_char to_upper hex_digit is_space
digits_read d h = (ground arith, ground arith)

encode-free : (bs : Bytes) → All IsByte bs → IsSpaceFree (encode bs)
unfolding encode encode_to_string
encode-free [] h = tt
encode-free (b ∷ bs) h = (
  (digits_read (b / 16) (omega arith)).1,
  ((digits_read (b % 16) (omega arith)).1, encode-free bs h.1),
)

decode_string-encode : (bs : Bytes) → All IsByte bs → decode_string (encode bs) ≡ ok bs
unfolding decode_string encode encode_to_string
decode_string-encode [] h = refl
decode_string-encode (b ∷ bs) h =
    let e : b / 16 * 16 + b % 16 ≡ b = omega arith in
    rw
      (
        (digits_read (b / 16) (omega arith)).0,
        (digits_read (b % 16) (omega arith)).0,
        decode_string-encode bs h.1,
        e,
      )
      refl

length-encode : (bs : Bytes) → length (encode bs) % 2 ≡ 0
unfolding encode encode_to_string
length-encode [] = refl
length-encode (b ∷ bs) = omega (arith, length-encode bs)

-- Bytes are read back from their hex text, also between any spaces.
pub decode-encode :
    (before after : List ℕ) (bs : Bytes)
    → All IsByte bs
    → All (λ c. is_space c ≡ true) before
    → All (λ c. is_space c ≡ true) after
    → decode (before ++ (encode bs ++ after)) ≡ ok bs
unfolding decode trim_space
decode-encode before after bs bytes spaces spaces' =
    let trimmed : trim_right (trim_left (before ++ (encode bs ++ after))) ≡ encode bs =
      trim_around before after (encode bs) (encode-free bs bytes) spaces spaces' in
    rw (trimmed, length-encode bs, decode_string-encode bs bytes) refl

char_sound :
    (c : ℕ) {d : ℕ} → from_hex_char c ≡ ok d → (d < 16) × (to_upper (hex_digit d) ≡ to_upper c)
unfolding from_hex_char to_upper hex_digit
char_sound c h = ground arith

decode_string_sound :
    (s : List ℕ) {bs : Bytes}
    → decode_string s ≡ ok bs
    → All IsByte bs × (encode bs ≡ map to_upper s)
unfolding decode_string encode encode_to_string
decode_string_sound [] h = ground arith
decode_string_sound (c ∷ []) h = ground arith
decode_string_sound (c ∷ c' ∷ s) {bs} h = elim (Result-cases (from_hex_char c)) [
  | inr (e, refused) ↦ absurd (cc (h, refused))
  | inl (hi, eh) ↦ elim (Result-cases (from_hex_char c')) [
    | inr (e, refused) ↦ absurd (ground (arith, eh, refused, h))
    | inl (lo, el) ↦ elim (Result-cases (decode_string s)) [
      | inr (e, refused) ↦ absurd (ground (arith, eh, el, refused, h))
      | inl (rest, er) ↦
          let bs-eq : (hi * 16 + lo) ∷ rest ≡ bs = ground (arith, eh, el, er, h) in
          let (hi_small, hi_read) = char_sound c eh in
          let (lo_small, lo_read) = char_sound c' el in
          let (bytes, spelled) = decode_string_sound s er in
          let high : (hi * 16 + lo) / 16 ≡ hi = omega arith in
          let low : (hi * 16 + lo) % 16 ≡ lo = omega arith in
          rw (← bs-eq) (
            (omega arith, bytes),
            rw (high, low, hi_read, lo_read) (ap (λ t. to_upper c ∷ to_upper c' ∷ t) spelled),
          )
    ]
  ]
]

-- A text that decodes is, up to case and surrounding spaces, the hex text of the bytes.
pub decode_sound :
    (text : List ℕ) {bs : Bytes}
    → decode text ≡ ok bs
    → All IsByte bs × (encode bs ≡ map to_upper (trim_space text))
unfolding decode
decode_sound text h = elim (Bool-cases (length (trim_space text) % 2 == 0)) [
  | inl even ↦ decode_string_sound (trim_space text) (rw even at h)
  | inr odd ↦ absurd (cc (h, odd))
]
