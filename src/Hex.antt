-- ===== src/Hex.antt =====
-- pkg/hexutil/hex.go: hex text and BER lengths. A text is its list of bytes, which are ASCII.
-- Of the standard library: hex.EncodeToString, hex.DecodeString, strings.ToUpper, strings.TrimSpace.
pub mod RoundTrip
pub mod Ber
use ota_platform.Prelude.{
  ℕ, zero, suc, ◌+◌, ◌-◌, ◌*◌, ◌/◌, ◌%◌, ◌^◌, Bool, true, false, ◌&&◌, ◌||◌, List, [], ◌∷◌, map,
  ltb, leb, ◌==◌, if◌then◌else◌, length,
}
use ota_platform.Prelude.Bits.{Bytes, byte}
use ota_platform.Prelude.Results.{Result, ok, err, ◌>>=◌}

-- The digit of a half byte in the table of encoding/hex.
unfoldable pub hex_digit : ℕ → ℕ
hex_digit d = if ltb d 10 then b'0' + d else b'a' + (d - 10)

unfoldable pub encode_to_string : Bytes → List ℕ
encode_to_string [] = []
encode_to_string (b ∷ bs) = hex_digit (b / 16) ∷ hex_digit (b % 16) ∷ encode_to_string bs

unfoldable pub to_upper : ℕ → ℕ
to_upper c = if leb b'a' c && leb c b'z' then c - 32 else c

unfoldable pub encode : Bytes → List ℕ
encode bs = map to_upper (encode_to_string bs)

pub data HexError : Type 0 where
  odd_length : HexError
  invalid_byte : ℕ → HexError

-- The value of a hex digit of either case.
unfoldable pub from_hex_char : ℕ → Result HexError ℕ
from_hex_char c =
    if leb b'0' c && leb c b'9'
    then ok (c - b'0')
    else if leb b'a' c && leb c b'f'
    then ok (c - b'a' + 10)
    else if leb b'A' c && leb c b'F'
    then ok (c - b'A' + 10)
    else err (invalid_byte c)

unfoldable pub decode_string : List ℕ → Result HexError Bytes
decode_string [] = ok []
decode_string (c ∷ []) = do d ← from_hex_char c; err odd_length
decode_string (c ∷ c' ∷ s) = do
  hi ← from_hex_char c
  lo ← from_hex_char c'
  bs ← decode_string s
  ok ((hi * 16 + lo) ∷ bs)

unfoldable pub is_space : ℕ → Bool
is_space c = (leb 9 c && leb c 13) || c == 32

unfoldable pub trim_left : List ℕ → List ℕ
trim_left [] = []
trim_left (c ∷ s) = if is_space c then trim_left s else c ∷ s

abbrev pub keep_char : Bool → ℕ → List ℕ → List ℕ
keep_char true c [] = []
keep_char true c (d ∷ s) = c ∷ d ∷ s
keep_char false c s = c ∷ s

-- A space is dropped where only spaces follow.
unfoldable pub trim_right : List ℕ → List ℕ
trim_right [] = []
trim_right (c ∷ s) = keep_char (is_space c) c (trim_right s)

unfoldable pub trim_space : List ℕ → List ℕ
unfolding trim_left trim_right is_space
trim_space s = trim_right (trim_left s)

unfoldable pub decode : List ℕ → Result HexError Bytes
unfolding trim_space
decode text =
    let s = trim_space text in if length s % 2 == 0 then decode_string s else err odd_length

unfoldable pub ber_length : ℕ → Bytes
ber_length size =
    if ltb size 0x80
    then byte size ∷ []
    else if ltb size 0x100
    then 0x81 ∷ byte size ∷ []
    else 0x82 ∷ byte (size / 2 ^ 8) ∷ byte size ∷ []
