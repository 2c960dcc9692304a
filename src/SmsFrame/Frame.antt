-- ===== src/SmsFrame/Frame.antt =====
-- pkg/smsframe/frame.go: the user data headers that are put before a packet.
use ota_platform.Prelude.{ℕ, Option, none, some, ◌∷◌}
use ota_platform.Prelude.Bits.{Bytes}

pub record ConcatInfo : Type 0 where
  pub ref_num : ℕ
  pub total : ℕ
  pub part : ℕ

-- `none` is the nil pointer: a single SMS.
unfoldable pub frame_ota_sms : Bytes → Option ConcatInfo → Bytes
frame_ota_sms packet none = 0x02 ∷ 0x70 ∷ 0x00 ∷ packet
frame_ota_sms packet (some c) =
    0x07 ∷ 0x00 ∷ 0x03 ∷ c.ref_num ∷ c.total ∷ c.part ∷ 0x70 ∷ 0x00 ∷ packet
