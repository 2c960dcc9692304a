-- ===== src/SmsFrame/Split.antt =====
-- pkg/smsframe/frame.go, SplitForConcat.
pub mod Parts
use ota_platform.Prelude.{
  ℕ, zero, suc, ◌+◌, ◌-◌, ◌/◌, List, [], ◌∷◌, none, some, ltb, leb, if◌then◌else◌, length, slice,
}
use ota_platform.Prelude.Bits.{Bytes, byte}
use ota_platform.Prelude.Results.{Result, ok, err}
use ota_platform.SmsFrame.Frame.{ConcatInfo, frame_ota_sms}

pub data SplitError : Type 0 where
  too_small_single : SplitError
  too_small_concat : SplitError
  too_many_parts : ℕ → ℕ → SplitError
  over_255 : ℕ → SplitError

-- The loop over the parts, from part index `i` and byte `offset`; the first argument counts the
-- rounds left.
unfoldable pub split_loop : ℕ → Bytes → ℕ → ℕ → ℕ → ℕ → ℕ → List Bytes
split_loop zero packet capacity ref_num total_parts i offset = []
split_loop (suc rounds) packet capacity ref_num total_parts i offset =
    let end =
      if ltb (length packet) (offset + capacity) then length packet else offset + capacity in
    let concat : ConcatInfo = record {
      ref_num = ref_num;
      total = byte total_parts;
      part = byte (i + 1);
    } in
    frame_ota_sms (slice packet offset end) (some concat)
    ∷ split_loop rounds packet capacity ref_num total_parts (i + 1) end

-- A negative size or limit of the source behaves as 0 does here. `ref_num` is the random byte.
unfoldable pub split_for_concat : Bytes → ℕ → ℕ → ℕ → Result SplitError (List Bytes)
unfolding split_loop
split_for_concat packet max_part_size max_parts ref_num =
    let capacity = max_part_size - 8 in
    let total_parts = (length packet + capacity - 1) / capacity in
    if leb max_part_size 3
    then err too_small_single
    else if leb (length packet) (max_part_size - 3)
    then ok (frame_ota_sms packet none ∷ [])
    else if leb max_part_size 8
    then err too_small_concat
    else if ltb max_parts total_parts
    then err (too_many_parts total_parts max_parts)
    else if ltb 255 total_parts
    then err (over_255 total_parts)
    else ok (split_loop total_parts packet capacity ref_num total_parts 0 0)
