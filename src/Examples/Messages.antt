-- ===== src/Examples/Messages.antt =====
-- pkg/hexutil and pkg/smsframe at small inputs.
use ota_platform.Prelude.{
  ◌+◌, inl, ℕ, ◌-◌, ◌*◌, ◌≤◌, ◌<◌, ◌≡◌, ◌⊎◌, refl, false, List, [], ◌∷◌, ◌++◌, map, Option, none,
  some, arith, if◌then◌else◌, ltb, length, concat, All,
}
use ota_platform.Prelude.Bits.{Bytes, IsByte}
use ota_platform.Prelude.Results.{Result, ok, err}
use ota_platform.Hex.{encode, decode, ber_length, is_space}
use ota_platform.Hex.RoundTrip.{decode-encode}
use ota_platform.Hex.Ber.{read_ber, read_ber-ber_length}
use ota_platform.SmsFrame.Frame.{ConcatInfo, frame_ota_sms}
use ota_platform.SmsFrame.Udh.{Udh, parse_udh}
use ota_platform.SmsFrame.Split.{SplitError, split_for_concat}
use ota_platform.SmsFrame.Split.Parts.{
  parse_udh-split_for_concat, split_for_concat_bounds, single, numbered, payload_of,
}
use ota_platform.SmsFrame.Reassembly.{
  Reassembler, new_reassembler, session_key, store_part, key_eq, Added, add_part, add_concat,
  keep_session,
}
use ota_platform.SmsFrame.Reassembly.Loop.{range}
use ota_platform.SmsFrame.Reassembly.Sessions.{add_part_255_diverges, add_part_isolated, contains}
use ota_platform.SmsFrame.Reassembly.Orders.{feed, Covers, replies, part_message, feed_any_order}
use ota_platform.SmsFrame.RoundTrip.{nth_part, feed-split_for_concat}

decode-encode_example :
    decode ((0x20 ∷ []) ++ (encode (0xAB ∷ 0x01 ∷ []) ++ (0x0A ∷ []))) ≡ ok (0xAB ∷ 0x01 ∷ [])
unfolding is_space
decode-encode_example =
    decode-encode (0x20 ∷ []) (0x0A ∷ []) (0xAB ∷ 0x01 ∷ []) (omega arith, (omega arith, tt))
      (refl, tt) (refl, tt)

read_ber-ber_length_example :
    (read_ber (ber_length 300 ++ (1 ∷ [])) ≡ some (300, 1 ∷ []))
    × All IsByte (ber_length 300)
    × (length (ber_length 300) ≡ (if ltb 300 0x80 then 1 else if ltb 300 0x100 then 2 else 3))
read_ber-ber_length_example = read_ber-ber_length 300 (1 ∷ []) (omega arith)

abbrev info : ConcatInfo
info = record { ref_num = 7; total = 2; part = 1 }

abbrev packet : Bytes
packet = 1 ∷ 2 ∷ 3 ∷ 4 ∷ 5 ∷ 6 ∷ 7 ∷ 8 ∷ 9 ∷ 10 ∷ []

abbrev value_or_none : Result SplitError (List Bytes) → List Bytes
value_or_none (ok ps) = ps
value_or_none (err e) = []

-- Ten bytes in messages of at most twelve: three messages.
abbrev parts : List Bytes
parts = value_or_none (split_for_concat packet 12 3 7)

split_parts : split_for_concat packet 12 3 7 ≡ ok parts
unfolding split_for_concat
split_parts = refl

length-parts : length parts ≡ 3
unfolding split_for_concat
length-parts = refl

parse_udh-split_for_concat_example :
    (us : List Udh) × (map parse_udh parts ≡ map some us)
    × (concat (map payload_of us) ≡ packet)
    × ((us ≡ single packet)
        ⊎ ((length us ≤ 255) × (us ≡ numbered 7 (length us) 0 (map payload_of us))))
parse_udh-split_for_concat_example = parse_udh-split_for_concat packet 12 3 7 split_parts

split_for_concat_bounds_example :
    All (λ p. length p ≤ 12) parts
    × ((length parts ≡ 1) × (length packet + 3 ≤ 12)
        ⊎ ((12 < length packet + 3)
            × (1 < length parts)
            × (length parts ≤ 3)
            × (length parts ≤ 255)
            × ((length parts - 1) * (12 - 8) < length packet)))
split_for_concat_bounds_example = split_for_concat_bounds packet 12 3 7 split_parts

abbrev sender : List ℕ
sender = 0x34 ∷ 0x39 ∷ []

Covers-three : Covers (3 ∷ 1 ∷ 2 ∷ []) 3
unfolding contains
Covers-three i pos le = ground arith

feed_any_order_example :
    (r' : Reassembler) × (feed 5 new_reassembler sender
        (map (part_message 7 3 (λ i. i ∷ [])) (3 ∷ 1 ∷ 2 ∷ []))
      ≡ some (r', replies 3 (concat (map (λ i. i ∷ []) (range 3 1)))))
    × (r'.parts (session_key sender 7) ≡ none)
unfolding new_reassembler contains
feed_any_order_example =
    feed_any_order 5 new_reassembler sender 7 3 (λ i. i ∷ []) (3 ∷ 1 ∷ 2 ∷ []) (omega arith)
      (omega arith) (omega arith) refl (refl, (refl, (refl, tt))) refl Covers-three

feed-split_for_concat_example :
    (r' : Reassembler) × (feed 5 new_reassembler sender (map (nth_part parts) (3 ∷ 1 ∷ 2 ∷ []))
      ≡ some (r', replies (length parts) packet))
    × (r'.parts (session_key sender 7) ≡ none)
unfolding new_reassembler contains split_for_concat
feed-split_for_concat_example =
    feed-split_for_concat 5 new_reassembler sender packet 12 3 7 (3 ∷ 1 ∷ 2 ∷ []) split_parts
      (omega arith) (omega arith) (omega arith) refl (refl, (refl, (refl, tt))) refl Covers-three
      ((omega arith, omega arith), ((omega arith, omega arith), ((omega arith, omega arith), tt)))

-- A sender whose series of 255 parts lacks the last one.
abbrev almost_full : Reassembler
almost_full = record { parts = λ k. some (map (λ i. (i, [])) (range 254 1)); total = λ k. 255 }

abbrev last_info : ConcatInfo
last_info = record { ref_num = 7; total = 255; part = 255 }

add_part_255_diverges_example :
    add_part 600 almost_full sender (frame_ota_sms (9 ∷ []) (some last_info)) ≡ none
unfolding store_part range
add_part_255_diverges_example =
    add_part_255_diverges 600 almost_full sender last_info (9 ∷ []) refl refl

-- The first part of two.
abbrev after_first : Option Added
after_first = add_part 5 new_reassembler sender (frame_ota_sms (9 ∷ []) (some info))

abbrev added : Option Added → Added
added none = record { state = new_reassembler; payload = []; complete = false }
added (some a) = a

add_part_isolated_example :
    ((added after_first).state.parts (session_key (0x35 ∷ []) 7)
      ≡ new_reassembler.parts (session_key (0x35 ∷ []) 7))
    × ((added after_first).state.total (session_key (0x35 ∷ []) 7)
        ≡ new_reassembler.total (session_key (0x35 ∷ []) 7))
unfolding add_part add_concat new_reassembler parse_udh frame_ota_sms session_key key_eq store_part
    keep_session
add_part_isolated_example =
    add_part_isolated 5 new_reassembler sender (frame_ota_sms (9 ∷ []) (some info))
      (record { udh_len = 7; concat = some info; payload = 9 ∷ [] }) (0x35 ∷ []) 7
      {a = added after_first} refl refl (inl (λ e. cc e))
