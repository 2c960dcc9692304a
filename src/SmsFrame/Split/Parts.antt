-- ===== src/SmsFrame/Split/Parts.antt =====
-- What the parts of a split hold: the headers number them, the payloads spell the packet.
use native.Mathlib.Nat.{div-add-mod', mod-lt}
use ota_platform.Prelude.{
  ℕ, zero, suc, ◌+◌, ◌-◌, ◌*◌, ◌/◌, ◌≤◌, ◌<◌, ◌≡◌, ◌⊎◌, refl, sym, ap, ◌∙◌, inl, inr, List, [], ◌∷◌,
  ◌++◌, map, none, some, ltb, ◌==◌, ==_iff, arith, if◌then◌else◌, Bool-cases, length, slice, take,
  drop, concat, take-all, drop-all, drop-drop, take-append-drop, All, length-take, length-drop,
  ltb→lt, append-nil,
}
use ota_platform.Prelude.Bits.{Bytes, byte}
use ota_platform.Prelude.Results.{ok}
use ota_platform.SmsFrame.Frame.{frame_ota_sms}
use ota_platform.SmsFrame.Udh.{
  Udh, parse_udh, parse_udh-frame_ota_sms_single, parse_udh-frame_ota_sms_part,
}
use ota_platform.SmsFrame.Split.{split_loop, split_for_concat}

-- `count` pieces of `capacity` bytes, the last ones shorter.
unfoldable pub chunks : ℕ → ℕ → Bytes → List Bytes
chunks zero capacity packet = []
chunks (suc count) capacity packet =
    take capacity packet ∷ chunks count capacity (drop capacity packet)

pub concat-chunks :
    (count capacity : ℕ) (packet : Bytes)
    → length packet ≤ count * capacity
    → concat (chunks count capacity packet) ≡ packet
unfolding chunks
concat-chunks zero capacity [] h = refl
concat-chunks zero capacity (b ∷ packet) h = absurd (omega arith)
concat-chunks (suc count) capacity packet h =
    ap (λ t. take capacity packet ++ t)
      (concat-chunks count capacity (drop capacity packet)
        (omega (arith, length-drop capacity packet)))
    ∙ take-append-drop capacity packet

-- The chunks as a reader of the messages sees them, numbered from `i + 1` out of `total`.
pub numbered : ℕ → ℕ → ℕ → List Bytes → List Udh
numbered ref_num total i [] = []
numbered ref_num total i (chunk ∷ rest) =
    record {
      udh_len = 7;
      concat = some (record { ref_num = ref_num; total = total; part = byte (i + 1) });
      payload = chunk;
    }
    ∷ numbered ref_num total (i + 1) rest

-- The end of a slice that the loop takes, and what is left behind it.
unfoldable pub slice_end : Bytes → ℕ → ℕ → ℕ
slice_end packet capacity offset =
    if ltb (length packet) (offset + capacity) then length packet else offset + capacity

pub slice-slice_end :
    (packet : Bytes) (capacity offset : ℕ)
    → slice packet offset (slice_end packet capacity offset) ≡ take capacity (drop offset packet)
unfolding slice_end
slice-slice_end packet capacity offset =
    elim (Bool-cases (ltb (length packet) (offset + capacity))) [
      | inl short ↦ rw short (
          take-all (drop offset packet) (length packet - offset)
            (omega (arith, length-drop offset packet))
          ∙ sym (
              take-all (drop offset packet) capacity
                (omega (arith, length-drop offset packet, ltb→lt _ _ short))))
      | inr long ↦ rw long (ap (λ t. take t (drop offset packet)) (omega arith))
    ]

pub drop-slice_end :
    (packet : Bytes) (capacity offset : ℕ)
    → drop (slice_end packet capacity offset) packet ≡ drop capacity (drop offset packet)
unfolding slice_end
drop-slice_end packet capacity offset =
    elim (Bool-cases (ltb (length packet) (offset + capacity))) [
      | inl short ↦ rw short (
          drop-all packet (length packet) (omega arith)
          ∙ sym (
              drop-all (drop offset packet) capacity
                (omega (arith, length-drop offset packet, ltb→lt _ _ short))))
      | inr long ↦ rw long (sym (drop-drop packet offset capacity _ refl))
    ]

map-parse_udh-split_loop :
    (rounds : ℕ) (packet : Bytes) (capacity ref_num total i offset : ℕ)
    → map parse_udh (split_loop rounds packet capacity ref_num total i offset)
      ≡ map some (numbered ref_num (byte total) i (chunks rounds capacity (drop offset packet)))
unfolding split_loop chunks numbered slice_end
map-parse_udh-split_loop zero packet capacity ref_num total i offset = refl
map-parse_udh-split_loop (suc rounds) packet capacity ref_num total i offset = cc (
  slice-slice_end packet capacity offset,
  drop-slice_end packet capacity offset,
  parse_udh-frame_ota_sms_part (slice packet offset (slice_end packet capacity offset))
      (record { ref_num = ref_num; total = byte total; part = byte (i + 1) }),
  map-parse_udh-split_loop rounds packet capacity ref_num total (i + 1)
      (slice_end packet capacity offset),
)

-- A quotient rounded up: enough, and not one too many.
pub ceil_enough : (n c : ℕ) → 0 < c → n ≤ (n + c - 1) / c * c
ceil_enough n c h = omega (arith, div-add-mod' (n + c - 1) c, mod-lt (n + c - 1) h)

ceil_least : (n c : ℕ) → 0 < c → 0 < n → ((n + c - 1) / c - 1) * c < n
ceil_least n c h p = elim (Bool-cases ((n + c - 1) / c == 0)) [
  | inl e ↦ rw ((==_iff _ _).0 e) (omega arith)
  | inr e ↦
      let q : ℕ = (n + c - 1) / c - 1 in
      let e' : suc q ≡ (n + c - 1) / c = ground arith in
      let e'' : suc q * c ≡ (n + c - 1) / c * c = ap (λ t. t * c) e' in
      omega (arith, e'', div-add-mod' (n + c - 1) c)
]

abbrev pub part_count : Bytes → ℕ → ℕ
part_count packet max_part_size = (length packet + (max_part_size - 8) - 1) / (max_part_size - 8)

-- The two ways in which a split succeeds.
pub split_for_concat-eq-ok :
    (packet : Bytes) (max_part_size max_parts ref_num : ℕ) {parts : List Bytes}
    → split_for_concat packet max_part_size max_parts ref_num ≡ ok parts
    → ((3 < max_part_size)
        × (length packet ≤ max_part_size - 3)
        × (parts ≡ frame_ota_sms packet none ∷ []))
      ⊎ ((8 < max_part_size)
          × (max_part_size - 3 < length packet)
          × (part_count packet max_part_size ≤ max_parts)
          × (part_count packet max_part_size ≤ 255)
          × (parts
              ≡ split_loop
                  (part_count packet max_part_size)
                  packet
                  (max_part_size - 8)
                  ref_num
                  (part_count packet max_part_size)
                  0
                  0))
unfolding split_for_concat
split_for_concat-eq-ok packet max_part_size max_parts ref_num h = ground arith

pub single : Bytes → List Udh
single packet = record { udh_len = 2; concat = none; payload = packet } ∷ []

pub payload_of : Udh → Bytes
payload_of u = u.payload

map-payload_of-numbered :
    (ref_num total i : ℕ) (cs : List Bytes) → map payload_of (numbered ref_num total i cs) ≡ cs
unfolding numbered payload_of
map-payload_of-numbered ref_num total i [] = refl
map-payload_of-numbered ref_num total i (c ∷ cs) =
    ap (λ t. c ∷ t) (map-payload_of-numbered ref_num total (i + 1) cs)

length-numbered :
    (ref_num total i : ℕ) (cs : List Bytes) → length (numbered ref_num total i cs) ≡ length cs
unfolding numbered
length-numbered ref_num total i [] = refl
length-numbered ref_num total i (c ∷ cs) = ap suc (length-numbered ref_num total (i + 1) cs)

pub length-chunks :
    (count capacity : ℕ) (packet : Bytes) → length (chunks count capacity packet) ≡ count
unfolding chunks
length-chunks zero capacity packet = refl
length-chunks (suc count) capacity packet =
    ap suc (length-chunks count capacity (drop capacity packet))

-- A successful split, read message by message, spells the packet; it is one message without
-- concatenation data, or at most 255 messages numbered from 1 in one series.
pub parse_udh-split_for_concat :
    (packet : Bytes) (max_part_size max_parts ref_num : ℕ) {parts : List Bytes}
    → split_for_concat packet max_part_size max_parts ref_num ≡ ok parts
    → (us : List Udh) × (map parse_udh parts ≡ map some us)
      × (concat (map payload_of us) ≡ packet)
      × ((us ≡ single packet)
          ⊎ ((length us ≤ 255) × (us ≡ numbered ref_num (length us) 0 (map payload_of us))))
unfolding single
parse_udh-split_for_concat packet max_part_size max_parts ref_num h =
    elim (split_for_concat-eq-ok packet max_part_size max_parts ref_num h) [
      | inl (_, _, e) ↦ (
        single packet,
        rw (e, parse_udh-frame_ota_sms_single) refl,
        unfold payload_of in append-nil packet,
        inl refl,
      )
      | inr (large, _, _, few, e) ↦
          let n = part_count packet max_part_size in
          let cap = max_part_size - 8 in
          let cs = chunks n cap packet in
          let us = numbered ref_num (byte n) 0 cs in
          let size : length us ≡ n =
            length-numbered ref_num (byte n) 0 cs ∙ length-chunks n cap packet in
          let total : byte n ≡ length us = omega (arith, size) in
          (
            us,
            rw e (map-parse_udh-split_loop n packet cap ref_num n 0 0),
            ap concat (map-payload_of-numbered ref_num (byte n) 0 cs)
                ∙ concat-chunks n cap packet (ceil_enough (length packet) cap (omega arith)),
            inr (
              omega (arith, size),
              ap (λ t. numbered ref_num t 0 cs) total
                  ∙ ap (λ t. numbered ref_num (length us) 0 t)
                      (sym (map-payload_of-numbered ref_num (byte n) 0 cs)),
            ),
          )
    ]

length-split_loop-le :
    (rounds : ℕ) (packet : Bytes) (capacity ref_num total i offset : ℕ)
    → All (λ p. length p ≤ 8 + capacity) (split_loop rounds packet capacity ref_num total i offset)
unfolding split_loop frame_ota_sms slice_end
length-split_loop-le zero packet capacity ref_num total i offset = tt
length-split_loop-le (suc rounds) packet capacity ref_num total i offset = (
  omega (
    arith,
    ap length (slice-slice_end packet capacity offset),
    length-take capacity (drop offset packet),
  ),
  length-split_loop-le rounds packet capacity ref_num total (i + 1)
      (slice_end packet capacity offset),
)

pub length-split_loop :
    (rounds : ℕ) (packet : Bytes) (capacity ref_num total i offset : ℕ)
    → length (split_loop rounds packet capacity ref_num total i offset) ≡ rounds
unfolding split_loop slice_end
length-split_loop zero packet capacity ref_num total i offset = refl
length-split_loop (suc rounds) packet capacity ref_num total i offset = ap suc (
    length-split_loop rounds packet capacity ref_num total (i + 1)
      (slice_end packet capacity offset))

two_needed : (n c l : ℕ) → l ≤ n * c → c < l → 1 < n
two_needed zero c l h k = absurd (omega arith)
two_needed (suc zero) c l h k = absurd (omega arith)
two_needed (suc (suc n)) c l h k = omega arith

-- No part of a successful split is longer than the limit. There is one part where the packet fits in
-- it with a header of three bytes, and then the limit on the number of parts is not asked; else there
-- are at least two, no more than that limit and 255, and no more than the packet needs.
pub split_for_concat_bounds :
    (packet : Bytes) (max_part_size max_parts ref_num : ℕ) {parts : List Bytes}
    → split_for_concat packet max_part_size max_parts ref_num ≡ ok parts
    → All (λ p. length p ≤ max_part_size) parts
      × ((length parts ≡ 1) × (length packet + 3 ≤ max_part_size)
          ⊎ ((max_part_size < length packet + 3)
              × (1 < length parts)
              × (length parts ≤ max_parts)
              × (length parts ≤ 255)
              × ((length parts - 1) * (max_part_size - 8) < length packet)))
split_for_concat_bounds packet max_part_size max_parts ref_num h =
    elim (split_for_concat-eq-ok packet max_part_size max_parts ref_num h) [
      | inl (large, short, e) ↦ rw e (
        (unfold frame_ota_sms in omega (arith, large, short), tt),
        inl (refl, omega (arith, large, short)),
      )
      | inr (large, long, few, few', e) ↦
          let n = part_count packet max_part_size in
          let cap = max_part_size - 8 in
          let wide : 8 + cap ≡ max_part_size = omega arith in
          rw (e, length-split_loop n packet cap ref_num n 0 0)
            (
              rw wide at (length-split_loop-le n packet cap ref_num n 0 0),
              inr (
                omega (arith, long),
                two_needed n cap (length packet) (ceil_enough (length packet) cap (omega arith))
                    (omega arith),
                few,
                few',
                ceil_least (length packet) cap (omega arith) (omega arith),
              ),
            )
    ]
