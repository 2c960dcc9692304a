-- ===== src/SmsFrame/RoundTrip.antt =====
-- Splitting and reassembly together: the parts of a split packet give the packet back.
use ota_platform.Prelude.{
  ℕ, zero, suc, ◌+◌, ◌-◌, ◌≤◌, ◌<◌, ◌≡◌, refl, sym, ap, ◌∙◌, inl, inr, List, [], ◌∷◌, map, none,
  some, arith, length, concat, get_or, drop, All,
}
use ota_platform.Prelude.Bits.{Bytes, byte}
use ota_platform.Prelude.Results.{ok}
use ota_platform.SmsFrame.Frame.{frame_ota_sms}
use ota_platform.SmsFrame.Split.{split_loop, split_for_concat}
use ota_platform.SmsFrame.Split.Parts.{
  chunks, concat-chunks, slice_end, slice-slice_end, drop-slice_end, part_count, ceil_enough,
  split_for_concat-eq-ok, length-split_loop, length-chunks,
}
use ota_platform.SmsFrame.Reassembly.{Reassembler, session_key}
use ota_platform.SmsFrame.Reassembly.Loop.{range}
use ota_platform.SmsFrame.Reassembly.Orders.{
  feed, Distinct, Covers, replies, part_message, feed_any_order,
}

get_or-split_loop :
    (rounds : ℕ) (packet : Bytes) (capacity ref_num total i offset j : ℕ)
    → j < rounds
    → get_or (split_loop rounds packet capacity ref_num total i offset) j []
      ≡ frame_ota_sms
          (get_or (chunks rounds capacity (drop offset packet)) j [])
          (some (record { ref_num = ref_num; total = byte total; part = byte (i + j + 1) }))
unfolding split_loop chunks slice_end
get_or-split_loop zero packet capacity ref_num total i offset j h = absurd (omega arith)
get_or-split_loop (suc rounds) packet capacity ref_num total i offset zero h = cc (
  slice-slice_end packet capacity offset,
  let e : byte (i + 0 + 1) ≡ byte (i + 1) = omega arith in e,
)
get_or-split_loop (suc rounds) packet capacity ref_num total i offset (suc j) h = cc (
  get_or-split_loop rounds packet capacity ref_num total (i + 1) (slice_end packet capacity offset)
      j (omega arith),
  drop-slice_end packet capacity offset,
  let e : byte (i + 1 + j + 1) ≡ byte (i + suc j + 1) = omega arith in e,
)

drop-cons :
    (cs : List Bytes) (j : ℕ) {c : Bytes} {rest : List Bytes}
    → drop j cs ≡ c ∷ rest
    → (get_or cs j [] ≡ c) × (drop (suc j) cs ≡ rest)
drop-cons [] zero h = cc
drop-cons [] (suc j) h = cc
drop-cons (b ∷ cs) zero h = (cc, cc)
drop-cons (b ∷ cs) (suc j) h = drop-cons cs j h

-- Looking the elements of a list up by number, from `j + 1` on, gives the list from there on.
map-get_or-range :
    (rest cs : List Bytes) (j k : ℕ)
    → drop j cs ≡ rest
    → k ≡ j + 1
    → map (λ i. get_or cs (i - 1) []) (range (length rest) k) ≡ rest
unfolding range
map-get_or-range [] cs j k h e = refl
map-get_or-range (c ∷ rest) cs j k h e =
    let (first, others) = drop-cons cs j h in
    let e' : k - 1 ≡ j = omega arith in
    cc (
      first,
      ap (λ t. get_or cs t []) e',
      map-get_or-range rest cs (suc j) (k + 1) others (omega arith),
    )

abbrev pub nth_part : List Bytes → ℕ → Bytes
nth_part parts i = get_or parts (i - 1) []

map-cong_on :
    (f g : ℕ → Bytes) (total : ℕ) (order : List ℕ)
    → ((i : ℕ) → 1 ≤ i → i ≤ total → f i ≡ g i)
    → All (λ i. (1 ≤ i) × (i ≤ total)) order
    → map f order ≡ map g order
map-cong_on f g total [] h within = refl
map-cong_on f g total (i ∷ order) h within =
    cc (h i within.0.0 within.0.1, map-cong_on f g total order h within.1)

-- Part `i` of a split is message `i` of the series.
nth_part-split_loop :
    (packet : Bytes) (capacity ref_num total i : ℕ)
    → total < 256
    → 1 ≤ i
    → i ≤ total
    → nth_part (split_loop total packet capacity ref_num total 0 0) i
      ≡ part_message ref_num total (nth_part (chunks total capacity packet)) i
unfolding part_message
nth_part-split_loop packet capacity ref_num total i small pos le = cc (
  get_or-split_loop total packet capacity ref_num total 0 0 (i - 1) (omega arith),
  let e : byte (0 + (i - 1) + 1) ≡ i = omega arith in e,
  let e : byte total ≡ total = omega arith in e,
)

-- The messages of a successful split into 2 to 254 parts, fed in any order to a reassembler with
-- no session for the sender and number, yield the packet with the last message and not before.
pub feed-split_for_concat :
    (rounds : ℕ) (r : Reassembler) (msisdn : List ℕ) (packet : Bytes)
    (max_part_size max_parts ref_num : ℕ) {parts : List Bytes} (order : List ℕ)
    → split_for_concat packet max_part_size max_parts ref_num ≡ ok parts
    → 2 ≤ length parts
    → length parts < 255
    → length parts < rounds
    → r.parts (session_key msisdn ref_num) ≡ none
    → Distinct order
    → length order ≡ length parts
    → Covers order (length parts)
    → All (λ i. (1 ≤ i) × (i ≤ length parts)) order
    → (r' : Reassembler) × (feed rounds r msisdn (map (nth_part parts) order)
        ≡ some (r', replies (length parts) packet))
      × (r'.parts (session_key msisdn ref_num) ≡ none)
feed-split_for_concat rounds r msisdn packet max_part_size max_parts ref_num {parts} order split two
      small enough fresh distinct size covers within =
    elim (split_for_concat-eq-ok packet max_part_size max_parts ref_num split) [
      | inl (_, _, e) ↦ absurd (omega (arith, ap length e))
      | inr (large, long, _, _, e) ↦
          let n = part_count packet max_part_size in
          let cap = max_part_size - 8 in
          let cs = chunks n cap packet in
          let count : length parts ≡ n =
            ap length e ∙ length-split_loop n packet cap ref_num n 0 0 in
          let (r', run, gone) =
            feed_any_order rounds r msisdn ref_num n (nth_part cs) order (omega (arith, count))
              (omega (arith, count)) (omega (arith, count)) fresh distinct (size ∙ count)
              (rw count at covers) in
          let same : map (nth_part parts) order ≡ map (part_message ref_num n (nth_part cs)) order =
            rw e (
              map-cong_on _ _ n order
                (λ i pos le.
                  nth_part-split_loop packet cap ref_num n i (omega (arith, count)) pos le)
                (rw count at within)) in
          let whole : concat (map (nth_part cs) (range n 1)) ≡ packet =
            ap (λ t. concat (map (nth_part cs) (range t 1))) (sym (length-chunks n cap packet))
            ∙ ap concat (map-get_or-range cs cs 0 1 refl (omega arith))
            ∙ concat-chunks n cap packet (ceil_enough (length packet) cap (omega arith)) in
          (
            r',
            ap (feed rounds r msisdn) same
                ∙ run
                ∙ ap (λ t. some (r', replies n t)) whole
                ∙ ap (λ t. some (r', replies t packet)) (sym count),
            gone,
          )
    ]
