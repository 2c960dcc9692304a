-- ===== src/SmsFrame/Reassembly/Orders.antt =====
-- The parts of a series, fed in any order.
use ota_platform.Prelude.{
  ℕ, zero, suc, ◌+◌, ◌≤◌, ◌<◌, ◌≡◌, refl, ap, ◌∙◌, Bool, true, false, List, [], ◌∷◌, ◌++◌, map,
  Option, none, some, arith, length, append_assoc, length-append, concat,
}
use ota_platform.Prelude.Bits.{Bytes}
use ota_platform.Prelude.Options.{◌>>=◌}
use ota_platform.SmsFrame.Frame.{frame_ota_sms}
use ota_platform.SmsFrame.Reassembly.{Reassembler, session_key, delete_session, add_part}
use ota_platform.SmsFrame.Reassembly.Loop.{range, pieces}
use ota_platform.SmsFrame.Reassembly.Sessions.{
  add_part-eq-add_concat, entries, contains, contains-append, part_of-entries, HasSession,
  HasSession-fresh, delete_session-none, add_concat_waits, add_concat_finishes,
}

-- What a caller of AddPart sees of one call.
pub record Reply : Type 0 where
  pub payload : Bytes
  pub complete : Bool

-- The messages of one sender, one after the other.
unfoldable pub feed : ℕ → Reassembler → List ℕ → List Bytes → Option (Reassembler × List Reply)
feed rounds r msisdn [] = some (r, [])
feed rounds r msisdn (raw ∷ raws) = do
  a ← add_part rounds r msisdn raw
  (r', replies) ← feed rounds a.state msisdn raws
  some (r', record { payload = a.payload; complete = a.complete } ∷ replies)

-- Each part number occurs once.
abbrev pub Distinct : List ℕ → Type 0
Distinct [] = Unit
Distinct (i ∷ is) = (contains i is ≡ false) × Distinct is

Distinct-not_seen :
    (seen : List ℕ) (i : ℕ) (rest : List ℕ) → Distinct (seen ++ i ∷ rest) → contains i seen ≡ false
unfolding contains
Distinct-not_seen [] i rest h = refl
Distinct-not_seen (j ∷ seen) i rest h =
    ground (arith, contains-append j seen (i ∷ rest), Distinct-not_seen seen i rest h.1)

-- All parts of a series of `total` parts are in the list.
abbrev pub Covers : List ℕ → ℕ → Type 0
Covers order total = (i : ℕ) → 1 ≤ i → i ≤ total → contains i order ≡ true

pieces-entries :
    (piece : ℕ → Bytes) (order : List ℕ) (total count i : ℕ)
    → Covers order total
    → 1 ≤ i
    → i + count ≡ total + 1
    → pieces (entries piece order) (range count i) ≡ concat (map piece (range count i))
unfolding pieces range
pieces-entries piece order total zero i covers pos e = refl
pieces-entries piece order total (suc count) i covers pos e =
    rw (part_of-entries piece i order (covers i pos (omega arith))) (
      ap (λ t. piece i ++ t)
        (pieces-entries piece order total count (i + 1) covers (omega arith) (omega arith)))

-- The replies to a series: nothing until the last part, then the message.
unfoldable pub replies : ℕ → Bytes → List Reply
replies zero message = []
replies (suc zero) message = record { payload = message; complete = true } ∷ []
replies (suc (suc n)) message = record { payload = []; complete = false } ∷ replies (suc n) message

-- Part `i` of a series.
unfoldable pub part_message : ℕ → ℕ → (ℕ → Bytes) → ℕ → Bytes
part_message ref_num total piece i =
    frame_ota_sms (piece i) (some (record { ref_num = ref_num; total = total; part = i }))

module _ (rounds : ℕ) (msisdn : List ℕ) (ref_num total : ℕ) (piece : ℕ → Bytes) where
  feed_from :
      (r : Reassembler) (seen rest : List ℕ)
      → total < 255
      → total < rounds
      → HasSession r (session_key msisdn ref_num) piece seen total
      → Distinct (seen ++ rest)
      → length (seen ++ rest) ≡ total
      → Covers (seen ++ rest) total
      → 1 ≤ length rest
      → (r' : Reassembler) × (feed rounds r msisdn (map (part_message ref_num total piece) rest)
          ≡ some (r', replies (length rest) (concat (map piece (range total 1)))))
        × (r'.parts (session_key msisdn ref_num) ≡ none)
  unfolding feed replies part_message
  feed_from r seen [] lt enough session distinct size covers some_left = absurd (omega arith)
  feed_from r seen (i ∷ []) lt enough session distinct size covers some_left = (
    delete_session r (session_key msisdn ref_num),
    rw
        (
          add_part-eq-add_concat rounds r msisdn
              (record { ref_num = ref_num; total = total; part = i }) (piece i),
          add_concat_finishes rounds r msisdn ref_num total i piece seen session
              (Distinct-not_seen seen i [] distinct) (omega (arith, length-append seen (i ∷ []))) lt
              enough,
          pieces-entries piece (seen ++ i ∷ []) total total 1 covers (omega arith) (omega arith),
        )
        refl,
    delete_session-none r (session_key msisdn ref_num),
  )
  feed_from r seen (i ∷ j ∷ rest) lt enough session distinct size covers some_left =
      let assoc : (seen ++ i ∷ []) ++ j ∷ rest ≡ seen ++ i ∷ j ∷ rest =
        append_assoc seen (i ∷ []) (j ∷ rest) in
      let (r', step, session') =
        add_concat_waits rounds r msisdn ref_num total i piece seen session
          (Distinct-not_seen seen i (j ∷ rest) distinct)
          (omega (arith, length-append seen (i ∷ j ∷ rest))) (omega arith) in
      let (r'', later, gone) =
        feed_from r' (seen ++ i ∷ []) (j ∷ rest) lt enough session' (rw assoc distinct)
          (rw assoc size) (rw assoc covers) (omega arith) in
      (
        r'',
        rw
            (
              add_part-eq-add_concat rounds r msisdn
                  (record { ref_num = ref_num; total = total; part = i }) (piece i),
              step,
              later,
            )
            refl,
        gone,
      )

-- The parts of a series of at most 254 messages may arrive in any order: if each arrives once and
-- none of the sender's and number's parts arrived before, nothing is handed on before the last
-- message, which completes the concatenation of the parts by number, and the session is gone.
pub feed_any_order :
    (rounds : ℕ) (r : Reassembler) (msisdn : List ℕ) (ref_num total : ℕ) (piece : ℕ → Bytes)
    (order : List ℕ)
    → total < 255
    → total < rounds
    → 1 ≤ total
    → r.parts (session_key msisdn ref_num) ≡ none
    → Distinct order
    → length order ≡ total
    → Covers order total
    → (r' : Reassembler) × (feed rounds r msisdn (map (part_message ref_num total piece) order)
        ≡ some (r', replies total (concat (map piece (range total 1)))))
      × (r'.parts (session_key msisdn ref_num) ≡ none)
feed_any_order rounds r msisdn ref_num total piece order lt enough pos fresh distinct size covers =
    let (r', run, gone) =
      feed_from rounds msisdn ref_num total piece r [] order lt enough
        (HasSession-fresh r (session_key msisdn ref_num) piece total fresh) distinct size covers
        (omega (arith, size)) in
    (r', run ∙ ap (λ n. some (r', replies n (concat (map piece (range total 1))))) size, gone)
