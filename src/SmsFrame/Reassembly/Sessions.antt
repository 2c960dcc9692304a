-- ===== src/SmsFrame/Reassembly/Sessions.antt =====
-- What one call of AddPart does to its session, and what it leaves alone.
use ota_platform.Prelude.{
  ℕ, ◌+◌, ◌≤◌, ◌<◌, ◌≡◌, refl, ◌∙◌, Bool, true, false, List, [], ◌∷◌, ◌++◌, map, none, some, ◌==◌,
  ◌≢◌, ◌⊎◌, inl, inr, ap, sym, Bool-cases, Option-cases, arith, if◌then◌else◌, length, ge→ltb,
  lt→ltb, length-append, length-map,
}
use ota_platform.Prelude.Bits.{Bytes, byte}
use ota_platform.SmsFrame.Frame.{ConcatInfo, frame_ota_sms}
use ota_platform.SmsFrame.Udh.{Udh, parse_udh, parse_udh-frame_ota_sms_part}
use ota_platform.SmsFrame.Reassembly.{
  key_eq, PartMap, Reassembler, session_key, store_part, part_of, update, stored, expected,
  keep_session, delete_session, Added, add_concat, add_part,
}
use ota_platform.SmsFrame.Reassembly.Loop.{range, pieces, assemble-eq-some, assemble-eq-none}

pub key_eq_refl : (k : List ℕ) → key_eq k k ≡ true
unfolding key_eq
key_eq_refl [] = refl
key_eq_refl (x ∷ k) = ground (arith, key_eq_refl k)

-- The session of a message with concatenation data is asked for its parts alone.
pub add_part-eq-add_concat :
    (rounds : ℕ) (r : Reassembler) (msisdn : List ℕ) (c : ConcatInfo) (payload : Bytes)
    → add_part rounds r msisdn (frame_ota_sms payload (some c))
      ≡ add_concat rounds r msisdn c payload
unfolding add_part
add_part-eq-add_concat rounds r msisdn c payload = rw (parse_udh-frame_ota_sms_part payload c) refl

-- The part map of a session after the given part numbers have arrived, each once.
abbrev pub entries : (ℕ → Bytes) → List ℕ → PartMap
entries piece = map (λ i. (i, piece i))

unfoldable pub contains : ℕ → List ℕ → Bool
contains i [] = false
contains i (j ∷ js) = if j == i then true else contains i js

pub contains-append :
    (i : ℕ) (xs ys : List ℕ)
    → contains i (xs ++ ys) ≡ (if contains i xs then true else contains i ys)
unfolding contains
contains-append i [] ys = refl
contains-append i (x ∷ xs) ys = ground (arith, contains-append i xs ys)

pub store_part-entries :
    (piece : ℕ → Bytes) (i : ℕ) (seen : List ℕ)
    → contains i seen ≡ false
    → store_part i (piece i) (entries piece seen) ≡ entries piece (seen ++ i ∷ [])
unfolding store_part contains
store_part-entries piece i [] h = refl
store_part-entries piece i (j ∷ seen) h = ground (arith, store_part-entries piece i seen)

pub part_of-entries :
    (piece : ℕ → Bytes) (i : ℕ) (seen : List ℕ)
    → contains i seen ≡ true
    → part_of i (entries piece seen) ≡ piece i
unfolding part_of contains
part_of-entries piece i [] h = cc
part_of-entries piece i (j ∷ seen) h = ground (arith, part_of-entries piece i seen)

-- The state of the session of a key: what has arrived, and how many parts a message of `total`
-- parts is taken to belong to. A key without a session has seen nothing.
pub record HasSession (r : Reassembler) (key : List ℕ) (piece : ℕ → Bytes) (seen : List ℕ)
    (total : ℕ) : Type 0 where
  pub arrived : stored (r.parts key) ≡ entries piece seen
  pub awaited : expected (r.parts key) total (r.total key) ≡ total

pub HasSession-fresh :
    (r : Reassembler) (key : List ℕ) (piece : ℕ → Bytes) (total : ℕ)
    → r.parts key ≡ none
    → HasSession r key piece [] total
HasSession-fresh r key piece total h = record { arrived = rw h refl; awaited = rw h refl }

keep_session-HasSession :
    (r : Reassembler) (key : List ℕ) (piece : ℕ → Bytes) (seen : List ℕ) (total : ℕ)
    → HasSession (keep_session r key (entries piece seen) total) key piece seen total
unfolding keep_session
keep_session-HasSession r key piece seen total = record {
  arrived = rw (key_eq_refl key) refl;
  awaited = rw (key_eq_refl key) refl;
}

pub delete_session-none : (r : Reassembler) (key : List ℕ) → (delete_session r key).parts key ≡ none
unfolding delete_session
delete_session-none r key = rw (key_eq_refl key) refl

module _ (rounds : ℕ) (r : Reassembler) (msisdn : List ℕ) (ref_num total i : ℕ) (piece : ℕ → Bytes)
    (seen : List ℕ) (session : HasSession r (session_key msisdn ref_num) piece seen total)
    (new : contains i seen ≡ false) where
  abbrev message : ConcatInfo
  message = record { ref_num = ref_num; total = total; part = i }

  stored_with :
      store_part i (piece i) (stored (r.parts (session_key msisdn ref_num)))
      ≡ entries piece (seen ++ i ∷ [])
  stored_with = rw session.arrived (store_part-entries piece i seen new)

  length-stored_with : length (entries piece (seen ++ i ∷ [])) ≡ length seen + 1
  length-stored_with = length-map (λ i. (i, piece i)) (seen ++ i ∷ []) ∙ length-append seen (i ∷ [])

  -- A new part that does not complete the series is kept.
  pub add_concat_waits :
      length seen + 1 < total
      → total ≤ 255
      → (r' : Reassembler) × (add_concat rounds r msisdn message (piece i)
          ≡ some (record { state = r'; payload = []; complete = false }))
        × HasSession r' (session_key msisdn ref_num) piece (seen ++ i ∷ []) total
  unfolding add_concat
  add_concat_waits lt le = (
    keep_session r (session_key msisdn ref_num) (entries piece (seen ++ i ∷ [])) total,
    rw
        (
          session.awaited,
          stored_with,
          lt→ltb (byte (length (entries piece (seen ++ i ∷ [])))) total
              (omega (arith, length-stored_with)),
        )
        refl,
    keep_session-HasSession r (session_key msisdn ref_num) piece (seen ++ i ∷ []) total,
  )

  -- The part that completes the series ends the session and hands on all the parts.
  pub add_concat_finishes :
      length seen + 1 ≡ total
      → total < 255
      → total < rounds
      → add_concat rounds r msisdn message (piece i)
        ≡ some (record {
          state = delete_session r (session_key msisdn ref_num);
          payload = pieces (entries piece (seen ++ i ∷ [])) (range total 1);
          complete = true;
        })
  unfolding add_concat
  add_concat_finishes e lt enough =
      rw
        (
          session.awaited,
          stored_with,
          ge→ltb (byte (length (entries piece (seen ++ i ∷ [])))) total
              (omega (arith, length-stored_with)),
          assemble-eq-some rounds total (entries piece (seen ++ i ∷ [])) lt enough,
        )
        refl

-- A series announced with 255 parts, as long as a split can make it: the call that would complete
-- it, with 255 parts stored, does not return after any number of rounds.
pub add_part_255_diverges :
    (rounds : ℕ) (r : Reassembler) (msisdn : List ℕ) (c : ConcatInfo) (payload : Bytes)
    → expected
        (r.parts (session_key msisdn c.ref_num))
        c.total
        (r.total (session_key msisdn c.ref_num))
      ≡ 255
    → length (store_part c.part payload (stored (r.parts (session_key msisdn c.ref_num)))) ≡ 255
    → add_part rounds r msisdn (frame_ota_sms payload (some c)) ≡ none
unfolding add_concat
add_part_255_diverges rounds r msisdn c payload all full =
    add_part-eq-add_concat rounds r msisdn c payload
    ∙ rw
        (
          all,
          full,
          assemble-eq-none rounds
              (store_part c.part payload (stored (r.parts (session_key msisdn c.ref_num)))),
        )
        refl

update_elsewhere {ℓ} :
    {V : Type ℓ} (f : List ℕ → V) (key : List ℕ) (v : V) (k : List ℕ)
    → key_eq k key ≡ false
    → update f key v k ≡ f k
update_elsewhere f key v k h = rw h refl

key_eq-eq : (k l : List ℕ) → key_eq k l ≡ true → k ≡ l
unfolding key_eq
key_eq-eq [] [] h = refl
key_eq-eq [] (y ∷ ys) h = absurd (cc h)
key_eq-eq (x ∷ xs) [] h = absurd (cc h)
key_eq-eq (x ∷ xs) (y ∷ ys) h = ground (arith, key_eq-eq xs ys)

append_two-injective :
    (xs ys : List ℕ) (a b c : ℕ) → xs ++ a ∷ b ∷ [] ≡ ys ++ a ∷ c ∷ [] → (xs ≡ ys) × (b ≡ c)
append_two-injective [] [] a b c h = (refl, cc h)
append_two-injective [] (y ∷ ys) a b c h =
    absurd (omega (arith, ap length h, length-append ys (a ∷ c ∷ [])))
append_two-injective (x ∷ xs) [] a b c h =
    absurd (omega (arith, ap length h, length-append xs (a ∷ b ∷ [])))
append_two-injective (x ∷ xs) (y ∷ ys) a b c h =
    let head : x ≡ y = cc h in
    let tail : xs ++ a ∷ b ∷ [] ≡ ys ++ a ∷ c ∷ [] = cc h in
    let (same, last) = append_two-injective xs ys a b c tail in (cc (head, same), last)

-- Sessions of different senders or reference numbers have different keys.
session_key-differs :
    (msisdn other : List ℕ) (ref_num other_ref : ℕ)
    → (msisdn ≢ other) ⊎ (ref_num ≢ other_ref)
    → key_eq (session_key other other_ref) (session_key msisdn ref_num) ≡ false
unfolding session_key
session_key-differs msisdn other ref_num other_ref differs =
    elim (Bool-cases (key_eq (session_key other other_ref) (session_key msisdn ref_num))) [
      | inr e ↦ e
      | inl e ↦
          let (sender, number) =
            append_two-injective other msisdn b':' other_ref ref_num (key_eq-eq _ _ e) in
          elim differs [ inl n ↦ absurd (n (sym sender)) | inr n ↦ absurd (n (sym number)) ]
    ]

add_concat-elsewhere :
    (rounds : ℕ) (r : Reassembler) (msisdn : List ℕ) (c : ConcatInfo) (payload : Bytes) (k : List ℕ)
    {a : Added}
    → add_concat rounds r msisdn c payload ≡ some a
    → key_eq k (session_key msisdn c.ref_num) ≡ false
    → (a.state.parts k ≡ r.parts k) × (a.state.total k ≡ r.total k)
unfolding add_concat keep_session delete_session
add_concat-elsewhere rounds r msisdn c payload k h other = ground (arith, other)

-- Whatever message is added, the session of another sender or of another reference number than the
-- message's own is left as it was; a message without concatenation data leaves every session.
pub add_part_isolated :
    (rounds : ℕ) (r : Reassembler) (msisdn : List ℕ) (raw : Bytes) (u : Udh) (other : List ℕ)
    (other_ref : ℕ) {a : Added}
    → add_part rounds r msisdn raw ≡ some a
    → parse_udh raw ≡ some u
    → (msisdn ≢ other) ⊎ ((c : ConcatInfo) → u.concat ≡ some c → c.ref_num ≢ other_ref)
    → (a.state.parts (session_key other other_ref) ≡ r.parts (session_key other other_ref))
      × (a.state.total (session_key other other_ref) ≡ r.total (session_key other other_ref))
unfolding add_part
add_part_isolated rounds r msisdn raw u other other_ref {a} h parsed differs =
    elim (Option-cases u.concat) [
      | inl e ↦ let same : r ≡ a.state = ground (arith, h, parsed, e) in rw (← same) (refl, refl)
      | inr (c, e) ↦
          let added : add_concat rounds r msisdn c u.payload ≡ some a =
            rw (parsed, add_part, e) at h in
          let apart : (msisdn ≢ other) ⊎ (c.ref_num ≢ other_ref) = elim differs [
            | inl n ↦ inl n
            | inr n ↦ inr (n c e)
          ] in
          add_concat-elsewhere rounds r msisdn c u.payload (session_key other other_ref) added
            (session_key-differs msisdn other c.ref_num other_ref apart)
    ]
