-- ===== src/SmsFrame/Reassembly.antt =====
-- pkg/smsframe/reassemble.go, Reassembler: the sessions of concatenated messages and AddPart.
-- A map is a function (by key) or an association list (by part number). `none` as the outcome of
-- an operation is a loop that has not ended after the given rounds.
pub mod Loop
pub mod Sessions
pub mod Orders
use Prim.Native.Nat.{compare, Ordering}
use ota_platform.Prelude.{
  ℕ, zero, suc, ◌+◌, ◌%◌, Bool, true, false, ◌&&◌, List, [], ◌∷◌, ◌++◌, Option, none, some, ltb,
  leb, ◌==◌, if◌then◌else◌, length,
}
use ota_platform.Prelude.Bits.{Bytes, byte}
use ota_platform.Prelude.Options.{◌>>=◌}
use ota_platform.SmsFrame.Frame.{ConcatInfo}
use ota_platform.SmsFrame.Udh.{Udh, parse_udh}

-- Equality of map keys.
unfoldable pub key_eq : List ℕ → List ℕ → Bool
key_eq [] [] = true
key_eq [] (y ∷ ys) = false
key_eq (x ∷ xs) [] = false
key_eq (x ∷ xs) (y ∷ ys) = x == y && key_eq xs ys

abbrev pub PartMap : Type 0
PartMap = List (ℕ × Bytes)

pub record Reassembler : Type 0 where
  pub parts : List ℕ → Option PartMap
  pub total : List ℕ → ℕ

unfoldable pub new_reassembler : Reassembler
new_reassembler = record { parts = λ _. none; total = λ _. 0 }

-- The code points of msisdn + ":" + string(rune(refNum)).
unfoldable pub session_key : List ℕ → ℕ → List ℕ
session_key msisdn ref_num = msisdn ++ b':' ∷ ref_num ∷ []

-- m[part] = payload
unfoldable pub store_part : ℕ → Bytes → PartMap → PartMap
store_part part payload [] = (part, payload) ∷ []
store_part part payload ((j, q) ∷ m) =
    if j == part then (part, payload) ∷ m else (j, q) ∷ store_part part payload m

-- m[part], which is the empty slice where the key is missing
unfoldable pub part_of : ℕ → PartMap → Bytes
part_of part [] = []
part_of part ((j, q) ∷ m) = if j == part then q else part_of part m

abbrev pub update {ℓ} : {V : Type ℓ} → (List ℕ → V) → List ℕ → V → List ℕ → V
update f key v k = if key_eq k key then v else f k

-- for i := byte(1); i <= total; i++ { acc = body(i, acc) }, with the byte counter's wrap
unfoldable pub for_parts {ℓ} : {S : Type ℓ} → ℕ → ℕ → ℕ → (ℕ → S → S) → S → Option S
for_parts zero i total body acc = none
for_parts (suc rounds) i total body acc =
    let rest = for_parts rounds (byte (i + 1)) total body (body i acc) in
    if leb i total then rest else some acc

-- The two loops of AddPart: the size to allocate, and the concatenation.
unfoldable pub assemble : ℕ → ℕ → PartMap → Option Bytes
unfolding for_parts part_of
assemble rounds total m = do
  size ← for_parts rounds 1 total (λ i n. n + length (part_of i m)) 0
  for_parts rounds 1 total (λ i acc. acc ++ part_of i m) []

pub record Added : Type 0 where
  pub state : Reassembler
  pub payload : Bytes
  pub complete : Bool

abbrev pub stored : Option PartMap → PartMap
stored none = []
stored (some m) = m

abbrev pub expected : Option PartMap → ℕ → ℕ → ℕ
expected none fresh old = fresh
expected (some m) fresh old = old

-- r.parts[key] = m; r.total[key] = total
unfoldable pub keep_session : Reassembler → List ℕ → PartMap → ℕ → Reassembler
unfolding key_eq
keep_session r key m total = record {
  parts = update r.parts key (some m);
  total = update r.total key total;
}

-- delete(r.parts, key); delete(r.total, key)
unfoldable pub delete_session : Reassembler → List ℕ → Reassembler
unfolding key_eq
delete_session r key = record { parts = update r.parts key none; total = update r.total key 0 }

-- AddPart under the lock, for a message with concatenation data.
unfoldable pub add_concat : ℕ → Reassembler → List ℕ → ConcatInfo → Bytes → Option Added
add_concat rounds r msisdn c payload =
    let key = session_key msisdn c.ref_num in
    let total = expected (r.parts key) c.total (r.total key) in
    let m = store_part c.part payload (stored (r.parts key)) in
    let finished : Option Added = (do
      assembled ← assemble rounds total m
      some (record { state = delete_session r key; payload = assembled; complete = true })) in
    if ltb (byte (length m)) total
    then some (record { state = keep_session r key m total; payload = []; complete = false })
    else finished

unfoldable pub add_part : ℕ → Reassembler → List ℕ → Bytes → Option Added
add_part rounds r msisdn raw = do
  u ← parse_udh raw
  elim u.concat [
    | none ↦ some (record { state = r; payload = u.payload; complete = true })
    | some c ↦ add_concat rounds r msisdn c u.payload
  ]
