-- ===== src/SmsFrame/Reassembly/Loop.antt =====
-- The counting loop of AddPart: where it ends, and where it does not.
use ota_platform.Prelude.{
  ℕ, zero, suc, ◌+◌, ◌≤◌, ◌<◌, ◌≡◌, refl, sym, ap, ◌∙◌, List, [], ◌∷◌, ◌++◌, none, some, arith,
  length, append_assoc, append-nil,
}
use ota_platform.Prelude.Bits.{Bytes, byte}
use ota_platform.SmsFrame.Reassembly.{PartMap, part_of, for_parts, assemble}

-- The part numbers i, i + 1, ... of a series.
unfoldable pub range : ℕ → ℕ → List ℕ
range zero i = []
range (suc count) i = i ∷ range count (i + 1)

pub fold_range {ℓ} : {S : Type ℓ} → ℕ → ℕ → (ℕ → S → S) → S → S
fold_range zero i body acc = acc
fold_range (suc count) i body acc = fold_range count (i + 1) body (body i acc)

-- With a total below 255 the counter does not wrap, and one round more than there are parts is
-- enough.
for_parts-eq-fold_range {ℓ} :
    {S : Type ℓ} (count rounds i total : ℕ) (body : ℕ → S → S) (acc : S)
    → i + count ≡ total + 1
    → total < 255
    → count < rounds
    → for_parts rounds i total body acc ≡ some (fold_range count i body acc)
unfolding for_parts fold_range
for_parts-eq-fold_range count zero i total body acc e h lt = absurd (omega arith)
for_parts-eq-fold_range zero (suc rounds) i total body acc e h lt = ground arith
for_parts-eq-fold_range (suc count) (suc rounds) i total body acc e h lt = ground (
  arith,
  for_parts-eq-fold_range count rounds (byte (i + 1)) total body (body i acc),
  ap (λ t. fold_range count t body (body i acc)) (mod_small i (omega arith)),
)
  where
    mod_small : (i : ℕ) → i < 255 → byte (i + 1) ≡ i + 1
    mod_small i h = omega arith

-- At a total of 255 no number of rounds ends the loop.
for_parts-eq-none {ℓ} :
    {S : Type ℓ} (rounds i : ℕ) (body : ℕ → S → S) (acc : S)
    → i ≤ 255
    → for_parts rounds i 255 body acc ≡ none
unfolding for_parts
for_parts-eq-none zero i body acc h = refl
for_parts-eq-none (suc rounds) i body acc h =
    ground (arith, for_parts-eq-none rounds (byte (i + 1)) body (body i acc))

unfoldable pub pieces : PartMap → List ℕ → Bytes
pieces m [] = []
pieces m (i ∷ is) = part_of i m ++ pieces m is

fold_range-pieces :
    (count i : ℕ) (m : PartMap) (acc : Bytes)
    → fold_range count i (λ i acc. acc ++ part_of i m) acc ≡ acc ++ pieces m (range count i)
unfolding fold_range pieces range
fold_range-pieces zero i m acc = sym (append-nil acc)
fold_range-pieces (suc count) i m acc =
    fold_range-pieces count (i + 1) m (acc ++ part_of i m)
    ∙ append_assoc acc (part_of i m) (pieces m (range count (i + 1)))

-- For a total below 255 the parts 1 to total are concatenated in the order of their numbers.
pub assemble-eq-some :
    (rounds total : ℕ) (m : PartMap)
    → total < 255
    → total < rounds
    → assemble rounds total m ≡ some (pieces m (range total 1))
unfolding assemble
assemble-eq-some rounds total m h lt =
    rw
      (
        for_parts-eq-fold_range total rounds 1 total (λ i n. n + length (part_of i m)) 0
            (omega arith) h lt,
        for_parts-eq-fold_range total rounds 1 total (λ i acc. acc ++ part_of i m) [] (omega arith)
            h lt,
      )
      (ap some (fold_range-pieces total 1 m []))

pub assemble-eq-none : (rounds : ℕ) (m : PartMap) → assemble rounds 255 m ≡ none
unfolding assemble
assemble-eq-none rounds m =
    rw (for_parts-eq-none rounds 1 (λ i n. n + length (part_of i m)) 0 (omega arith)) refl
