-- ===== src/GlobalPlatform/Blocks.antt =====
-- pkg/globalplatform/apdu.go, BuildLoadBlockAPDUs: the blocks against a card that receives them.
use ota_platform.Prelude.{
  ℕ, zero, suc, ◌+◌, ◌*◌, ◌<◌, ◌≤◌, ◌≡◌, refl, sym, ap, ◌∙◌, inl, inr, Bool, false, List, [], ◌∷◌,
  ◌++◌, Option, none, some, ltb, leb, ◌==◌, ==_iff, if◌then◌else◌, Bool-cases, length, length-take,
  length-drop, drop-drop, ◌&&◌, not, lt→ltb, ge→ltb, ltb→lt, ltb→ge, le→leb, gt→leb, take-all, take,
  drop, arith, take-append-drop,
}
use ota_platform.Prelude.Bits.{Bytes, byte}
use ota_platform.Prelude.Options.{◌>>=◌}
use ota_platform.SmsFrame.Split.Parts.{slice_end, slice-slice_end}
use ota_platform.GlobalPlatform.{load_loop, build_load_block_apdus}
use ota_platform.GlobalPlatform.Reading.{Apdu, read_apdu, read_apdu_sized}

-- One block of a load: whether it says that it is the last, its number and its bytes.
pub record LoadBlock : Type 0 where
  pub last : Bool
  pub number : ℕ
  pub chunk : Bytes

unfoldable pub block_of : Apdu → Option LoadBlock
block_of apdu =
    if apdu.ins == 0xE8
    then some (record { last = apdu.p1 == 0x80; number = apdu.p2; chunk = apdu.body })
    else none

unfoldable pub read_block : Bytes → Option LoadBlock
unfolding block_of
read_block bytes = read_apdu bytes >>= block_of

-- What a card makes of a block, of those behind it and of what they give.
unfoldable pub accept_block : ℕ → LoadBlock → List Bytes → Option Bytes → Option Bytes
accept_block expected block [] others =
    if block.number == expected && block.last then some block.chunk else none
accept_block expected block (next ∷ rest) others =
    if block.number == expected && not block.last
    then others >>= (λ bytes. some (block.chunk ++ bytes))
    else none

-- A card that expects a block of this number: it takes blocks in order up to the one that is marked
-- as the last, which must be the end, and puts their bytes together.
unfoldable pub receive_load : ℕ → List Bytes → Option Bytes
unfolding read_block accept_block
receive_load expected [] = none
receive_load expected (apdu ∷ rest) = do
  block ← read_block apdu
  accept_block expected block rest (receive_load (expected + 1) rest)

read_block-load :
    (p1 n : ℕ) (chunk : Bytes)
    → length chunk < 256
    → n < 256
    → read_block (0x80 ∷ 0xE8 ∷ p1 ∷ byte n ∷ byte (length chunk) ∷ chunk)
      ≡ some (record { last = p1 == 0x80; number = n; chunk = chunk })
unfolding read_block
read_block-load p1 n chunk h q =
    let number : byte n ≡ n = omega arith in
    rw (number, read_apdu_sized 0x80 0xE8 p1 n chunk h) refl

-- At the end of the data the loop adds no block.
load_loop-end :
    (rounds : ℕ) (load_file : Bytes) (max_block_size n : ℕ)
    → load_loop rounds load_file max_block_size (length load_file) n ≡ []
unfolding load_loop
load_loop-end zero load_file max_block_size n = refl
load_loop-end (suc rounds) load_file max_block_size n =
    rw (ge→ltb (length load_file) (length load_file) (omega arith)) refl

load_loop-suc :
    (rounds : ℕ) (load_file : Bytes) (max_block_size offset n : ℕ)
    → offset < length load_file
    → load_loop (suc rounds) load_file max_block_size offset n
      ≡ (0x80
          ∷ 0xE8
          ∷ (if leb (length load_file) (slice_end load_file max_block_size offset)
              then 0x80
              else 0x00)
          ∷ byte n
          ∷ byte (length (take max_block_size (drop offset load_file)))
          ∷ take max_block_size (drop offset load_file))
        ∷ load_loop rounds load_file max_block_size
            (slice_end load_file max_block_size offset)
            (n + 1)
unfolding load_loop slice_end
load_loop-suc rounds load_file max_block_size offset n h =
    rw (lt→ltb offset (length load_file) h, slice-slice_end load_file max_block_size offset) refl

-- A block that is not the last needs others behind it, and those were received.
accept_block-more :
    (n : ℕ) (chunk : Bytes) (rest : List Bytes) (bytes : Bytes)
    → receive_load (n + 1) rest ≡ some bytes
    → accept_block n
        (record { last = false; number = n; chunk = chunk })
        rest
        (receive_load (n + 1) rest)
      ≡ some (chunk ++ bytes)
unfolding receive_load accept_block
accept_block-more n chunk [] bytes h = absurd (cc h)
accept_block-more n chunk (next ∷ rest) bytes h = rw (h, (==_iff n n).1 refl) refl

slice_end-more :
    (load_file : Bytes) (max_block_size offset : ℕ)
    → offset + max_block_size < length load_file
    → slice_end load_file max_block_size offset ≡ offset + max_block_size
unfolding slice_end
slice_end-more load_file max_block_size offset h = ground arith

slice_end-last :
    (load_file : Bytes) (max_block_size offset : ℕ)
    → length load_file ≤ offset + max_block_size
    → slice_end load_file max_block_size offset ≡ length load_file
unfolding slice_end
slice_end-last load_file max_block_size offset h = ground arith

-- The loop from an offset on, with `left` block numbers to go.
receive_load-load_loop :
    (rounds : ℕ) (load_file : Bytes) (max_block_size offset n left : ℕ)
    → 0 < max_block_size
    → max_block_size < 256
    → offset < length load_file
    → length load_file ≤ rounds + offset
    → n + left ≡ 256
    → length load_file ≤ offset + left * max_block_size
    → receive_load n (load_loop rounds load_file max_block_size offset n)
      ≡ some (drop offset load_file)
unfolding receive_load
receive_load-load_loop zero load_file max_block_size offset n left p q r s t u =
    absurd (omega arith)
receive_load-load_loop (suc rounds) load_file max_block_size offset n zero p q r s t u =
    absurd (omega arith)
receive_load-load_loop (suc rounds) load_file max_block_size offset n (suc left) p q r s t u =
    let chunk = take max_block_size (drop offset load_file) in
    let short : length chunk < 256 =
      omega (arith, length-take max_block_size (drop offset load_file)) in
    elim (Bool-cases (ltb (offset + max_block_size) (length load_file))) [
      | inl more ↦
          let long = ltb→lt _ _ more in
          rw
            (
              load_loop-suc rounds load_file max_block_size offset n r,
              slice_end-more load_file max_block_size offset long,
              gt→leb (length load_file) (offset + max_block_size) long,
              read_block-load 0x00 n chunk short (omega arith),
            )
            (accept_block-more n chunk _ (drop max_block_size (drop offset load_file)) (
                receive_load-load_loop rounds load_file max_block_size (offset + max_block_size)
                  (n + 1) left p q long (omega arith) (omega arith) (omega arith)
                ∙ ap some (sym (drop-drop load_file offset max_block_size _ refl)))
              ∙ ap some (take-append-drop max_block_size (drop offset load_file)))
      | inr done ↦
          let all = ltb→ge _ _ done in
          rw
            (
              load_loop-suc rounds load_file max_block_size offset n r,
              slice_end-last load_file max_block_size offset all,
              le→leb (length load_file) (length load_file) (omega arith),
              load_loop-end rounds load_file max_block_size (n + 1),
              read_block-load 0x80 n chunk short (omega arith),
              take-all (drop offset load_file) max_block_size
                  (omega (arith, length-drop offset load_file)),
            )
            (unfold accept_block in rw ((==_iff n n).1 refl) refl)
    ]

-- A card that expects the blocks in order from number 0, the last one marked and no other, receives
-- exactly the load file: for a file that is not empty, of at most 256 blocks of 1 to 255 bytes.
pub receive_load-build_load_block_apdus :
    (load_file : Bytes) (max_block_size : ℕ)
    → 0 < max_block_size
    → max_block_size < 256
    → 0 < length load_file
    → length load_file ≤ 256 * max_block_size
    → build_load_block_apdus load_file max_block_size >>= receive_load 0 ≡ some load_file
unfolding build_load_block_apdus
receive_load-build_load_block_apdus load_file max_block_size p q r s =
    rw (gt→leb max_block_size 0 p) (
      receive_load-load_loop (length load_file) load_file max_block_size 0 0 256 p q r (omega arith)
        refl (omega arith))
