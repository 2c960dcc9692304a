-- ===== src/Gsm0348/Crypto/Padding.antt =====
-- Padding fills up to whole blocks, and can be taken off again by the count that is sent.
use ota_platform.Prelude.{
  ℕ, ◌+◌, ◌-◌, ◌%◌, ◌≤◌, ◌<◌, ◌≡◌, ◌⊎◌, refl, sym, ap, ◌∙◌, inl, inr, [], ◌∷◌, ◌++◌, ◌==◌, ==_iff,
  arith, length, append-nil, Bool-cases, length-append, replicate, length-replicate,
}
use native.Mathlib.Nat.{mod-eq_of_lt, mod_self}
use ota_platform.Prelude.Bits.{Bytes, byte}
use ota_platform.Gsm0348.Crypto.{pad_data}

abbrev pub IsPadded : Bytes → ℕ → Bytes × ℕ → Type 0
IsPadded user block_size (padded, pcntr) =
    (length padded % block_size ≡ 0)
    × (0 < length padded)
    × (padded ≡ user ++ replicate pcntr 0)
    × (pcntr ≤ block_size)

pad_data_blocks :
    (user : Bytes) (block_size : ℕ)
    → ((n : ℕ) → (n + (block_size - n % block_size)) % block_size ≡ 0)
    → 0 < block_size
    → block_size < 256
    → IsPadded user block_size (pad_data user block_size)
unfolding pad_data
pad_data_blocks [] block_size whole pos small =
    let e : byte block_size ≡ block_size = mod-eq_of_lt small in
    (
      rw (length-replicate {A = ℕ} block_size 0) (mod_self block_size),
      rw (length-replicate {A = ℕ} block_size 0) pos,
      rw e refl,
      rw e (omega arith),
    )
pad_data_blocks (b ∷ bs) block_size whole pos small =
    elim (Bool-cases (length (b ∷ bs) % block_size == 0)) [
      | inl e ↦ rw e ((==_iff _ 0).0 e, omega arith, sym (append-nil (b ∷ bs)), omega arith)
      | inr e ↦
          let pad_len = block_size - length (b ∷ bs) % block_size in
          let e' : byte pad_len ≡ pad_len = mod-eq_of_lt (omega arith) in
          let size : length (b ∷ (bs ++ replicate pad_len 0)) ≡ length (b ∷ bs) + pad_len =
            length-append (b ∷ bs) (replicate pad_len 0)
            ∙ ap (λ t. length (b ∷ bs) + t) (length-replicate pad_len 0) in
          rw (e, e')
            (
              ap (λ t. t % block_size) size ∙ whole (length (b ∷ bs)),
              omega arith,
              refl,
              omega arith,
            )
    ]

-- Padding for blocks of 8 or 16 bytes: the data first, zeros behind it, whole blocks and at least
-- one, and a count of at most one block that says how many zeros there are.
pub pad_data_lem :
    (user : Bytes) (block_size : ℕ)
    → (block_size ≡ 8) ⊎ (block_size ≡ 16)
    → IsPadded user block_size (pad_data user block_size)
pad_data_lem user block_size (inl e) =
    rw e (pad_data_blocks user 8 (λ n. omega arith) (omega arith) (omega arith))
pad_data_lem user block_size (inr e) =
    rw e (pad_data_blocks user 16 (λ n. omega arith) (omega arith) (omega arith))
