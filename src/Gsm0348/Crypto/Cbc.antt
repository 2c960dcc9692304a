-- ===== src/Gsm0348/Crypto/Cbc.antt =====
-- Deciphering undoes enciphering, for block functions that undo each other.
use mathlib.Core.Path.{subst}
use ota_platform.Prelude.{
  ℕ, zero, suc, ◌+◌, ◌*◌, ◌/◌, ◌%◌, ◌≡◌, ◌∙◌, ap, sym, refl, inl, inr, true, false, [], ◌∷◌, ◌++◌,
  arith, length, take, drop, slice, length-append, length-take, length-drop, take-append,
  drop-append, take-append-drop, replicate, ltb, ◌==◌, ==_iff, Bool-cases,
}
use ota_platform.Prelude.Bits.{Bytes}
use ota_platform.Prelude.Bytes.{bit_xor_undo}
use ota_platform.Prelude.Results.{ok, bind-eq-ok}
use ota_platform.Gsm0348.Types.{
  cipher_des_cbc, cipher_3des_cbc_2_keys, cipher_3des_cbc_3_keys, cipher_aes_cbc,
}
use ota_platform.Gsm0348.Crypto.{
  BlockCiphers, BlockMode, xor_bytes, triple_des_encrypt, triple_des_decrypt, cbc_encrypt,
  cbc_decrypt, encrypt_mode, decrypt_mode, encrypt_data, decrypt_data, expand_key,
}

-- What is documented of DES under a key: blocks of eight bytes go to blocks of eight bytes, and each
-- of the two functions undoes the other.
pub record IsBlockCipher (size : ℕ) (f g : Bytes → Bytes) : Type 0 where
  pub keeps : (block : Bytes) → length block ≡ size → length (f block) ≡ size
  pub undone : (block : Bytes) → length block ≡ size → g (f block) ≡ block

length-xor_bytes : (dst src : Bytes) → length (xor_bytes dst src) ≡ length dst
unfolding xor_bytes
length-xor_bytes [] src = refl
length-xor_bytes (d ∷ dst) [] = refl
length-xor_bytes (d ∷ dst) (s ∷ src) = ap suc (length-xor_bytes dst src)

xor_bytes_undo : (dst src : Bytes) → xor_bytes (xor_bytes dst src) src ≡ dst
unfolding xor_bytes
xor_bytes_undo [] src = refl
xor_bytes_undo (d ∷ dst) [] = refl
xor_bytes_undo (d ∷ dst) (s ∷ src) = cc (bit_xor_undo d s, xor_bytes_undo dst src)

module _ (size : ℕ) (f g : Bytes → Bytes) (cipher : IsBlockCipher size f g) where
  cbc_decrypt-cbc_encrypt :
      (blocks : ℕ) (previous input : Bytes)
      → length input ≡ blocks * size
      → cbc_decrypt blocks g size previous (cbc_encrypt blocks f size previous input) ≡ input
  unfolding cbc_encrypt cbc_decrypt
  cbc_decrypt-cbc_encrypt zero previous [] h = refl
  cbc_decrypt-cbc_encrypt zero previous (b ∷ input) h = absurd (omega arith)
  cbc_decrypt-cbc_encrypt (suc blocks) previous input h =
      let mixed = xor_bytes (take size input) previous in
      let block = f mixed in
      let rest = cbc_encrypt blocks f size block (drop size input) in
      let long : length input ≡ size + blocks * size = grind (arith, h) in
      let n : length mixed ≡ size =
        length-xor_bytes (take size input) previous ∙ omega (arith, length-take size input, long) in
      let first : take size (block ++ rest) ≡ block =
        take-append block rest size (sym (cipher.keeps mixed n)) in
      let later : drop size (block ++ rest) ≡ rest =
        drop-append block rest size (sym (cipher.keeps mixed n)) in
      rw
        (
          first,
          later,
          cipher.undone mixed n,
          xor_bytes_undo (take size input) previous,
          cbc_decrypt-cbc_encrypt blocks block (drop size input)
              (omega (arith, length-drop size input, long)),
        )
        (take-append-drop size input)

  length-cbc_encrypt :
      (blocks : ℕ) (previous input : Bytes)
      → length input ≡ blocks * size
      → length (cbc_encrypt blocks f size previous input) ≡ blocks * size
  unfolding cbc_encrypt
  length-cbc_encrypt zero previous input h = omega arith
  length-cbc_encrypt (suc blocks) previous input h =
      let mixed = xor_bytes (take size input) previous in
      let long : length input ≡ size + blocks * size = grind (arith, h) in
      let n : length mixed ≡ size =
        length-xor_bytes (take size input) previous ∙ omega (arith, length-take size input, long) in
      let rest =
        length-cbc_encrypt blocks (f mixed) (drop size input)
          (omega (arith, length-drop size input, long)) in
      let sum = length-append (f mixed) (cbc_encrypt blocks f size (f mixed) (drop size input)) in
      sum ∙ grind (arith, cipher.keeps mixed n, rest)

-- Triple DES, out of the two functions of DES.
triple_des-IsBlockCipher :
    (bc : BlockCiphers) (key : Bytes)
    → ((k : Bytes) → IsBlockCipher 8 (bc.des_encrypt k) (bc.des_decrypt k))
    → ((k : Bytes) → IsBlockCipher 8 (bc.des_decrypt k) (bc.des_encrypt k))
    → IsBlockCipher 8 (triple_des_encrypt bc key) (triple_des_decrypt bc key)
unfolding triple_des_encrypt triple_des_decrypt
triple_des-IsBlockCipher bc key e d =
    let k1 = slice key 0 8 in
    let k2 = slice key 8 16 in
    let k3 = slice key 16 24 in
    record {
      keeps = λ b h. (e k3).keeps _ ((d k2).keeps _ ((e k1).keeps b h));
      undone = λ b h.
          let h1 = (e k1).keeps b h in
          let h2 = (d k2).keeps _ h1 in
          rw (triple_des_encrypt, triple_des_decrypt, (e k3).undone _ h2, (d k2).undone _ h1)
            ((e k1).undone b h);
    }

abbrev mode_of : (Bytes → Bytes) → BlockMode
mode_of f = record { run = f; block_size = 8 }

-- There is a mode for deciphering, which undoes the given one on blocks of eight bytes.
abbrev Undoes : BlockCiphers → ℕ → Bytes → BlockMode → Type 0
Undoes bc mode key m =
    (m' : BlockMode) × (decrypt_mode bc mode key ≡ ok m')
    × (m.block_size ≡ 8)
    × (m'.block_size ≡ 8)
    × IsBlockCipher 8 m.run m'.run

-- The two modes that a key selects undo each other, for every mode but AES.
encrypt_mode-Undoes :
    (bc : BlockCiphers) (mode : ℕ) (key : Bytes) (m : BlockMode)
    → ((k : Bytes) → IsBlockCipher 8 (bc.des_encrypt k) (bc.des_decrypt k))
    → ((k : Bytes) → IsBlockCipher 8 (bc.des_decrypt k) (bc.des_encrypt k))
    → (mode == cipher_aes_cbc) ≡ false
    → encrypt_mode bc mode key ≡ ok m
    → Undoes bc mode key m
unfolding encrypt_mode decrypt_mode
encrypt_mode-Undoes bc mode key m e d a h = elim (Bool-cases (mode == cipher_des_cbc)) [
  | inl t ↦ elim (Bool-cases (ltb (length key) 8)) [
    | inl s ↦ absurd (ground (arith, a, t, s, h))
    | inr s ↦
        let same : mode_of (bc.des_encrypt (take 8 key)) ≡ m = ground (arith, a, t, s, h) in
        subst (Undoes bc mode key) same (
          mode_of (bc.des_decrypt (take 8 key)),
          ground (arith, a, t, s),
          refl,
          refl,
          e (take 8 key),
        )
  ]
  | inr t1 ↦ elim (Bool-cases (mode == cipher_3des_cbc_2_keys)) [
    | inl t ↦ elim (Bool-cases (ltb (length key) 16)) [
      | inl s ↦ absurd (ground (arith, a, t1, t, s, h))
      | inr s ↦
          let same : mode_of (triple_des_encrypt bc (expand_key key)) ≡ m =
            ground (arith, a, t1, t, s, h) in
          subst (Undoes bc mode key) same (
            mode_of (triple_des_decrypt bc (expand_key key)),
            ground (arith, a, t1, t, s),
            refl,
            refl,
            triple_des-IsBlockCipher bc (expand_key key) e d,
          )
    ]
    | inr t2 ↦ elim (Bool-cases (mode == cipher_3des_cbc_3_keys)) [
      | inl t ↦ elim (Bool-cases (ltb (length key) 24)) [
        | inl s ↦ absurd (ground (arith, a, t1, t2, t, s, h))
        | inr s ↦
            let same : mode_of (triple_des_encrypt bc (take 24 key)) ≡ m =
              ground (arith, a, t1, t2, t, s, h) in
            subst (Undoes bc mode key) same (
              mode_of (triple_des_decrypt bc (take 24 key)),
              ground (arith, a, t1, t2, t, s),
              refl,
              refl,
              triple_des-IsBlockCipher bc (take 24 key) e d,
            )
      ]
      | inr t3 ↦ absurd (ground (arith, a, t1, t2, t3, h))
    ]
  ]
]

-- What was enciphered under DES or triple DES deciphers under the same mode and key to what it was;
-- the block functions of DES are taken to keep the length of a block of eight bytes and to undo each
-- other on such blocks.
pub decrypt_data-encrypt_data :
    (bc : BlockCiphers) (mode : ℕ) (key input output : Bytes)
    → ((k : Bytes) → IsBlockCipher 8 (bc.des_encrypt k) (bc.des_decrypt k))
    → ((k : Bytes) → IsBlockCipher 8 (bc.des_decrypt k) (bc.des_encrypt k))
    → (mode == cipher_aes_cbc) ≡ false
    → encrypt_data bc mode key input ≡ ok output
    → decrypt_data bc mode key output ≡ ok input
unfolding encrypt_data decrypt_data
decrypt_data-encrypt_data bc mode key input output e d a h =
    let (m, modes, h1) = bind-eq-ok (encrypt_mode bc mode key) _ output h in
    let (m', modes', size, size', cipher) = encrypt_mode-Undoes bc mode key m e d a modes in
    let zeros : Bytes = replicate 8 0 in
    elim (Bool-cases (length input % 8 == 0)) [
      | inr odd ↦ absurd (cc (rw (size, odd) at h1))
      | inl even ↦
          let n = length input / 8 in
          let whole : length input ≡ n * 8 = omega (arith, (==_iff (length input % 8) 0).0 even) in
          let same : cbc_encrypt n m.run 8 zeros input ≡ output = cc (rw (size, even) at h1) in
          let long = length-cbc_encrypt 8 m.run m'.run cipher n zeros input whole in
          let back = cbc_decrypt-cbc_encrypt 8 m.run m'.run cipher n zeros input whole in
          let long' : length output ≡ n * 8 = cc (long, same) in
          let even' : (length output % 8 == 0) ≡ true =
            (==_iff (length output % 8) 0).1 (omega (arith, long')) in
          let n' : length output / 8 ≡ n = omega (arith, long') in
          rw (modes', decrypt_data, size', even', n')
            (ap (λ o. ok (cbc_decrypt n m'.run 8 zeros o)) (sym same) ∙ ap (λ o. ok o) back)
    ]
