-- ===== src/GlobalPlatform/Reading.antt =====
-- How a card reads the commands of pkg/globalplatform/apdu.go: header, length, data and its fields.
use ota_platform.Prelude.{
  ℕ, zero, suc, ◌+◌, ◌<◌, ◌≤◌, ◌≡◌, refl, ◌⊎◌, inl, inr, Bool, List, [], ◌∷◌, ◌++◌, map, concat,
  Option, none, some, leb, ◌==◌, if◌then◌else◌, length, take, drop, arith, take-append, drop-append,
  length-append, take-all, drop-all, le→leb, lt→ltb,
}
use ota_platform.Prelude.Bits.{Bytes, byte}
use ota_platform.Prelude.Options.{◌>>=◌}
use ota_platform.GlobalPlatform.{
  with_length, params_field, build_delete_apdu, build_install_for_load_apdu,
  build_install_for_install_apdu,
}

pub record Apdu : Type 0 where
  pub cla : ℕ
  pub ins : ℕ
  pub p1 : ℕ
  pub p2 : ℕ
  pub body : Bytes

-- A command whose length byte is the number of bytes that follow it.
unfoldable pub read_apdu : Bytes → Option Apdu
read_apdu (cla ∷ ins ∷ p1 ∷ p2 ∷ lc ∷ body) =
    if length body == lc
    then some (record { cla = cla; ins = ins; p1 = p1; p2 = p2; body = body })
    else none
read_apdu short = none

-- One field with its length in front, and the bytes behind it.
unfoldable pub read_field : Bytes → Option (Bytes × Bytes)
read_field [] = none
read_field (n ∷ bs) = if leb n (length bs) then some (take n bs, drop n bs) else none

-- So many fields that fill the bytes.
unfoldable pub read_fields : ℕ → Bytes → Option (List Bytes)
unfolding read_field
read_fields zero [] = some []
read_fields zero (b ∷ bs) = none
read_fields (suc n) bs = do
  first ← read_field bs
  fields ← read_fields n first.1
  some (first.0 ∷ fields)

pub read_field-with_length :
    (field rest : Bytes)
    → length field < 256
    → read_field (with_length field ++ rest) ≡ some (field, rest)
unfolding read_field with_length
read_field-with_length field rest h =
    let size : byte (length field) ≡ length field = omega arith in
    rw
      (size, take-append field rest (length field) refl, drop-append field rest (length field) refl)
      (ground (arith, length-append field rest))

pub read_apdu_sized :
    (cla ins p1 p2 : ℕ) (body : Bytes)
    → length body < 256
    → read_apdu (cla ∷ ins ∷ p1 ∷ p2 ∷ byte (length body) ∷ body)
      ≡ some (record { cla = cla; ins = ins; p1 = p1; p2 = p2; body = body })
unfolding read_apdu
read_apdu_sized cla ins p1 p2 body h =
    let size : byte (length body) ≡ length body = omega arith in rw size (ground arith)

abbrev field_sizes : List Bytes → ℕ
field_sizes [] = 0
field_sizes (field ∷ fields) = suc (length field) + field_sizes fields

length-concat-with_length :
    (fields : List Bytes) → length (concat (map with_length fields)) ≡ field_sizes fields
unfolding with_length
length-concat-with_length [] = refl
length-concat-with_length (field ∷ fields) =
    omega (
      arith,
      length-append field (concat (map with_length fields)),
      length-concat-with_length fields,
    )

-- Fields written with their lengths are read as they were.
pub read_fields-with_length :
    (fields : List Bytes)
    → field_sizes fields < 256
    → read_fields (length fields) (concat (map with_length fields)) ≡ some fields
unfolding read_fields
read_fields-with_length [] h = refl
read_fields-with_length (field ∷ fields) h =
    rw
      (
        read_field-with_length field (concat (map with_length fields)) (omega arith),
        read_fields-with_length fields (omega arith),
      )
      refl

length-params_field :
    (stk_params install_params : Bytes)
    → length (params_field stk_params install_params)
      ≤ 2 + length stk_params + length install_params
unfolding params_field
length-params_field stk_params install_params =
    ground (arith, length-append stk_params install_params)

-- The parameters of an INSTALL: nothing, or what stands in the tag 0xC9.
unfoldable pub read_params : Bytes → Option Bytes
unfolding read_field
read_params [] = some []
read_params (tag ∷ bs) =
    if tag == 0xC9
    then (do first ← read_field bs; if length first.1 == 0 then some first.0 else none)
    else none

read_params-tagged :
    (inner : Bytes)
    → length inner < 256
    → read_params (0xC9 ∷ byte (length inner) ∷ inner) ≡ some inner
unfolding read_params read_field
read_params-tagged inner h =
    let size : byte (length inner) ≡ length inner = omega arith in
    rw
      (
        size,
        take-all inner (length inner) (omega arith),
        drop-all inner (length inner) (omega arith),
        le→leb (length inner) (length inner) (omega arith),
      )
      refl

read_params-params_field :
    (stk_params install_params : Bytes)
    → length (stk_params ++ install_params) < 256
    → read_params (params_field stk_params install_params) ≡ some (stk_params ++ install_params)
unfolding params_field
read_params-params_field [] [] h = unfold read_params in refl
read_params-params_field [] (b ∷ bs) h =
    rw (lt→ltb 0 (suc (length bs)) (omega arith)) (read_params-tagged (b ∷ bs) h)
read_params-params_field (a ∷ stk) bs h =
    rw (lt→ltb 0 (suc (length stk)) (omega arith)) (read_params-tagged ((a ∷ stk) ++ bs) h)

-- A card that reads INSTALL [for INSTALL] by its length bytes finds the three AIDs, the privilege,
-- the parameters and an empty token, as long as the data of the command fits in its length byte.
pub reading-build_install_for_install_apdu :
    (load_file_aid module_aid app_aid : Bytes) (privilege : ℕ) (stk_params install_params : Bytes)
    → length load_file_aid
        + length module_aid
        + length app_aid
        + length stk_params
        + length install_params
      < 247
    → (apdu : Apdu) × (params : Bytes) × (read_apdu (
          build_install_for_install_apdu load_file_aid module_aid app_aid privilege stk_params
            install_params)
        ≡ some apdu)
      × (apdu.ins ≡ 0xE6)
      × (apdu.p1 ≡ 0x0C)
      × (read_fields 6 apdu.body
          ≡ some (load_file_aid ∷ module_aid ∷ app_aid ∷ (privilege ∷ []) ∷ params ∷ [] ∷ []))
      × (read_params params ≡ some (stk_params ++ install_params))
unfolding build_install_for_install_apdu
reading-build_install_for_install_apdu load_file_aid module_aid app_aid privilege stk_params
      install_params h =
    let params = params_field stk_params install_params in
    let fields = load_file_aid ∷ module_aid ∷ app_aid ∷ (privilege ∷ []) ∷ params ∷ [] ∷ [] in
    let small : field_sizes fields < 256 =
      omega (arith, length-params_field stk_params install_params) in
    (
      record {
        cla = 0x80;
        ins = 0xE6;
        p1 = 0x0C;
        p2 = 0x00;
        body = concat (map with_length fields);
      },
      params,
      unfold with_length in
          read_apdu_sized 0x80 0xE6 0x0C 0x00 (concat (map with_length fields))
            (omega (arith, length-concat-with_length fields)),
      refl,
      refl,
      read_fields-with_length fields small,
      read_params-params_field stk_params install_params
          (omega (arith, length-append stk_params install_params)),
    )

-- INSTALL [for LOAD] names the file and the domain, and has no hash, parameters or token.
reading-build_install_for_load_apdu :
    (load_file_aid security_domain_aid : Bytes)
    → length load_file_aid + length security_domain_aid < 251
    → (apdu : Apdu) × (read_apdu (build_install_for_load_apdu load_file_aid security_domain_aid)
        ≡ some apdu)
      × (apdu.p1 ≡ 0x02)
      × (read_fields 5 apdu.body ≡ some (load_file_aid ∷ security_domain_aid ∷ [] ∷ [] ∷ [] ∷ []))
unfolding build_install_for_load_apdu
reading-build_install_for_load_apdu load_file_aid security_domain_aid h =
    let fields = load_file_aid ∷ security_domain_aid ∷ [] ∷ [] ∷ [] ∷ [] in
    (
      record {
        cla = 0x80;
        ins = 0xE6;
        p1 = 0x02;
        p2 = 0x00;
        body = concat (map with_length fields);
      },
      unfold with_length in
          read_apdu_sized 0x80 0xE6 0x02 0x00 (concat (map with_length fields))
            (omega (arith, length-concat-with_length fields)),
      refl,
      read_fields-with_length fields (omega arith),
    )

-- DELETE carries the identifier in the tag 0x4F, and panics on an empty one.
reading-build_delete_apdu :
    (aid : Bytes) (delete_related : Bool)
    → length aid < 254
    → ((aid ≡ []) × (build_delete_apdu aid delete_related ≡ none))
      ⊎ ((apdu : Apdu) × (build_delete_apdu aid delete_related >>= read_apdu ≡ some apdu)
          × (apdu.p2 ≡ (if delete_related then 0x80 else 0x00))
          × (apdu.body ≡ 0x4F ∷ with_length aid))
unfolding build_delete_apdu with_length
reading-build_delete_apdu [] delete_related h = inl (refl, refl)
reading-build_delete_apdu (b ∷ bs) delete_related h = inr (
  _,
  read_apdu_sized 0x80 0xE4 0x00 (if delete_related then 0x80 else 0x00)
      (0x4F ∷ byte (length (b ∷ bs)) ∷ b ∷ bs) (omega arith),
  refl,
  refl,
)
