-- ===== src/GlobalPlatform.antt =====
-- pkg/globalplatform/apdu.go: the commands that delete, load and install an applet. `none` is a panic.
pub mod Reading
pub mod Blocks
use ota_platform.Prelude.{
  ℕ, zero, suc, ◌+◌, Bool, ◌||◌, List, [], ◌∷◌, ◌++◌, Option, none, some, ltb, leb, if◌then◌else◌,
  length, slice, concat,
}
use ota_platform.Prelude.Bits.{Bytes, byte}

abbrev pub cla_global_platform : ℕ
cla_global_platform = 0x80

abbrev pub ins_install : ℕ
ins_install = 0xE6

abbrev pub ins_delete : ℕ
ins_delete = 0xE4

abbrev pub ins_load : ℕ
ins_load = 0xE8

unfoldable pub build_delete_apdu : Bytes → Bool → Option Bytes
build_delete_apdu [] delete_related = none
build_delete_apdu (b ∷ bs) delete_related =
    let aid = b ∷ bs in
    let p2 = if delete_related then 0x80 else 0x00 in
    let body = 0x4F ∷ byte (length aid) ∷ aid in
    some (cla_global_platform ∷ ins_delete ∷ 0x00 ∷ p2 ∷ byte (length body) ∷ body)

-- A length and the bytes.
unfoldable pub with_length : Bytes → Bytes
with_length bs = byte (length bs) ∷ bs

unfoldable pub build_install_for_load_apdu : Bytes → Bytes → Bytes
unfolding with_length
build_install_for_load_apdu load_file_aid security_domain_aid =
    let body = concat (
      with_length load_file_aid
      ∷ with_length security_domain_aid
      ∷ (0x00 ∷ 0x00 ∷ 0x00 ∷ [])
      ∷ []) in
    cla_global_platform ∷ ins_install ∷ 0x02 ∷ 0x00 ∷ byte (length body) ∷ body

unfoldable pub params_field : Bytes → Bytes → Bytes
params_field stk_params install_params =
    let inner = stk_params ++ install_params in
    if ltb 0 (length stk_params) || ltb 0 (length install_params)
    then 0xC9 ∷ byte (length inner) ∷ inner
    else []

unfoldable pub build_install_for_install_apdu : Bytes → Bytes → Bytes → ℕ → Bytes → Bytes → Bytes
unfolding with_length params_field
build_install_for_install_apdu load_file_aid module_aid app_aid privilege stk_params
      install_params =
    let body = concat (
      with_length load_file_aid
      ∷ with_length module_aid
      ∷ with_length app_aid
      ∷ (0x01 ∷ privilege ∷ [])
      ∷ with_length (params_field stk_params install_params)
      ∷ (0x00 ∷ [])
      ∷ []) in
    cla_global_platform ∷ ins_install ∷ 0x0C ∷ 0x00 ∷ byte (length body) ∷ body

-- The loop over the blocks; the first argument counts the rounds left.
unfoldable pub load_loop : ℕ → Bytes → ℕ → ℕ → ℕ → List Bytes
load_loop zero load_file max_block_size offset block_num = []
load_loop (suc rounds) load_file max_block_size offset block_num =
    let end =
      if ltb (length load_file) (offset + max_block_size)
      then length load_file
      else offset + max_block_size in
    let chunk = slice load_file offset end in
    let p1 = if leb (length load_file) end then 0x80 else 0x00 in
    let rest = load_loop rounds load_file max_block_size end (block_num + 1) in
    if ltb offset (length load_file)
    then (cla_global_platform ∷ ins_load ∷ p1 ∷ byte block_num ∷ byte (length chunk) ∷ chunk) ∷ rest
    else []

unfoldable pub build_load_block_apdus : Bytes → ℕ → Option (List Bytes)
unfolding load_loop
build_load_block_apdus load_file max_block_size =
    if leb max_block_size 0
    then none
    else some (load_loop (length load_file) load_file max_block_size 0 0)

unfoldable pub build_stk_parameters : ℕ → Bytes → Bytes → ℕ → ℕ → ℕ → ℕ → Bytes
unfolding with_length
build_stk_parameters max_menu_items menu_id_positions access_domain priority_level max_timers
      max_menu_entry_length max_channels =
    let body =
      byte max_menu_items
      ∷ concat (
          with_length menu_id_positions
          ∷ with_length access_domain
          ∷ (priority_level ∷ max_timers ∷ max_menu_entry_length ∷ max_channels ∷ [])
          ∷ []) in
    0xC9 ∷ byte (length body) ∷ body
