-- ===== src/Examples/Caps.antt =====
-- pkg/globalplatform at a small load file and a small installation.
use ota_platform.Prelude.{◌≡◌, refl, [], ◌∷◌, ◌++◌, some, arith}
use ota_platform.Prelude.Bits.{Bytes}
use ota_platform.Prelude.Options.{◌>>=◌}
use ota_platform.GlobalPlatform.{build_load_block_apdus, build_install_for_install_apdu}
use ota_platform.GlobalPlatform.Reading.{
  Apdu, read_apdu, read_fields, read_params, reading-build_install_for_install_apdu,
}
use ota_platform.GlobalPlatform.Blocks.{receive_load, receive_load-build_load_block_apdus}

abbrev load_file : Bytes
load_file = 1 ∷ 2 ∷ 3 ∷ 4 ∷ 5 ∷ []

-- Two blocks of two bytes and the last one of one.
three_blocks :
    build_load_block_apdus load_file 2
    ≡ some (
        (0x80 ∷ 0xE8 ∷ 0x00 ∷ 0 ∷ 2 ∷ 1 ∷ 2 ∷ [])
        ∷ (0x80 ∷ 0xE8 ∷ 0x00 ∷ 1 ∷ 2 ∷ 3 ∷ 4 ∷ [])
        ∷ (0x80 ∷ 0xE8 ∷ 0x80 ∷ 2 ∷ 1 ∷ 5 ∷ [])
        ∷ [])
unfolding build_load_block_apdus
three_blocks = refl

receive_load-build_load_block_apdus_example :
    build_load_block_apdus load_file 2 >>= receive_load 0 ≡ some load_file
receive_load-build_load_block_apdus_example =
    receive_load-build_load_block_apdus load_file 2 (omega arith) (omega arith) (omega arith)
      (omega arith)

abbrev aid : Bytes
aid = 0xA0 ∷ 0x00 ∷ []

reading-build_install_for_install_apdu_example :
    (apdu : Apdu) × (params : Bytes) × (read_apdu
        (build_install_for_install_apdu aid (aid ++ (1 ∷ [])) (aid ++ (2 ∷ [])) 0 (7 ∷ []) (8 ∷ []))
      ≡ some apdu)
    × (apdu.ins ≡ 0xE6)
    × (apdu.p1 ≡ 0x0C)
    × (read_fields 6 apdu.body
        ≡ some (aid ∷ (aid ++ (1 ∷ [])) ∷ (aid ++ (2 ∷ [])) ∷ (0 ∷ []) ∷ params ∷ [] ∷ []))
    × (read_params params ≡ some ((7 ∷ []) ++ (8 ∷ [])))
reading-build_install_for_install_apdu_example =
    reading-build_install_for_install_apdu aid (aid ++ (1 ∷ [])) (aid ++ (2 ∷ [])) 0 (7 ∷ [])
      (8 ∷ []) (omega arith)
