-- ===== src/Executor/Profile.antt =====
-- internal/executor/helpers.go and buildSecProfileFromCache: the security profile of a command.
use Prim.Native.String.{String}
use text.Mathlib.Text.{◌==◌}
use ota_platform.Prelude.{ℕ, true, ◌||◌, if◌then◌else◌}
use ota_platform.Prelude.Bits.{byte}
use ota_platform.Gsm0348.Types.{
  SecurityProfile, cert_none, cert_rc, cert_cc, cert_ds, cipher_des_cbc, cipher_3des_cbc_2_keys,
  cipher_3des_cbc_3_keys, cipher_aes_cbc,
}
use ota_platform.Executor.Types.{CampaignCommand}

unfoldable pub parse_certification_mode : String → ℕ
parse_certification_mode mode =
    if mode == "NO_SECURITY" || mode == "NONE"
    then cert_none
    else if mode == "RC"
    then cert_rc
    else if mode == "CC"
    then cert_cc
    else if mode == "DS"
    then cert_ds
    else cert_none

unfoldable pub parse_counter_mode : String → ℕ
parse_counter_mode mode =
    if mode == "NO_COUNTER" || mode == "NONE"
    then 0x00
    else if mode == "COUNTER_NO_REPLAY"
    then 0x01
    else if mode == "COUNTER_REPLAY_OR_CHECK"
    then 0x02
    else 0x00

unfoldable pub parse_por_mode : String → ℕ
parse_por_mode mode =
    if mode == "NO_REPLY" || mode == "NONE"
    then 0x00
    else if mode == "REPLY_ALWAYS"
    then 0x01
    else if mode == "REPLY_ON_ERROR"
    then 0x02
    else 0x00

unfoldable pub parse_cipher_mode : String → ℕ
parse_cipher_mode mode =
    if mode == "DES_CBC"
    then cipher_des_cbc
    else if mode == "TRIPLE_DES_CBC_2_KEYS"
    then cipher_3des_cbc_2_keys
    else if mode == "TRIPLE_DES_CBC_3_KEYS"
    then cipher_3des_cbc_3_keys
    else if mode == "AES_CBC"
    then cipher_aes_cbc
    else cipher_des_cbc

unfoldable pub parse_algo : String → ℕ
parse_algo algo = if algo == "DES" then 0x01 else if algo == "AES" then 0x02 else 0x01

unfoldable pub parse_por_protocol : String → ℕ
parse_por_protocol protocol =
    if protocol == "SMS_DELIVER_REPORT"
    then 0x01
    else if protocol == "SMS_SUBMIT"
    then 0x02
    else 0x02

-- buildSecProfileFromCache
unfoldable pub build_sec_profile : CampaignCommand → SecurityProfile
build_sec_profile cmd = record {
  cert_mode = parse_certification_mode cmd.cert_mode;
  ciphered = cmd.ciphered;
  counter_mode = parse_counter_mode cmd.counter_mode;
  por_mode = parse_por_mode cmd.por_mode;
  por_cert_mode = parse_certification_mode cmd.por_cert_mode;
  por_ciphered = cmd.por_ciphered;
  por_protocol = parse_por_protocol cmd.por_protocol;
  kic_algo = parse_algo cmd.kic_algo;
  kic_mode = parse_cipher_mode cmd.kic_mode;
  kic_keyset_id = byte cmd.kic_keyset_id;
  kid_algo = parse_algo cmd.kid_algo;
  kid_mode = parse_cipher_mode cmd.kid_mode;
  kid_keyset_id = byte cmd.kid_keyset_id;
  security_bytes_with_lengths_and_udhl = true;
}
