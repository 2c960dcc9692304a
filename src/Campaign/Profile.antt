-- ===== src/Campaign/Profile.antt =====
-- internal/controlplane/campaign.go: the commands that the control plane caches for the workers, and
-- buildSecurityProfile with its helpers, its own copy of what a worker makes of a cached command. A
-- switch on a text is the table of its cases with the default.
pub mod Equivalence
use Prim.Native.String.{String}
use text.Mathlib.Text.{◌==◌}
use ota_platform.Prelude.{ℕ, Bool, true, List, [], ◌∷◌, ◌==◌ as ◌=ₙ◌, if◌then◌else◌}
use ota_platform.Prelude.Bits.{Bytes, byte}
use ota_platform.Gsm0348.Types.{
  SecurityProfile, cert_none, cert_rc, cert_cc, cert_ds, cipher_des_cbc, cipher_3des_cbc_2_keys,
  cipher_3des_cbc_3_keys, cipher_aes_cbc,
}
use ota_platform.Executor.Types.{CampaignCommand}

-- db.Application
pub record Application : Type 0 where
  pub id : String
  pub tar : Bytes
  pub kic_algo : String
  pub kic_mode : String
  pub kic_keyset_id : ℕ
  pub kid_algo : String
  pub kid_mode : String
  pub kid_keyset_id : ℕ
  pub certification_mode : String
  pub ciphered : Bool
  pub counter_mode : String
  pub por_mode : String
  pub por_protocol : String
  pub por_ciphered : Bool
  pub por_cert_mode : String

-- db.CampaignCommand with its application
pub record CommandRow : Type 0 where
  pub sequence : ℕ
  pub application : Application
  pub script : Bytes
  pub expect_response : Bool

-- An element of cacheCommands
unfoldable pub cache_command : CommandRow → CampaignCommand
cache_command cmd =
    let app = cmd.application in
    record {
      sequence = cmd.sequence;
      application_id = app.id;
      script = cmd.script;
      expect_response = cmd.expect_response;
      tar = app.tar;
      kic_algo = app.kic_algo;
      kic_mode = app.kic_mode;
      kic_keyset_id = app.kic_keyset_id;
      kid_algo = app.kid_algo;
      kid_mode = app.kid_mode;
      kid_keyset_id = app.kid_keyset_id;
      cert_mode = app.certification_mode;
      ciphered = app.ciphered;
      counter_mode = app.counter_mode;
      por_mode = app.por_mode;
      por_protocol = app.por_protocol;
      por_ciphered = app.por_ciphered;
      por_cert_mode = app.por_cert_mode;
    }

abbrev pub switch_on : List (String × ℕ) → ℕ → String → ℕ
switch_on [] default text = default
switch_on ((case_text, value) ∷ cases) default text =
    let rest = switch_on cases default text in if text == case_text then value else rest

unfoldable pub parse_certification_mode : String → ℕ
parse_certification_mode mode =
    switch_on
      (("NO_SECURITY", cert_none)
        ∷ ("NONE", cert_none)
        ∷ ("RC", cert_rc)
        ∷ ("CC", cert_cc)
        ∷ ("DS", cert_ds)
        ∷ [])
      cert_none mode

unfoldable pub parse_counter_mode : String → ℕ
parse_counter_mode mode =
    switch_on
      (("NO_COUNTER", 0x00)
        ∷ ("NONE", 0x00)
        ∷ ("COUNTER_NO_REPLAY", 0x01)
        ∷ ("COUNTER_REPLAY_OR_CHECK", 0x02)
        ∷ [])
      0x00 mode

unfoldable pub parse_por_mode : String → ℕ
parse_por_mode mode =
    switch_on
      (("NO_REPLY", 0x00) ∷ ("NONE", 0x00) ∷ ("REPLY_ALWAYS", 0x01) ∷ ("REPLY_ON_ERROR", 0x02) ∷ [])
      0x00 mode

unfoldable pub parse_cipher_mode : String → ℕ
parse_cipher_mode mode =
    switch_on
      (("DES_CBC", cipher_des_cbc)
        ∷ ("TRIPLE_DES_CBC_2_KEYS", cipher_3des_cbc_2_keys)
        ∷ ("TRIPLE_DES_CBC_3_KEYS", cipher_3des_cbc_3_keys)
        ∷ ("AES_CBC", cipher_aes_cbc)
        ∷ [])
      cipher_des_cbc mode

unfoldable pub parse_algo : String → ℕ
parse_algo algo = switch_on (("DES", 0x01) ∷ ("AES", 0x02) ∷ []) 0x01 algo

unfoldable pub parse_por_protocol : String → ℕ
parse_por_protocol protocol =
    switch_on (("SMS_DELIVER_REPORT", 0x01) ∷ ("SMS_SUBMIT", 0x02) ∷ []) 0x02 protocol

unfoldable pub build_security_profile : Application → SecurityProfile
unfolding parse_certification_mode parse_counter_mode parse_por_mode parse_cipher_mode parse_algo
    parse_por_protocol
build_security_profile app = record {
  cert_mode = parse_certification_mode app.certification_mode;
  ciphered = app.ciphered;
  counter_mode = parse_counter_mode app.counter_mode;
  por_mode = parse_por_mode app.por_mode;
  por_cert_mode = parse_certification_mode app.por_cert_mode;
  por_ciphered = app.por_ciphered;
  por_protocol = parse_por_protocol app.por_protocol;
  kic_algo = parse_algo app.kic_algo;
  kic_mode = parse_cipher_mode app.kic_mode;
  kic_keyset_id = byte app.kic_keyset_id;
  kid_algo = parse_algo app.kid_algo;
  kid_mode = parse_cipher_mode app.kid_mode;
  kid_keyset_id = byte app.kid_keyset_id;
  security_bytes_with_lengths_and_udhl = true;
}

unfoldable pub por_status_description : ℕ → String
por_status_description code =
    if code =ₙ 0x00
    then "command executed successfully"
    else if code =ₙ 0x01
    then "RC/CC/DS verification failed"
    else if code =ₙ 0x02
    then "counter too low"
    else if code =ₙ 0x03
    then "counter too high, not updated"
    else if code =ₙ 0x04
    then "counter too high, updated"
    else if code =ₙ 0x05
    then "counter blocked"
    else if code =ₙ 0x06
    then "cryptographic error"
    else if code =ₙ 0x07
    then "instruction not supported"
    else if code =ₙ 0x08
    then "counter increase not allowed"
    else if code =ₙ 0x09
    then "TAR unknown"
    else if code =ₙ 0x0A
    then "insufficient memory"
    else "unknown status"
