-- ===== src/Campaign/Profile/Equivalence.antt =====
-- internal/controlplane/campaign.go and internal/executor: the two copies of the security profile.
use Prim.Native.String.{String}
use ota_platform.Prelude.{◌≡◌, refl, arith}
use ota_platform.Executor.Profile.{
  parse_certification_mode as worker_parse_certification_mode,
  parse_counter_mode as worker_parse_counter_mode, parse_por_mode as worker_parse_por_mode,
  parse_cipher_mode as worker_parse_cipher_mode, parse_algo as worker_parse_algo,
  parse_por_protocol as worker_parse_por_protocol, build_sec_profile,
}
use ota_platform.Campaign.Profile.{
  CommandRow, cache_command, parse_certification_mode, parse_counter_mode, parse_por_mode,
  parse_cipher_mode, parse_algo, parse_por_protocol, build_security_profile,
}

same_certification_mode :
    (mode : String) → worker_parse_certification_mode mode ≡ parse_certification_mode mode
unfolding worker_parse_certification_mode parse_certification_mode
same_certification_mode mode = ground arith

same_counter_mode : (mode : String) → worker_parse_counter_mode mode ≡ parse_counter_mode mode
unfolding worker_parse_counter_mode parse_counter_mode
same_counter_mode mode = ground arith

same_por_mode : (mode : String) → worker_parse_por_mode mode ≡ parse_por_mode mode
unfolding worker_parse_por_mode parse_por_mode
same_por_mode mode = ground arith

same_cipher_mode : (mode : String) → worker_parse_cipher_mode mode ≡ parse_cipher_mode mode
unfolding worker_parse_cipher_mode parse_cipher_mode
same_cipher_mode mode = refl

same_algo : (algo : String) → worker_parse_algo algo ≡ parse_algo algo
unfolding worker_parse_algo parse_algo
same_algo algo = refl

same_por_protocol :
    (protocol : String) → worker_parse_por_protocol protocol ≡ parse_por_protocol protocol
unfolding worker_parse_por_protocol parse_por_protocol
same_por_protocol protocol = refl

-- The profile that a worker makes of the command that the control plane caches is the one that the
-- control plane makes of the command's application.
pub build_sec_profile-cache_command :
    (cmd : CommandRow)
    → build_sec_profile (cache_command cmd) ≡ build_security_profile cmd.application
unfolding build_sec_profile build_security_profile cache_command
build_sec_profile-cache_command cmd =
    let app = cmd.application in
    rw
      (
        same_certification_mode app.certification_mode,
        same_certification_mode app.por_cert_mode,
        same_counter_mode app.counter_mode,
        same_por_mode app.por_mode,
        same_por_protocol app.por_protocol,
        same_algo app.kic_algo,
        same_algo app.kid_algo,
        same_cipher_mode app.kic_mode,
        same_cipher_mode app.kid_mode,
      )
      refl
