-- ===== src/Gsm0348/Types.antt =====
-- pkg/gsm0348/types.go: the security profile, the input of a command packet, a response packet.
-- The mode types are bytes with named values, as in the source.
use Prim.Native.String.{String}
use ota_platform.Prelude.{ℕ, Bool, Option}
use ota_platform.Prelude.Bits.{Bytes}
use ota_platform.Prelude.Results.{Result}

abbrev pub cert_none : ℕ
cert_none = 0x00

abbrev pub cert_rc : ℕ
cert_rc = 0x01

abbrev pub cert_cc : ℕ
cert_cc = 0x02

abbrev pub cert_ds : ℕ
cert_ds = 0x03

abbrev pub cipher_des_cbc : ℕ
cipher_des_cbc = 0x00

abbrev pub cipher_3des_cbc_2_keys : ℕ
cipher_3des_cbc_2_keys = 0x01

abbrev pub cipher_3des_cbc_3_keys : ℕ
cipher_3des_cbc_3_keys = 0x02

abbrev pub cipher_aes_cbc : ℕ
cipher_aes_cbc = 0x03

abbrev pub resp_ok : ℕ
resp_ok = 0x00

pub record SecurityProfile : Type 0 where
  pub cert_mode : ℕ
  pub ciphered : Bool
  pub counter_mode : ℕ
  pub por_mode : ℕ
  pub por_cert_mode : ℕ
  pub por_ciphered : Bool
  pub por_protocol : ℕ
  pub kic_algo : ℕ
  pub kic_mode : ℕ
  pub kic_keyset_id : ℕ
  pub kid_algo : ℕ
  pub kid_mode : ℕ
  pub kid_keyset_id : ℕ
  pub security_bytes_with_lengths_and_udhl : Bool

-- The errors of the cryptographic helpers: the length of a key or of data, a mode that is not
-- supported, or an error of the provider, which is known by a number.
pub data CryptoError : Type 0 where
  key_too_short : ℕ → CryptoError
  unsupported_mode : ℕ → CryptoError
  not_whole_blocks : ℕ → ℕ → CryptoError
  provider_failed : ℕ → CryptoError
  -- a slice out of range, which panics
  out_of_range : CryptoError

-- CryptoProvider: an HSM outside the repository. The arguments are the card, the names of the
-- algorithm and of the mode, and the data; a MAC is given with all bytes up to its slice's capacity.
pub record CryptoProvider : Type 0 where
  pub compute_mac : String → String → String → Bytes → Result CryptoError Bytes
  pub encrypt : String → String → String → Bytes → Result CryptoError Bytes

pub record CommandPacketInput : Type 0 where
  pub tar : Bytes
  pub counter : Bytes
  pub ciphering_key : Bytes
  pub signing_key : Bytes
  pub user_data : Bytes
  pub crypto_provider : Option CryptoProvider
  pub card_id : String

pub record ResponsePacket : Type 0 where
  pub tar : Bytes
  pub counter : Bytes
  pub pcntr : ℕ
  pub status_code : ℕ
  pub signature : Bytes
  pub body : Bytes
