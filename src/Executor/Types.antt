-- ===== src/Executor/Types.antt =====
-- internal/redis/state.go and internal/pipeline/types.go: the stored state of a card, the events
-- that the worker handles, the records that it writes. Times are left out. The numbers of a step and
-- of a transition are `int` and `int64`, which count up from small numbers; they are ℕ.
use Prim.Native.String.{String}
use ota_platform.Prelude.{ℕ, Bool, List, Option}
use ota_platform.Prelude.Bits.{Bytes}
use ota_platform.Gsm0348.Command.{BuildError}
use ota_platform.Gsm0348.Response.{ResponseError}
use ota_platform.SmsFrame.Split.{SplitError}
use ota_platform.Hex.{HexError}

-- CardState.Status, a string in the source
pub data Status : Type 0 where
  pending : Status
  sending : Status
  in_progress : Status
  awaiting_dlr : Status
  awaiting_mo : Status
  completed : Status
  failed : Status
  skipped : Status
  other_status : String → Status

-- CardEvent.DLRStatus, a string in the source
pub data DlrStatus : Type 0 where
  delivrd : DlrStatus
  failed_partial_submit : DlrStatus
  failed_submit : DlrStatus
  failed_delivery : DlrStatus
  undeliv : DlrStatus
  expired : DlrStatus
  deleted : DlrStatus
  rejectd : DlrStatus
  other_dlr : String → DlrStatus

-- CardEvent.Type, a string in the source
pub data EventType : Type 0 where
  card_activate : EventType
  card_dlr_received : EventType
  card_mo_received : EventType
  other_event : String → EventType

pub record CardState : Type 0 where
  pub campaign_id : String
  pub current_step : ℕ
  pub status : Status
  pub retry_count : ℕ
  pub last_msg_id : String
  pub last_event_id : String
  pub transition_seq : ℕ

pub record CardEvent : Type 0 where
  pub event_type : EventType
  pub event_id : String
  pub card_id : String
  pub campaign_id : String
  pub step : ℕ
  pub retry_count : ℕ
  pub msg_id : String
  pub smpp_message_id : String
  pub dlr_status : DlrStatus
  pub error_code : String
  pub source_msisdn : String
  pub payload_hex : Bytes

-- The errors that are recorded on a card; the source formats them as texts.
pub data LastError : Type 0 where
  no_error : LastError
  partial_submit : String → LastError
  dlr_failure : DlrStatus → String → LastError
  por_failure : ℕ → LastError
  retry_scheduler_overflow : LastError

pub record CardStateChange : Type 0 where
  pub campaign_id : String
  pub card_id : String
  pub status : Status
  pub current_step : ℕ
  pub retry_count : ℕ
  pub last_msg_id : String
  pub last_error : LastError
  pub transition_seq : ℕ
  pub stats_from : Status
  pub stats_to : Status

-- CampaignCommandCache
pub record CampaignCommand : Type 0 where
  pub sequence : ℕ
  pub application_id : String
  pub script : Bytes
  pub expect_response : Bool
  pub tar : Bytes
  pub kic_algo : String
  pub kic_mode : String
  pub kic_keyset_id : ℕ
  pub kid_algo : String
  pub kid_mode : String
  pub kid_keyset_id : ℕ
  pub cert_mode : String
  pub ciphered : Bool
  pub counter_mode : String
  pub por_mode : String
  pub por_protocol : String
  pub por_ciphered : Bool
  pub por_cert_mode : String

pub record CampaignParams : Type 0 where
  pub max_concat_override : Option ℕ
  pub throttle_sms_per_sec : Option ℕ
  pub max_retries : ℕ

pub record CampaignContext : Type 0 where
  pub commands : List CampaignCommand
  pub params : CampaignParams

pub record SmsPart : Type 0 where
  pub sequence : ℕ
  pub total : ℕ
  pub ref_num : ℕ
  pub payload : Bytes

-- SendSMSMessage
pub record SmsMessage : Type 0 where
  pub msg_id : String
  pub campaign_id : String
  pub card_id : String
  pub msisdn : String
  pub ton : ℕ
  pub npi : ℕ
  pub data_coding : ℕ
  pub protocol_id : ℕ
  pub esm_class : ℕ
  pub parts : List SmsPart

pub data LogStatus : Type 0 where
  send_failed : LogStatus
  sent : LogStatus

-- What a handler returns as an error.
pub data ExecError : Type 0 where
  get_campaign_status : ℕ → ExecError
  load_campaign_context : ℕ → ExecError
  no_command_at : ℕ → ExecError
  get_card_keys : ℕ → ExecError
  get_counter : ℕ → ExecError
  incr_counter : ℕ → ExecError
  build_command : BuildError → ExecError
  load_profile : ℕ → ExecError
  split_for_concat_failed : SplitError → ExecError
  publish_sms : ℕ → ExecError
  publish_event : ℕ → ExecError
  write_card_state : ℕ → ExecError
  get_card_state : ℕ → ExecError
  no_card_state : ExecError
  decode_payload : HexError → ExecError
  parse_response : ResponseError → ExecError
