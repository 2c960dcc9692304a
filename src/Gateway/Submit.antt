-- ===== src/Gateway/Submit.antt =====
-- internal/transport/inprocess_gateway.go, HandleSendSMS and handleSubmitFailure.
use Prim.Native.String.{String}
use ota_platform.Prelude.{ℕ, ◌+◌, Bool, false, List, [], ◌∷◌, ltb, if◌then◌else◌, length}
use ota_platform.Prelude.Results.{Result, ok, err}
use ota_platform.Executor.Types.{
  DlrStatus, failed_submit, failed_partial_submit, card_dlr_received, CardEvent, SmsPart,
  SmsMessage,
}
use ota_platform.Gateway.Tables.{Tables, store}

-- correlationTTL in milliseconds
abbrev pub correlation_ttl : ℕ
correlation_ttl = 300000

-- What is outside: the pool's answer for a part (the message id it gives, or the text of the error),
-- the clock at that part, the identity of an event, and whether the channel takes an event before
-- the context ends.
pub record Line : Type 0 where
  pub submit : SmsPart → Result String String
  pub now : SmsPart → ℕ
  pub event_id : String
  pub channel_takes : Bool

unfoldable pub submit_status : ℕ → DlrStatus
submit_status submitted = if ltb 0 submitted then failed_partial_submit else failed_submit

pub data SubmitError : Type 0 where
  context_done : SubmitError

-- The events put on the channel, and what the handler returns.
abbrev pub Submission : Type 0
Submission = List CardEvent × Result SubmitError (Unit {0})

unfoldable pub handle_submit_failure : Line → SmsMessage → ℕ → String → Submission
unfolding submit_status
handle_submit_failure line msg submitted error =
    let event : CardEvent = record {
      event_type = card_dlr_received;
      event_id = line.event_id;
      card_id = msg.card_id;
      campaign_id = msg.campaign_id;
      step = 0;
      retry_count = 0;
      msg_id = msg.msg_id;
      smpp_message_id = "";
      dlr_status = submit_status submitted;
      error_code = error;
      source_msisdn = "";
      payload_hex = [];
    } in
    if line.channel_takes then (event ∷ [], ok tt) else ([], err context_done)

unfoldable pub correlate : Line → SmsMessage → SmsPart → String → Tables → Tables
unfolding store
correlate line msg part message_id tables = record tables {
  correlations =
      store message_id
        (record {
          msg_id = msg.msg_id;
          campaign_id = msg.campaign_id;
          card_id = msg.card_id;
          msisdn = msg.msisdn;
          expires_at = line.now part + correlation_ttl;
        })
        tables.correlations;
}

-- The loop over the parts, which stops at the first that is refused.
unfoldable pub submit_parts : Line → SmsMessage → ℕ → List SmsPart → Tables → Tables × Submission
unfolding handle_submit_failure correlate
submit_parts line msg submitted [] tables = (tables, ([], ok tt))
submit_parts line msg submitted (part ∷ parts) tables = elim (line.submit part) [
  | err error ↦ (tables, handle_submit_failure line msg submitted error)
  | ok message_id ↦
      submit_parts line msg (submitted + 1) parts (correlate line msg part message_id tables)
]

unfoldable pub track : SmsMessage → Tables → Tables
unfolding store
track msg tables =
    if ltb 1 (length msg.parts)
    then record tables {
      multipart =
          store msg.msg_id (record { total = length msg.parts; resolved = 0; any_failed = false })
            tables.multipart;
    }
    else tables

unfoldable pub handle_send_sms : Line → SmsMessage → Tables → Tables × Submission
unfolding track submit_parts
handle_send_sms line msg tables = submit_parts line msg 0 msg.parts (track msg tables)
