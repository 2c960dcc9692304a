-- ===== src/Examples/Receipts.antt =====
-- internal/transport at small inputs.
use Prim.Native.String.{String}
use ota_platform.Prelude.{
  ℕ, ◌==◌, if◌then◌else◌, ◌≡◌, refl, true, false, List, map, [], ◌∷◌, ◌++◌, none, replicate,
}
use ota_platform.Prelude.Results.{Result, ok, err}
use ota_platform.Executor.Types.{SmsPart, SmsMessage}
use ota_platform.Gateway.Tables.{Tables, waiting, resolved_all, load}
use ota_platform.Gateway.Aggregation.{record_parts, any_failure, record_parts_once}
use ota_platform.Store.Multipart.Agreement.{
  PartCall, begin_tracking, part, by_gateway, by_store, told, by_gateway-by_store,
}
use ota_platform.Gateway.Submit.{Line, handle_send_sms}
use ota_platform.Gateway.Failures.{refusal, handle_send_sms-refused}

abbrev tracked : Tables
tracked = record {
  correlations = [];
  multipart = ("msg", record { total = 3; resolved = 0; any_failed = false }) ∷ [];
}

record_parts_once_example :
    let (final, outcomes) = record_parts tracked "msg" (true ∷ false ∷ true ∷ []) in
    (outcomes ≡ replicate 2 waiting ++ resolved_all (any_failure (true ∷ false ∷ true ∷ [])) ∷ [])
    × (load "msg" final.multipart ≡ none)
unfolding load
record_parts_once_example = record_parts_once tracked "msg" true (false ∷ true ∷ []) refl

abbrev part_number : ℕ → SmsPart
part_number n = record { sequence = n; total = 3; ref_num = 0; payload = n ∷ [] }

abbrev message : SmsMessage
message = record {
  msg_id = "msg";
  campaign_id = "campaign";
  card_id = "card";
  msisdn = "49";
  ton = 1;
  npi = 1;
  data_coding = 0xF6;
  protocol_id = 0x7F;
  esm_class = 0x40;
  parts = part_number 1 ∷ part_number 2 ∷ part_number 3 ∷ [];
}

-- A line that takes the first part and refuses the second.
abbrev answer : ℕ → Result String String
answer n = if n == 1 then ok "smpp1" else err "throttled"

abbrev line : Line
line = record {
  submit = λ p. answer p.sequence;
  now = λ p. 0;
  event_id = "event";
  channel_takes = true;
}

handle_send_sms-refused_example :
    (handle_send_sms line message tracked).1
    ≡ (refusal line message (part_number 1 ∷ []) "throttled" ∷ [], ok tt)
handle_send_sms-refused_example =
    handle_send_sms-refused line message (part_number 1 ∷ []) (part_number 2) (part_number 3 ∷ [])
      tracked "throttled" refl (("smpp1", refl), tt) refl

-- Two messages, with a receipt too many and one for a message that is not tracked.
abbrev part_calls : List PartCall
part_calls =
    begin_tracking "a" 2
    ∷ part "a" false
    ∷ begin_tracking "b" 1
    ∷ part "b" true
    ∷ part "a" true
    ∷ part "a" true
    ∷ part "c" true
    ∷ []

by_gateway-by_store_example :
    by_gateway part_calls (record { correlations = []; multipart = [] })
    ≡ map told (by_store part_calls [])
by_gateway-by_store_example = by_gateway-by_store part_calls []
