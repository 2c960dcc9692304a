-- ===== src/Gateway/Receipts.antt =====
-- internal/transport/inprocess_gateway.go, handleDLR and handleMO: receipts and messages become
-- events for the workers. A receipt is what smpp.ParseDLRReceipt read.
use Prim.Native.String.{String}
use text.Mathlib.Text.{◌==◌ as ◌=ₜ◌}
use ota_platform.Prelude.{
  ℕ, Bool, true, false, List, [], ◌∷◌, Option, some, none, ltb, if◌then◌else◌,
}
use ota_platform.Prelude.Bits.{Bytes}
use ota_platform.Prelude.Results.{Result, ok, err}
use ota_platform.Hex.{encode_to_string}
use ota_platform.Executor.Types.{
  DlrStatus, delivrd, undeliv, other_dlr, card_dlr_received, card_mo_received, CardState, CardEvent,
}
use ota_platform.Gateway.Tables.{
  Correlation, Tables, PartOutcome, no_tracking, waiting, resolved_all, load, remove,
  record_part_dlr,
}

pub record Receipt : Type 0 where
  pub message_id : String
  pub status : DlrStatus
  pub error_code : String

unfoldable pub is_delivered : DlrStatus → Bool
is_delivered delivrd = true
is_delivered status = false

-- What a receipt of a tracked message says once all parts are resolved.
unfoldable pub aggregate : Receipt → Bool → Receipt
aggregate receipt any_failed =
    if any_failed
    then record receipt { status = undeliv; error_code = "multipart_partial_failure" }
    else record receipt { status = delivrd; error_code = "" }

-- The event names no step.
unfoldable pub dlr_event : String → Correlation → Receipt → CardEvent
dlr_event event_id corr receipt = record {
  event_type = card_dlr_received;
  event_id = event_id;
  card_id = corr.card_id;
  campaign_id = corr.campaign_id;
  step = 0;
  retry_count = 0;
  msg_id = corr.msg_id;
  smpp_message_id = receipt.message_id;
  dlr_status = receipt.status;
  error_code = receipt.error_code;
  source_msisdn = "";
  payload_hex = [];
}

unfoldable pub report_part : PartOutcome → String → Correlation → Receipt → List CardEvent
unfolding aggregate dlr_event
report_part no_tracking event_id corr receipt = dlr_event event_id corr receipt ∷ []
report_part waiting event_id corr receipt = []
report_part (resolved_all any_failed) event_id corr receipt =
    dlr_event event_id corr (aggregate receipt any_failed) ∷ []

unfoldable pub resolve_part : Tables → String → Correlation → Receipt → Tables × List CardEvent
unfolding record_part_dlr is_delivered report_part
resolve_part tables event_id corr receipt =
    let (tracked, outcome) = record_part_dlr tables corr.msg_id (is_delivered receipt.status) in
    (tracked, report_part outcome event_id corr receipt)

-- The correlation is used up, even where it has expired.
unfoldable pub handle_dlr : ℕ → String → Receipt → Tables → Tables × List CardEvent
unfolding load remove resolve_part
handle_dlr now event_id receipt tables =
    let used = record tables { correlations = remove receipt.message_id tables.correlations } in
    elim (load receipt.message_id tables.correlations) [
      | none ↦ (tables, [])
      | some corr ↦
          let reported = resolve_part used event_id corr receipt in
          if ltb now corr.expires_at
          then if corr.card_id =ₜ "" then (used, []) else reported
          else (used, [])
    ]

-- The campaign of the stored state, if it could be read.
unfoldable pub stored_campaign : Result ℕ (Option CardState) → String
stored_campaign (err e) = ""
stored_campaign (ok none) = ""
stored_campaign (ok (some state)) = state.campaign_id

-- `card` is the resolver's answer for the sender.
unfoldable pub handle_mo :
    String
    → Result ℕ String
    → (String → Result ℕ (Option CardState))
    → String
    → Bytes
    → List CardEvent
unfolding stored_campaign encode_to_string
handle_mo event_id (err e) card_state source payload = []
handle_mo event_id (ok card_id) card_state source payload =
    let event : CardEvent = record {
      event_type = card_mo_received;
      event_id = event_id;
      card_id = card_id;
      campaign_id = stored_campaign (card_state card_id);
      step = 0;
      retry_count = 0;
      msg_id = "";
      smpp_message_id = "";
      dlr_status = other_dlr "";
      error_code = "";
      source_msisdn = source;
      payload_hex = encode_to_string payload;
    } in
    if card_id =ₜ "" then [] else event ∷ []
