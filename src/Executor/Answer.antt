-- ===== src/Executor/Answer.antt =====
-- internal/executor/worker.go, handleMO.
use Prim.Native.String.{String}
use text.Mathlib.Text.{◌==◌ as ◌=ₜ◌}
use ota_platform.Prelude.{Bool, true, false, not, ◌==◌, if◌then◌else◌}
use ota_platform.Prelude.Bits.{Bytes}
use ota_platform.Hex.{decode}
use ota_platform.Gsm0348.Types.{ResponsePacket, resp_ok}
use ota_platform.Gsm0348.Response.{parse_response_packet}
use ota_platform.Executor.Types.{
  Status, in_progress, awaiting_dlr, awaiting_mo, por_failure, CardState, CardEvent,
  CampaignContext, load_campaign_context, get_card_keys, decode_payload, parse_response,
}
use ota_platform.Executor.Actions.{
  Done, World, Run, ◌>>=◌, ◌>>◌, return, done, act, act_if, get, log_mo, log_por, broadcast_por,
}
use ota_platform.Executor.Profile.{build_sec_profile}
use ota_platform.Executor.Advance.{advance_or_complete}
use ota_platform.Executor.Activate.{command_by_step, require_command}
use ota_platform.Executor.Delivery.{failed_state, failed_change, fail_card, require_state}

unfoldable pub accepts_mo : Status → Bool
accepts_mo awaiting_mo = true
accepts_mo awaiting_dlr = true
accepts_mo s = false

-- An event without a campaign takes the one of the stored state.
unfoldable pub campaign_of : CardEvent → CardState → String
campaign_of event state = if event.campaign_id =ₜ "" then state.campaign_id else event.campaign_id

unfoldable pub with_campaign : CardEvent → String → CardEvent
with_campaign event campaign_id = record event { campaign_id = campaign_id }

-- Steps 2 to 5: the campaign, the payload, and the response that it holds.
unfoldable pub read_answer :
    World → CardEvent → CardState → Run (CampaignContext × (Bytes × ResponsePacket))
unfolding command_by_step require_command build_sec_profile parse_response_packet decode
read_answer w event state = do
  keys ← get get_card_keys (w.card_keys event.card_id)
  payload ← get decode_payload (decode event.payload_hex)
  context ← get load_campaign_context (w.campaign_context event.campaign_id)
  cmd ← require_command state.current_step (command_by_step context.commands state.current_step)
  response ←
      get parse_response
        (parse_response_packet w.ciphers (build_sec_profile cmd) payload keys.enc_key)
  return (context, (payload, response))

-- Step 7: the status of the answer decides.
unfoldable pub on_answer :
    World → CardEvent → CardState → CampaignContext → ResponsePacket → Run Done
unfolding advance_or_complete failed_state failed_change fail_card
on_answer w event state context response =
    if response.status_code == resp_ok
    then (do
      act_if w.has_web_socket (broadcast_por event.card_id response.status_code response.body)
      advance_or_complete w event.card_id event.campaign_id state.current_step context.commands
          state)
    else fail_card w event (failed_state event state state.retry_count)
        (failed_change event state 0 (por_failure response.status_code) in_progress)

unfoldable pub process_answer : World → CardEvent → CardState → Run Done
unfolding read_answer on_answer
process_answer w event state = do
  (context, answer) ← read_answer w event state
  act (log_mo event.card_id answer.0)
  act_if (not (state.last_msg_id =ₜ ""))
      (log_por state.last_msg_id answer.1.status_code answer.1.body)
  on_answer w event state context answer.1

unfoldable pub accept_mo : World → CardEvent → CardState → Run Done
unfolding accepts_mo campaign_of with_campaign process_answer
accept_mo w event state =
    if accepts_mo state.status
    then process_answer w (with_campaign event (campaign_of event state)) state
    else done

unfoldable pub handle_mo : World → CardEvent → Run Done
unfolding require_state accept_mo
handle_mo w event = do state ← require_state w event.card_id; accept_mo w event state
