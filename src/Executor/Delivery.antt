-- ===== src/Executor/Delivery.antt =====
-- internal/executor/worker.go, handleDLR.
use Prim.Native.String.{String}
use text.Mathlib.Text.{◌==◌ as ◌=ₜ◌}
use ota_platform.Prelude.{ℕ, ◌+◌, Bool, true, false, not, Option, some, none, ltb, if◌then◌else◌}
use ota_platform.Prelude.Results.{ok, err}
use ota_platform.Executor.Types.{
  Status, pending, in_progress, awaiting_dlr, awaiting_mo, failed, DlrStatus, delivrd,
  failed_partial_submit, other_dlr, LastError, partial_submit, dlr_failure, CardState, CardEvent,
  CardStateChange, CampaignCommand, load_campaign_context, get_card_state, no_card_state,
}
use ota_platform.Executor.Actions.{
  Done, World, Run, ◌>>=◌, ◌>>◌, return, done, refuse, act, act_if, get, set_card_state, log_dlr,
  broadcast_status, broadcast_dlr, evict_card,
}
use ota_platform.Executor.Advance.{
  next_seq, activate_event, write_card_change, publish, advance_or_complete,
}
use ota_platform.Executor.Activate.{command_by_step}

-- The statuses in which a receipt counts at all, and those in which it moves the card on.
unfoldable pub accepts_dlr : Status → Bool
accepts_dlr awaiting_dlr = true
accepts_dlr in_progress = true
accepts_dlr awaiting_mo = true
accepts_dlr s = false

unfoldable pub awaits_dlr : Status → Bool
awaits_dlr awaiting_dlr = true
awaits_dlr in_progress = true
awaits_dlr s = false

unfoldable pub expects_response : Option CampaignCommand → Bool
expects_response none = false
expects_response (some cmd) = cmd.expect_response

unfoldable pub awaiting_mo_state : CardState → CardState
unfolding next_seq
awaiting_mo_state state = record {
  campaign_id = state.campaign_id;
  current_step = state.current_step;
  status = awaiting_mo;
  retry_count = state.retry_count;
  last_msg_id = state.last_msg_id;
  last_event_id = state.last_event_id;
  transition_seq = next_seq state;
}

-- The card as it is stored when it fails, with the retry count given.
unfoldable pub failed_state : CardEvent → CardState → ℕ → CardState
unfolding next_seq
failed_state event state retries = record {
  campaign_id = event.campaign_id;
  current_step = state.current_step;
  status = failed;
  retry_count = retries;
  last_msg_id = state.last_msg_id;
  last_event_id = event.event_id;
  transition_seq = next_seq state;
}

unfoldable pub failed_change : CardEvent → CardState → ℕ → LastError → Status → CardStateChange
unfolding next_seq
failed_change event state retries error from = record {
  campaign_id = event.campaign_id;
  card_id = event.card_id;
  status = failed;
  current_step = 0;
  retry_count = retries;
  last_msg_id = "";
  last_error = error;
  transition_seq = next_seq state;
  stats_from = from;
  stats_to = failed;
}

-- The common course of a failure: the stored state, the change, the broadcast, the caches.
unfoldable pub fail_card : World → CardEvent → CardState → CardStateChange → Run Done
unfolding write_card_change
fail_card w event new_state change = do
  act (set_card_state event.card_id new_state)
  write_card_change w change
  act_if w.has_web_socket (broadcast_status event.card_id failed)
  act (evict_card event.card_id)

unfoldable pub on_delivered : World → CardEvent → CardState → Run Done
unfolding command_by_step expects_response awaiting_mo_state advance_or_complete
on_delivered w event state = do
  context ← get load_campaign_context (w.campaign_context event.campaign_id)
  if expects_response (command_by_step context.commands state.current_step)
      then act (set_card_state event.card_id (awaiting_mo_state state))
      else advance_or_complete w event.card_id event.campaign_id event.step context.commands state

unfoldable pub on_partial_submit : World → CardEvent → CardState → Run Done
unfolding failed_state failed_change fail_card
on_partial_submit w event state =
    fail_card w event (failed_state event state state.retry_count)
      (failed_change event state 0 (partial_submit event.error_code) pending)

unfoldable pub on_failed : World → CardEvent → CardState → Run Done
unfolding failed_state failed_change fail_card activate_event publish
on_failed w event state = do
  context ← get load_campaign_context (w.campaign_context event.campaign_id)
  if ltb (state.retry_count + 1) context.params.max_retries
      then publish w (
          activate_event w.new_event_id event.card_id event.campaign_id state.current_step
            (state.retry_count + 1))
      else fail_card w event (failed_state event state (state.retry_count + 1)) (
          failed_change event state (state.retry_count + 1)
            (dlr_failure event.dlr_status event.error_code) in_progress)

-- The switch on the status of the receipt.
unfoldable pub on_dlr_status : DlrStatus → World → CardEvent → CardState → Run Done
unfolding on_delivered on_partial_submit on_failed
on_dlr_status delivrd w event state = on_delivered w event state
on_dlr_status failed_partial_submit w event state = on_partial_submit w event state
on_dlr_status (other_dlr text) w event state = done
on_dlr_status status w event state = on_failed w event state

-- Step 1: the stored state, which must be there.
unfoldable pub require_state : World → String → Run CardState
require_state w card_id = elim (w.stored_state card_id) [
  | err e ↦ refuse (get_card_state e)
  | ok none ↦ refuse no_card_state
  | ok (some state) ↦ return state
]

-- Steps 2 and 3: the log and the broadcast, which every accepted receipt has.
unfoldable pub report_dlr : World → CardEvent → Run Done
report_dlr w event = do
  act_if (not (event.msg_id =ₜ "")) (log_dlr event.msg_id event.dlr_status event.smpp_message_id)
  act_if w.has_web_socket (broadcast_dlr event.msg_id event.dlr_status)

-- Step 4, which is for a card that still awaits its receipt.
unfoldable pub move_on_dlr : World → CardEvent → CardState → Run Done
unfolding awaits_dlr on_dlr_status
move_on_dlr w event state =
    if awaits_dlr state.status then on_dlr_status event.dlr_status w event state else done

unfoldable pub accept_dlr : World → CardEvent → CardState → Run Done
unfolding accepts_dlr report_dlr move_on_dlr
accept_dlr w event state =
    if accepts_dlr state.status then report_dlr w event >> move_on_dlr w event state else done

unfoldable pub handle_dlr : World → CardEvent → Run Done
unfolding require_state accept_dlr
handle_dlr w event = do state ← require_state w event.card_id; accept_dlr w event state
