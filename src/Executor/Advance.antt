-- ===== src/Executor/Advance.antt =====
-- internal/executor/worker.go, nextSeq and advanceOrComplete.
use Prim.Native.String.{String}
use ota_platform.Prelude.{ℕ, ◌+◌, ◌&&◌, List, [], ◌∷◌, Option, some, none, ltb, if◌then◌else◌}
use ota_platform.Executor.Types.{
  Status, completed, in_progress, card_activate, other_dlr, no_error, CardState, CardEvent,
  CardStateChange, CampaignCommand, publish_event, write_card_state,
}
use ota_platform.Executor.Actions.{
  Done, World, Run, ◌>>◌, done, act, act_if, get, set_card_state, write_change, broadcast_status,
  emit_event, evict_card,
}

-- nextSeq, which also mutates the state: what the caller reads of it afterwards is this number.
unfoldable pub next_seq : CardState → ℕ
next_seq state = state.transition_seq + 1

-- The loop over the commands, from the best step found so far; `none` is the source's -1.
unfoldable pub find_next_step : ℕ → Option ℕ → List CampaignCommand → Option ℕ
find_next_step step best [] = best
find_next_step step none (cmd ∷ cmds) =
    find_next_step step (if ltb step cmd.sequence then some cmd.sequence else none) cmds
find_next_step step (some best) (cmd ∷ cmds) =
    let found = if ltb step cmd.sequence && ltb cmd.sequence best then cmd.sequence else best in
    find_next_step step (some found) cmds

-- An event that activates a step, everything else of it being empty.
unfoldable pub activate_event : String → String → String → ℕ → ℕ → CardEvent
activate_event event_id card_id campaign_id step retry_count = record {
  event_type = card_activate;
  event_id = event_id;
  card_id = card_id;
  campaign_id = campaign_id;
  step = step;
  retry_count = retry_count;
  msg_id = "";
  smpp_message_id = "";
  dlr_status = other_dlr "";
  error_code = "";
  source_msisdn = "";
  payload_hex = [];
}

-- w.cardState.WriteCardState, where there is a writer
unfoldable pub write_card_change : World → CardStateChange → Run Done
write_card_change w change =
    if w.has_card_state_writer
    then record {
      actions = write_change change ∷ [];
      result = (get write_card_state (w.change_written change)).result;
    }
    else done

unfoldable pub publish : World → CardEvent → Run Done
publish w event = record {
  actions = emit_event event ∷ [];
  result = (get publish_event (w.event_published event)).result;
}

-- A state with nothing but a campaign, a status and a transition number.
unfoldable pub bare_state : String → Status → ℕ → CardState
bare_state campaign_id status seq = record {
  campaign_id = campaign_id;
  current_step = 0;
  status = status;
  retry_count = 0;
  last_msg_id = "";
  last_event_id = "";
  transition_seq = seq;
}

unfoldable pub complete_card : World → String → String → CardState → Run Done
unfolding next_seq write_card_change bare_state
complete_card w card_id campaign_id state = do
  act (set_card_state card_id (bare_state campaign_id completed (next_seq state)))
  write_card_change w (record {
    campaign_id = campaign_id;
    card_id = card_id;
    status = completed;
    current_step = 0;
    retry_count = 0;
    last_msg_id = "";
    last_error = no_error;
    transition_seq = next_seq state;
    stats_from = in_progress;
    stats_to = completed;
  })
  act_if w.has_web_socket (broadcast_status card_id completed)
  act (evict_card card_id)

-- `step` is the step of the event that is handed over.
unfoldable pub advance_or_complete :
    World → String → String → ℕ → List CampaignCommand → CardState → Run Done
unfolding find_next_step activate_event publish complete_card
advance_or_complete w card_id campaign_id step commands state =
    elim (find_next_step step none commands) [
      | none ↦ complete_card w card_id campaign_id state
      | some next ↦ publish w (activate_event w.new_event_id card_id campaign_id next 0)
    ]
