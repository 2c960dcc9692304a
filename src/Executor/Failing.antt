-- ===== src/Executor/Failing.antt =====
-- internal/executor/worker.go, handleDLR: what is done after a failed delivery.
use text.Mathlib.Text.{◌==◌ as ◌=ₜ◌}
use ota_platform.Prelude.{
  ◌⊎◌, ◌++◌, [], ◌∷◌, Bool-cases, ltb→lt, ltb→ge, ◌+◌, ◌≤◌, ◌<◌, ◌≡◌, ◌∙◌, refl, ap, inl, inr, true,
  List, some, if◌then◌else◌, arith, ltb,
}
use ota_platform.Prelude.Results.{ok, is_ok}
use ota_platform.Executor.Types.{
  other_dlr, failed, in_progress, awaiting_dlr, dlr_failure, CardState, CardEvent, CampaignContext,
  CardStateChange, card_activate,
}
use ota_platform.Executor.Actions.{
  World, Action, set_card_state, log_dlr, broadcast_dlr, broadcast_status, emit_event, write_change,
  evict_card,
}
use ota_platform.Executor.Advance.{next_seq, write_card_change, activate_event, publish}
use ota_platform.Executor.Delivery.{
  handle_dlr, report_dlr, fail_card, failed_state, failed_change, awaits_dlr,
}
use ota_platform.Executor.Retries.{is_failure, on_failure-handle_dlr}

-- The log entry, for a receipt that names a message, and the broadcast.
abbrev pub reported : World → CardEvent → List Action
reported w event =
    (if event.msg_id =ₜ ""
      then []
      else log_dlr event.msg_id event.dlr_status event.smpp_message_id ∷ [])
    ++ (if w.has_web_socket then broadcast_dlr event.msg_id event.dlr_status ∷ [] else [])

-- The event that tries the step again.
abbrev pub again : World → CardEvent → CardState → CardEvent
again w event state = record {
  event_type = card_activate;
  event_id = w.new_event_id;
  card_id = event.card_id;
  campaign_id = event.campaign_id;
  step = state.current_step;
  retry_count = state.retry_count + 1;
  msg_id = "";
  smpp_message_id = "";
  dlr_status = other_dlr "";
  error_code = "";
  source_msisdn = "";
  payload_hex = [];
}

-- The card as it is stored, and the change for the database, when the retries are used up.
abbrev pub given_up : CardEvent → CardState → CardState
given_up event state = record {
  campaign_id = event.campaign_id;
  current_step = state.current_step;
  status = failed;
  retry_count = state.retry_count + 1;
  last_msg_id = state.last_msg_id;
  last_event_id = event.event_id;
  transition_seq = state.transition_seq + 1;
}

abbrev pub given_up_change : CardEvent → CardState → CardStateChange
given_up_change event state = record {
  campaign_id = event.campaign_id;
  card_id = event.card_id;
  status = failed;
  current_step = 0;
  retry_count = state.retry_count + 1;
  last_msg_id = "";
  last_error = dlr_failure event.dlr_status event.error_code;
  transition_seq = state.transition_seq + 1;
  stats_from = in_progress;
  stats_to = failed;
}

abbrev pub last_calls : World → CardEvent → List Action
last_calls w event =
    (if w.has_web_socket then broadcast_status event.card_id failed ∷ [] else [])
    ++ (evict_card event.card_id ∷ [])

-- The calls after the card is stored as failed; an error of the change's writer ends them.
abbrev pub after_failure : World → CardEvent → CardState → List Action
after_failure w event state =
    if w.has_card_state_writer
    then write_change (given_up_change event state)
      ∷ (if is_ok (w.change_written (given_up_change event state)) then last_calls w event else [])
    else last_calls w event

report_dlr-reported :
    (w : World) (event : CardEvent)
    → report_dlr w event ≡ record { actions = reported w event; result = ok tt }
unfolding report_dlr
report_dlr-reported w event = ground arith

publish-actions :
    (w : World) (event : CardEvent) (state : CardState)
    → (publish w (
        activate_event w.new_event_id event.card_id event.campaign_id state.current_step
          (state.retry_count + 1))).actions
      ≡ emit_event (again w event state) ∷ []
unfolding publish activate_event
publish-actions w event state = refl

fail_card-actions :
    (w : World) (event : CardEvent) (state : CardState)
    → let n = state.retry_count + 1 in
      (fail_card w event (failed_state event state n) (
        failed_change event state n
          (dlr_failure event.dlr_status event.error_code)
          in_progress)).actions
      ≡ set_card_state event.card_id (given_up event state) ∷ after_failure w event state
unfolding fail_card failed_state failed_change write_card_change next_seq
fail_card-actions w event state = ground arith

-- A failed delivery of a card that awaits its receipt, in a campaign that can be loaded, is logged
-- and broadcast. Where the next retry count is below the campaign's maximum, one event is published
-- that activates the card's step again with that count, and nothing else is done. Where it is not,
-- the card is stored as failed, at its step, with that count and the next transition number, the
-- same change goes to its writer, if any, and unless that fails the failure is broadcast and the
-- caches forget the card.
pub failed_delivery_outcome :
    (w : World) (event : CardEvent) (state : CardState) (context : CampaignContext)
    → w.stored_state event.card_id ≡ ok (some state)
    → w.campaign_context event.campaign_id ≡ ok context
    → (state.status ≡ awaiting_dlr) ⊎ (state.status ≡ in_progress)
    → is_failure event.dlr_status ≡ true
    → ((state.retry_count + 1 < context.params.max_retries)
        × ((handle_dlr w event).actions
            ≡ reported w event ++ emit_event (again w event state) ∷ []))
      ⊎ ((context.params.max_retries ≤ state.retry_count + 1)
          × ((handle_dlr w event).actions
              ≡ reported w event
                ++ set_card_state event.card_id (given_up event state)
                  ∷ after_failure w event state))
failed_delivery_outcome w event state context stored loaded waits fails =
    let awaits : awaits_dlr state.status ≡ true =
      unfold awaits_dlr in elim waits [ inl e ↦ rw e refl | inr e ↦ rw e refl ] in
    let run = on_failure-handle_dlr w event state context stored loaded awaits fails in
    elim (Bool-cases (ltb (state.retry_count + 1) context.params.max_retries)) [
      | inl below ↦ inl (
        ltb→lt _ _ below,
        ap (λ r. r.actions) run
            ∙ rw (report_dlr-reported w event, below)
                (ap (λ t. reported w event ++ t) (publish-actions w event state)),
      )
      | inr above ↦ inr (
        ltb→ge _ _ above,
        ap (λ r. r.actions) run
            ∙ rw (report_dlr-reported w event, above)
                (ap (λ t. reported w event ++ t) (fail_card-actions w event state)),
      )
    ]
