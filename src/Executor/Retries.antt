-- ===== src/Executor/Retries.antt =====
-- internal/executor/worker.go, handleDLR: which branch a receipt takes, and the steps that receipts of
-- the gateway lead to.
use Prim.Native.String.{String}
use mathlib.Core.Path.{subst}
use ota_platform.Prelude.{
  ℕ, ◌+◌, ◌≤◌, ◌<◌, ◌≡◌, ◌∙◌, refl, ap, inl, inr, Bool, true, false, List, some, none,
  if◌then◌else◌, arith, ltb, Option-cases,
}
use ota_platform.Prelude.Results.{ok}
use ota_platform.Executor.Types.{
  Status, pending, sending, awaiting_mo, completed, skipped, other_status, DlrStatus,
  failed_partial_submit, other_dlr, delivrd, failed_submit, failed_delivery, undeliv, expired,
  deleted, rejectd, failed, in_progress, awaiting_dlr, dlr_failure, CardState, CardEvent,
  CampaignContext, CampaignCommand,
}
use ota_platform.Executor.Actions.{World, ◌>>◌}
use ota_platform.Executor.Advance.{activate_event, publish, find_next_step, advance_or_complete}
use ota_platform.Executor.Activate.{command_by_step}
use ota_platform.Executor.Delivery.{
  accept_dlr, handle_dlr, report_dlr, fail_card, failed_state, failed_change, on_failed,
  on_delivered, on_dlr_status, move_on_dlr, accepts_dlr, awaits_dlr, expects_response,
}
use ota_platform.Executor.Steps.{Has, IsNext, find_next_step-IsNext}
use ota_platform.Executor.Terminal.{handle_dlr-stored}
use ota_platform.Gateway.Tables.{Correlation}
use ota_platform.Gateway.Receipts.{Receipt, dlr_event}

-- The statuses of a delivery that failed.
unfoldable pub is_failure : DlrStatus → Bool
is_failure failed_submit = true
is_failure failed_delivery = true
is_failure undeliv = true
is_failure expired = true
is_failure deleted = true
is_failure rejectd = true
is_failure status = false

awaits-accepts : (s : Status) → awaits_dlr s ≡ true → accepts_dlr s ≡ true
unfolding awaits_dlr accepts_dlr
awaits-accepts pending h = absurd (cc h)
awaits-accepts sending h = absurd (cc h)
awaits-accepts in_progress h = refl
awaits-accepts awaiting_dlr h = refl
awaits-accepts awaiting_mo h = absurd (cc h)
awaits-accepts completed h = absurd (cc h)
awaits-accepts failed h = absurd (cc h)
awaits-accepts skipped h = absurd (cc h)
awaits-accepts (other_status text) h = absurd (cc h)

awaits-accept_dlr :
    (w : World) (event : CardEvent) (state : CardState)
    → awaits_dlr state.status ≡ true
    → accept_dlr w event state ≡ report_dlr w event >> on_dlr_status event.dlr_status w event state
unfolding accept_dlr move_on_dlr awaits_dlr accepts_dlr
awaits-accept_dlr w event state h =
    rw (h, accept_dlr, move_on_dlr) (rw (awaits-accepts state.status h, accept_dlr) refl)

on_failure :
    (status : DlrStatus) (w : World) (event : CardEvent) (state : CardState)
    → is_failure status ≡ true
    → on_dlr_status status w event state ≡ on_failed w event state
unfolding is_failure on_dlr_status
on_failure failed_submit w event state h = refl
on_failure failed_delivery w event state h = refl
on_failure undeliv w event state h = refl
on_failure expired w event state h = refl
on_failure deleted w event state h = refl
on_failure rejectd w event state h = refl
on_failure delivrd w event state h = absurd (cc h)
on_failure failed_partial_submit w event state h = absurd (cc h)
on_failure (other_dlr text) w event state h = absurd (cc h)

on_failed-loaded :
    (w : World) (event : CardEvent) (state : CardState) (context : CampaignContext)
    → w.campaign_context event.campaign_id ≡ ok context
    → let n = state.retry_count + 1 in
      on_failed w event state ≡ (
        if ltb n context.params.max_retries
        then publish w
            (activate_event w.new_event_id event.card_id event.campaign_id state.current_step n)
        else fail_card w event (failed_state event state n) (
            failed_change event state n
              (dlr_failure event.dlr_status event.error_code)
              in_progress))
unfolding on_failed
on_failed-loaded w event state context loaded = rw (loaded, on_failed) refl

pub on_failure-handle_dlr :
    (w : World) (event : CardEvent) (state : CardState) (context : CampaignContext)
    → w.stored_state event.card_id ≡ ok (some state)
    → w.campaign_context event.campaign_id ≡ ok context
    → awaits_dlr state.status ≡ true
    → is_failure event.dlr_status ≡ true
    → let n = state.retry_count + 1 in
      handle_dlr w event
      ≡ report_dlr w event
        >> (if ltb n context.params.max_retries
            then publish w
                (activate_event w.new_event_id event.card_id event.campaign_id state.current_step n)
            else fail_card w event (failed_state event state n) (
                failed_change event state n
                  (dlr_failure event.dlr_status event.error_code)
                  in_progress))
on_failure-handle_dlr w event state context stored loaded awaits fails =
    handle_dlr-stored w event state stored
    ∙ awaits-accept_dlr w event state awaits
    ∙ ap (λ r. report_dlr w event >> r)
        (on_failure event.dlr_status w event state fails
          ∙ on_failed-loaded w event state context loaded)

first_step :
    (cmds : List CampaignCommand) (step : ℕ)
    → 0 < step
    → Has step cmds
    → (next : ℕ) × (next ≤ step) × (find_next_step 0 none cmds ≡ some next)
first_step cmds step positive present =
    let is_next = find_next_step-IsNext 0 cmds in
    elim (Option-cases (find_next_step 0 none cmds)) [
      | inl e ↦
          let below : IsNext 0 cmds none = subst (λ o. IsNext 0 cmds o) e is_next in
          absurd (omega (arith, below step present))
      | inr (next, e) ↦
          let (_, _, least) : IsNext 0 cmds (some next) = subst (λ o. IsNext 0 cmds o) e is_next in
          (next, least step present positive, e)
    ]

advance-found :
    (w : World) (card_id campaign_id : String) (step : ℕ) (cmds : List CampaignCommand)
    (state : CardState) (next : ℕ)
    → find_next_step step none cmds ≡ some next
    → advance_or_complete w card_id campaign_id step cmds state
      ≡ publish w (activate_event w.new_event_id card_id campaign_id next 0)
unfolding advance_or_complete
advance-found w card_id campaign_id step cmds state next found =
    rw (found, advance_or_complete) refl

on_delivered-again :
    (w : World) (event : CardEvent) (state : CardState) (context : CampaignContext) (next : ℕ)
    → w.campaign_context event.campaign_id ≡ ok context
    → expects_response (command_by_step context.commands state.current_step) ≡ false
    → find_next_step event.step none context.commands ≡ some next
    → on_delivered w event state
      ≡ publish w (activate_event w.new_event_id event.card_id event.campaign_id next 0)
unfolding on_delivered advance_or_complete
on_delivered-again w event state context next loaded silent found =
    rw (loaded, on_delivered)
      (rw silent (
        advance-found w event.card_id event.campaign_id event.step context.commands state next
          found))

-- The gateway's event for a delivered message names step 0. So a card that awaits its receipt, on a
-- positive step of its campaign that expects no response, is sent to some step at or before the one
-- that was just delivered, after the log and the broadcast, and is not taken to a later step or
-- completed.
pub delivered_step_restarts :
    (w : World) (event_id : String) (corr : Correlation) (receipt : Receipt) (state : CardState)
    (context : CampaignContext)
    → receipt.status ≡ delivrd
    → w.stored_state corr.card_id ≡ ok (some state)
    → w.campaign_context corr.campaign_id ≡ ok context
    → awaits_dlr state.status ≡ true
    → expects_response (command_by_step context.commands state.current_step) ≡ false
    → 0 < state.current_step
    → Has state.current_step context.commands
    → let event = dlr_event event_id corr receipt in
      (next : ℕ) × (next ≤ state.current_step)
      × (handle_dlr w event
          ≡ report_dlr w event
            >> publish w (activate_event w.new_event_id corr.card_id corr.campaign_id next 0))
unfolding dlr_event on_dlr_status
delivered_step_restarts w event_id corr receipt state context delivered stored loaded awaits silent
      positive present =
    let event = dlr_event event_id corr receipt in
    let (next, low, found) = first_step context.commands state.current_step positive present in
    let start = handle_dlr-stored w event state stored ∙ awaits-accept_dlr w event state awaits in
    let status : on_dlr_status event.dlr_status w event state ≡ on_delivered w event state =
      ap (λ s. on_dlr_status s w event state) delivered in
    (
      next,
      low,
      start
          ∙ ap (λ r. report_dlr w event >> r)
              (status ∙ on_delivered-again w event state context next loaded silent found),
    )
