-- ===== src/Executor/Sequence.antt =====
-- The transition numbers that the handlers store and report.
use Prim.Native.String.{String}
use ota_platform.Prelude.{
  ℕ, ◌+◌, ◌≡◌, refl, inl, inr, Bool, true, false, List, some, none, if◌then◌else◌, All, All-append,
  Option-cases, not, arith, ltb, ◌==◌,
}
use ota_platform.Prelude.Results.{Result, ok, err, Result-cases}
use ota_platform.Gsm0348.Types.{ResponsePacket, resp_ok}
use ota_platform.Executor.Types.{
  CardState, CardEvent, CardStateChange, CampaignContext, CampaignCommand, ExecError, LastError,
  partial_submit, pending, Status, in_progress, DlrStatus, delivrd, failed_partial_submit,
  failed_submit, failed_delivery, undeliv, expired, deleted, rejectd, other_dlr, dlr_failure,
  por_failure,
}
use ota_platform.Executor.Actions.{
  Action, set_card_state, write_change, broadcast_por, log_mo, log_por, Done, World, Run, ◌>>=◌,
  ◌>>◌, act, act_if, get, done,
}
use ota_platform.Executor.Delivery.{
  fail_card, on_dlr_status, report_dlr, move_on_dlr, accept_dlr, on_delivered, on_partial_submit,
  on_failed, awaiting_mo_state, failed_state, failed_change, accepts_dlr, awaits_dlr, handle_dlr,
  expects_response,
}
use ota_platform.Executor.Activate.{command_by_step, require_command}
use ota_platform.Executor.Terminal.{handle_dlr-stored, handle_mo-stored}
use ota_platform.Prelude.Bits.{Bytes}
use text.Mathlib.Text.{◌==◌ as ◌=ₜ◌}
use ota_platform.Executor.Answer.{
  handle_mo, accept_mo, process_answer, on_answer, read_answer, with_campaign, campaign_of,
  accepts_mo,
}
use ota_platform.Executor.Advance.{
  activate_event, next_seq, write_card_change, publish, complete_card, advance_or_complete,
  find_next_step,
}

-- The actions of a run all have a property.
abbrev pub Always {ℓ} : {A : Type ℓ} → (Action → Type 0) → Run A → Type 0
Always P r = All P r.actions

-- The two actions that carry a transition number carry this one.
abbrev pub HasSeq : ℕ → Action → Type 0
HasSeq seq (set_card_state card_id state) = state.transition_seq ≡ seq
HasSeq seq (write_change change) = change.transition_seq ≡ seq
HasSeq seq a = Unit

pub bind-Always {ℓ κ} :
    {A : Type ℓ} {B : Type κ} (P : Action → Type 0) (m : Run A) (f : A → Run B)
    → Always P m
    → ((a : A) → Always P (f a))
    → Always P (m >>= f)
bind-Always P m f hm hf = elim (Result-cases m.result) [
  | inl (a, e) ↦ rw e (All-append P m.actions (f a).actions hm (hf a))
  | inr (x, e) ↦ rw e hm
]

pub get-Always {ℓ κ} :
    {E : Type ℓ} {A : Type κ} (P : Action → Type 0) (wrap : E → ExecError) (r : Result E A)
    → Always P (get wrap r)
get-Always P wrap (ok a) = tt
get-Always P wrap (err e) = tt

pub act_if-Always :
    (P : Action → Type 0) (test : Bool) (a : Action) → P a → Always P (act_if test a)
act_if-Always P true a h = (h, tt)
act_if-Always P false a h = tt

pub if-Always :
    (P : Action → Type 0) (test : Bool) (r s : Run Done)
    → Always P r
    → Always P s
    → Always P (if test then r else s)
if-Always P true r s hr hs = hr
if-Always P false r s hr hs = hs

pub write_card_change-Always :
    (P : Action → Type 0) (w : World) (change : CardStateChange)
    → P (write_change change)
    → Always P (write_card_change w change)
unfolding write_card_change
write_card_change-Always P w change h = if-Always P w.has_card_state_writer _ done (h, tt) tt

complete_card-HasSeq :
    (w : World) (card_id campaign_id : String) (state : CardState)
    → Always (HasSeq (next_seq state)) (complete_card w card_id campaign_id state)
unfolding complete_card
complete_card-HasSeq w card_id campaign_id state = ground arith

pub advance-HasSeq :
    (w : World) (card_id campaign_id : String) (step : ℕ) (cmds : List CampaignCommand)
    (state : CardState)
    → Always (HasSeq (next_seq state)) (advance_or_complete w card_id campaign_id step cmds state)
unfolding advance_or_complete publish
advance-HasSeq w card_id campaign_id step cmds state =
    elim (Option-cases (find_next_step step none cmds)) [
      | inl e ↦ rw (e, advance_or_complete) (complete_card-HasSeq w card_id campaign_id state)
      | inr (n, e) ↦ rw (e, advance_or_complete) (tt, tt)
    ]

fail_card-HasSeq :
    (w : World) (event : CardEvent) (state : CardState) (change : CardStateChange) (seq : ℕ)
    → state.transition_seq ≡ seq
    → change.transition_seq ≡ seq
    → Always (HasSeq seq) (fail_card w event state change)
unfolding fail_card write_card_change
fail_card-HasSeq w event state change seq hs hc = ground arith

failed-HasSeq :
    (w : World) (event : CardEvent) (state : CardState) (n m : ℕ) (error : LastError)
    (from : Status)
    → Always
        (HasSeq (next_seq state))
        (fail_card w event (failed_state event state n) (failed_change event state m error from))
unfolding failed_state failed_change
failed-HasSeq w event state n m error from =
    fail_card-HasSeq w event (failed_state event state n) (failed_change event state m error from)
      (next_seq state) refl refl

on_delivered-HasSeq :
    (w : World) (event : CardEvent) (state : CardState)
    → Always (HasSeq (next_seq state)) (on_delivered w event state)
unfolding on_delivered awaiting_mo_state
on_delivered-HasSeq w event state =
    let P = HasSeq (next_seq state) in
    elim (Result-cases (w.campaign_context event.campaign_id)) [
      | inl (context, e) ↦
          rw (e, on_delivered)
            (if-Always P (expects_response (command_by_step context.commands state.current_step))
              (act (set_card_state event.card_id (awaiting_mo_state state)))
              (advance_or_complete w event.card_id event.campaign_id event.step context.commands
                state)
              (refl, tt)
              (advance-HasSeq w event.card_id event.campaign_id event.step context.commands state))
      | inr (x, e) ↦ rw (e, on_delivered) tt
    ]

on_failed-HasSeq :
    (w : World) (event : CardEvent) (state : CardState)
    → Always (HasSeq (next_seq state)) (on_failed w event state)
unfolding on_failed failed_state failed_change publish
on_failed-HasSeq w event state =
    let P = HasSeq (next_seq state) in
    let n = state.retry_count + 1 in
    elim (Result-cases (w.campaign_context event.campaign_id)) [
      | inl (context, e) ↦
          rw (e, on_failed)
            (if-Always P (ltb n context.params.max_retries)
              (publish w (
                activate_event w.new_event_id event.card_id event.campaign_id state.current_step n))
              (fail_card w event (failed_state event state n) (
                failed_change event state n (dlr_failure event.dlr_status event.error_code)
                  in_progress))
              (tt, tt)
              (failed-HasSeq w event state n n (dlr_failure event.dlr_status event.error_code)
                in_progress))
      | inr (x, e) ↦ rw (e, on_failed) tt
    ]

on_dlr_status-HasSeq :
    (status : DlrStatus) (w : World) (event : CardEvent) (state : CardState)
    → Always (HasSeq (next_seq state)) (on_dlr_status status w event state)
unfolding on_dlr_status on_partial_submit failed_state failed_change
on_dlr_status-HasSeq delivrd w event state = on_delivered-HasSeq w event state
on_dlr_status-HasSeq failed_partial_submit w event state =
    failed-HasSeq w event state state.retry_count 0 (partial_submit event.error_code) pending
on_dlr_status-HasSeq failed_submit w event state = on_failed-HasSeq w event state
on_dlr_status-HasSeq failed_delivery w event state = on_failed-HasSeq w event state
on_dlr_status-HasSeq undeliv w event state = on_failed-HasSeq w event state
on_dlr_status-HasSeq expired w event state = on_failed-HasSeq w event state
on_dlr_status-HasSeq deleted w event state = on_failed-HasSeq w event state
on_dlr_status-HasSeq rejectd w event state = on_failed-HasSeq w event state
on_dlr_status-HasSeq (other_dlr text) w event state = tt

accept_dlr-HasSeq :
    (w : World) (event : CardEvent) (state : CardState)
    → Always (HasSeq (next_seq state)) (accept_dlr w event state)
unfolding accept_dlr report_dlr move_on_dlr
accept_dlr-HasSeq w event state =
    let P = HasSeq (next_seq state) in
    let reports : Always P (report_dlr w event) = ground arith in
    if-Always P (accepts_dlr state.status) (report_dlr w event >> move_on_dlr w event state) done
      (bind-Always P (report_dlr w event) (λ _. move_on_dlr w event state) reports
        (λ _.
          if-Always P (awaits_dlr state.status) _ done
            (on_dlr_status-HasSeq event.dlr_status w event state) tt))
      tt

on_answer-HasSeq :
    (w : World) (event : CardEvent) (state : CardState) (context : CampaignContext)
    (response : ResponsePacket)
    → Always (HasSeq (next_seq state)) (on_answer w event state context response)
unfolding on_answer failed_state failed_change
on_answer-HasSeq w event state context response =
    let P = HasSeq (next_seq state) in
    let tells =
      act_if w.has_web_socket (broadcast_por event.card_id response.status_code response.body) in
    let advances =
      advance_or_complete w event.card_id event.campaign_id state.current_step context.commands
        state in
    if-Always P (response.status_code == resp_ok) (tells >> advances)
      (fail_card w event (failed_state event state state.retry_count)
        (failed_change event state 0 (por_failure response.status_code) in_progress))
      (bind-Always P tells (λ _. advances) (act_if-Always P w.has_web_socket _ tt)
        (λ _.
          advance-HasSeq w event.card_id event.campaign_id state.current_step context.commands
            state))
      (failed-HasSeq w event state state.retry_count 0 (por_failure response.status_code)
        in_progress)

read_answer-HasSeq :
    (seq : ℕ) (w : World) (event : CardEvent) (state : CardState)
    → Always (HasSeq seq) (read_answer w event state)
unfolding read_answer require_command
read_answer-HasSeq seq w event state = ground arith

accept_mo-HasSeq :
    (w : World) (event : CardEvent) (state : CardState)
    → Always (HasSeq (next_seq state)) (accept_mo w event state)
unfolding accept_mo process_answer
accept_mo-HasSeq w event state =
    let P = HasSeq (next_seq state) in
    let e = with_campaign event (campaign_of event state) in
    let log : Bytes → Run Done = λ payload. act (log_mo e.card_id payload) in
    let mark : ResponsePacket → Run Done = λ r.
      act_if (not (state.last_msg_id =ₜ "")) (log_por state.last_msg_id r.status_code r.body) in
    if-Always P (accepts_mo state.status) (process_answer w e state) done
      (bind-Always P (read_answer w e state)
        (λ read. log read.1.0 >> (mark read.1.1 >> on_answer w e state read.0 read.1.1))
        (read_answer-HasSeq (next_seq state) w e state)
        (λ read.
          bind-Always P (log read.1.0) (λ _. mark read.1.1 >> on_answer w e state read.0 read.1.1)
            (tt, tt)
            (λ _.
              bind-Always P (mark read.1.1) (λ _. on_answer w e state read.0 read.1.1)
                (act_if-Always P (not (state.last_msg_id =ₜ "")) _ tt)
                (λ _. on_answer-HasSeq w e state read.0 read.1.1))))
      tt

-- Every state that a receipt or an answer stores, and every change that it reports, carries the
-- number after the one of the state that was stored before.
pub handlers_count_up :
    (w : World) (event : CardEvent) (state : CardState)
    → w.stored_state event.card_id ≡ ok (some state)
    → Always (HasSeq (state.transition_seq + 1)) (handle_dlr w event)
      × Always (HasSeq (state.transition_seq + 1)) (handle_mo w event)
unfolding next_seq
handlers_count_up w event state stored = (
  rw (handle_dlr-stored w event state stored) (accept_dlr-HasSeq w event state),
  rw (handle_mo-stored w event state stored) (accept_mo-HasSeq w event state),
)
