-- ===== src/Executor/Order.antt =====
-- internal/executor/worker.go, handleActivate: the order in which it stores the state and sends the
-- message.
use text.Mathlib.Text.{◌==◌ as ◌=ₜ◌}
use text.Mathlib.TextPositions.{eq_refl}
use ota_platform.Prelude.{
  ◌≡◌, ◌∙◌, ap, sym, refl, inl, inr, Bool, true, false, ◌&&◌, List, [], ◌∷◌, ◌++◌, All, append-nil,
  arith, Option, none, some, if◌then◌else◌, ◌==◌, ==_iff,
}
use ota_platform.Prelude.Bits.{Bytes}
use ota_platform.Prelude.Results.{ok, err, Result-cases}
use ota_platform.Executor.Types.{ExecError, CardEvent, CampaignCommand, CardState}
use ota_platform.Executor.Actions.{
  Action, set_card_state, send_sms, CardKeys, CardProfile, World, Run, Done, ◌>>=◌,
}
use ota_platform.Executor.Retry.{schedule_activate_retry, fail_on_overflow}
use ota_platform.Executor.Advance.{write_card_change}
use ota_platform.Executor.Activate.{
  handle_activate, activate_running, prepare_command, launch, Prepared, build_parts, send_command,
  retry_throttled, publish_message, require_command, activated_state, sms_message,
}
use ota_platform.Executor.Delivery.{awaits_dlr}
use ota_platform.Executor.Sequence.{Always}

-- What is known to be stored of the event's card: the state of the last call of SetCardState for it.
unfoldable pub noted : CardEvent → Option CardState → Action → Option CardState
noted event seen (set_card_state card_id state) =
    if card_id =ₜ event.card_id then some state else seen
noted event seen a = seen

-- A message may be sent where the state says that the card awaits the receipt of just this message,
-- for the step and the campaign of the event.
unfoldable pub is_ready : CardEvent → Option CardState → Action → Bool
is_ready event none (send_sms m) = false
is_ready event (some state) (send_sms m) =
    (m.card_id =ₜ event.card_id)
    && (state.last_msg_id =ₜ m.msg_id)
    && (state.campaign_id =ₜ event.campaign_id)
    && (state.current_step == event.step)
    && awaits_dlr state.status
is_ready event seen a = true

-- Every message is sent when it may be.
unfoldable pub set_before_send : CardEvent → Option CardState → List Action → Bool
unfolding noted is_ready
set_before_send event seen [] = true
set_before_send event seen (a ∷ rest) =
    is_ready event seen a && set_before_send event (noted event seen a) rest

abbrev Quiet : CardEvent → Action → Type 0
Quiet event a = (is_ready event none a ≡ true) × (noted event none a ≡ none)

set_before_send-append :
    (event : CardEvent) (before after : List Action)
    → All (Quiet event) before
    → set_before_send event none (before ++ after) ≡ set_before_send event none after
unfolding set_before_send
set_before_send-append event [] after h = refl
set_before_send-append event (a ∷ before) after h =
    rw (h.0.0, h.0.1) (set_before_send-append event before after h.1)

prepare_command-Quiet :
    (w : World) (event : CardEvent) → Always (Quiet event) (prepare_command w event)
unfolding prepare_command require_command build_parts is_ready noted
prepare_command-Quiet w event = ground arith

set_before_send-send_command :
    (w : World) (event : CardEvent) (keys : CardKeys) (cmd : CampaignCommand) (packet : Bytes)
    (profile : CardProfile) (parts : List Bytes)
    → set_before_send event none (send_command w event keys cmd packet profile parts).actions ≡ true
unfolding send_command publish_message write_card_change set_before_send is_ready noted
    activated_state sms_message awaits_dlr
set_before_send-send_command w event keys cmd packet profile parts = ground (
  arith,
  eq_refl event.card_id,
  eq_refl event.campaign_id,
  eq_refl w.new_msg_id,
  (==_iff event.step event.step).1 refl,
)

set_before_send-retry_throttled :
    (w : World) (event : CardEvent)
    → set_before_send event none (retry_throttled w event).actions ≡ true
unfolding retry_throttled schedule_activate_retry fail_on_overflow set_before_send is_ready noted
set_before_send-retry_throttled w event = ground arith

set_before_send-launch :
    (w : World) (event : CardEvent) (p : Prepared)
    → set_before_send event none (launch w event p).actions ≡ true
unfolding launch
set_before_send-launch w event p = ground (
  arith,
  set_before_send-send_command w event p.keys p.cmd p.packet p.profile p.parts,
  set_before_send-retry_throttled w event,
)

bind-actions :
    (m : Run Prepared) (f : Prepared → Run Done) (p : Prepared)
    → m.result ≡ ok p
    → (m >>= f).actions ≡ m.actions ++ (f p).actions
bind-actions m f p e = rw e refl

bind-actions_err :
    (m : Run Prepared) (f : Prepared → Run Done) (x : ExecError)
    → m.result ≡ err x
    → (m >>= f).actions ≡ m.actions ++ []
bind-actions_err m f x e = rw e (sym (append-nil m.actions))

set_before_send-running :
    (w : World) (event : CardEvent)
    → set_before_send event none (activate_running w event).actions ≡ true
unfolding activate_running set_before_send
set_before_send-running w event =
    let prepared = prepare_command w event in
    let quiet = prepare_command-Quiet w event in
    let test : List Action → Bool = λ actions. set_before_send event none actions in
    elim (Result-cases prepared.result) [
      | inl (p, e) ↦
          ap test (bind-actions prepared (λ p. launch w event p) p e)
          ∙ set_before_send-append event prepared.actions (launch w event p).actions quiet
          ∙ set_before_send-launch w event p
      | inr (x, e) ↦
          ap test (bind-actions_err prepared (λ p. launch w event p) x e)
          ∙ set_before_send-append event prepared.actions [] quiet
    ]

-- Whatever an activation runs into, it sends no message before it has called SetCardState for the
-- event's card, with a state of the event's campaign and step that awaits the receipt of just that
-- message, and it sends only to the event's card. An error of SetCardState is only logged: the
-- message is sent all the same.
pub set_before_send-handle_activate :
    (w : World) (event : CardEvent)
    → set_before_send event none (handle_activate w event).actions ≡ true
unfolding handle_activate set_before_send is_ready noted
set_before_send-handle_activate w event =
    let runs = set_before_send-running w event in
    elim (Result-cases (w.campaign_running event.campaign_id)) [
      | inl (true, e) ↦ rw (e, handle_activate) runs
      | inl (false, e) ↦ rw (e, handle_activate) refl
      | inr (x, e) ↦ rw (e, handle_activate) refl
    ]
