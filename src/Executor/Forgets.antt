-- ===== src/Executor/Forgets.antt =====
-- What an activation stores of the transitions before it.
use ota_platform.Prelude.{ℕ, ◌≡◌, inl, inr, true, List, arith}
use ota_platform.Prelude.Bits.{Bytes}
use ota_platform.Prelude.Results.{Result-cases}
use ota_platform.Executor.Types.{CardEvent, CampaignCommand}
use ota_platform.Executor.Actions.{CardKeys, CardProfile, World, act, invalidate_campaign}
use ota_platform.Executor.Retry.{schedule_activate_retry}
use ota_platform.Executor.Activate.{
  handle_activate, activate_running, prepare_command, launch, build_parts, send_command,
  retry_throttled, throttle_allows, publish_message, activated_state, activated_change,
  require_command,
}
use ota_platform.Executor.Advance.{write_card_change}
use ota_platform.Executor.Sequence.{Always, HasSeq, bind-Always, if-Always}

send_command-HasSeq :
    (w : World) (event : CardEvent) (keys : CardKeys) (cmd : CampaignCommand) (packet : Bytes)
    (profile : CardProfile) (parts : List Bytes)
    → Always (HasSeq 1) (send_command w event keys cmd packet profile parts)
unfolding send_command publish_message activated_state activated_change write_card_change
send_command-HasSeq w event keys cmd packet profile parts = ground arith

prepare_command-HasSeq :
    (seq : ℕ) (w : World) (event : CardEvent) → Always (HasSeq seq) (prepare_command w event)
unfolding prepare_command require_command build_parts
prepare_command-HasSeq seq w event = ground arith

retry_throttled-HasSeq :
    (seq : ℕ) (w : World) (event : CardEvent)
    → w.retry_slot_free ≡ true
    → Always (HasSeq seq) (retry_throttled w event)
unfolding retry_throttled schedule_activate_retry
retry_throttled-HasSeq seq w event free = rw (free, schedule_activate_retry) (tt, tt)

-- While the retry scheduler has room, every state that an activation stores and every change that it
-- reports carries the transition number 1, whatever the number of the stored state was: the numbers
-- of a card start again with each step and each retry.
pub activation_forgets_seq :
    (w : World) (event : CardEvent)
    → w.retry_slot_free ≡ true
    → Always (HasSeq 1) (handle_activate w event)
unfolding handle_activate activate_running launch
activation_forgets_seq w event free =
    let P = HasSeq 1 in
    let runs : Always P (activate_running w event) =
      bind-Always P (prepare_command w event) (λ p. launch w event p)
        (prepare_command-HasSeq 1 w event)
        (λ p.
          if-Always P (throttle_allows w event.campaign_id p.context.params)
            (send_command w event p.keys p.cmd p.packet p.profile p.parts) (retry_throttled w event)
            (send_command-HasSeq w event p.keys p.cmd p.packet p.profile p.parts)
            (retry_throttled-HasSeq 1 w event free)) in
    elim (Result-cases (w.campaign_running event.campaign_id)) [
      | inl (running, e) ↦
          rw (e, handle_activate)
            (if-Always P running (activate_running w event)
              (act (invalidate_campaign event.campaign_id)) runs (tt, tt))
      | inr (x, e) ↦ rw (e, handle_activate) tt
    ]
