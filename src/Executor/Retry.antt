-- ===== src/Executor/Retry.antt =====
-- internal/executor/worker.go, scheduleActivateRetry.
use text.Mathlib.Text.{◌==◌ as ◌=ₜ◌}
use ota_platform.Prelude.{ℕ, ◌+◌, ◌*◌, Bool, true, false, not, ◌||◌, some, none, ltb, if◌then◌else◌}
use ota_platform.Prelude.Results.{ok, err}
use ota_platform.Executor.Types.{
  Status, in_progress, completed, failed, skipped, retry_scheduler_overflow, CardState, CardEvent,
  CardStateChange,
}
use ota_platform.Executor.Actions.{
  Done, World, Run, ◌>>◌, done, act, act_if, set_card_state, write_change, emit_later, evict_card,
}
use ota_platform.Executor.Advance.{next_seq, bare_state}

unfoldable pub is_terminal : Status → Bool
is_terminal completed = true
is_terminal failed = true
is_terminal skipped = true
is_terminal s = false

-- What the overflow of the retry scheduler does with a card whose state is known.
unfoldable pub fail_on_overflow : World → CardEvent → CardState → Run Done
fail_on_overflow w event current =
    let seq = next_seq current in
    let change : CardStateChange = record {
      campaign_id = event.campaign_id;
      card_id = event.card_id;
      status = failed;
      current_step = 0;
      retry_count = 0;
      last_msg_id = "";
      last_error = retry_scheduler_overflow;
      transition_seq = seq;
      stats_from = in_progress;
      stats_to = failed;
    } in
    if not (event.campaign_id =ₜ current.campaign_id) || is_terminal current.status
    then done
    else (do
      act_if w.has_card_state_writer (write_change change)
      act (set_card_state event.card_id (bare_state event.campaign_id failed seq))
      act (evict_card event.card_id))

-- The goroutine that waits is the action `emit_later`; an error of reading the state is dropped.
unfoldable pub schedule_activate_retry : World → CardEvent → ℕ → Run Done
unfolding fail_on_overflow
schedule_activate_retry w event delay =
    if w.retry_slot_free
    then act (emit_later event delay)
    else elim (w.stored_state event.card_id) [
      | err e ↦ done
      | ok none ↦ done
      | ok (some current) ↦ fail_on_overflow w event current
    ]

-- time.Duration(retry+1) * 100ms, at most a second
unfoldable pub throttle_backoff : ℕ → ℕ
throttle_backoff retry_count =
    let backoff = (retry_count + 1) * 100 in if ltb 1000 backoff then 1000 else backoff
