-- ===== src/Executor/Terminal.antt =====
-- Cards that are done: receipts and answers leave them alone.
use ota_platform.Prelude.{◌≡◌, ◌∙◌, refl, true, false, some}
use ota_platform.Prelude.Results.{ok}
use ota_platform.Executor.Types.{
  Status, pending, sending, in_progress, awaiting_dlr, awaiting_mo, completed, failed, skipped,
  other_status, CardState, CardEvent,
}
use ota_platform.Executor.Actions.{World, done}
use ota_platform.Executor.Retry.{is_terminal}
use ota_platform.Executor.Delivery.{accepts_dlr, accept_dlr, require_state, handle_dlr}
use ota_platform.Executor.Answer.{accepts_mo, accept_mo, handle_mo}

terminal-accepts_dlr : (s : Status) → is_terminal s ≡ true → accepts_dlr s ≡ false
unfolding is_terminal accepts_dlr
terminal-accepts_dlr pending h = absurd (cc h)
terminal-accepts_dlr sending h = absurd (cc h)
terminal-accepts_dlr in_progress h = absurd (cc h)
terminal-accepts_dlr awaiting_dlr h = absurd (cc h)
terminal-accepts_dlr awaiting_mo h = absurd (cc h)
terminal-accepts_dlr completed h = refl
terminal-accepts_dlr failed h = refl
terminal-accepts_dlr skipped h = refl
terminal-accepts_dlr (other_status text) h = absurd (cc h)

terminal-accepts_mo : (s : Status) → is_terminal s ≡ true → accepts_mo s ≡ false
unfolding is_terminal accepts_mo
terminal-accepts_mo pending h = absurd (cc h)
terminal-accepts_mo sending h = absurd (cc h)
terminal-accepts_mo in_progress h = absurd (cc h)
terminal-accepts_mo awaiting_dlr h = absurd (cc h)
terminal-accepts_mo awaiting_mo h = absurd (cc h)
terminal-accepts_mo completed h = refl
terminal-accepts_mo failed h = refl
terminal-accepts_mo skipped h = refl
terminal-accepts_mo (other_status text) h = absurd (cc h)

-- A handler that finds a state goes on with it.
pub handle_dlr-stored :
    (w : World) (event : CardEvent) (state : CardState)
    → w.stored_state event.card_id ≡ ok (some state)
    → handle_dlr w event ≡ accept_dlr w event state
unfolding handle_dlr require_state
handle_dlr-stored w event state stored = rw (stored, handle_dlr, require_state) refl

pub handle_mo-stored :
    (w : World) (event : CardEvent) (state : CardState)
    → w.stored_state event.card_id ≡ ok (some state)
    → handle_mo w event ≡ accept_mo w event state
unfolding handle_mo require_state
handle_mo-stored w event state stored = rw (stored, handle_mo, require_state) refl

-- A card that is completed, failed or skipped absorbs every receipt and every answer: the handlers
-- return without an error and without a single action, whatever the event says.
pub terminal_absorbs :
    (w : World) (event : CardEvent) (state : CardState)
    → w.stored_state event.card_id ≡ ok (some state)
    → is_terminal state.status ≡ true
    → (handle_dlr w event ≡ done) × (handle_mo w event ≡ done)
unfolding accept_dlr accept_mo
terminal_absorbs w event state stored over = (
  handle_dlr-stored w event state stored
      ∙ rw (terminal-accepts_dlr state.status over, accept_dlr) refl,
  handle_mo-stored w event state stored
      ∙ rw (terminal-accepts_mo state.status over, accept_mo) refl,
)
