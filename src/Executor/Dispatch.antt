-- ===== src/Executor/Dispatch.antt =====
-- internal/executor/worker.go, HandleCardEvent: duplicates are dropped, each type has its handler.
use ota_platform.Prelude.{if◌then◌else◌}
use ota_platform.Prelude.Results.{ok, err}
use ota_platform.Executor.Types.{
  EventType, card_activate, card_dlr_received, card_mo_received, other_event, CardEvent,
}
use ota_platform.Executor.Actions.{Done, World, Run, done}
use ota_platform.Executor.Activate.{handle_activate}
use ota_platform.Executor.Delivery.{handle_dlr}
use ota_platform.Executor.Answer.{handle_mo}

unfoldable pub dispatch : EventType → World → CardEvent → Run Done
unfolding handle_activate handle_dlr handle_mo
dispatch card_activate w event = handle_activate w event
dispatch card_dlr_received w event = handle_dlr w event
dispatch card_mo_received w event = handle_mo w event
dispatch (other_event text) w event = done

-- An error of the duplicate check lets the event through.
unfoldable pub handle_card_event : World → CardEvent → Run Done
unfolding dispatch
handle_card_event w event = elim (w.is_new_event event.event_id) [
  | err e ↦ dispatch event.event_type w event
  | ok is_new ↦ if is_new then dispatch event.event_type w event else done
]
