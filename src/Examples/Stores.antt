-- ===== src/Examples/Stores.antt =====
-- internal/pgstore at a few counters and a few state changes.
use Prim.Native.String.{String}
use ota_platform.Prelude.Results.{ok, err}
use ota_platform.Gateway.Tables.{load, store}
use ota_platform.Store.Coordination.{row, get_campaign_status}
use ota_platform.Store.Coordination.Staleness.{
  Call, set, serve_calls, IsTrue, IsUpdated, Answered, IsRecent, get_campaign_status-serve_calls,
}
use ota_platform.Prelude.{
  ℕ, ◌+◌, ◌==◌, ◌≡◌, ◌≤◌, refl, inl, ◌⊎◌, true, false, List, [], ◌∷◌, map, Option, none, some,
  length, concat, All, ltb, if◌then◌else◌, arith,
}
use ota_platform.Executor.Types.{Status, pending, in_progress, completed, no_error, CardStateChange}
use ota_platform.SmsFrame.Reassembly.{key_eq}
use ota_platform.Store.Counters.{Key, new_counter_store, counter_key, get_counter, evict_card}
use ota_platform.Store.Counters.Index.{has_colon}
use ota_platform.Store.Counters.Eviction.{
  CounterCall, increment, preload, NamesCard, calls, evict_card_lem,
}
use ota_platform.Store.Writer.{
  StateEvent, in_progress_column, same_key, latest_of, StateDatabase, write_card_state_batch,
  flush_card_states_copy, valid_rows, fallback_inserts, row_of,
}
use ota_platform.Store.Writer.Latest.{IsEarlier, lookup, In, latest_of_lem}
use ota_platform.Store.Writer.Loop.{Wake, event, ticked, cancelled}
use ota_platform.Store.Writer.Deltas.{ups, downs}
use ota_platform.Store.Writer.Updates.{written_up, written_down}
use ota_platform.Store.Writer.Statistics.{write_card_state_batch_lem}
use ota_platform.Store.Writer.Inserts.{numbers, IsRow, fallback_inserts_lem}

abbrev card : Key
card = b'a' ∷ []

abbrev other_card : Key
other_card = b'b' ∷ []

abbrev app : Key
app = b'x' ∷ []

-- A preloaded counter, one that is counted up, and one of another card.
abbrev history : List CounterCall
history =
    preload (((b'a' ∷ b':' ∷ b'x' ∷ []), 5) ∷ [])
    ∷ increment card (b'y' ∷ [])
    ∷ increment other_card app
    ∷ []

history-NamesCard : All NamesCard history
unfolding NamesCard has_colon
history-NamesCard = (tt, (refl, (refl, tt)))

evict_card_lem_example :
    ((evict_card (calls new_counter_store history) card).counters (counter_key card app) ≡ none)
    × (get_counter (evict_card (calls new_counter_store history) card) card app ≡ 0)
    × (get_counter (evict_card (calls new_counter_store history) card) other_card app
        ≡ get_counter (calls new_counter_store history) other_card app)
unfolding has_colon key_eq
evict_card_lem_example = evict_card_lem history card other_card app history-NamesCard refl refl refl

abbrev change_to : Status → Status → ℕ → CardStateChange
change_to from to seq = record {
  campaign_id = "campaign";
  card_id = "card";
  status = to;
  current_step = 1;
  retry_count = 0;
  last_msg_id = "";
  last_error = no_error;
  transition_seq = seq;
  stats_from = from;
  stats_to = to;
}

abbrev first_event : StateEvent
first_event = record { change = change_to pending in_progress 1; timestamp = 10 }

abbrev second_event : StateEvent
second_event = record { change = change_to in_progress completed 2; timestamp = 20 }

abbrev changes : List StateEvent
changes = first_event ∷ second_event ∷ []

latest_of_lem_example :
    ((lookup first_event (latest_of [] changes) ≡ none)
      × All (λ ev. same_key first_event ev ≡ false) changes)
    ⊎ ((r : StateEvent) × (lookup first_event (latest_of [] changes) ≡ some r)
        × (same_key first_event r ≡ true)
        × In r changes
        × All (IsEarlier first_event r) changes)
latest_of_lem_example = latest_of_lem first_event changes

-- A database that takes every COPY, and one that fails.
abbrev taking : StateDatabase
taking = record {
  is_uuid = λ text. true;
  has_copy = true;
  copy_from = λ rows. ok tt;
  execute = λ insert. ok tt;
}

abbrev failing : StateDatabase
failing = record {
  is_uuid = λ text. true;
  has_copy = false;
  copy_from = λ rows. err 1;
  execute = λ insert. err 1;
}

-- Two events of one card: one row, and both in the statistics.
write_card_state_batch_lem_example :
    written_up "campaign" in_progress_column (write_card_state_batch taking changes).0
      + downs "campaign" in_progress_column changes
    ≡ written_down "campaign" in_progress_column (write_card_state_batch taking changes).0
      + ups "campaign" in_progress_column changes
unfolding write_card_state_batch flush_card_states_copy valid_rows latest_of
write_card_state_batch_lem_example =
    write_card_state_batch_lem taking "campaign" in_progress_column changes refl refl

abbrev wakes : List Wake
wakes =
    event first_event
    ∷ ticked
    ∷ event second_event
    ∷ event first_event
    ∷ event second_event
    ∷ cancelled
    ∷ []

-- The write at the first tick fails.
abbrev databases : ℕ → StateDatabase
databases n = if n == 1 then failing else taking

rows-IsRow : All IsRow (map row_of changes)
unfolding IsRow row_of
rows-IsRow = (refl, (refl, tt))

fallback_inserts_lem_example :
    (concat (map (λ insert. insert.args) (fallback_inserts 2 (map row_of changes)))
      ≡ concat (map row_of changes))
    × All
        (λ insert.
          (length insert.args ≤ 65535)
          × (concat insert.placeholders ≡ numbers 0 (length insert.args)))
        (fallback_inserts 2 (map row_of changes))
fallback_inserts_lem_example = fallback_inserts_lem (map row_of changes) rows-IsRow

-- A campaign that is paused by another process at 15, after this one has set it running.
abbrev status_history : ℕ → String → Option String
status_history t id = if ltb t 15 then some "running" else some "paused"

abbrev set_running : List Call
set_running = set true 10 12 "campaign" "running" ∷ []

-- The old status is read, from the cache.
get_campaign_status-old :
    (get_campaign_status (row "paused") 20 22 "campaign" (serve_calls set_running [])).1
    ≡ ok "running"
unfolding get_campaign_status serve_calls load store
get_campaign_status-old = refl

get_campaign_status-serve_calls_example :
    IsRecent status_history 5
      (row "paused")
      20
      22
      "campaign"
      (get_campaign_status (row "paused") 20 22 "campaign" (serve_calls set_running [])).1
unfolding IsTrue IsUpdated Answered
get_campaign_status-serve_calls_example =
    get_campaign_status-serve_calls status_history 5 set_running (row "paused") 20 22 "campaign" (
      omega arith,
      omega arith,
      omega arith,
      λ done. (11, omega arith, omega arith, inl refl),
      (omega arith, omega arith, omega arith, (21, omega arith, omega arith, refl), tt),
    )
