-- ===== src/Store/Writer.antt =====
-- internal/pgstore/card_state_writer.go: the batches of state changes, the rows and the statistics
-- that they write. A number that the source adds and subtracts (int64) is kept as what was added and
-- what was subtracted.
pub mod Latest
pub mod Deltas
pub mod Batches
pub mod Inserts
pub mod Loop
pub mod Updates
pub mod Statistics
use Prim.Native.String.{String}
use text.Mathlib.Text.{◌==◌ as ◌=ₜ◌}
use ota_platform.Prelude.{
  ℕ, zero, suc, ◌+◌, ◌*◌, Bool, true, false, ◌&&◌, ◌||◌, not, List, [], ◌∷◌, ◌++◌, map, Option,
  none, some, ltb, leb, ◌==◌, if◌then◌else◌, length, take, drop,
}
use ota_platform.Prelude.Results.{Result, ok, err, ◌>>=◌}
use ota_platform.Executor.Types.{
  CardStateChange, Status, pending, sending, in_progress, awaiting_dlr, awaiting_mo, completed,
  failed, skipped, other_status,
}
use ota_platform.Gateway.Tables.{load, store}

-- A change with its timestamp.
pub record StateEvent : Type 0 where
  pub change : CardStateChange
  pub timestamp : ℕ

unfoldable pub same_key : StateEvent → StateEvent → Bool
same_key a b =
    (a.change.card_id =ₜ b.change.card_id) && (a.change.campaign_id =ₜ b.change.campaign_id)

unfoldable pub supersedes : StateEvent → StateEvent → Bool
supersedes ev existing =
    ltb existing.change.transition_seq ev.change.transition_seq
    || ((ev.change.transition_seq == existing.change.transition_seq)
        && ltb existing.timestamp ev.timestamp)

-- latest, the map by card and campaign, as the list of its values
unfoldable pub keep_latest : List StateEvent → StateEvent → List StateEvent
unfolding same_key supersedes
keep_latest [] ev = ev ∷ []
keep_latest (existing ∷ latest) ev =
    let rest = keep_latest latest ev in
    if same_key ev existing
    then (if supersedes ev existing then ev ∷ latest else existing ∷ latest)
    else existing ∷ rest

unfoldable pub latest_of : List StateEvent → List StateEvent → List StateEvent
unfolding keep_latest
latest_of latest [] = latest
latest_of latest (ev ∷ events) = latest_of (keep_latest latest ev) events

pub data Column : Type 0 where
  pending_column : Column
  in_progress_column : Column
  completed_column : Column
  failed_column : Column
  skipped_column : Column

-- `none` is the empty text.
unfoldable pub status_column : Status → Option Column
status_column pending = some pending_column
status_column sending = none
status_column in_progress = some in_progress_column
status_column awaiting_dlr = some in_progress_column
status_column awaiting_mo = some in_progress_column
status_column completed = some completed_column
status_column failed = some failed_column
status_column skipped = some skipped_column
status_column (other_status text) = if text =ₜ "activating" then some pending_column else none

pub record Net : Type 0 where
  pub up : ℕ
  pub down : ℕ

pub record StatsDelta : Type 0 where
  pub pending : Net
  pub in_progress : Net
  pub completed : Net
  pub failed : Net
  pub skipped : Net

abbrev pub no_net : Net
no_net = record { up = 0; down = 0 }

abbrev pub no_delta : StatsDelta
no_delta = record {
  pending = no_net;
  in_progress = no_net;
  completed = no_net;
  failed = no_net;
  skipped = no_net;
}

-- Adding 1 where `raise` holds, and -1 where not.
unfoldable pub adjust : Bool → Net → Net
adjust true net = record net { up = net.up + 1 }
adjust false net = record net { down = net.down + 1 }

unfoldable pub apply_delta : StatsDelta → Status → Bool → StatsDelta
unfolding status_column adjust
apply_delta d status raise = elim (status_column status) [
  | none ↦ d
  | some column ↦ elim column [
    | pending_column ↦ record d { pending = adjust raise d.pending }
    | in_progress_column ↦ record d { in_progress = adjust raise d.in_progress }
    | completed_column ↦ record d { completed = adjust raise d.completed }
    | failed_column ↦ record d { failed = adjust raise d.failed }
    | skipped_column ↦ record d { skipped = adjust raise d.skipped }
  ]
]

-- A status of the statistics that is the empty text
unfoldable pub is_empty : Status → Bool
is_empty pending = false
is_empty sending = false
is_empty in_progress = false
is_empty awaiting_dlr = false
is_empty awaiting_mo = false
is_empty completed = false
is_empty failed = false
is_empty skipped = false
is_empty (other_status text) = text =ₜ ""

abbrev pub delta_or_zero : Option StatsDelta → StatsDelta
delta_or_zero none = no_delta
delta_or_zero (some d) = d

unfoldable pub count_event : List (String × StatsDelta) → StateEvent → List (String × StatsDelta)
unfolding apply_delta is_empty
count_event deltas ev =
    let d = delta_or_zero (load ev.change.campaign_id deltas) in
    if is_empty ev.change.stats_from && is_empty ev.change.stats_to
    then deltas
    else store ev.change.campaign_id
        (apply_delta (apply_delta d ev.change.stats_from false) ev.change.stats_to true) deltas

unfoldable pub counter_deltas :
    List (String × StatsDelta) → List StateEvent → List (String × StatsDelta)
unfolding count_event
counter_deltas deltas [] = deltas
counter_deltas deltas (ev ∷ events) = counter_deltas (count_event deltas ev) events

-- The columns that the UPDATE sets, with what it adds; none where the statement is empty.
unfoldable pub set_column : Column → Net → List (Column × Net) → List (Column × Net)
set_column column net sets = if net.up == net.down then sets else (column, net) ∷ sets

unfoldable pub stats_update : StatsDelta → List (Column × Net)
unfolding set_column
stats_update d = set_column pending_column d.pending (
    set_column in_progress_column d.in_progress (
      set_column completed_column d.completed
        (set_column failed_column d.failed (set_column skipped_column d.skipped []))))

abbrev pub columns : ℕ
columns = 10

abbrev pub max_rows : ℕ
max_rows = 6553

-- One INSERT: the numbers of its placeholders, row by row, and the values of its rows.
pub record Insert (A : Type 0) : Type 0 where
  pub placeholders : List (List ℕ)
  pub args : List A

unfoldable pub row_placeholders : ℕ → List ℕ
row_placeholders base =
    (base + 1)
    ∷ (base + 2)
    ∷ (base + 3)
    ∷ (base + 4)
    ∷ (base + 5)
    ∷ (base + 6)
    ∷ (base + 7)
    ∷ (base + 8)
    ∷ (base + 9)
    ∷ (base + 10)
    ∷ []

module _ {A : Type 0} where
  unfoldable pub insert_from : ℕ → List (List A) → Insert A
  unfolding row_placeholders
  insert_from i [] = record { placeholders = []; args = [] }
  insert_from i (row ∷ rows) =
      let rest = insert_from (i + 1) rows in
      record {
        placeholders = row_placeholders (i * columns) ∷ rest.placeholders;
        args = row ++ rest.args;
      }

  -- The loop over the rows; the first argument counts the rounds left.
  unfoldable pub fallback_inserts : ℕ → List (List A) → List (Insert A)
  unfolding insert_from
  fallback_inserts zero rows = []
  fallback_inserts (suc rounds) [] = []
  fallback_inserts (suc rounds) (row ∷ rows) =
      insert_from 0 (take max_rows (row ∷ rows))
      ∷ fallback_inserts rounds (drop max_rows (row ∷ rows))

-- The ten cells of a row: a column's number with the event that gives its value.
unfoldable pub row_of : StateEvent → List (ℕ × StateEvent)
row_of ev =
    (0, ev)
    ∷ (1, ev)
    ∷ (2, ev)
    ∷ (3, ev)
    ∷ (4, ev)
    ∷ (5, ev)
    ∷ (6, ev)
    ∷ (7, ev)
    ∷ (8, ev)
    ∷ (9, ev)
    ∷ []

-- What the database answers: whether a text is a UUID, whether the driver is pgx, COPY and INSERT.
pub record StateDatabase : Type 0 where
  pub is_uuid : String → Bool
  pub has_copy : Bool
  pub copy_from : List StateEvent → Result ℕ (Unit {0})
  pub execute : Insert (ℕ × StateEvent) → Result ℕ (Unit {0})

pub data Write : Type 0 where
  card_rows : List StateEvent → Write
  stats_row : String → List (Column × Net) → Write

unfoldable pub execute_all : StateDatabase → List (Insert (ℕ × StateEvent)) → Result ℕ (Unit {0})
execute_all db [] = ok tt
execute_all db (insert ∷ inserts) = db.execute insert >>= λ _. execute_all db inserts

unfoldable pub flush_card_states_copy : StateDatabase → List StateEvent → Result ℕ (Unit {0})
unfolding execute_all fallback_inserts row_of
flush_card_states_copy db rows =
    let fallback = execute_all db (fallback_inserts (length rows) (map row_of rows)) in
    if db.has_copy then elim (db.copy_from rows) [ ok _ ↦ ok tt | err e ↦ fallback ] else fallback

unfoldable pub valid_rows : StateDatabase → List StateEvent → List StateEvent
valid_rows db [] = []
valid_rows db (ev ∷ events) =
    let rest = valid_rows db events in
    if db.is_uuid ev.change.card_id && db.is_uuid ev.change.campaign_id then ev ∷ rest else rest

unfoldable pub stats_updates : StateDatabase → List (String × StatsDelta) → List Write
unfolding stats_update
stats_updates db [] = []
stats_updates db ((campaign_id, d) ∷ deltas) =
    let rest = stats_updates db deltas in
    if db.is_uuid campaign_id
    then (elim (stats_update d) [
      | [] ↦ rest
      | set ∷ sets ↦ stats_row campaign_id (set ∷ sets) ∷ rest
    ])
    else rest

unfoldable pub write_card_state_batch :
    StateDatabase → List StateEvent → List Write × Result ℕ (Unit {0})
unfolding latest_of counter_deltas valid_rows stats_updates flush_card_states_copy
write_card_state_batch db events =
    let updates = stats_updates db (counter_deltas [] events) in
    elim (valid_rows db (latest_of [] events)) [
      | [] ↦ (updates, ok tt)
      | ev ∷ rows ↦ elim (flush_card_states_copy db (ev ∷ rows)) [
        | err e ↦ ([], err e)
        | ok _ ↦ (card_rows (ev ∷ rows) ∷ updates, ok tt)
      ]
    ]
