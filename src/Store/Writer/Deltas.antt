-- ===== src/Store/Writer/Deltas.antt =====
-- internal/pgstore/card_state_writer.go: the statistics of a campaign that a batch changes.
use Prim.Native.String.{String}
use text.Mathlib.Text.{◌==◌ as ◌=ₜ◌}
use text.Mathlib.TextEquality.{eq_iff}
use ota_platform.Prelude.{
  ℕ, ◌+◌, ◌≡◌, refl, ◌∙◌, inl, inr, Bool, true, false, ◌&&◌, List, [], ◌∷◌, none, some, ◌==◌,
  if◌then◌else◌, arith, Bool-cases,
}
use ota_platform.Executor.Types.{
  Status, pending, sending, in_progress, awaiting_dlr, awaiting_mo, completed, failed, skipped,
  other_status,
}
use ota_platform.Gateway.Tables.{load, remove, store}
use ota_platform.Gateway.Aggregation.{load-store}
use ota_platform.Store.Writer.{
  StateEvent, Column, pending_column, in_progress_column, completed_column, failed_column,
  skipped_column, status_column, Net, StatsDelta, no_net, no_delta, adjust, apply_delta, is_empty,
  delta_or_zero, count_event, counter_deltas,
}

abbrev pub number : Column → ℕ
number pending_column = 0
number in_progress_column = 1
number completed_column = 2
number failed_column = 3
number skipped_column = 4

abbrev pub net_of : StatsDelta → Column → Net
net_of d pending_column = d.pending
net_of d in_progress_column = d.in_progress
net_of d completed_column = d.completed
net_of d failed_column = d.failed
net_of d skipped_column = d.skipped

-- Whether a status is counted in a column.
unfoldable pub counts : Column → Status → Bool
counts column status = elim (status_column status) [
  | none ↦ false
  | some c ↦ number c == number column
]

net_of-apply_delta :
    (d : StatsDelta) (column : Column) (status : Status) (raise : Bool)
    → net_of (apply_delta d status raise) column
      ≡ (if counts column status then adjust raise (net_of d column) else net_of d column)
unfolding apply_delta counts
net_of-apply_delta d column status raise = ground arith

empty-uncounted :
    (column : Column) (status : Status) → is_empty status ≡ true → counts column status ≡ false
unfolding is_empty counts status_column
empty-uncounted column (other_status text) h = rw ((eq_iff text "").0 h) refl
empty-uncounted column pending h = absurd (cc h)
empty-uncounted column sending h = refl
empty-uncounted column in_progress h = absurd (cc h)
empty-uncounted column awaiting_dlr h = absurd (cc h)
empty-uncounted column awaiting_mo h = absurd (cc h)
empty-uncounted column completed h = absurd (cc h)
empty-uncounted column failed h = absurd (cc h)
empty-uncounted column skipped h = absurd (cc h)

pub load-remove-other {ℓ} :
    {A : Type ℓ} (key other : String) (table : List (String × A))
    → (key =ₜ other) ≡ false
    → load other (remove key table) ≡ load other table
unfolding load remove
load-remove-other key other [] h = refl
load-remove-other key other ((k, a) ∷ table) h =
    let rest = load-remove-other key other table h in
    elim (Bool-cases (k =ₜ key)) [
      | inl e ↦
          let away : (k =ₜ other) ≡ false = rw (← (eq_iff k key).0 e) at h in rw (e, away) rest
      | inr e ↦ rw e (elim (Bool-cases (k =ₜ other)) [ inl f ↦ rw f refl | inr f ↦ rw f rest ])
    ]

load-store-other {ℓ} :
    {A : Type ℓ} (key other : String) (a : A) (table : List (String × A))
    → (key =ₜ other) ≡ false
    → load other (store key a table) ≡ load other table
unfolding load store
load-store-other key other a table h = rw h (load-remove-other key other table h)

pub net_of-no_delta : (column : Column) → net_of no_delta column ≡ no_net
net_of-no_delta pending_column = refl
net_of-no_delta in_progress_column = refl
net_of-no_delta completed_column = refl
net_of-no_delta failed_column = refl
net_of-no_delta skipped_column = refl

-- What the deltas so far say of a column of a campaign.
abbrev pub net_in : String → Column → List (String × StatsDelta) → Net
net_in campaign column deltas = net_of (delta_or_zero (load campaign deltas)) column

-- One event on the net change of a column of its campaign.
abbrev moved : Column → StateEvent → Net → Net
moved column ev net =
    let left = if counts column ev.change.stats_from then adjust false net else net in
    if counts column ev.change.stats_to then adjust true left else left

net_in-count_event :
    (campaign : String) (column : Column) (deltas : List (String × StatsDelta)) (ev : StateEvent)
    → net_in campaign column (count_event deltas ev) ≡ (
        if ev.change.campaign_id =ₜ campaign
        then moved column ev (net_in campaign column deltas)
        else net_in campaign column deltas)
unfolding count_event
net_in-count_event campaign column deltas ev =
    elim (Bool-cases (is_empty ev.change.stats_from && is_empty ev.change.stats_to)) [
      | inl silent ↦
          let from_none = empty-uncounted column ev.change.stats_from (ground arith) in
          let to_none = empty-uncounted column ev.change.stats_to (ground arith) in
          rw (silent, from_none, to_none)
            (elim (Bool-cases (ev.change.campaign_id =ₜ campaign)) [
              | inl e ↦ rw e refl
              | inr e ↦ rw e refl
            ])
      | inr counted ↦ rw counted (elim (Bool-cases (ev.change.campaign_id =ₜ campaign)) [
        | inl e ↦
            let same : ev.change.campaign_id ≡ campaign =
              (eq_iff ev.change.campaign_id campaign).0 e in
            let d = delta_or_zero (load campaign deltas) in
            rw
              (
                e,
                same,
                load-store campaign
                    (apply_delta (apply_delta d ev.change.stats_from false) ev.change.stats_to true)
                    deltas,
                net_of-apply_delta (apply_delta d ev.change.stats_from false) column
                    ev.change.stats_to true,
                net_of-apply_delta d column ev.change.stats_from false,
              )
              refl
        | inr e ↦ rw (e, load-store-other ev.change.campaign_id campaign _ deltas e) refl
      ])
    ]

moved-counts :
    (campaign : String) (column : Column) (ev : StateEvent) (before after : Net)
    → after ≡ (if ev.change.campaign_id =ₜ campaign then moved column ev before else before)
    → (after.up
        ≡ before.up
          + (if (ev.change.campaign_id =ₜ campaign) && counts column ev.change.stats_to
              then 1
              else 0))
      × (after.down
          ≡ before.down
            + (if (ev.change.campaign_id =ₜ campaign) && counts column ev.change.stats_from
                then 1
                else 0))
unfolding adjust
moved-counts campaign column ev before after h = ground arith

-- The events of a campaign that go to a status of a column, and those that come from one.
unfoldable pub ups : String → Column → List StateEvent → ℕ
ups campaign column [] = 0
ups campaign column (ev ∷ events) =
    (if (ev.change.campaign_id =ₜ campaign) && counts column ev.change.stats_to then 1 else 0)
    + ups campaign column events

unfoldable pub downs : String → Column → List StateEvent → ℕ
downs campaign column [] = 0
downs campaign column (ev ∷ events) =
    (if (ev.change.campaign_id =ₜ campaign) && counts column ev.change.stats_from then 1 else 0)
    + downs campaign column events

net_in-counter_deltas :
    (campaign : String) (column : Column) (deltas : List (String × StatsDelta))
    (events : List StateEvent)
    → ((net_in campaign column (counter_deltas deltas events)).up
        ≡ (net_in campaign column deltas).up + ups campaign column events)
      × ((net_in campaign column (counter_deltas deltas events)).down
          ≡ (net_in campaign column deltas).down + downs campaign column events)
unfolding counter_deltas ups downs
net_in-counter_deltas campaign column deltas [] = (omega arith, omega arith)
net_in-counter_deltas campaign column deltas (ev ∷ events) =
    let rest = net_in-counter_deltas campaign column (count_event deltas ev) events in
    let one = net_in-count_event campaign column deltas ev in
    let after = net_in campaign column (count_event deltas ev) in
    let before = net_in campaign column deltas in
    let step = moved-counts campaign column ev before after one in
    (rest.0 ∙ omega (arith, step.0), rest.1 ∙ omega (arith, step.1))

-- A batch adds to each column of a campaign's statistics the number of its events that go to a
-- status of the column, and takes off the number of those that come from one: of all events of the
-- batch, not only of those whose rows are kept.
pub counter_deltas_lem :
    (campaign : String) (column : Column) (events : List StateEvent)
    → ((net_in campaign column (counter_deltas [] events)).up ≡ ups campaign column events)
      × ((net_in campaign column (counter_deltas [] events)).down ≡ downs campaign column events)
unfolding load
counter_deltas_lem campaign column events =
    let (rise, fall) = net_in-counter_deltas campaign column [] events in
    let zero_net : net_of no_delta column ≡ no_net = net_of-no_delta column in
    (rise ∙ rw zero_net (omega arith), fall ∙ rw zero_net (omega arith))
