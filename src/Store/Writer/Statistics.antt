-- ===== src/Store/Writer/Statistics.antt =====
-- internal/pgstore/card_state_writer.go, writeCardStateBatch: the statistics that a batch updates.
use Prim.Native.String.{String}
use text.Mathlib.Text.{◌==◌ as ◌=ₜ◌}
use text.Mathlib.TextEquality.{eq_iff}
use ota_platform.Prelude.{
  ℕ, ◌+◌, ◌≡◌, refl, ap, ◌∙◌, sym, inl, inr, true, ◌&&◌, List, [], ◌∷◌, none, if◌then◌else◌, arith,
  Bool-cases,
}
use ota_platform.Prelude.Results.{ok}
use ota_platform.Gateway.Tables.{load, remove, store}
use ota_platform.Gateway.Aggregation.{load-remove}
use ota_platform.Store.Writer.{
  StateEvent, Column, StatsDelta, is_empty, count_event, counter_deltas, StateDatabase,
  stats_updates, write_card_state_batch,
}
use ota_platform.Store.Writer.Updates.{
  written_up, written_down, stats_update-difference, written_up-cons, written_down-cons,
  written-other,
}
use ota_platform.Store.Writer.Deltas.{
  net_of, net_in, net_of-no_delta, ups, downs, counter_deltas_lem,
}

-- The deltas of a campaign, and that there is one at most.
unfoldable sum_up : String → Column → List (String × StatsDelta) → ℕ
sum_up campaign column [] = 0
sum_up campaign column ((id, d) ∷ deltas) =
    (if id =ₜ campaign then (net_of d column).up else 0) + sum_up campaign column deltas

unfoldable sum_down : String → Column → List (String × StatsDelta) → ℕ
sum_down campaign column [] = 0
sum_down campaign column ((id, d) ∷ deltas) =
    (if id =ₜ campaign then (net_of d column).down else 0) + sum_down campaign column deltas

unfoldable Unique : List (String × StatsDelta) → Type 0
Unique [] = Unit
Unique ((id, d) ∷ deltas) = (load id deltas ≡ none) × Unique deltas

stats_updates-difference :
    (db : StateDatabase) (campaign : String) (column : Column) (deltas : List (String × StatsDelta))
    → db.is_uuid campaign ≡ true
    → written_up campaign column (stats_updates db deltas) + sum_down campaign column deltas
      ≡ written_down campaign column (stats_updates db deltas) + sum_up campaign column deltas
unfolding sum_up sum_down
stats_updates-difference db campaign column [] known =
    unfold stats_updates in unfold written_up in unfold written_down in refl
stats_updates-difference db campaign column ((id, d) ∷ deltas) known =
    let rest = stats_updates-difference db campaign column deltas known in
    let one = stats_update-difference column d in
    elim (Bool-cases (id =ₜ campaign)) [
      | inl e ↦
          let same : id ≡ campaign = (eq_iff id campaign).0 e in
          let uuid : db.is_uuid id ≡ true = ap db.is_uuid same ∙ known in
          rw
            (
              written_up-cons db campaign id column d deltas uuid,
              written_down-cons db campaign id column d deltas uuid,
              e,
            )
            (omega (arith, one, rest))
      | inr e ↦
          let (up, down) = written-other db campaign id column d deltas e in
          rw (up, down, e) (omega (arith, rest))
    ]

load-remove_absent :
    (key other : String) (deltas : List (String × StatsDelta))
    → load other deltas ≡ none
    → load other (remove key deltas) ≡ none
unfolding load remove
load-remove_absent key other [] h = refl
load-remove_absent key other ((k, d) ∷ deltas) h =
    ground (arith, load-remove_absent key other deltas)

remove-Unique :
    (key : String) (deltas : List (String × StatsDelta))
    → Unique deltas
    → Unique (remove key deltas)
unfolding Unique remove
remove-Unique key [] u = tt
remove-Unique key ((k, d) ∷ deltas) (fresh, u) = elim (Bool-cases (k =ₜ key)) [
  | inl e ↦ rw e (remove-Unique key deltas u)
  | inr e ↦ rw e (load-remove_absent key k deltas fresh, remove-Unique key deltas u)
]

counter_deltas-Unique :
    (deltas : List (String × StatsDelta)) (events : List StateEvent)
    → Unique deltas
    → Unique (counter_deltas deltas events)
unfolding counter_deltas count_event Unique store
counter_deltas-Unique deltas [] u = u
counter_deltas-Unique deltas (ev ∷ events) u =
    elim (Bool-cases (is_empty ev.change.stats_from && is_empty ev.change.stats_to)) [
      | inl e ↦ rw e (counter_deltas-Unique deltas events u)
      | inr e ↦
          let id = ev.change.campaign_id in
          rw e (
            counter_deltas-Unique (store id _ deltas) events
              (load-remove id deltas, remove-Unique id deltas u))
    ]

sum-none :
    (campaign : String) (column : Column) (deltas : List (String × StatsDelta))
    → load campaign deltas ≡ none
    → (sum_up campaign column deltas ≡ 0) × (sum_down campaign column deltas ≡ 0)
unfolding load sum_up sum_down
sum-none campaign column [] h = (refl, refl)
sum-none campaign column ((id, d) ∷ deltas) h = elim (Bool-cases (id =ₜ campaign)) [
  | inl e ↦ absurd (cc (rw e at h))
  | inr e ↦
      let (up, down) = sum-none campaign column deltas (rw e at h) in
      rw e (omega (arith, up), omega (arith, down))
]

sum-net_in :
    (campaign : String) (column : Column) (deltas : List (String × StatsDelta))
    → Unique deltas
    → (sum_up campaign column deltas ≡ (net_in campaign column deltas).up)
      × (sum_down campaign column deltas ≡ (net_in campaign column deltas).down)
unfolding load sum_up sum_down Unique
sum-net_in campaign column [] u = rw (net_of-no_delta column) (refl, refl)
sum-net_in campaign column ((id, d) ∷ deltas) (fresh, u) = elim (Bool-cases (id =ₜ campaign)) [
  | inl e ↦
      let same : id ≡ campaign = (eq_iff id campaign).0 e in
      let (no_up, no_down) =
        sum-none campaign column deltas (ap (λ k. load k deltas) (sym same) ∙ fresh) in
      rw (e, no_up, no_down) (omega arith, omega arith)
  | inr e ↦
      let (up, down) = sum-net_in campaign column deltas u in
      rw e (omega (arith, up), omega (arith, down))
]

-- The updates are those of all events of the batch.
write_card_state_batch-writes :
    (db : StateDatabase) (campaign : String) (column : Column) (events : List StateEvent)
    → (write_card_state_batch db events).1 ≡ ok tt
    → let updates = stats_updates db (counter_deltas [] events) in
      let writes = (write_card_state_batch db events).0 in
      (written_up campaign column writes ≡ written_up campaign column updates)
      × (written_down campaign column writes ≡ written_down campaign column updates)
unfolding write_card_state_batch written_up written_down
write_card_state_batch-writes db campaign column events done = ground (arith, done)

-- Where the write of a batch succeeds, the updates that it sends change each column of the statistics
-- of a campaign, whose id is a UUID, by the number of events of the batch that go to a status of the
-- column, less the number of those that come from one: of all its events, not only of those whose
-- rows are kept. What the updates add and what they take off are compared as a difference, since a
-- column that does not change is left out.
pub write_card_state_batch_lem :
    (db : StateDatabase) (campaign : String) (column : Column) (events : List StateEvent)
    → (write_card_state_batch db events).1 ≡ ok tt
    → db.is_uuid campaign ≡ true
    → written_up campaign column (write_card_state_batch db events).0 + downs campaign column events
      ≡ written_down campaign column (write_card_state_batch db events).0
        + ups campaign column events
write_card_state_batch_lem db campaign column events done known =
    let (up, down) = write_card_state_batch-writes db campaign column events done in
    let deltas = counter_deltas [] events in
    let (sum, minus) =
      sum-net_in campaign column deltas (counter_deltas-Unique [] events (unfold Unique in tt)) in
    let (rise, fall) = counter_deltas_lem campaign column events in
    omega (
      arith,
      up,
      down,
      stats_updates-difference db campaign column deltas known,
      sum,
      minus,
      rise,
      fall,
    )
