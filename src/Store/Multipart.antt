-- ===== src/Store/Multipart.antt =====
-- internal/pgstore/gateway_coordination.go: the correlations, the card states and the multipart
-- tracking of a gateway that is given a store.
pub mod Agreement
use Prim.Native.String.{String}
use ota_platform.Prelude.{
  ℕ, ◌+◌, Bool, true, false, List, [], Option, none, some, ltb, leb, if◌then◌else◌,
}
use ota_platform.Prelude.Results.{Result}
use ota_platform.Executor.Types.{CardState}
use ota_platform.Gateway.Tables.{load, store, remove}
use ota_platform.Store.Coordination.{
  Query, CardRow, CardStates, CoordinationError, query_card, get_card_state,
}

pub record SmppMapping : Type 0 where
  pub msg_id : String
  pub campaign_id : String
  pub card_id : String
  pub msisdn : String

abbrev pub store_smpp_correlation :
    String → SmppMapping → List (String × SmppMapping) → List (String × SmppMapping)
store_smpp_correlation id mapping table = store id mapping table

-- One shot: a mapping is read once.
abbrev pub load_smpp_correlation :
    String → List (String × SmppMapping) → List (String × SmppMapping) × Option SmppMapping
load_smpp_correlation id table = (remove id table, load id table)

-- The cache that is shared with the worker, where there is one.
unfoldable pub shared_card_state :
    Query CardRow
    → String
    → Option CardStates
    → Option CardStates × Result CoordinationError (Option CardState)
unfolding query_card get_card_state
shared_card_state answer id none = (none, (query_card answer id []).1)
shared_card_state answer id (some cache) =
    let read = get_card_state answer id cache in (some read.0, read.1)

-- multipartState of this package
pub record Tally : Type 0 where
  pub total : ℕ
  pub delivered : ℕ
  pub failed : ℕ

abbrev pub Tallies : Type 0
Tallies = List (String × Tally)

unfoldable pub init_multipart_tracking : String → ℕ → Tallies → Tallies
init_multipart_tracking id total table =
    store id (record { total = total; delivered = 0; failed = 0 }) table

unfoldable pub tally : Tally → Bool → Tally
tally state true = record state { delivered = state.delivered + 1 }
tally state false = record state { failed = state.failed + 1 }

-- The state changes in place, and leaves the table when it is resolved.
unfoldable pub record_tally : String → Tally → Tallies → Tallies × Option (Bool × Bool)
record_tally id state table =
    let resolved = leb state.total (state.delivered + state.failed) in
    (
      if resolved then remove id table else store id state table,
      some (resolved, ltb 0 state.failed),
    )

-- RecordPartDLR: allResolved and anyFailed, or no tracking.
unfoldable pub record_stored_dlr : String → Bool → Tallies → Tallies × Option (Bool × Bool)
unfolding tally record_tally
record_stored_dlr id delivered table = elim (load id table) [
  | none ↦ (table, none)
  | some state ↦ record_tally id (tally state delivered) table
]
