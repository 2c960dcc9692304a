-- ===== src/Campaign/Resuming.antt =====
-- internal/controlplane/campaign.go, PauseCampaign, ResumeCampaign and AbortCampaign, and
-- cmd/ota-engine/main.go, runCompletionChecker.
use Prim.Native.String.{String}
use text.Mathlib.Text.{◌==◌ as ◌=ₜ◌}
use ota_platform.Prelude.{
  ℕ, zero, suc, ◌+◌, Bool, true, false, ◌&&◌, ◌||◌, not, List, [], ◌∷◌, ◌++◌, Option, none, some,
  ltb, ◌==◌, if◌then◌else◌, length, take, drop,
}
use ota_platform.Prelude.Results.{Result, ok, err, ◌>>=◌, ◌>>◌, fail_if}
use ota_platform.Executor.Types.{
  CardEvent, Status, pending, sending, in_progress, awaiting_dlr, awaiting_mo, completed, failed,
  skipped, other_status,
}
use ota_platform.Executor.Actions.{Done}
use ota_platform.Shards.{CampaignShard}
use ota_platform.Campaign.{
  Campaign, CampaignStatus, campaign_running, campaign_paused, campaign_completed, campaign_failed,
  campaign_aborted, CampaignError, not_loaded, in_status, no_query_store, query_failed,
  marshal_failed, database_failed, ControlAction, cache_commands, set_campaign_status, abort_cards,
  broadcast, CardRow, Plane, campaign_shard_size, activation, new_shard, on_error, first_sequence,
  Operation, refused,
}

abbrev pub is_running : CampaignStatus → Bool
is_running campaign_running = true
is_running _ = false

abbrev pub is_paused : CampaignStatus → Bool
is_paused campaign_paused = true
is_paused _ = false

-- status == "pending" || status == "activating"
unfoldable pub needs_activation : Status → Bool
needs_activation pending = true
needs_activation sending = false
needs_activation in_progress = false
needs_activation awaiting_dlr = false
needs_activation awaiting_mo = false
needs_activation completed = false
needs_activation failed = false
needs_activation skipped = false
needs_activation (other_status text) = text =ₜ "activating"

unfoldable pub step_of : CardRow → ℕ → ℕ
step_of row first = if row.current_step == 0 then first else row.current_step

-- The activations of the rows that are chosen, each at its step, or at the first one for a row at 0.
unfoldable pub resumed_events : (Status → Bool) → Plane → String → ℕ → List CardRow → List CardEvent
unfolding activation step_of
resumed_events chosen plane campaign_id first [] = []
resumed_events chosen plane campaign_id first (row ∷ rows) =
    let rest = resumed_events chosen plane campaign_id first rows in
    if chosen row.status
    then activation plane campaign_id (step_of row first) row.retry_count row.card_id ∷ rest
    else rest

-- SELECT COALESCE(MAX(sequence), 0) of a campaign's shards
unfoldable pub max_sequence : String → List CampaignShard → ℕ
max_sequence campaign_id [] = 0
max_sequence campaign_id (shard ∷ table) =
    let rest = max_sequence campaign_id table in
    if shard.campaign_id =ₜ campaign_id && ltb rest shard.sequence then shard.sequence else rest

-- The loop over the events; the first argument counts the rounds left.
unfoldable pub cut_shards :
    ℕ → Plane → String → ℕ → ℕ → List CardEvent → Result CampaignError (List CampaignShard)
unfolding new_shard
cut_shards zero plane campaign_id size sequence events = ok []
cut_shards (suc rounds) plane campaign_id size sequence [] = ok []
cut_shards (suc rounds) plane campaign_id size sequence (event ∷ events) =
    let chunk = take size (event ∷ events) in
    do
      items ← on_error (marshal_failed sequence) (plane.marshal chunk)
      rest ← cut_shards rounds plane campaign_id size (sequence + 1) (drop size (event ∷ events))
      ok (new_shard plane campaign_id sequence (length chunk) items ∷ rest)

-- CreateInBatches
unfoldable pub create_all : Plane → List CampaignShard → Result CampaignError Done
create_all plane [] = ok tt
create_all plane (shard ∷ shards) =
    on_error database_failed (plane.created shard) >> create_all plane shards

unfoldable pub resume_shards :
    Plane → Campaign → List CampaignShard → Result CampaignError (List CampaignShard)
unfolding needs_activation resumed_events max_sequence cut_shards create_all campaign_shard_size
resume_shards plane campaign table = do
  first ← first_sequence campaign.commands
  fail_if (elim plane.initialize [ none ↦ true | some _ ↦ false ]) no_query_store
  rows ← on_error query_failed plane.cards
  on_error database_failed plane.updated
  let events = resumed_events needs_activation plane campaign.id first rows
  shards ←
      cut_shards (length events) plane campaign.id (campaign_shard_size plane)
        (max_sequence campaign.id table + 1) events
  create_all plane shards
  ok shards

-- The commands are cached once there are some and the cards are listed.
unfoldable pub resume_cached : Plane → Campaign → List ControlAction
resume_cached plane campaign = elim (first_sequence campaign.commands) [
  | err e ↦ []
  | ok _ ↦ elim plane.initialize [
    | none ↦ []
    | some _ ↦ elim plane.cards [ err e ↦ [] | ok rows ↦ cache_commands campaign.commands ∷ [] ]
  ]
]

unfoldable pub resume_campaign : Plane → Campaign → List CampaignShard → Operation
unfolding resume_shards resume_cached
resume_campaign plane campaign table =
    if not (is_paused campaign.status)
    then refused campaign table [] not_loaded
    else elim (resume_shards plane campaign table) [
      | err e ↦ refused campaign table (resume_cached plane campaign) e
      | ok shards ↦ record {
        campaign = record campaign { status = campaign_running };
        table = table ++ shards;
        actions =
            cache_commands campaign.commands
            ∷ set_campaign_status campaign_running
            ∷ broadcast campaign_running
            ∷ [];
        result = ok tt;
      }
    ]

unfoldable pub pause_campaign : Plane → Campaign → List CampaignShard → Operation
pause_campaign plane campaign table = elim plane.updated [
  | err e ↦ refused campaign table [] (database_failed e)
  | ok _ ↦
      if not (is_running campaign.status)
      then refused campaign table [] (in_status campaign.status)
      else record {
        campaign = record campaign { status = campaign_paused };
        table = table;
        actions = set_campaign_status campaign_paused ∷ broadcast campaign_paused ∷ [];
        result = ok tt;
      }
]

unfoldable pub abort_campaign : Plane → Campaign → List CampaignShard → Operation
abort_campaign plane campaign table =
    if not (is_running campaign.status || is_paused campaign.status)
    then refused campaign table [] (in_status campaign.status)
    else elim plane.updated [
      | err e ↦ refused campaign table [] (database_failed e)
      | ok _ ↦ record {
        campaign = record campaign { status = campaign_aborted };
        table = table;
        actions = set_campaign_status campaign_aborted ∷ elim plane.initialize [
          | none ↦ broadcast campaign_aborted ∷ []
          | some _ ↦ abort_cards ∷ broadcast campaign_aborted ∷ []
        ];
        result = ok tt;
      }
    ]

-- CampaignStatsRow, its counters kept as natural numbers
pub record Stats : Type 0 where
  pub pending_cards : ℕ
  pub in_progress_cards : ℕ
  pub completed_cards : ℕ
  pub failed_cards : ℕ

unfoldable pub final_status : Stats → CampaignStatus
final_status stats =
    if stats.completed_cards == 0 && ltb 0 stats.failed_cards
    then campaign_failed
    else campaign_completed

-- One look of the completion checker at a campaign; `none` is a row that is not found.
unfoldable pub check_completion : Plane → Option Stats → Campaign → List CampaignShard → Operation
unfolding final_status
check_completion plane none campaign table = refused campaign table [] not_loaded
check_completion plane (some stats) campaign table =
    if not (is_running campaign.status)
      || ltb 0 stats.pending_cards
      || ltb 0 stats.in_progress_cards
    then refused campaign table [] (in_status campaign.status)
    else elim plane.updated [
      | err e ↦ refused campaign table [] (database_failed e)
      | ok _ ↦ record {
        campaign = record campaign { status = final_status stats };
        table = table;
        actions = broadcast (final_status stats) ∷ [];
        result = ok tt;
      }
    ]
