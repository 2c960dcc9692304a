-- ===== src/Campaign.antt =====
-- internal/controlplane/campaign.go: the life of a campaign. The database transaction is the table
-- after it, or an error and the table as it was; what a failed initialisation leaves in the query
-- store is not tracked. The coordination store and the web socket hub are those of the engine, never
-- nil; their errors are only logged.
pub mod Targets
pub mod Starting
pub mod Stalling
pub mod Publishing
pub mod Resuming
pub mod Retrying
pub mod Life
pub mod Profile
use Prim.Native.String.{String}
use text.Mathlib.Text.{◌==◌}
use ota_platform.Prelude.{
  ℕ, zero, suc, ◌+◌, Bool, true, false, ◌||◌, not, List, [], ◌∷◌, ◌++◌, map, Option, none, some,
  ltb, leb, ◌==◌ as ◌=ₙ◌, if◌then◌else◌, length, take, drop,
}
use ota_platform.Prelude.Bits.{Bytes}
use ota_platform.Prelude.Results.{Result, ok, err, ◌>>=◌, ◌>>◌, fail_if}
use ota_platform.Executor.Types.{
  CampaignCommand, CardEvent, card_activate, other_dlr, Status, pending, other_status,
}
use ota_platform.Executor.Actions.{Done}
use ota_platform.Shards.{CampaignShard, shard_pending, is_open}
use ota_platform.Campaign.Targets.{for_each_target_batch}

-- Campaign.Status, a string in the source
pub data CampaignStatus : Type 0 where
  campaign_pending : CampaignStatus
  campaign_running : CampaignStatus
  campaign_paused : CampaignStatus
  campaign_completed : CampaignStatus
  campaign_failed : CampaignStatus
  campaign_aborted : CampaignStatus

-- A campaign with its commands by sequence and its targets by card id.
pub record Campaign : Type 0 where
  pub id : String
  pub status : CampaignStatus
  pub commands : List CampaignCommand
  pub targets : List ℕ

pub data CampaignError : Type 0 where
  shard_backlog_high : ℕ → CampaignError
  not_loaded : CampaignError
  in_status : CampaignStatus → CampaignError
  no_commands : CampaignError
  no_query_store : CampaignError
  no_target_cards : CampaignError
  query_failed : ℕ → CampaignError
  marshal_failed : ℕ → ℕ → CampaignError
  database_failed : ℕ → CampaignError
  unfinished : CampaignError

-- What is done beside the database, in the order of the calls.
pub data ControlAction : Type 0 where
  cache_commands : List CampaignCommand → ControlAction
  set_campaign_status : CampaignStatus → ControlAction
  abort_cards : ControlAction
  broadcast : CampaignStatus → ControlAction
  reset_failed_cards : ℕ → ControlAction

-- A card as the query store lists it.
pub record CardRow : Type 0 where
  pub card_id : String
  pub status : Status
  pub current_step : ℕ
  pub retry_count : ℕ

-- What the service is given: the texts of UUIDs, new identities, the JSON of events, the settings and
-- what the database and the query store answer (`none` is a query store that is nil).
pub record Plane : Type 0 where
  pub card_text : ℕ → String
  pub new_event_id : String → String
  pub new_shard_id : ℕ → String
  pub marshal : List CardEvent → Result ℕ Bytes
  pub shard_size_setting : ℕ
  pub max_backlog : ℕ
  -- the query for the targets behind a card
  pub targets_read : Option ℕ → Result ℕ Done
  pub initialize : Option (String → List ℕ → ℕ → Result ℕ Done)
  pub cards : Result ℕ (List CardRow)
  pub updated : Result ℕ Done
  pub created : CampaignShard → Result ℕ Done

abbrev pub default_campaign_shard_size : ℕ
default_campaign_shard_size = 1000

unfoldable pub campaign_shard_size : Plane → ℕ
campaign_shard_size plane =
    if leb plane.shard_size_setting 0 then default_campaign_shard_size else plane.shard_size_setting

unfoldable pub activation : Plane → String → ℕ → ℕ → String → CardEvent
activation plane campaign_id step retry_count card = record {
  event_type = card_activate;
  event_id = plane.new_event_id card;
  card_id = card;
  campaign_id = campaign_id;
  step = step;
  retry_count = retry_count;
  msg_id = "";
  smpp_message_id = "";
  dlr_status = other_dlr "";
  error_code = "";
  source_msisdn = "";
  payload_hex = [];
}

unfoldable pub new_shard : Plane → String → ℕ → ℕ → Bytes → CampaignShard
new_shard plane campaign_id sequence item_count items = record {
  id = plane.new_shard_id sequence;
  campaign_id = campaign_id;
  sequence = sequence;
  status = shard_pending;
  item_count = item_count;
  items = items;
  claimed = false;
}

abbrev pub on_error {ℓ} : {A : Type ℓ} → (ℕ → CampaignError) → Result ℕ A → Result CampaignError A
on_error f (ok a) = ok a
on_error f (err e) = err (f e)

-- The callback's variables: pendingCards, shardSequence and the rows created.
pub record Sharding : Type 0 where
  pub pending_cards : ℕ
  pub sequence : ℕ
  pub shards : List CampaignShard

unfoldable pub create_shard : Plane → String → ℕ → Sharding → List ℕ → Result CampaignError Sharding
unfolding activation new_shard
create_shard plane campaign_id first_step s batch =
    let events =
      map (λ card. activation plane campaign_id first_step 0 (plane.card_text card)) batch in
    do
      items ← on_error (marshal_failed s.sequence) (plane.marshal events)
      let shard = new_shard plane campaign_id s.sequence (length events) items
      on_error database_failed (plane.created shard)
      ok (record {
        pending_cards = s.pending_cards + length batch;
        sequence = s.sequence + 1;
        shards = s.shards ++ (shard ∷ []);
      })

-- The loop over the targets, with a round for each target and one more.
unfoldable pub for_targets :
    {S : Type 0}
    → Plane
    → Campaign
    → (S → List ℕ → Result CampaignError S)
    → S
    → Result CampaignError S
unfolding campaign_shard_size
for_targets plane campaign fn s =
    elim (for_each_target_batch (suc (length campaign.targets))
      (λ last. on_error database_failed (plane.targets_read last)) fn campaign.targets
      (campaign_shard_size plane) none s) [ none ↦ err unfinished | some result ↦ result ]

unfoldable pub initialize_cards : Plane → Campaign → ℕ → Result CampaignError Done
unfolding for_targets
initialize_cards plane campaign first_step = elim plane.initialize [
  | none ↦ ok tt
  | some call ↦
      for_targets plane campaign
        (λ _ batch. on_error query_failed (call campaign.id batch first_step)) tt
]

unfoldable pub create_shards : Plane → Campaign → ℕ → Result CampaignError (List CampaignShard)
unfolding for_targets create_shard
create_shards plane campaign first_step = do
  on_error database_failed plane.updated
  s ←
      for_targets plane campaign (create_shard plane campaign.id first_step)
        (record { pending_cards = 0; sequence = 1; shards = [] })
  if s.pending_cards =ₙ 0 then err no_target_cards else ok s.shards

abbrev pub first_sequence : List CampaignCommand → Result CampaignError ℕ
first_sequence [] = err no_commands
first_sequence (command ∷ commands) = ok command.sequence

abbrev pub is_campaign_pending : CampaignStatus → Bool
is_campaign_pending campaign_pending = true
is_campaign_pending _ = false

-- The campaign and the table after an operation, what else it did, and what it returned.
pub record Operation : Type 0 where
  pub campaign : Campaign
  pub table : List CampaignShard
  pub actions : List ControlAction
  pub result : Result CampaignError Done

-- An operation that ends in an error leaves the campaign and the table.
abbrev pub refused : Campaign → List CampaignShard → List ControlAction → CampaignError → Operation
refused campaign table actions e = record {
  campaign = campaign;
  table = table;
  actions = actions;
  result = err e;
}

unfoldable pub open_shards : List CampaignShard → ℕ
open_shards [] = 0
open_shards (shard ∷ table) =
    let rest = open_shards table in if is_open shard.status then suc rest else rest

unfoldable pub admit : Plane → Campaign → List CampaignShard → Result CampaignError ℕ
unfolding open_shards
admit plane campaign table =
    fail_if (ltb plane.max_backlog (open_shards table)) (shard_backlog_high (open_shards table))
    >> fail_if (not (is_campaign_pending campaign.status)) (in_status campaign.status)
    >> first_sequence campaign.commands

unfoldable pub start_campaign : Plane → Campaign → List CampaignShard → Operation
unfolding admit initialize_cards create_shards
start_campaign plane campaign table = elim (admit plane campaign table) [
  | err e ↦ refused campaign table [] e
  | ok first_step ↦
      elim (initialize_cards plane campaign first_step >> create_shards plane campaign first_step) [
        | err e ↦ refused campaign table (cache_commands campaign.commands ∷ []) e
        | ok shards ↦ record {
          campaign = record campaign { status = campaign_running };
          table = table ++ shards;
          actions =
              cache_commands campaign.commands
              ∷ set_campaign_status campaign_running
              ∷ broadcast campaign_running
              ∷ [];
          result = ok tt;
        }
      ]
]
