-- ===== src/Store/Recovery.antt =====
-- internal/pgstore/recovery.go: what a restart does to the shards of the campaigns that were running.
-- A step of the recovery that fails leaves what was done before it.
pub mod Exactness
use Prim.Native.String.{String}
use text.Mathlib.Text.{◌==◌ as ◌=ₜ◌}
use ota_platform.Prelude.{
  ℕ, zero, suc, ◌+◌, Bool, true, false, ◌&&◌, not, List, [], ◌∷◌, ◌++◌, map, if◌then◌else◌, length,
  take, drop,
}
use ota_platform.Prelude.Results.{Result, ok, err}
use ota_platform.Executor.Types.{
  CardEvent, CampaignCommand, Status, pending, sending, in_progress, awaiting_dlr, awaiting_mo,
  completed, failed, skipped, other_status,
}
use ota_platform.Executor.Actions.{Done}
use ota_platform.Shards.{
  CampaignShard, ShardStatus, shard_pending, shard_publishing, shard_published, is_open,
}
use ota_platform.Campaign.{
  Campaign, CampaignError, query_failed, database_failed, marshal_failed, CardRow, Plane, new_shard,
}
use ota_platform.Campaign.Resuming.{resumed_events, max_sequence, is_running}

-- Not in terminalStatuses
abbrev pub is_unfinished : Status → Bool
is_unfinished pending = true
is_unfinished sending = true
is_unfinished in_progress = true
is_unfinished awaiting_dlr = true
is_unfinished awaiting_mo = true
is_unfinished completed = false
is_unfinished failed = false
is_unfinished skipped = false
is_unfinished (other_status text) = true

abbrev pub first_or_zero : List CampaignCommand → ℕ
first_or_zero [] = 0
first_or_zero (command ∷ commands) = command.sequence

-- DELETE of a campaign's pending and publishing shards
unfoldable pub delete_stale : String → List CampaignShard → List CampaignShard
delete_stale campaign_id [] = []
delete_stale campaign_id (shard ∷ table) =
    let rest = delete_stale campaign_id table in
    if is_open shard.status && (shard.campaign_id =ₜ campaign_id) then rest else shard ∷ rest

-- The loop over the events; the first argument counts the rounds left.
unfoldable pub recreate_shards :
    ℕ
    → Plane
    → String
    → ℕ
    → ℕ
    → List CardEvent
    → List CampaignShard
    → List CampaignShard × Result CampaignError Done
recreate_shards zero plane campaign_id size sequence events table = (table, ok tt)
recreate_shards (suc rounds) plane campaign_id size sequence [] table = (table, ok tt)
recreate_shards (suc rounds) plane campaign_id size sequence (event ∷ events) table =
    let chunk = take size (event ∷ events) in
    elim (plane.marshal chunk) [
      | err e ↦ (table, err (marshal_failed sequence e))
      | ok items ↦
          let shard = new_shard plane campaign_id sequence (length chunk) items in
          elim (plane.created shard) [
            | err e ↦ (table, err (database_failed e))
            | ok _ ↦
                recreate_shards rounds plane campaign_id size (sequence + 1)
                  (drop size (event ∷ events)) (table ++ (shard ∷ []))
          ]
    ]

-- The events of the cards that are not finished, at the state that is stored last.
unfoldable pub recovered_events : Plane → Campaign → List CardRow → List CardEvent
unfolding resumed_events
recovered_events plane campaign rows =
    resumed_events is_unfinished plane campaign.id (first_or_zero campaign.commands) rows

unfoldable pub recover_campaign :
    Plane → ℕ → Campaign → List CampaignShard → List CampaignShard × Result CampaignError Done
unfolding recovered_events delete_stale recreate_shards
recover_campaign plane size campaign table = elim plane.cards [
  | err e ↦ (table, err (query_failed e))
  | ok rows ↦ elim (recovered_events plane campaign rows) [
    | [] ↦ (table, ok tt)
    | event ∷ events ↦ elim plane.updated [
      | err e ↦ (table, err (database_failed e))
      | ok _ ↦
          let kept = delete_stale campaign.id table in
          recreate_shards (suc (length events)) plane campaign.id size
            (max_sequence campaign.id kept + 1) (event ∷ events) kept
    ]
  ]
]

-- The shards that were being published are pending again.
unfoldable pub reset_publishing : List CampaignShard → List CampaignShard
reset_publishing [] = []
reset_publishing (shard ∷ table) =
    (elim shard.status [
      | shard_publishing ↦ record shard { status = shard_pending; claimed = false }
      | _ ↦ shard
    ])
    ∷ reset_publishing table

-- Each running campaign in turn, with what the surroundings answer for it; an error is only logged.
unfoldable pub recover_all : ℕ → List (Plane × Campaign) → List CampaignShard → List CampaignShard
unfolding recover_campaign
recover_all size [] table = table
recover_all size ((plane, campaign) ∷ campaigns) table =
    let recovered = (recover_campaign plane size campaign table).0 in
    let next = if is_running campaign.status then recovered else table in
    recover_all size campaigns next

unfoldable pub recover_running_campaigns :
    ℕ → Result ℕ Done → List (Plane × Campaign) → List CampaignShard → List CampaignShard
unfolding recover_all reset_publishing
recover_running_campaigns size resets campaigns table =
    recover_all size campaigns (elim resets [ err e ↦ table | ok _ ↦ reset_publishing table ])
