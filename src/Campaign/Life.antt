-- ===== src/Campaign/Life.antt =====
-- internal/controlplane/campaign.go and api_campaigns.go, and cmd/ota-engine/main.go: the states of a
-- campaign.
pub mod Ending
use ota_platform.Prelude.{
  ◌≡◌, refl, ap, ◌⊎◌, inl, inr, Bool, true, false, List, [], ◌∷◌, Option, arith, Bool-cases,
}
use ota_platform.Shards.{CampaignShard}
use ota_platform.Campaign.{
  Campaign, CampaignStatus, campaign_pending, campaign_running, campaign_paused, campaign_completed,
  campaign_failed, campaign_aborted, Plane, Operation, start_campaign, admit,
}
use ota_platform.Campaign.Resuming.{
  Stats, resume_campaign, pause_campaign, abort_campaign, check_completion, final_status,
}
use ota_platform.Campaign.Retrying.{RetryAnswers, is_retried, reset_cards, retry_failed_cards}

-- What is asked of a campaign, with what the surroundings answer at that time.
pub data Request : Type 0 where
  start : Plane → Request
  pause : Plane → Request
  resume : Plane → Request
  abort : Plane → Request
  check : Plane → Option Stats → Request
  retry_failed : RetryAnswers → Request

unfoldable pub serve : Request → Campaign → List CampaignShard → Operation
serve (start plane) campaign table = start_campaign plane campaign table
serve (pause plane) campaign table = pause_campaign plane campaign table
serve (resume plane) campaign table = resume_campaign plane campaign table
serve (abort plane) campaign table = abort_campaign plane campaign table
serve (check plane stats) campaign table = check_completion plane stats campaign table
serve (retry_failed answers) campaign table = retry_failed_cards answers campaign table

-- The changes of state that a campaign may see.
pub data Step : CampaignStatus → CampaignStatus → Type 0 where
  starts : Step campaign_pending campaign_running
  pauses : Step campaign_running campaign_paused
  resumes : Step campaign_paused campaign_running
  aborts : Step campaign_running campaign_aborted
  aborts_paused : Step campaign_paused campaign_aborted
  completes : Step campaign_running campaign_completed
  fails : Step campaign_running campaign_failed
  retries_completed : Step campaign_completed campaign_pending
  retries_failed : Step campaign_failed campaign_pending

abbrev Unchanged : Campaign → List CampaignShard → Operation → Type 0
Unchanged campaign table after = (after.campaign ≡ campaign) × (after.table ≡ table)

abbrev Moves : Campaign → Operation → CampaignStatus → CampaignStatus → Type 0
Moves campaign after from to = (campaign.status ≡ from) × (after.campaign.status ≡ to)

Step-Moves :
    {from to before after : CampaignStatus}
    → Step from to
    → (before ≡ from) × (after ≡ to)
    → Step before after
Step-Moves step (b, a) = rw (b, a) step

pub start_campaign-cases :
    (plane : Plane) (campaign : Campaign) (table : List CampaignShard)
    → Unchanged campaign table (start_campaign plane campaign table)
      ⊎ Moves campaign (start_campaign plane campaign table) campaign_pending campaign_running
unfolding start_campaign admit
start_campaign-cases plane campaign table = ground arith

pub pause_campaign-cases :
    (plane : Plane) (campaign : Campaign) (table : List CampaignShard)
    → Unchanged campaign table (pause_campaign plane campaign table)
      ⊎ Moves campaign (pause_campaign plane campaign table) campaign_running campaign_paused
unfolding pause_campaign
pause_campaign-cases plane campaign table = ground arith

pub resume_campaign-cases :
    (plane : Plane) (campaign : Campaign) (table : List CampaignShard)
    → Unchanged campaign table (resume_campaign plane campaign table)
      ⊎ Moves campaign (resume_campaign plane campaign table) campaign_paused campaign_running
unfolding resume_campaign
resume_campaign-cases plane campaign table = ground arith

pub abort_campaign-cases :
    (plane : Plane) (campaign : Campaign) (table : List CampaignShard)
    → Unchanged campaign table (abort_campaign plane campaign table)
      ⊎ Moves campaign (abort_campaign plane campaign table) campaign_running campaign_aborted
      ⊎ Moves campaign (abort_campaign plane campaign table) campaign_paused campaign_aborted
unfolding abort_campaign
abort_campaign-cases plane campaign table = ground arith

pub check_completion-cases :
    (plane : Plane) (stats : Option Stats) (campaign : Campaign) (table : List CampaignShard)
    → Unchanged campaign table (check_completion plane stats campaign table)
      ⊎ Moves campaign
          (check_completion plane stats campaign table)
          campaign_running
          campaign_completed
      ⊎ Moves campaign
          (check_completion plane stats campaign table)
          campaign_running
          campaign_failed
unfolding check_completion final_status
check_completion-cases plane stats campaign table = ground arith

pub retry_failed_cards-cases :
    (answers : RetryAnswers) (campaign : Campaign) (table : List CampaignShard)
    → Unchanged campaign table (retry_failed_cards answers campaign table)
      ⊎ Moves campaign
          (retry_failed_cards answers campaign table)
          campaign_completed
          campaign_pending
      ⊎ Moves campaign (retry_failed_cards answers campaign table) campaign_failed campaign_pending
unfolding retry_failed_cards reset_cards is_retried
retry_failed_cards-cases answers campaign table = ground arith

-- An operation makes one of these changes of state, or changes neither the campaign nor the table.
pub serve-Step :
    (request : Request) (campaign : Campaign) (table : List CampaignShard)
    → ((serve request campaign table).campaign ≡ campaign)
        × ((serve request campaign table).table ≡ table)
      ⊎ Step campaign.status (serve request campaign table).campaign.status
unfolding serve
serve-Step (start plane) campaign table = elim (start_campaign-cases plane campaign table) [
  | inl same ↦ inl same
  | inr moves ↦ inr (Step-Moves starts moves)
]
serve-Step (pause plane) campaign table = elim (pause_campaign-cases plane campaign table) [
  | inl same ↦ inl same
  | inr moves ↦ inr (Step-Moves pauses moves)
]
serve-Step (resume plane) campaign table = elim (resume_campaign-cases plane campaign table) [
  | inl same ↦ inl same
  | inr moves ↦ inr (Step-Moves resumes moves)
]
serve-Step (abort plane) campaign table = elim (abort_campaign-cases plane campaign table) [
  | inl same ↦ inl same
  | inr (inl moves) ↦ inr (Step-Moves aborts moves)
  | inr (inr moves) ↦ inr (Step-Moves aborts_paused moves)
]
serve-Step (check plane stats) campaign table =
    elim (check_completion-cases plane stats campaign table) [
      | inl same ↦ inl same
      | inr (inl moves) ↦ inr (Step-Moves completes moves)
      | inr (inr moves) ↦ inr (Step-Moves fails moves)
    ]
serve-Step (retry_failed answers) campaign table =
    elim (retry_failed_cards-cases answers campaign table) [
      | inl same ↦ inl same
      | inr (inl moves) ↦ inr (Step-Moves retries_completed moves)
      | inr (inr moves) ↦ inr (Step-Moves retries_failed moves)
    ]
