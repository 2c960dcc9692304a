-- ===== src/Campaign/Life/Ending.antt =====
-- The states that a campaign can reach, and those that it does not leave by itself.
use ota_platform.Prelude.{Bool, true, false, ◌||◌, List, [], ◌∷◌}
use ota_platform.Shards.{CampaignShard}
use ota_platform.Campaign.{
  Campaign, CampaignStatus, campaign_pending, campaign_running, campaign_paused, campaign_completed,
  campaign_failed, campaign_aborted,
}
use ota_platform.Campaign.Life.{Request, retry_failed, serve, Step}

-- Requests in turn, from a campaign and the table of shards.
unfoldable pub serve_all :
    List Request → Campaign → List CampaignShard → Campaign × List CampaignShard
serve_all [] campaign table = (campaign, table)
serve_all (request ∷ requests) campaign table =
    let after = serve request campaign table in serve_all requests after.campaign after.table

pub data Reach : CampaignStatus → CampaignStatus → Type 0 where
  here : {s : CampaignStatus} → Reach s s
  then : {s t u : CampaignStatus} → Step s t → Reach t u → Reach s u

abbrev pub is_over : CampaignStatus → Bool
is_over campaign_pending = false
is_over campaign_running = false
is_over campaign_paused = false
is_over campaign_completed = true
is_over campaign_failed = true
is_over campaign_aborted = true

abbrev pub is_aborted : CampaignStatus → Bool
is_aborted campaign_pending = false
is_aborted campaign_running = false
is_aborted campaign_paused = false
is_aborted campaign_completed = false
is_aborted campaign_failed = false
is_aborted campaign_aborted = true

abbrev is_retry : Request → Bool
is_retry (retry_failed answers) = true
is_retry request = false

unfoldable pub has_retry : List Request → Bool
has_retry [] = false
has_retry (request ∷ requests) = is_retry request || has_retry requests
