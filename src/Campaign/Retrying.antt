-- ===== src/Campaign/Retrying.antt =====
-- internal/controlplane/api_campaigns.go, RetryFailedCards, without the reading of its request.
use ota_platform.Prelude.{ℕ, Bool, true, false, ◌&&◌, List, [], ◌∷◌, if◌then◌else◌}
use ota_platform.Prelude.Results.{Result, ok, err, ◌>>=◌, ◌>>◌}
use ota_platform.Executor.Actions.{Done}
use ota_platform.Shards.{CampaignShard}
use ota_platform.Campaign.{
  Campaign, CampaignStatus, reset_failed_cards, campaign_pending, campaign_completed,
  campaign_failed, CampaignError, query_failed, on_error, first_sequence, Operation, refused,
}

-- What the query store, if there is one, and the database answer to RetryFailedCards.
pub record RetryAnswers : Type 0 where
  pub has_query : Bool
  pub listed : Result ℕ Done
  pub reset : Result ℕ Done
  pub updated : Bool

-- completed or failed; no code of the repository sets the status completed_with_errors
unfoldable pub is_retried : CampaignStatus → Bool
is_retried campaign_completed = true
is_retried campaign_failed = true
is_retried _ = false

-- The failed cards reset to the first step, where there is a query store.
unfoldable pub reset_cards : RetryAnswers → Result CampaignError Done
reset_cards answers =
    if answers.has_query
    then on_error query_failed answers.listed >> on_error query_failed answers.reset
    else ok tt

-- RetryFailedCards; an error of the campaign's update is not looked at.
unfoldable pub retry_failed_cards : RetryAnswers → Campaign → List CampaignShard → Operation
unfolding reset_cards is_retried
retry_failed_cards answers campaign table =
    elim (first_sequence campaign.commands >>= λ first. reset_cards answers >>= λ _. ok first) [
      | err e ↦ refused campaign table [] e
      | ok first ↦ record {
        campaign =
            if is_retried campaign.status && answers.updated
            then record campaign { status = campaign_pending }
            else campaign;
        table = table;
        actions = if answers.has_query then reset_failed_cards first ∷ [] else [];
        result = ok tt;
      }
    ]
