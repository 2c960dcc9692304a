-- ===== src/Examples/Publishing.antt =====
-- internal/controlplane and internal/planner: what is published of a campaign of five cards.
use mathlib.Core.Option.{some-injective}
use mathlib.Core.List.{Permᴰ}
use mathlib.Core.List.Permᴰ
use ota_platform.Prelude.{ℕ, ◌≡◌, refl, true, List, [], ◌∷◌, ◌++◌, map, some, arith}
use ota_platform.Prelude.Results.{ok}
use ota_platform.Executor.Types.{CardEvent}
use ota_platform.Planner.{Outlets, Settings, backlog, run}
use ota_platform.Planner.Ticks.{Reliable}
use ota_platform.Planner.Draining.{Open}
use ota_platform.Planner.Logging.{Logs}
use ota_platform.Campaign.{activation, first_sequence, start_campaign}
use ota_platform.Campaign.Targets.{for_each_target_batch}
use ota_platform.Campaign.Publishing.{run-start_campaign}
use ota_platform.Examples.Campaigns.{
  campaign, plane, plane-ReadsBack, targets-Ascending, started, table-Distinct, database, unmarshal,
}

-- A publisher that takes batches, and a preloader that does nothing; the world is the log.
abbrev noting : Outlets (List CardEvent)
noting = record {
  unmarshal = unmarshal;
  preload_shard = some (λ w campaign_id cards. w);
  publish = λ w event. (w ++ (event ∷ []), true);
  publish_batch = some (λ w events. (w ++ events, true));
}

noting-Logs : Logs noting (λ w. w)
unfolding Logs Reliable
noting-Logs = (
  (λ w event. refl, λ call e w events. rw (← some-injective _ _ e) refl),
  λ w event. refl,
  λ call e w events. rw (← some-injective _ _ e) refl,
  λ call e w campaign_id cards. rw (← some-injective _ _ e) refl,
)

-- Two ticks, each with a claim of two shards.
abbrev settings : Settings
settings = record { batch_size = 2; max_shard_backlog = 500 }

run-start_campaign_example :
    (step : ℕ) × (sent : List CardEvent) × (first_sequence campaign.commands ≡ ok step)
    × ((run noting settings
          (database ∷ database ∷ [])
          []
          (start_campaign plane campaign []).table).0
        ≡ [] ++ sent)
    × Permᴰ sent
        (map (λ card. activation plane "campaign" step 0 (plane.card_text card)) campaign.targets)
unfolding Open backlog start_campaign for_each_target_batch
run-start_campaign_example =
    run-start_campaign noting (λ w. w) plane campaign settings (database ∷ database ∷ []) []
      noting-Logs plane-ReadsBack targets-Ascending started table-Distinct
      ((refl, refl, omega arith, Permᴰ.reverse), ((refl, refl, omega arith, Permᴰ.reverse), tt))
      (omega arith)
