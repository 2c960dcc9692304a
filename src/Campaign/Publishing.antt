-- ===== src/Campaign/Publishing.antt =====
-- internal/controlplane/campaign.go and internal/planner/service.go: from the targets of a campaign to
-- the events that the planner publishes.
use Prim.Native.String.{String}
use mathlib.Core.List.{Permᴰ, map-append}
use mathlib.Core.Path.{subst}
use ota_platform.Prelude.{
  ℕ, zero, suc, ◌+◌, ◌*◌, ◌≤◌, ◌≡◌, refl, ap, ◌∙◌, sym, List, [], ◌∷◌, ◌++◌, map, length, concat,
  All, arith,
}
use ota_platform.Prelude.Results.{ok}
use ota_platform.Executor.Types.{CardEvent}
use ota_platform.Shards.{CampaignShard}
use ota_platform.Planner.{Outlets, Settings, Database, run}
use ota_platform.Planner.Outcomes.{events_of}
use ota_platform.Planner.Ticks.{Distinct, Readable}
use ota_platform.Planner.Draining.{Open}
use ota_platform.Planner.Logging.{Logs, waiting_events, log-run}
use ota_platform.Campaign.Targets.{Ascending}
use ota_platform.Campaign.{Campaign, Plane, activation, first_sequence, start_campaign}
use ota_platform.Campaign.Starting.{ReadsBack, ShardsFor, activations, start_campaign_lem}

module _ {W : Type 0} (outlets : Outlets W) (plane : Plane) (campaign_id : String) where
  Readable-ShardsFor :
      (step sequence : ℕ) (new : List CampaignShard) (batches : List (List ℕ))
      → ShardsFor outlets.unmarshal plane campaign_id step sequence new batches
      → All (Readable outlets) new
  unfolding ShardsFor Readable
  Readable-ShardsFor step sequence [] batches h = tt
  Readable-ShardsFor step sequence (s ∷ ss) [] h = absurd (omega arith)
  Readable-ShardsFor step sequence (s ∷ ss) (b ∷ bs) (_, _, _, _, _, items, later) =
      ((_, items), Readable-ShardsFor step (sequence + 1) ss bs later)

  -- The new shards all wait, with the activations of their batches.
  waiting_events-ShardsFor :
      (limit step sequence : ℕ) (new : List CampaignShard) (batches : List (List ℕ))
      → ShardsFor outlets.unmarshal plane campaign_id step sequence new batches
      → length new ≤ limit
      → (log : W → List CardEvent)
      → waiting_events outlets log limit new
        ≡ activations outlets.unmarshal plane campaign_id step (concat batches)
  unfolding ShardsFor waiting_events events_of
  waiting_events-ShardsFor zero step sequence [] [] h few log = refl
  waiting_events-ShardsFor (suc limit) step sequence [] [] h few log = refl
  waiting_events-ShardsFor limit step sequence [] (b ∷ bs) h few log = absurd (omega arith)
  waiting_events-ShardsFor limit step sequence (s ∷ ss) [] h few log = absurd (omega arith)
  waiting_events-ShardsFor zero step sequence (s ∷ ss) (b ∷ bs) h few log = absurd (omega arith)
  waiting_events-ShardsFor (suc limit) step sequence (s ∷ ss) (b ∷ bs)
        (pending, unclaimed, _, _, _, items, later) few log =
      rw (pending, unclaimed, events_of, items)
        (ap (λ t. activations outlets.unmarshal plane campaign_id step b ++ t)
            (waiting_events-ShardsFor limit step (sequence + 1) ss bs later (omega arith) log)
          ∙ sym (map-append _ b (concat bs)))

-- With outlets that keep a log and read back what the start writes, ids that differ, and a backlog
-- within the limit at every tick, the ticks after the start of a campaign on an empty table publish
-- the activation of the first command for each target exactly once, in some order, and nothing else,
-- as soon as they claim as many shards as there are, in whatever order a claim returns its shards.
pub run-start_campaign :
    {W : Type 0} (outlets : Outlets W) (log : W → List CardEvent) (plane : Plane)
    (campaign : Campaign) (settings : Settings) (databases : List Database) (w : W)
    → Logs outlets log
    → ReadsBack outlets.unmarshal plane campaign.id
    → Ascending campaign.targets
    → (start_campaign plane campaign []).result ≡ ok tt
    → Distinct (start_campaign plane campaign []).table
    → All (Open settings (start_campaign plane campaign []).table) databases
    → length (start_campaign plane campaign []).table ≤ length databases * settings.batch_size
    → (step : ℕ) × (sent : List CardEvent) × (first_sequence campaign.commands ≡ ok step)
      × (log (run outlets settings databases w (start_campaign plane campaign []).table).0
          ≡ log w ++ sent)
      × Permᴰ sent (
          map (λ card. activation plane campaign.id step 0 (plane.card_text card)) campaign.targets)
run-start_campaign outlets log plane campaign settings databases w logs json a h d open_now few =
    let (step, new, batches, _, found, _, written, whole, _, _, holds) =
      start_campaign_lem outlets.unmarshal plane campaign [] json a h in
    let ticks = length databases * settings.batch_size in
    let readable : All (Readable outlets) new =
      Readable-ShardsFor outlets plane campaign.id step 1 new batches holds in
    let (sent, out, same) =
      log-run outlets log settings databases w (start_campaign plane campaign []).table logs
        (rw written readable) d open_now in
    (
      step,
      sent,
      found,
      out,
      subst (λ t. Permᴰ sent t)
          (ap (waiting_events outlets log ticks) written
            ∙ waiting_events-ShardsFor outlets plane campaign.id ticks step 1 new batches holds
                (rw written at few) log
            ∙ ap (activations outlets.unmarshal plane campaign.id step) whole)
          same,
    )
