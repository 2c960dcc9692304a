-- ===== src/Campaign/Stalling.antt =====
-- internal/controlplane/campaign.go and internal/planner/service.go: a campaign of many shards.
use Prim.Native.String.{String}
use ota_platform.Prelude.{
  ℕ, zero, suc, ◌+◌, ◌*◌, ◌≤◌, ◌<◌, ◌≡◌, refl, ap, Bool, true, List, [], ◌∷◌, ◌++◌, Option, length,
  concat, All, arith, length-append,
}
use ota_platform.Prelude.Bits.{Bytes}
use ota_platform.Prelude.Results.{ok}
use ota_platform.Executor.Types.{CardEvent}
use ota_platform.Shards.{CampaignShard}
use ota_platform.Planner.{Outlets, Settings, Database, backlog, run}
use ota_platform.Planner.Draining.{run-stalled}
use ota_platform.Campaign.Targets.{Ascending}
use ota_platform.Campaign.{Campaign, Plane, campaign_shard_size, start_campaign}
use ota_platform.Campaign.Starting.{ReadsBack, ShardsFor, start_campaign_lem}

-- Batches of at most a size are as many as their elements need.
length-concat-le :
    (size : ℕ) (batches : List (List ℕ))
    → All (λ batch. (0 < length batch) × (length batch ≤ size)) batches
    → length (concat batches) ≤ length batches * size
length-concat-le size [] h = omega arith
length-concat-le size (batch ∷ batches) (h, hs) =
    omega (arith, h.1, length-concat-le size batches hs, length-append batch (concat batches))

backlog-ShardsFor :
    (unmarshal : Bytes → Option (List CardEvent)) (plane : Plane) (campaign_id : String)
    (running : String → Bool)
    → running campaign_id ≡ true
    → (step sequence : ℕ) (new : List CampaignShard) (batches : List (List ℕ))
    → ShardsFor unmarshal plane campaign_id step sequence new batches
    → backlog running new ≡ length batches
unfolding backlog ShardsFor
backlog-ShardsFor unmarshal plane campaign_id running r step sequence [] [] h = refl
backlog-ShardsFor unmarshal plane campaign_id running r step sequence [] (b ∷ bs) h =
    absurd (omega arith)
backlog-ShardsFor unmarshal plane campaign_id running r step sequence (s ∷ ss) [] h =
    absurd (omega arith)
backlog-ShardsFor unmarshal plane campaign_id running r step sequence (s ∷ ss) (b ∷ bs)
      (pending, _, its, _, _, _, later) =
    rw (pending, its, r)
      (ap suc
        (backlog-ShardsFor unmarshal plane campaign_id running r step (sequence + 1) ss bs later))

backlog-append :
    (running : String → Bool) (table new : List CampaignShard)
    → backlog running new ≤ backlog running (table ++ new)
unfolding backlog
backlog-append running [] new = omega arith
backlog-append running (shard ∷ table) new = ground (arith, backlog-append running table new)

lt_of_mul : (m n k : ℕ) → m * k < n * k → m < n
lt_of_mul zero zero k h = absurd (omega arith)
lt_of_mul zero (suc n) k h = omega arith
lt_of_mul (suc m) zero k h = absurd (omega arith)
lt_of_mul (suc m) (suc n) k h = omega (arith, lt_of_mul m n k (omega arith))

-- The new shards alone are over the limit at every tick at which their campaign runs.
backlog-each :
    (unmarshal : Bytes → Option (List CardEvent)) (plane : Plane) (campaign_id : String) (limit : ℕ)
    (databases : List Database)
    → All (λ database. database.running campaign_id ≡ true) databases
    → (step sequence : ℕ) (table new : List CampaignShard) (batches : List (List ℕ))
    → limit < length batches
    → ShardsFor unmarshal plane campaign_id step sequence new batches
    → All (λ database. limit < backlog database.running (table ++ new)) databases
backlog-each unmarshal plane campaign_id limit [] h step sequence table new batches over holds = tt
backlog-each unmarshal plane campaign_id limit (database ∷ later) (r, h) step sequence table new
      batches over holds =
    (
      omega (
        arith,
        over,
        backlog-append database.running table new,
        backlog-ShardsFor unmarshal plane campaign_id database.running r step sequence new batches
            holds,
      ),
      backlog-each unmarshal plane campaign_id limit later h step sequence table new batches over
          holds,
    )

-- Where a campaign with more targets than the planner's backlog limit times the shard size was
-- started without an error, and is running at every tick, no number of ticks publishes or changes a
-- shard: its own shards hold the planner up.
pub start_campaign_stalls :
    {W : Type 0} (unmarshal : Bytes → Option (List CardEvent)) (plane : Plane) (campaign : Campaign)
    (table : List CampaignShard) (outlets : Outlets W) (settings : Settings)
    (databases : List Database) (w : W)
    → ReadsBack unmarshal plane campaign.id
    → Ascending campaign.targets
    → (start_campaign plane campaign table).result ≡ ok tt
    → settings.max_shard_backlog * campaign_shard_size plane < length campaign.targets
    → All (λ database. database.running campaign.id ≡ true) databases
    → run outlets settings databases w (start_campaign plane campaign table).table
      ≡ (w, (start_campaign plane campaign table).table)
start_campaign_stalls unmarshal plane campaign table outlets settings databases w json a h many
      running =
    let (step, new, batches, _, _, _, written, whole, _, sized, holds) =
      start_campaign_lem unmarshal plane campaign table json a h in
    let few : settings.max_shard_backlog * campaign_shard_size plane
        < length batches * campaign_shard_size plane =
      omega (
        arith,
        many,
        length-concat-le (campaign_shard_size plane) batches sized,
        ap length whole,
      ) in
    let over : settings.max_shard_backlog < length batches =
      lt_of_mul settings.max_shard_backlog (length batches) (campaign_shard_size plane) few in
    run-stalled outlets settings databases w (start_campaign plane campaign table).table (
      rw written (
        backlog-each unmarshal plane campaign.id settings.max_shard_backlog databases running step 1
          table new batches over holds))
