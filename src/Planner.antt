-- ===== src/Planner.antt =====
-- internal/planner/service.go: claiming shards and publishing their events.
pub mod Outcomes
pub mod Orders
pub mod Ticks
pub mod Draining
pub mod Logging
use Prim.Native.String.{String}
use ota_platform.Prelude.{
  ℕ, zero, suc, ◌+◌, Bool, true, false, ◌&&◌, not, List, [], ◌∷◌, ◌++◌, map, Option, none, some,
  ltb, if◌then◌else◌, length,
}
use ota_platform.Prelude.Bits.{Bytes}
use ota_platform.Executor.Types.{CardEvent}
use ota_platform.Shards.{
  CampaignShard, ShardStatus, shard_pending, shard_publishing, shard_published, one_of, is_pending,
  is_open,
}

-- What the planner is given: the decoding of a shard's JSON, the preloader and the publisher, which
-- change the world `W`; the answer of the publisher is whether it took the events. `none` is a
-- preloader that is nil, and a publisher that is no BatchPublisher.
pub record Outlets (W : Type 0) : Type 0 where
  pub unmarshal : Bytes → Option (List CardEvent)
  pub preload_shard : Option (W → String → List String → W)
  pub publish : W → CardEvent → W × Bool
  pub publish_batch : Option (W → List CardEvent → W × Bool)

-- The events that the loop counts as taken, none of a batch that fails, and whether all are.
pub record Sent (W : Type 0) : Type 0 where
  pub world : W
  pub events : List CardEvent
  pub complete : Bool

pub record Outcome (W : Type 0) : Type 0 where
  pub world : W
  pub published_ids : List String
  pub pending_reset_ids : List String
  pub sent : List CardEvent

abbrev pub ids : List CampaignShard → List String
ids shards = map (λ shard. shard.id) shards

-- The ids to reset when a shard is not taken whole: it stays where some of its events are out.
unfoldable pub reset_ids : CampaignShard → List CardEvent → List CampaignShard → List String
reset_ids shard [] remaining = shard.id ∷ ids remaining
reset_ids shard (event ∷ events) remaining = ids remaining

module _ {W : Type 0} (outlets : Outlets W) where
  unfoldable pub preload : W → List CardEvent → W
  preload w [] = w
  preload w (event ∷ events) = elim outlets.preload_shard [
    | none ↦ w
    | some call ↦ call w event.campaign_id (map (λ e. e.card_id) (event ∷ events))
  ]

  -- The events one by one, up to the first that is refused.
  unfoldable pub publish_events : W → List CardEvent → Sent W
  publish_events w [] = record { world = w; events = []; complete = true }
  publish_events w (event ∷ events) =
      let answer = outlets.publish w event in
      let rest = publish_events answer.0 events in
      if answer.1
      then record { world = rest.world; events = event ∷ rest.events; complete = rest.complete }
      else record { world = answer.0; events = []; complete = false }

  -- The events of a shard, in one batch where the publisher can.
  unfoldable pub publish_shard : W → List CardEvent → Sent W
  unfolding publish_events
  publish_shard w events = elim outlets.publish_batch [
    | none ↦ publish_events w events
    | some call ↦
        let answer = call w events in
        record { world = answer.0; events = if answer.1 then events else []; complete = answer.1 }
  ]

  -- The loop of publishClaimedShards.
  unfoldable pub publish_claimed_shards : W → List CampaignShard → Outcome W
  unfolding preload publish_shard reset_ids
  publish_claimed_shards w [] = record {
    world = w;
    published_ids = [];
    pending_reset_ids = [];
    sent = [];
  }
  publish_claimed_shards w (shard ∷ shards) = elim (outlets.unmarshal shard.items) [
    | none ↦ record { world = w; published_ids = []; pending_reset_ids = shard.id ∷ []; sent = [] }
    | some events ↦
        let taken = publish_shard (preload w events) events in
        let rest = publish_claimed_shards taken.world shards in
        if taken.complete
        then record {
          world = rest.world;
          published_ids = shard.id ∷ rest.published_ids;
          pending_reset_ids = rest.pending_reset_ids;
          sent = taken.events ++ rest.sent;
        }
        else record {
          world = taken.world;
          published_ids = [];
          pending_reset_ids = reset_ids shard taken.events shards;
          sent = taken.events;
        }
  ]

-- The claim: at most `limit` shards that are pending and unclaimed, the first created ones. The
-- claimed shards come first, in the order of creation, then the table.
unfoldable pub claim : ℕ → List CampaignShard → List CampaignShard × List CampaignShard
claim zero table = ([], table)
claim (suc limit) [] = ([], [])
claim (suc limit) (shard ∷ table) =
    let taken = record shard { status = shard_publishing; claimed = true } in
    let with_it = claim limit table in
    let without = claim (suc limit) table in
    if is_pending shard.status && not shard.claimed
    then (taken ∷ with_it.0, taken ∷ with_it.1)
    else (without.0, shard ∷ without.1)

unfoldable pub set_pending : List String → List CampaignShard → List CampaignShard
set_pending ids table =
    map
      (λ shard.
        if one_of shard.id ids
        then record shard { status = shard_pending; claimed = false }
        else shard)
      table

unfoldable pub set_published : List String → List CampaignShard → List CampaignShard
set_published ids table =
    map (λ shard. if one_of shard.id ids then record shard { status = shard_published } else shard)
      table

-- The pending and publishing shards of running campaigns.
unfoldable pub backlog : (String → Bool) → List CampaignShard → ℕ
backlog running [] = 0
backlog running (shard ∷ table) =
    let rest = backlog running table in
    if is_open shard.status && running shard.campaign_id then suc rest else rest

-- What the database answers: the running campaigns, the order in which UPDATE ... RETURNING gives the
-- claimed shards, and whether each of the updates is done.
pub record Database : Type 0 where
  pub running : String → Bool
  pub returned : List CampaignShard → List CampaignShard
  pub claims : Bool
  pub resets : Bool
  pub marks : Bool

pub record Settings : Type 0 where
  pub batch_size : ℕ
  pub max_shard_backlog : ℕ

-- One tick of the planner on the table of shards.
unfoldable pub publish_batch :
    {W : Type 0} → Outlets W → Settings → Database → W → List CampaignShard → W × List CampaignShard
unfolding claim set_pending set_published backlog publish_claimed_shards
publish_batch outlets settings database w table =
    let claimed = claim settings.batch_size table in
    let outcome = publish_claimed_shards outlets w (database.returned claimed.0) in
    let reset =
      if database.resets then set_pending outcome.pending_reset_ids claimed.1 else claimed.1 in
    let marked = if database.marks then set_published outcome.published_ids reset else reset in
    if ltb settings.max_shard_backlog (backlog database.running table)
    then (w, table)
    else if database.claims
    then (outcome.world, marked)
    else (w, table)

-- The ticks of Run, each with what the database answers at it.
unfoldable pub run :
    {W : Type 0}
    → Outlets W
    → Settings
    → List Database
    → W
    → List CampaignShard
    → W × List CampaignShard
unfolding publish_batch
run outlets settings [] w table = (w, table)
run outlets settings (database ∷ later) w table =
    let after = publish_batch outlets settings database w table in
    run outlets settings later after.0 after.1
