-- ===== src/Shards.antt =====
-- internal/db/models.go, CampaignShard, and its table as a list in the order of creation. Times are
-- left out but for whether a shard is claimed.
use Prim.Native.String.{String}
use text.Mathlib.Text.{◌==◌}
use ota_platform.Prelude.{ℕ, Bool, true, false, ◌||◌, List, [], ◌∷◌}
use ota_platform.Prelude.Bits.{Bytes}

-- CampaignShard.Status, a string in the source
pub data ShardStatus : Type 0 where
  shard_pending : ShardStatus
  shard_publishing : ShardStatus
  shard_published : ShardStatus

-- `claimed` says that claimed_at is not NULL; `items` is the JSON text of the events.
pub record CampaignShard : Type 0 where
  pub id : String
  pub campaign_id : String
  pub sequence : ℕ
  pub status : ShardStatus
  pub item_count : ℕ
  pub items : Bytes
  pub claimed : Bool

-- id IN ids
unfoldable pub one_of : String → List String → Bool
one_of id [] = false
one_of id (i ∷ ids) = i == id || one_of id ids

abbrev pub is_pending : ShardStatus → Bool
is_pending shard_pending = true
is_pending shard_publishing = false
is_pending shard_published = false

-- status IN ('pending', 'publishing')
abbrev pub is_open : ShardStatus → Bool
is_open shard_pending = true
is_open shard_publishing = true
is_open shard_published = false
