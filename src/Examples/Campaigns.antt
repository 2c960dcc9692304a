-- ===== src/Examples/Campaigns.antt =====
-- internal/controlplane and internal/planner at a campaign of five cards, in shards of two.
use Prim.Native.String.{String}
use text.Mathlib.Text.{◌==◌ as ◌=ₜ◌}
use mathlib.Core.List.{reverse}
use mathlib.Core.List.Permᴰ
use ota_platform.Prelude.{
  ℕ, suc, ◌≡◌, ◌≤◌, ◌<◌, refl, ap, inl, inr, true, false, List, [], ◌∷◌, ◌++◌, map, Option, none,
  some, ◌==◌, Bool-cases, length, concat, All, arith, if◌then◌else◌,
}
use ota_platform.Prelude.Bits.{Bytes}
use ota_platform.Prelude.Results.{Result, ok, err}
use ota_platform.Executor.Types.{CardEvent}
use ota_platform.Examples.Cards.{command_at}
use ota_platform.Shards.{CampaignShard, one_of}
use ota_platform.Planner.{Outlets, Database, ids, backlog, publish_claimed_shards, run}
use ota_platform.Planner.Outcomes.{all_events, Ending, Through, publish_claimed_shards_split}
use ota_platform.Planner.Ticks.{Reliable, Readable, Distinct}
use ota_platform.Planner.Draining.{Open, settle, run-settle}
use ota_platform.Campaign.Targets.{Ascending, for_each_target_batch}
use ota_platform.Campaign.{
  Campaign, campaign_pending, campaign_running, Plane, activation, first_sequence,
  campaign_shard_size, start_campaign,
}
use ota_platform.Campaign.Starting.{ReadsBack, ShardsFor, activations, start_campaign_lem}
use ota_platform.Campaign.Stalling.{start_campaign_stalls}
use ota_platform.Campaign.Life.{Request, start, pause, resume, abort}

abbrev pub campaign : Campaign
campaign = record {
  id = "campaign";
  status = campaign_pending;
  commands = command_at 1 ∷ command_at 2 ∷ [];
  targets = 10 ∷ 11 ∷ 12 ∷ 13 ∷ 14 ∷ [];
}

-- Two texts for all cards, and a code for the activations of the first step: which of the texts.
abbrev pub card_text : ℕ → String
card_text card = if card == 10 then "card-a" else "card-b"

abbrev pub card_code : String → ℕ
card_code text = if text =ₜ "card-a" then 10 else 11

-- An activation as its step and its card.
abbrev pub code : List CardEvent → Bytes
code [] = []
code (e ∷ events) = e.step ∷ card_code e.card_id ∷ code events

abbrev pub plane : Plane
plane = record {
  card_text = card_text;
  new_event_id = λ card. "event";
  new_shard_id = λ sequence. if sequence == 1 then "s1" else if sequence == 2 then "s2" else "s3";
  marshal = λ events. ok (code events);
  shard_size_setting = 2;
  max_backlog = 1000;
  targets_read = λ last. ok tt;
  initialize = some (λ id batch step. ok tt);
  cards = ok [];
  updated = ok tt;
  created = λ shard. ok tt;
}

abbrev pub decode : Bytes → List CardEvent
decode [] = []
decode (step ∷ []) = []
decode (step ∷ card ∷ items) =
    activation plane "campaign" step 0 (plane.card_text card) ∷ decode items

card_text-card_code : (card : ℕ) → card_text (card_code (card_text card)) ≡ card_text card
card_text-card_code card = elim (Bool-cases (card == 10)) [ inl e ↦ rw e refl | inr e ↦ rw e refl ]

abbrev pub unmarshal : Bytes → Option (List CardEvent)
unmarshal items = some (decode items)

decode-code :
    (step : ℕ) (batch : List ℕ)
    → decode (code (activations unmarshal plane "campaign" step batch))
      ≡ activations unmarshal plane "campaign" step batch
unfolding activation
decode-code step [] = refl
decode-code step (card ∷ batch) = rw (card_text-card_code card, decode-code step batch) refl

pub plane-ReadsBack : ReadsBack unmarshal plane "campaign"
unfolding ReadsBack
plane-ReadsBack step batch items e =
    let same : code (activations unmarshal plane "campaign" step batch) ≡ items = cc e in
    rw (← same) (ap (λ t. some t) (decode-code step batch))

pub targets-Ascending : Ascending campaign.targets
unfolding Ascending
targets-Ascending = (
  (omega arith, (omega arith, (omega arith, (omega arith, tt)))),
  (
    (omega arith, (omega arith, (omega arith, tt))),
    ((omega arith, (omega arith, tt)), ((omega arith, tt), (tt, tt))),
  ),
)

pub started : (start_campaign plane campaign []).result ≡ ok tt
unfolding start_campaign for_each_target_batch
started = refl

-- The query behind card 13 fails.
abbrev find_until : Option ℕ → Result ℕ (Unit {0})
find_until none = ok tt
find_until (some card) = if card == 13 then err 1 else ok tt

start_campaign_lem_example :
    (step : ℕ) × (new : List CampaignShard) × (batches : List (List ℕ)) × (campaign.status
      ≡ campaign_pending)
    × (first_sequence campaign.commands ≡ ok step)
    × ((start_campaign plane campaign []).campaign.status ≡ campaign_running)
    × ((start_campaign plane campaign []).table ≡ [] ++ new)
    × (concat batches ≡ campaign.targets)
    × (0 < length campaign.targets)
    × All (λ batch. (0 < length batch) × (length batch ≤ campaign_shard_size plane)) batches
    × ShardsFor unmarshal plane "campaign" step 1 new batches
start_campaign_lem_example =
    start_campaign_lem unmarshal plane campaign [] plane-ReadsBack targets-Ascending started

-- A publisher that counts, one event at a time, and one that takes a batch but fails on the third
-- event.
abbrev counting : Outlets ℕ
counting = record {
  unmarshal = unmarshal;
  preload_shard = none;
  publish = λ w event. (suc w, true);
  publish_batch = none;
}

abbrev failing : Outlets ℕ
failing = record {
  unmarshal = unmarshal;
  preload_shard = none;
  publish = λ w event. if w == 2 then (w, false) else (suc w, true);
  publish_batch = none;
}

abbrev pub table : List CampaignShard
table = (start_campaign plane campaign []).table

-- The database returns the claimed shards with the last one first.
abbrev pub database : Database
database = record {
  running = λ id. true;
  returned = λ shards. reverse shards;
  claims = true;
  resets = true;
  marks = true;
}

publish_claimed_shards_split_example :
    (done : List CampaignShard) × (rest : List CampaignShard) × (sent : List CardEvent) × (w' : ℕ)
    × (table ≡ done ++ rest)
    × ((publish_claimed_shards failing 0 table).published_ids ≡ ids done)
    × ((publish_claimed_shards failing 0 table).sent ≡ all_events failing done ++ sent)
    × Through failing 0 done w'
    × Ending failing w' rest (publish_claimed_shards failing 0 table).pending_reset_ids sent
publish_claimed_shards_split_example = publish_claimed_shards_split failing 0 table

-- The stall with a limit of one shard.
start_campaign_stalls_example :
    run counting
      (record { batch_size = 5000; max_shard_backlog = 1 })
      (database ∷ database ∷ [])
      0
      (start_campaign plane campaign []).table
    ≡ (0, (start_campaign plane campaign []).table)
unfolding campaign_shard_size
start_campaign_stalls_example =
    start_campaign_stalls unmarshal plane campaign [] counting
      (record { batch_size = 5000; max_shard_backlog = 1 }) (database ∷ database ∷ []) 0
      plane-ReadsBack targets-Ascending started (omega arith) (refl, (refl, tt))

counting-Reliable : Reliable counting
unfolding Reliable
counting-Reliable = (λ w event. refl, λ call e w events. absurd (cc e))

table-Readable : All (Readable counting) table
unfolding Readable start_campaign for_each_target_batch
table-Readable = ((_, refl), ((_, refl), ((_, refl), tt)))

pub table-Distinct : Distinct table
unfolding Distinct start_campaign one_of for_each_target_batch
table-Distinct = (refl, (refl, (refl, tt)))

-- Three shards in claims of two: two ticks.
run-settle_example :
    (run counting
      (record { batch_size = 2; max_shard_backlog = 500 })
      (database ∷ database ∷ [])
      0
      table).1
    ≡ map settle table
unfolding Open backlog start_campaign for_each_target_batch
run-settle_example =
    run-settle counting (record { batch_size = 2; max_shard_backlog = 500 })
      (database ∷ database ∷ []) 0 table counting-Reliable table-Readable table-Distinct
      ((refl, refl, omega arith, Permᴰ.reverse), ((refl, refl, omega arith, Permᴰ.reverse), tt))
      (omega arith)

-- A campaign that is aborted, and what is asked of it later.
abbrev until_aborted : List Request
until_aborted = start plane ∷ pause plane ∷ resume plane ∷ abort plane ∷ []
