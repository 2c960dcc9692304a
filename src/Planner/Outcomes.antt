-- ===== src/Planner/Outcomes.antt =====
-- internal/planner/service.go, publishClaimedShards: which of the claimed shards are published, which
-- are reset, and which are left as they are.
use Prim.Native.String.{String}
use ota_platform.Prelude.{
  ◌≡◌, refl, ap, ◌∙◌, sym, inl, inr, true, false, List, [], ◌∷◌, ◌++◌, append_assoc, none, some,
  Option-cases, Bool-cases, arith,
}
use ota_platform.Executor.Types.{CardEvent}
use ota_platform.Shards.{CampaignShard}
use ota_platform.Planner.{
  Outlets, Sent, ids, publish_events, publish_shard, reset_ids, publish_claimed_shards, preload,
}

module _ {W : Type 0} (outlets : Outlets W) where
  -- The events of a shard, none where they cannot be read.
  unfoldable pub events_of : CampaignShard → List CardEvent
  events_of shard = elim (outlets.unmarshal shard.items) [ none ↦ [] | some events ↦ events ]

  unfoldable pub all_events : List CampaignShard → List CardEvent
  unfolding events_of
  all_events [] = []
  all_events (shard ∷ shards) = events_of shard ++ all_events shards

  pub all_events-cons :
      (shard : CampaignShard) (shards : List CampaignShard) (events : List CardEvent)
      → outlets.unmarshal shard.items ≡ some events
      → all_events (shard ∷ shards) ≡ events ++ all_events shards
  unfolding all_events events_of
  all_events-cons shard shards events e = rw (e, events_of) refl

  abbrev pub taken_by : W → List CardEvent → Sent W
  taken_by w events = publish_shard outlets (preload outlets w events) events

  -- Why the loop ended, in the world at that time: no shard is left, the next one cannot be read, the
  -- publisher stopped before the first of its events, or after some of them.
  pub data Ending (w : W) : List CampaignShard → List String → List CardEvent → Type 0 where
    all_done : Ending w [] [] []
    unreadable :
        (shard : CampaignShard) (remaining : List CampaignShard)
        → outlets.unmarshal shard.items ≡ none
        → Ending w (shard ∷ remaining) (shard.id ∷ []) []
    refused :
        (shard : CampaignShard) (remaining : List CampaignShard) (events : List CardEvent)
        → outlets.unmarshal shard.items ≡ some events
        → (taken_by w events).complete ≡ false
        → (taken_by w events).events ≡ []
        → Ending w (shard ∷ remaining) (ids (shard ∷ remaining)) []
    partial :
        (shard : CampaignShard) (remaining : List CampaignShard) (events : List CardEvent)
        (event : CardEvent) (taken : List CardEvent)
        → outlets.unmarshal shard.items ≡ some events
        → (taken_by w events).complete ≡ false
        → (taken_by w events).events ≡ event ∷ taken
        → Ending w (shard ∷ remaining) (ids remaining) (event ∷ taken)

  -- The world after shards that were all read and taken whole.
  pub data Through : W → List CampaignShard → W → Type 0 where
    none_yet : {w : W} → Through w [] w
    through :
        {w w' : W} (shard : CampaignShard) (shards : List CampaignShard) (events : List CardEvent)
        → outlets.unmarshal shard.items ≡ some events
        → (taken_by w events).complete ≡ true
        → Through (taken_by w events).world shards w'
        → Through w (shard ∷ shards) w'

  -- A shard taken whole is out with all its events.
  publish_events-complete :
      (w : W) (events : List CardEvent)
      → (publish_events outlets w events).complete ≡ true
      → (publish_events outlets w events).events ≡ events
  unfolding publish_events
  publish_events-complete w [] h = refl
  publish_events-complete w (event ∷ events) h =
      ground (arith, publish_events-complete (outlets.publish w event).0 events)

  publish_shard-complete :
      (w : W) (events : List CardEvent)
      → (publish_shard outlets w events).complete ≡ true
      → (publish_shard outlets w events).events ≡ events
  unfolding publish_shard
  publish_shard-complete w events h = elim (Option-cases outlets.publish_batch) [
    | inl e ↦ ground (arith, publish_events-complete w events)
    | inr (call, e) ↦ ground arith
  ]

  reset_ids-Ending :
      (w : W) (shard : CampaignShard) (events : List CardEvent) (remaining : List CampaignShard)
      → outlets.unmarshal shard.items ≡ some events
      → (taken_by w events).complete ≡ false
      → (sent : List CardEvent) → (taken_by w events).events ≡ sent
      → Ending w (shard ∷ remaining) (reset_ids shard sent remaining) sent
  unfolding reset_ids
  reset_ids-Ending w shard events remaining e left [] same =
      refused shard remaining events e left same
  reset_ids-Ending w shard events remaining e left (event ∷ taken) same =
      partial shard remaining events event taken e left same

  -- The loop at a shard: unreadable, taken whole, and not.
  pub loop-unreadable :
      (w : W) (shard : CampaignShard) (shards : List CampaignShard)
      → outlets.unmarshal shard.items ≡ none
      → publish_claimed_shards outlets w (shard ∷ shards)
        ≡ record { world = w; published_ids = []; pending_reset_ids = shard.id ∷ []; sent = [] }
  unfolding publish_claimed_shards
  loop-unreadable w shard shards e = ground (arith, e)

  pub loop-complete :
      (w : W) (shard : CampaignShard) (shards : List CampaignShard) (events : List CardEvent)
      → outlets.unmarshal shard.items ≡ some events
      → (taken_by w events).complete ≡ true
      → publish_claimed_shards outlets w (shard ∷ shards) ≡ (
          let rest = publish_claimed_shards outlets (taken_by w events).world shards in
          record {
            world = rest.world;
            published_ids = shard.id ∷ rest.published_ids;
            pending_reset_ids = rest.pending_reset_ids;
            sent = events ++ rest.sent;
          })
  unfolding publish_claimed_shards
  loop-complete w shard shards events e all =
      rw (e, publish_claimed_shards)
        (rw (all, publish_shard-complete (preload outlets w events) events all) refl)

  loop-incomplete :
      (w : W) (shard : CampaignShard) (shards : List CampaignShard) (events : List CardEvent)
      → outlets.unmarshal shard.items ≡ some events
      → (taken_by w events).complete ≡ false
      → publish_claimed_shards outlets w (shard ∷ shards) ≡ record {
        world = (taken_by w events).world;
        published_ids = [];
        pending_reset_ids = reset_ids shard (taken_by w events).events shards;
        sent = (taken_by w events).events;
      }
  unfolding publish_claimed_shards
  loop-incomplete w shard shards events e some_left =
      rw (e, publish_claimed_shards) (rw some_left refl)

  -- The claimed shards are those published, in order, each of them read and taken whole with all its
  -- events sent, and a rest whose first shard says why the loop ended, and so which ids are reset: its
  -- own where it cannot be read, those of the whole rest where none of its events counts as taken, as
  -- of a batch that fails, and those after it where some but not all were taken.
  pub publish_claimed_shards_split :
      (w : W) (shards : List CampaignShard)
      → (done : List CampaignShard) × (rest : List CampaignShard) × (sent : List CardEvent)
        × (w' : W) × (shards ≡ done ++ rest)
        × ((publish_claimed_shards outlets w shards).published_ids ≡ ids done)
        × ((publish_claimed_shards outlets w shards).sent ≡ all_events done ++ sent)
        × Through w done w'
        × Ending w' rest (publish_claimed_shards outlets w shards).pending_reset_ids sent
  unfolding all_events events_of
  publish_claimed_shards_split w [] = (
    [],
    [],
    [],
    w,
    refl,
    unfold publish_claimed_shards in refl,
    unfold publish_claimed_shards in refl,
    none_yet,
    unfold publish_claimed_shards in all_done,
  )
  publish_claimed_shards_split w (shard ∷ shards) =
      elim (Option-cases (outlets.unmarshal shard.items)) [
        | inl e ↦
            rw (loop-unreadable w shard shards e)
              ([], shard ∷ shards, [], w, refl, refl, refl, none_yet, unreadable shard shards e)
        | inr (events, e) ↦ elim (Bool-cases (taken_by w events).complete) [
          | inl all ↦
              let (done, rest, sent, w', split, published, out, path, ending) =
                publish_claimed_shards_split (taken_by w events).world shards in
              rw (loop-complete w shard shards events e all) (
                shard ∷ done,
                rest,
                sent,
                w',
                ap (λ t. shard ∷ t) split,
                ap (λ t. shard.id ∷ t) published,
                ap (λ t. events ++ t) out
                    ∙ sym (append_assoc events (all_events done) sent)
                    ∙ ap (λ t. t ++ sent) (sym (all_events-cons shard done events e)),
                through shard done events e all path,
                ending,
              )
          | inr some_left ↦ rw (loop-incomplete w shard shards events e some_left) (
            [],
            shard ∷ shards,
            (taken_by w events).events,
            w,
            refl,
            refl,
            refl,
            none_yet,
            reset_ids-Ending w shard events shards e some_left (taken_by w events).events refl,
          )
        ]
      ]
