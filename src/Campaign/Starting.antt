-- ===== src/Campaign/Starting.antt =====
-- internal/controlplane/campaign.go, StartCampaign: what a start writes.
use Prim.Native.String.{String}
use ota_platform.Prelude.{
  ℕ, zero, suc, ◌+◌, ◌≤◌, ◌<◌, ◌≡◌, refl, ap, ◌∙◌, sym, inl, inr, false, List, [], ◌∷◌, ◌++◌, map,
  append_assoc, append-nil, Option, some, length, concat, All, arith, length-append, length-map,
}
use ota_platform.Prelude.Bits.{Bytes}
use ota_platform.Prelude.Results.{Result, ok}
use ota_platform.Executor.Types.{CardEvent}
use ota_platform.Shards.{CampaignShard, shard_pending}
use ota_platform.Campaign.Targets.{
  Ascending, on_batches, on_batches-cons, for_each_target_batch_lem,
}
use ota_platform.Campaign.{
  Campaign, CampaignError, campaign_running, campaign_pending, first_sequence, Plane, on_error,
  database_failed, campaign_shard_size, activation, new_shard, Sharding, create_shard, for_targets,
  create_shards, admit, start_campaign,
}

module _ (unmarshal : Bytes → Option (List CardEvent)) (plane : Plane) (campaign_id : String) where
  abbrev pub activations : ℕ → List ℕ → List CardEvent
  activations step batch =
      map (λ card. activation plane campaign_id step 0 (plane.card_text card)) batch

  -- The JSON of the activations that a start writes is read back as those activations.
  unfoldable pub ReadsBack : Type 0
  ReadsBack =
      (step : ℕ) (batch : List ℕ) (items : Bytes)
      → plane.marshal (activations step batch) ≡ ok items
      → unmarshal items ≡ some (activations step batch)

  -- The shards of these batches, numbered from `sequence`: new ones, each with the activations of its
  -- batch as its items.
  unfoldable pub ShardsFor : ℕ → ℕ → List CampaignShard → List (List ℕ) → Type 0
  ShardsFor step sequence [] [] = Unit
  ShardsFor step sequence [] (batch ∷ batches) = zero ≡ suc zero
  ShardsFor step sequence (shard ∷ shards) [] = zero ≡ suc zero
  ShardsFor step sequence (shard ∷ shards) (batch ∷ batches) =
      (shard.status ≡ shard_pending)
      × (shard.claimed ≡ false)
      × (shard.campaign_id ≡ campaign_id)
      × (shard.sequence ≡ sequence)
      × (shard.item_count ≡ length batch)
      × (unmarshal shard.items ≡ some (activations step batch))
      × ShardsFor step (sequence + 1) shards batches

  create_shard-eq-ok :
      (step : ℕ) (s s' : Sharding) (batch : List ℕ)
      → create_shard plane campaign_id step s batch ≡ ok s'
      → (items : Bytes) × (plane.marshal (activations step batch) ≡ ok items)
        × (s' ≡ record {
          pending_cards = s.pending_cards + length batch;
          sequence = s.sequence + 1;
          shards =
              s.shards
              ++ (new_shard plane campaign_id s.sequence (length (activations step batch)) items
                  ∷ []);
        })
  unfolding create_shard
  create_shard-eq-ok step s s' batch h = ground arith

  on_batches-create_shard :
      ReadsBack
      → (step : ℕ) (s s' : Sharding) (batches : List (List ℕ))
      → on_batches (create_shard plane campaign_id step) s batches ≡ ok s'
      → (new : List CampaignShard) × (s'.shards ≡ s.shards ++ new)
        × (s'.pending_cards ≡ s.pending_cards + length (concat batches))
        × ShardsFor step s.sequence new batches
  unfolding on_batches ShardsFor ReadsBack
  on_batches-create_shard json step s s' [] h =
      let e : s ≡ s' = cc h in rw (← e) ([], sym (append-nil s.shards), omega arith, tt)
  on_batches-create_shard json step s s' (batch ∷ batches) h =
      let (t, ran, later) =
        on_batches-cons (create_shard plane campaign_id step) s s' batch batches h in
      let (items, written, e) = create_shard-eq-ok step s t batch ran in
      let (new, split, count, holds) = on_batches-create_shard json step t s' batches later in
      let shard = new_shard plane campaign_id s.sequence (length (activations step batch)) items in
      let counted : t.pending_cards ≡ s.pending_cards + length batch =
        ap (λ x. x.pending_cards) e in
      (
        shard ∷ new,
        split ∙ ap (λ x. x.shards ++ new) e ∙ append_assoc s.shards (shard ∷ []) new,
        omega (arith, count, counted, length-append batch (concat batches)),
        (
          unfold new_shard in refl,
          unfold new_shard in refl,
          unfold new_shard in refl,
          unfold new_shard in refl,
          unfold new_shard in length-map _ batch,
          unfold new_shard in json step batch items written,
          rw (ap (λ x. x.sequence) e) at holds,
        ),
      )

campaign_shard_size_pos : (plane : Plane) → 0 < campaign_shard_size plane
unfolding campaign_shard_size
campaign_shard_size_pos plane = ground arith

-- The loop over the targets, where it succeeds, ends with what its function gives on batches that are
-- the targets.
for_targets-batches :
    {S : Type 0} (plane : Plane) (campaign : Campaign) (fn : S → List ℕ → Result CampaignError S)
    (s s' : S)
    → Ascending campaign.targets
    → for_targets plane campaign fn s ≡ ok s'
    → (batches : List (List ℕ)) × (concat batches ≡ campaign.targets)
      × All (λ batch. (0 < length batch) × (length batch ≤ campaign_shard_size plane)) batches
      × (on_batches fn s batches ≡ ok s')
unfolding for_targets
for_targets-batches plane campaign fn s s' a h =
    let (batches, whole, sized, ends) =
      for_each_target_batch_lem (λ last. on_error database_failed (plane.targets_read last)) fn
        campaign.targets (campaign_shard_size plane) s (campaign_shard_size_pos plane) a in
    (
      batches,
      whole,
      sized,
      elim ends [
        | inl e ↦ rw (e, for_targets) at h
        | inr (x, _, e) ↦ absurd (cc (rw (e, for_targets) at h))
      ],
    )

create_shards-eq-ok :
    (plane : Plane) (campaign : Campaign) (step : ℕ) (shards : List CampaignShard)
    → create_shards plane campaign step ≡ ok shards
    → (s : Sharding) × (for_targets plane campaign
          (create_shard plane campaign.id step)
          (record { pending_cards = 0; sequence = 1; shards = [] })
        ≡ ok s)
      × (0 < s.pending_cards)
      × (s.shards ≡ shards)
unfolding create_shards
create_shards-eq-ok plane campaign step shards h = ground arith

start_campaign-eq-ok :
    (plane : Plane) (campaign : Campaign) (table : List CampaignShard)
    → (start_campaign plane campaign table).result ≡ ok tt
    → (step : ℕ) × (shards : List CampaignShard) × (admit plane campaign table ≡ ok step)
      × (create_shards plane campaign step ≡ ok shards)
      × ((start_campaign plane campaign table).table ≡ table ++ shards)
      × ((start_campaign plane campaign table).campaign.status ≡ campaign_running)
unfolding start_campaign
start_campaign-eq-ok plane campaign table h = ground arith

-- The first command and the status are those that the admission asks for.
admit-eq-ok :
    (plane : Plane) (campaign : Campaign) (table : List CampaignShard) (step : ℕ)
    → admit plane campaign table ≡ ok step
    → (first_sequence campaign.commands ≡ ok step) × (campaign.status ≡ campaign_pending)
unfolding admit
admit-eq-ok plane campaign table step h = ground arith

-- A start that succeeds found the campaign pending and leaves it running, with new shards at the end
-- of the table: pending, numbered from 1, none larger than the size, holding one activation of the
-- first command for each target, in order; and there is a target.
pub start_campaign_lem :
    (unmarshal : Bytes → Option (List CardEvent)) (plane : Plane) (campaign : Campaign)
    (table : List CampaignShard)
    → ReadsBack unmarshal plane campaign.id
    → Ascending campaign.targets
    → (start_campaign plane campaign table).result ≡ ok tt
    → (step : ℕ) × (new : List CampaignShard) × (batches : List (List ℕ)) × (campaign.status
        ≡ campaign_pending)
      × (first_sequence campaign.commands ≡ ok step)
      × ((start_campaign plane campaign table).campaign.status ≡ campaign_running)
      × ((start_campaign plane campaign table).table ≡ table ++ new)
      × (concat batches ≡ campaign.targets)
      × (0 < length campaign.targets)
      × All (λ batch. (0 < length batch) × (length batch ≤ campaign_shard_size plane)) batches
      × ShardsFor unmarshal plane campaign.id step 1 new batches
start_campaign_lem unmarshal plane campaign table json a h =
    let (step, shards, admitted, created, written, running) =
      start_campaign-eq-ok plane campaign table h in
    let (found, was) = admit-eq-ok plane campaign table step admitted in
    let (s, looped, some_cards, e) = create_shards-eq-ok plane campaign step shards created in
    let none_yet : Sharding = record { pending_cards = 0; sequence = 1; shards = [] } in
    let (batches, whole, sized, same) =
      for_targets-batches plane campaign (create_shard plane campaign.id step) none_yet s a
        looped in
    let (new, split, count, holds) =
      on_batches-create_shard unmarshal plane campaign.id json step none_yet s batches same in
    (
      step,
      new,
      batches,
      was,
      found,
      running,
      written ∙ ap (λ t. table ++ t) (sym e ∙ split),
      whole,
      omega (arith, count, some_cards, ap length whole),
      sized,
      holds,
    )
