-- ===== src/Store/Recovery/Exactness.antt =====
-- internal/pgstore/recovery.go, recoverCampaign: what the open shards of a campaign hold after it.
use Prim.Native.String.{String}
use text.Mathlib.Text.{◌==◌ as ◌=ₜ◌}
use text.Mathlib.TextPositions.{eq_refl}
use ota_platform.Prelude.{
  ℕ, zero, suc, ◌+◌, ◌≤◌, ◌<◌, ◌≡◌, refl, ap, ◌∙◌, sym, inl, inr, ◌&&◌, List, [], ◌∷◌, ◌++◌,
  append_assoc, append-nil, Option, none, some, if◌then◌else◌, Bool-cases, length, take, drop,
  drop-drop, take-append-drop, length-drop, arith,
}
use ota_platform.Prelude.Bits.{Bytes}
use ota_platform.Prelude.Results.{ok, Result-cases}
use ota_platform.Executor.Types.{CardEvent}
use ota_platform.Shards.{CampaignShard, is_open}
use ota_platform.Campaign.{Campaign, CardRow, Plane, new_shard}
use ota_platform.Campaign.Resuming.{max_sequence}
use ota_platform.Store.Recovery.{delete_stale, recreate_shards, recovered_events, recover_campaign}

module _ (unmarshal : Bytes → Option (List CardEvent)) (campaign_id : String) where
  abbrev pub events_or_none : Option (List CardEvent) → List CardEvent
  events_or_none none = []
  events_or_none (some events) = events

  -- The events of the open shards of the campaign.
  unfoldable pub open_events : List CampaignShard → List CardEvent
  open_events [] = []
  open_events (shard ∷ table) =
      let rest = open_events table in
      if is_open shard.status && (shard.campaign_id =ₜ campaign_id)
      then events_or_none (unmarshal shard.items) ++ rest
      else rest

  open_events-append :
      (t u : List CampaignShard) → open_events (t ++ u) ≡ open_events t ++ open_events u
  unfolding open_events
  open_events-append [] u = refl
  open_events-append (shard ∷ t) u =
      elim (Bool-cases (is_open shard.status && (shard.campaign_id =ₜ campaign_id))) [
        | inl e ↦ rw e (
            ap (λ x. events_or_none (unmarshal shard.items) ++ x) (open_events-append t u)
            ∙ sym (
                append_assoc (events_or_none (unmarshal shard.items)) (open_events t)
                  (open_events u)))
        | inr e ↦ rw e (open_events-append t u)
      ]

  open_events-delete_stale :
      (table : List CampaignShard) → open_events (delete_stale campaign_id table) ≡ []
  unfolding open_events delete_stale
  open_events-delete_stale [] = refl
  open_events-delete_stale (shard ∷ table) =
      elim (Bool-cases (is_open shard.status && (shard.campaign_id =ₜ campaign_id))) [
        | inl e ↦ rw e (open_events-delete_stale table)
        | inr e ↦ rw e (rw e (open_events-delete_stale table))
      ]

  -- The JSON of every part of these events is read back.
  unfoldable pub ReadsParts : Plane → List CardEvent → Type 0
  ReadsParts plane events =
      (m n : ℕ) (items : Bytes)
      → plane.marshal (take n (drop m events)) ≡ ok items
      → unmarshal items ≡ some (take n (drop m events))

  ReadsParts-drop :
      (plane : Plane) (events : List CardEvent) (size : ℕ)
      → ReadsParts plane events
      → ReadsParts plane (drop size events)
  unfolding ReadsParts
  ReadsParts-drop plane events size h m n items =
      rw (drop-drop events size m (size + m) refl) (h (size + m) n items)

  open_events-new_shard :
      (plane : Plane) (sequence count : ℕ) (items : Bytes) (chunk : List CardEvent)
      → unmarshal items ≡ some chunk
      → open_events (new_shard plane campaign_id sequence count items ∷ []) ≡ chunk
  unfolding open_events new_shard
  open_events-new_shard plane sequence count items chunk e =
      rw (eq_refl campaign_id, e) (append-nil chunk)

  recreate_shards-eq-ok :
      (rounds : ℕ) (plane : Plane) (size sequence : ℕ) (event : CardEvent) (events : List CardEvent)
      (table : List CampaignShard)
      → (recreate_shards (suc rounds) plane campaign_id size sequence (event ∷ events) table).1
        ≡ ok tt
      → (items : Bytes) × (plane.marshal (take size (event ∷ events)) ≡ ok items)
        × (recreate_shards (suc rounds) plane campaign_id size sequence (event ∷ events) table
            ≡ recreate_shards rounds plane campaign_id size
                (sequence + 1)
                (drop size (event ∷ events))
                (table
                  ++ (new_shard plane campaign_id sequence
                        (length (take size (event ∷ events)))
                        items
                      ∷ [])))
  unfolding recreate_shards
  recreate_shards-eq-ok rounds plane size sequence event events table h =
      let chunk = take size (event ∷ events) in
      elim (Result-cases (plane.marshal chunk)) [
        | inr (e, failed) ↦ absurd (cc (rw (failed, recreate_shards) at h))
        | inl (items, written) ↦
            let shard = new_shard plane campaign_id sequence (length chunk) items in
            elim (Result-cases (plane.created shard)) [
              | inr (e, failed) ↦ absurd (cc (rw (written, failed, recreate_shards) at h))
              | inl (done, created) ↦ (items, written, rw (written, created, recreate_shards) refl)
            ]
      ]

  open_events-recreate_shards :
      (rounds : ℕ) (plane : Plane) (size sequence : ℕ) (events : List CardEvent)
      (table : List CampaignShard)
      → 0 < size
      → length events ≤ rounds
      → ReadsParts plane events
      → (recreate_shards rounds plane campaign_id size sequence events table).1 ≡ ok tt
      → open_events (recreate_shards rounds plane campaign_id size sequence events table).0
        ≡ open_events table ++ events
  unfolding recreate_shards ReadsParts
  open_events-recreate_shards zero plane size sequence [] table p q j h =
      sym (append-nil (open_events table))
  open_events-recreate_shards zero plane size sequence (event ∷ events) table p q j h =
      absurd (omega arith)
  open_events-recreate_shards (suc rounds) plane size sequence [] table p q j h =
      sym (append-nil (open_events table))
  open_events-recreate_shards (suc rounds) plane size sequence (event ∷ events) table p q j h =
      let all = event ∷ events in
      let chunk = take size all in
      let (items, written, e) =
        recreate_shards-eq-ok rounds plane size sequence event events table h in
      let shard = new_shard plane campaign_id sequence (length chunk) items in
      let rest =
        open_events-recreate_shards rounds plane size (sequence + 1) (drop size all)
          (table ++ (shard ∷ [])) p (omega (arith, length-drop size all))
          (ReadsParts-drop plane all size j) (ap (λ r. r.1) (sym e) ∙ h) in
      ap (λ r. open_events r.0) e
      ∙ rest
      ∙ ap (λ t. t ++ drop size all)
          (open_events-append table (shard ∷ [])
            ∙ ap (λ t. open_events table ++ t)
                (open_events-new_shard plane sequence (length chunk) items chunk
                  (j 0 size items written)))
      ∙ append_assoc (open_events table) chunk (drop size all)
      ∙ ap (λ t. open_events table ++ t) (take-append-drop size all)

recover_campaign-eq-ok :
    (plane : Plane) (size : ℕ) (campaign : Campaign) (table : List CampaignShard)
    (rows : List CardRow)
    → plane.cards ≡ ok rows
    → 0 < length (recovered_events plane campaign rows)
    → (recover_campaign plane size campaign table).1 ≡ ok tt
    → recover_campaign plane size campaign table
      ≡ recreate_shards
          (length (recovered_events plane campaign rows))
          plane
          campaign.id
          size
          (max_sequence campaign.id (delete_stale campaign.id table) + 1)
          (recovered_events plane campaign rows)
          (delete_stale campaign.id table)
unfolding recover_campaign
recover_campaign-eq-ok plane size campaign table rows e some_left h = ground arith

-- A recovery that returns no error, with a card that is not finished, leaves open shards of the
-- campaign that hold exactly the events of its unfinished cards, each once and in order: the shards
-- that were open before are gone.
pub recover_campaign_lem :
    (unmarshal : Bytes → Option (List CardEvent)) (plane : Plane) (size : ℕ) (campaign : Campaign)
    (table : List CampaignShard) (rows : List CardRow)
    → 0 < size
    → plane.cards ≡ ok rows
    → 0 < length (recovered_events plane campaign rows)
    → ReadsParts unmarshal campaign.id plane (recovered_events plane campaign rows)
    → (recover_campaign plane size campaign table).1 ≡ ok tt
    → open_events unmarshal campaign.id (recover_campaign plane size campaign table).0
      ≡ recovered_events plane campaign rows
recover_campaign_lem unmarshal plane size campaign table rows p e some_left j h =
    let events = recovered_events plane campaign rows in
    let kept = delete_stale campaign.id table in
    let run = recover_campaign-eq-ok plane size campaign table rows e some_left h in
    ap (λ r. open_events unmarshal campaign.id r.0) run
    ∙ open_events-recreate_shards unmarshal campaign.id (length events) plane size
        (max_sequence campaign.id kept + 1) events kept p (omega arith) j
        (ap (λ r. r.1) (sym run) ∙ h)
    ∙ ap (λ t. t ++ events) (open_events-delete_stale unmarshal campaign.id table)
