-- ===== src/Planner/Ticks.antt =====
-- internal/planner/service.go, publishBatch: what the ticks of the planner do to the table of shards.
use Prim.Native.String.{String}
use text.Mathlib.Text.{◌==◌}
use text.Mathlib.TextEquality.{eq_iff}
use text.Mathlib.TextPositions.{eq_refl}
use mathlib.Core.List.{Permᴰ}
use ota_platform.Prelude.{
  ℕ, zero, suc, ◌≤◌, ◌≡◌, refl, ap, ◌∙◌, sym, inl, inr, Bool, true, false, ◌&&◌, not, List, [], ◌∷◌,
  some, Option-cases, Bool-cases, All, if◌then◌else◌, arith, ge→ltb,
}
use ota_platform.Executor.Types.{CardEvent}
use ota_platform.Shards.{CampaignShard, shard_published, one_of, is_pending}
use ota_platform.Planner.{
  Outlets, Database, Settings, ids, publish_events, publish_shard, preload, publish_claimed_shards,
  claim, set_pending, set_published, backlog, publish_batch,
}
use ota_platform.Planner.Orders.{All-Perm, set_published-Perm}
use ota_platform.Planner.Outcomes.{loop-complete, taken_by}

eq_sym : (s t : String) → (s == t) ≡ (t == s)
eq_sym s t = elim (Bool-cases (s == t)) [
  | inl e ↦ e ∙ sym ((eq_iff t s).1 (sym ((eq_iff s t).0 e)))
  | inr e ↦ elim (Bool-cases (t == s)) [
    | inl f ↦ (eq_iff s t).1 (sym ((eq_iff t s).0 f)) ∙ sym f
    | inr f ↦ e ∙ sym f
  ]
]

-- No two shards have one id.
unfoldable pub Distinct : List CampaignShard → Type 0
Distinct [] = Unit
Distinct (shard ∷ table) = (one_of shard.id (ids table) ≡ false) × Distinct table

abbrev pub is_waiting : CampaignShard → Bool
is_waiting shard = is_pending shard.status && not shard.claimed

abbrev pub published_shard : CampaignShard → CampaignShard
published_shard shard = record shard { status = shard_published; claimed = true }

-- The table in which the first shards that wait, at most so many, are published.
unfoldable pub publish_first : ℕ → List CampaignShard → List CampaignShard
publish_first zero table = table
publish_first (suc limit) [] = []
publish_first (suc limit) (shard ∷ table) =
    let with_it = publish_first limit table in
    let without = publish_first (suc limit) table in
    if is_waiting shard then published_shard shard ∷ with_it else shard ∷ without

ids-claim : (limit : ℕ) (table : List CampaignShard) → ids (claim limit table).1 ≡ ids table
unfolding claim
ids-claim zero table = refl
ids-claim (suc limit) [] = refl
ids-claim (suc limit) (shard ∷ table) =
    ground (arith, ids-claim limit table, ids-claim (suc limit) table)

-- An id that is not in the table is not claimed.
one_of-claim :
    (id : String) (limit : ℕ) (table : List CampaignShard)
    → one_of id (ids table) ≡ false
    → one_of id (ids (claim limit table).0) ≡ false
unfolding claim one_of
one_of-claim id zero table h = refl
one_of-claim id (suc limit) [] h = refl
one_of-claim id (suc limit) (shard ∷ table) h =
    ground (arith, one_of-claim id limit table, one_of-claim id (suc limit) table)

set_published-other :
    (id : String) (taken : List String) (table : List CampaignShard)
    → one_of id (ids table) ≡ false
    → set_published (id ∷ taken) table ≡ set_published taken table
unfolding set_published one_of
set_published-other id taken [] h = refl
set_published-other id taken (shard ∷ table) h =
    ground (arith, eq_sym id shard.id, set_published-other id taken table)

set_published-none : (table : List CampaignShard) → set_published [] table ≡ table
unfolding set_published one_of
set_published-none [] = refl
set_published-none (shard ∷ table) = ap (λ t. shard ∷ t) (set_published-none table)

set_pending-none : (table : List CampaignShard) → set_pending [] table ≡ table
unfolding set_pending one_of
set_pending-none [] = refl
set_pending-none (shard ∷ table) = ap (λ t. shard ∷ t) (set_pending-none table)

-- Marking what was claimed publishes the first shards that wait, and changes no other.
set_published-claim :
    (limit : ℕ) (table : List CampaignShard)
    → Distinct table
    → set_published (ids (claim limit table).0) (claim limit table).1 ≡ publish_first limit table
unfolding claim publish_first set_published one_of Distinct
set_published-claim zero table h = set_published-none table
set_published-claim (suc limit) [] h = refl
set_published-claim (suc limit) (shard ∷ table) h = elim (Bool-cases (is_waiting shard)) [
  | inl e ↦
      rw (e, eq_refl shard.id, one_of)
        (ap (λ t. published_shard shard ∷ t)
          (set_published-other shard.id (ids (claim limit table).0) (claim limit table).1
              (ap (one_of shard.id) (ids-claim limit table) ∙ h.0)
            ∙ set_published-claim limit table h.1))
  | inr e ↦
      rw (e, one_of-claim shard.id (suc limit) table h.0)
        (ap (λ t. shard ∷ t) (set_published-claim (suc limit) table h.1))
]

if-same : {A : Type 0} (b : Bool) (x : A) → (if b then x else x) ≡ x
if-same true x = refl
if-same false x = refl

-- Outlets that take every event, alone or in a batch.
unfoldable pub Reliable : {W : Type 0} → Outlets W → Type 0
Reliable {W} outlets =
    ((w : W) (event : CardEvent) → (outlets.publish w event).1 ≡ true)
    × ((call : W → List CardEvent → W × Bool)
        → outlets.publish_batch ≡ some call
        → (w : W) (events : List CardEvent) → (call w events).1 ≡ true)

unfoldable pub Readable : {W : Type 0} → Outlets W → CampaignShard → Type 0
Readable outlets shard = (events : List CardEvent) × (outlets.unmarshal shard.items ≡ some events)

module _ {W : Type 0} (outlets : Outlets W) where
  publish_events-Reliable :
      Reliable outlets
      → (w : W) (events : List CardEvent) → (publish_events outlets w events).complete ≡ true
  unfolding publish_events Reliable
  publish_events-Reliable h w [] = refl
  publish_events-Reliable h w (event ∷ events) =
      rw (h.0 w event) (publish_events-Reliable h (outlets.publish w event).0 events)

  pub publish_shard-Reliable :
      Reliable outlets
      → (w : W) (events : List CardEvent) → (publish_shard outlets w events).complete ≡ true
  unfolding publish_shard Reliable
  publish_shard-Reliable h w events = elim (Option-cases outlets.publish_batch) [
    | inl e ↦ rw e (publish_events-Reliable h w events)
    | inr (call, e) ↦ rw e (h.1 call e w events)
  ]

  published_ids-Reliable :
      Reliable outlets
      → (w : W) (shards : List CampaignShard) → All (Readable outlets) shards
      → ((publish_claimed_shards outlets w shards).published_ids ≡ ids shards)
        × ((publish_claimed_shards outlets w shards).pending_reset_ids ≡ [])
  unfolding Readable
  published_ids-Reliable h w [] r = unfold publish_claimed_shards in (refl, refl)
  published_ids-Reliable h w (shard ∷ shards) ((events, e), r) =
      let (published, reset) =
        published_ids-Reliable h (taken_by outlets w events).world shards r in
      rw
        (loop-complete outlets w shard shards events e
          (publish_shard-Reliable h (preload outlets w events) events))
        (ap (λ t. shard.id ∷ t) published, reset)

  pub Readable-claim :
      (limit : ℕ) (table : List CampaignShard)
      → All (Readable outlets) table
      → All (Readable outlets) (claim limit table).0
  unfolding claim Readable
  Readable-claim zero table r = tt
  Readable-claim (suc limit) [] r = tt
  Readable-claim (suc limit) (shard ∷ table) (r, rs) = elim (Bool-cases (is_waiting shard)) [
    | inl e ↦ rw e (r, Readable-claim limit table rs)
    | inr e ↦ rw e (Readable-claim (suc limit) table rs)
  ]

  -- A tick publishes the first shards that wait.
  pub publish_batch-publish_first :
      (settings : Settings) (database : Database) (w : W) (table : List CampaignShard)
      → Reliable outlets
      → database.claims ≡ true
      → database.marks ≡ true
      → All (Readable outlets) table
      → Distinct table
      → backlog database.running table ≤ settings.max_shard_backlog
      → ((shards : List CampaignShard) → Permᴰ (database.returned shards) shards)
      → (publish_batch outlets settings database w table).1
        ≡ publish_first settings.batch_size table
  unfolding publish_batch publish_first
  publish_batch-publish_first settings database w table h claims marks r d few perm =
      let claimed = claim settings.batch_size table in
      let (published, reset) =
        published_ids-Reliable h w (database.returned claimed.0)
          (All-Perm _ (perm claimed.0) (Readable-claim settings.batch_size table r)) in
      rw
        (
          publish_batch,
          ge→ltb settings.max_shard_backlog (backlog database.running table) few,
          claims,
          marks,
          published,
          reset,
          set_pending-none claimed.1,
          if-same database.resets claimed.1,
        )
        (set_published-Perm claimed.1 (perm claimed.0)
          ∙ set_published-claim settings.batch_size table d)
