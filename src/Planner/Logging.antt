-- ===== src/Planner/Logging.antt =====
-- internal/planner/service.go: what the ticks of the planner hand to a publisher that keeps a log.
use Prim.Native.String.{String}
use mathlib.Core.List.{Permᴰ}
use mathlib.Core.List.Permᴰ
use mathlib.Core.Path.{subst}
use ota_platform.Planner.Orders.{All-Perm, all_events-Perm}
use ota_platform.Prelude.{
  ◌≤◌, ℕ, zero, suc, true, ◌+◌, ◌*◌, ◌≡◌, refl, ap, ◌∙◌, sym, inl, inr, Bool, List, [], ◌∷◌, ◌++◌,
  append_assoc, append-nil, some, Option-cases, Bool-cases, All, if◌then◌else◌, length, arith,
  ge→ltb,
}
use ota_platform.Executor.Types.{CardEvent}
use ota_platform.Shards.{CampaignShard}
use ota_platform.Planner.{
  Outlets, Settings, Database, publish_events, publish_shard, preload, publish_claimed_shards,
  claim, backlog, publish_batch, run,
}
use ota_platform.Planner.Outcomes.{events_of, all_events, all_events-cons, loop-complete, taken_by}
use ota_platform.Planner.Ticks.{
  Distinct, is_waiting, publish_first, Reliable, Readable, publish_shard-Reliable, Readable-claim,
  publish_batch-publish_first,
}
use ota_platform.Planner.Draining.{
  Open, Readable-publish_first, Distinct-publish_first, Open-publish_first,
}

opened :
    (settings : Settings) (table : List CampaignShard) (database : Database)
    → Open settings table database
    → (database.claims ≡ true)
      × (database.marks ≡ true)
      × (backlog database.running table ≤ settings.max_shard_backlog)
      × ((shards : List CampaignShard) → Permᴰ (database.returned shards) shards)
unfolding Open
opened settings table database h = h

module _ {W : Type 0} (outlets : Outlets W) (log : W → List CardEvent) where
  -- A publisher that takes every event and notes it at the end of its log, and a preloader that
  -- notes nothing.
  unfoldable pub Logs : Type 0
  Logs =
      Reliable outlets
      × ((w : W) (event : CardEvent) → log (outlets.publish w event).0 ≡ log w ++ (event ∷ []))
      × ((call : W → List CardEvent → W × Bool)
          → outlets.publish_batch ≡ some call
          → (w : W) (events : List CardEvent) → log (call w events).0 ≡ log w ++ events)
      × ((call : W → String → List String → W)
          → outlets.preload_shard ≡ some call
          → (w : W) (campaign_id : String) (cards : List String)
          → log (call w campaign_id cards) ≡ log w)

  log-publish_events :
      Logs
      → (w : W) (events : List CardEvent)
      → log (publish_events outlets w events).world ≡ log w ++ events
  unfolding publish_events Logs Reliable
  log-publish_events h w [] = sym (append-nil (log w))
  log-publish_events h w (event ∷ events) = rw (h.0.0 w event) (
      log-publish_events h (outlets.publish w event).0 events
      ∙ ap (λ t. t ++ events) (h.1 w event)
      ∙ append_assoc (log w) (event ∷ []) events)

  log-publish_shard :
      Logs
      → (w : W) (events : List CardEvent)
      → log (publish_shard outlets w events).world ≡ log w ++ events
  unfolding publish_shard Logs
  log-publish_shard h w events = elim (Option-cases outlets.publish_batch) [
    | inl e ↦ rw e (log-publish_events h w events)
    | inr (call, e) ↦ rw e (h.2 call e w events)
  ]

  log-preload : Logs → (w : W) (events : List CardEvent) → log (preload outlets w events) ≡ log w
  unfolding preload Logs
  log-preload h w [] = refl
  log-preload h w (event ∷ events) = elim (Option-cases outlets.preload_shard) [
    | inl e ↦ rw e refl
    | inr (call, e) ↦ rw e (h.3 call e w event.campaign_id _)
  ]

  log-publish_claimed_shards :
      Logs
      → (w : W) (shards : List CampaignShard) → All (Readable outlets) shards
      → log (publish_claimed_shards outlets w shards).world ≡ log w ++ all_events outlets shards
  unfolding Readable Logs
  log-publish_claimed_shards h w [] r =
      unfold publish_claimed_shards in unfold all_events in sym (append-nil (log w))
  log-publish_claimed_shards h w (shard ∷ shards) ((events, e), r) =
      let after = (taken_by outlets w events).world in
      rw
        (
          loop-complete outlets w shard shards events e
              (publish_shard-Reliable outlets h.0 (preload outlets w events) events),
          all_events-cons outlets shard shards events e,
        )
        (log-publish_claimed_shards h after shards r
          ∙ ap (λ t. t ++ all_events outlets shards)
              (log-publish_shard h (preload outlets w events) events
                ∙ ap (λ t. t ++ events) (log-preload h w events))
          ∙ append_assoc (log w) events (all_events outlets shards))

  -- The events of the first shards that wait, at most so many shards.
  unfoldable pub waiting_events : ℕ → List CampaignShard → List CardEvent
  unfolding events_of
  waiting_events zero table = []
  waiting_events (suc limit) [] = []
  waiting_events (suc limit) (shard ∷ table) =
      let with_it = waiting_events limit table in
      let without = waiting_events (suc limit) table in
      if is_waiting shard then events_of outlets shard ++ with_it else without

  all_events-claim :
      (limit : ℕ) (table : List CampaignShard)
      → all_events outlets (claim limit table).0 ≡ waiting_events limit table
  unfolding all_events claim waiting_events events_of
  all_events-claim zero table = refl
  all_events-claim (suc limit) [] = refl
  all_events-claim (suc limit) (shard ∷ table) = elim (Bool-cases (is_waiting shard)) [
    | inl e ↦ rw e (ap (λ t. events_of outlets shard ++ t) (all_events-claim limit table))
    | inr e ↦ rw e (all_events-claim (suc limit) table)
  ]

  waiting_events-nil : (n : ℕ) → waiting_events n [] ≡ []
  unfolding waiting_events
  waiting_events-nil zero = refl
  waiting_events-nil (suc n) = refl

  -- What is published first is not waiting any more.
  waiting_events-add :
      (n m k : ℕ) (table : List CampaignShard)
      → k ≡ n + m
      → waiting_events n table ++ waiting_events m (publish_first n table) ≡ waiting_events k table
  unfolding waiting_events publish_first events_of
  waiting_events-add zero m k table e = ap (λ t. waiting_events t table) (omega arith)
  waiting_events-add (suc n) m k [] e = waiting_events-nil m ∙ sym (waiting_events-nil k)
  waiting_events-add (suc n) m zero (shard ∷ table) e = absurd (omega arith)
  waiting_events-add (suc n) zero (suc k) (shard ∷ table) e =
      append-nil (waiting_events (suc n) (shard ∷ table))
      ∙ ap (λ t. waiting_events (suc t) (shard ∷ table)) (omega arith)
  waiting_events-add (suc n) (suc m) (suc k) (shard ∷ table) e =
      elim (Bool-cases (is_waiting shard)) [
        | inl w ↦ rw w (
            append_assoc (events_of outlets shard) (waiting_events n table)
              (waiting_events (suc m) (publish_first n table))
            ∙ ap (λ t. events_of outlets shard ++ t)
                (waiting_events-add n (suc m) k table (omega arith)))
        | inr w ↦ rw (w, w) (waiting_events-add (suc n) (suc m) (suc k) table e)
      ]

  -- A tick hands over the events of the first shards that wait, in the order of the claim.
  log-publish_batch :
      (settings : Settings) (database : Database) (w : W) (table : List CampaignShard)
      → Logs
      → All (Readable outlets) table
      → Open settings table database
      → (sent : List CardEvent) × (log (publish_batch outlets settings database w table).0
          ≡ log w ++ sent)
        × Permᴰ sent (waiting_events settings.batch_size table)
  unfolding publish_batch Open
  log-publish_batch settings database w table h r (claims, marks, few, perm) =
      let claimed = (claim settings.batch_size table).0 in
      let shards = database.returned claimed in
      (
        all_events outlets shards,
        rw (ge→ltb settings.max_shard_backlog (backlog database.running table) few, claims)
            (log-publish_claimed_shards h w shards
              (All-Perm _ (perm claimed) (Readable-claim outlets settings.batch_size table r))),
        subst (λ t. Permᴰ (all_events outlets shards) t)
            (all_events-claim settings.batch_size table) (all_events-Perm outlets (perm claimed)),
      )

  -- With shards that can be read and a backlog within the limit, the ticks hand the publisher the
  -- events of the first shards that wait, one batch of shards for each tick: every event once, in
  -- whatever order the shards of a claim are returned.
  pub log-run :
      (settings : Settings) (databases : List Database) (w : W) (table : List CampaignShard)
      → Logs
      → All (Readable outlets) table
      → Distinct table
      → All (Open settings table) databases
      → (sent : List CardEvent) × (log (run outlets settings databases w table).0 ≡ log w ++ sent)
        × Permᴰ sent (waiting_events (length databases * settings.batch_size) table)
  unfolding run Logs
  log-run settings [] w table h r d o =
      let none_left : 0 ≡ 0 * settings.batch_size = omega arith in
      (
        [],
        sym (append-nil (log w)),
        subst (λ n. Permᴰ [] (waiting_events n table)) none_left
            (unfold waiting_events in Permᴰ.nil),
      )
  log-run settings (database ∷ later) w table h r d (now, o) =
      let (claims, marks, few, perm) = opened settings table database now in
      let size = settings.batch_size in
      let after = publish_batch outlets settings database w table in
      let e : after.1 ≡ publish_first size table =
        publish_batch-publish_first outlets settings database w table h.0 claims marks r d few
          perm in
      let first = publish_first size table in
      let (sent, out, same) = log-publish_batch settings database w table h r now in
      let (more, out', same') =
        log-run settings later after.0 first h (Readable-publish_first outlets size table r)
          (Distinct-publish_first size table d) (Open-publish_first settings size table later o) in
      (
        sent ++ more,
        ap (λ t. log (run outlets settings later after.0 t).0) e
            ∙ out'
            ∙ ap (λ t. t ++ more) out
            ∙ append_assoc (log w) sent more,
        subst (λ t. Permᴰ (sent ++ more) t)
            (waiting_events-add size (length later * size) (suc (length later) * size) table
              (omega arith))
            (Permᴰ.trans (Permᴰ.append_right more same)
              (Permᴰ.append_left (waiting_events size table) same')),
      )
