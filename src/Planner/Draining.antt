-- ===== src/Planner/Draining.antt =====
-- internal/planner/service.go, Run: how many ticks empty the table of waiting shards, and when none
-- does.
use Prim.Native.String.{String}
use mathlib.Core.List.{Permᴰ}
use ota_platform.Prelude.{
  ℕ, zero, suc, ◌+◌, ◌*◌, ◌≤◌, ◌<◌, ◌≡◌, refl, ap, ◌∙◌, sym, inl, inr, Bool, true, List, [], ◌∷◌,
  map, Bool-cases, All, if◌then◌else◌, arith, lt→ltb, length,
}
use ota_platform.Shards.{CampaignShard}
use ota_platform.Planner.{Outlets, Database, Settings, ids, backlog, publish_batch, run}
use ota_platform.Planner.Ticks.{
  Distinct, is_waiting, published_shard, publish_first, Reliable, Readable,
  publish_batch-publish_first,
}

-- The number of shards that wait.
abbrev pub waiting : List CampaignShard → ℕ
waiting [] = 0
waiting (shard ∷ table) = let rest = waiting table in if is_waiting shard then suc rest else rest

ids-publish_first :
    (limit : ℕ) (table : List CampaignShard) → ids (publish_first limit table) ≡ ids table
unfolding publish_first
ids-publish_first zero table = refl
ids-publish_first (suc limit) [] = refl
ids-publish_first (suc limit) (shard ∷ table) =
    ground (arith, ids-publish_first limit table, ids-publish_first (suc limit) table)

Distinct-ids : (t u : List CampaignShard) → ids t ≡ ids u → Distinct t → Distinct u
unfolding Distinct
Distinct-ids [] [] e d = tt
Distinct-ids [] (u ∷ us) e d = absurd (cc e)
Distinct-ids (t ∷ ts) [] e d = absurd (cc e)
Distinct-ids (t ∷ ts) (u ∷ us) e d =
    let head : t.id ≡ u.id = cc e in
    let tail : ids ts ≡ ids us = cc e in (cc (head, tail, d.0), Distinct-ids ts us tail d.1)

pub Distinct-publish_first :
    (limit : ℕ) (table : List CampaignShard) → Distinct table → Distinct (publish_first limit table)
Distinct-publish_first limit table d =
    Distinct-ids table (publish_first limit table) (sym (ids-publish_first limit table)) d

backlog-publish_first :
    (running : String → Bool) (limit : ℕ) (table : List CampaignShard)
    → backlog running (publish_first limit table) ≤ backlog running table
unfolding publish_first backlog
backlog-publish_first running zero table = omega arith
backlog-publish_first running (suc limit) [] = omega arith
backlog-publish_first running (suc limit) (shard ∷ table) = ground (
  arith,
  backlog-publish_first running limit table,
  backlog-publish_first running (suc limit) table,
)

pub Readable-publish_first :
    {W : Type 0} (outlets : Outlets W) (limit : ℕ) (table : List CampaignShard)
    → All (Readable outlets) table
    → All (Readable outlets) (publish_first limit table)
unfolding publish_first Readable
Readable-publish_first outlets zero table r = r
Readable-publish_first outlets (suc limit) [] r = tt
Readable-publish_first outlets (suc limit) (shard ∷ table) (r, rs) =
    elim (Bool-cases (is_waiting shard)) [
      | inl e ↦ rw e (r, Readable-publish_first outlets limit table rs)
      | inr e ↦ rw e (r, Readable-publish_first outlets (suc limit) table rs)
    ]

publish_first-nil : (n : ℕ) → publish_first n [] ≡ []
unfolding publish_first
publish_first-nil zero = refl
publish_first-nil (suc n) = refl

publish_first-add :
    (n m k : ℕ) (table : List CampaignShard)
    → k ≡ n + m
    → publish_first m (publish_first n table) ≡ publish_first k table
unfolding publish_first
publish_first-add zero m k table e = ap (λ t. publish_first t table) (omega arith)
publish_first-add (suc n) m k [] e = publish_first-nil m ∙ sym (publish_first-nil k)
publish_first-add (suc n) m zero (shard ∷ table) e = absurd (omega arith)
publish_first-add (suc n) zero (suc k) (shard ∷ table) e =
    ap (λ t. publish_first (suc t) (shard ∷ table)) (omega arith)
publish_first-add (suc n) (suc m) (suc k) (shard ∷ table) e = ground (
  arith,
  publish_first-add n (suc m) k table (omega arith),
  publish_first-add (suc n) (suc m) (suc k) table e,
)

-- With every shard that waits published, and no other changed.
abbrev pub settle : CampaignShard → CampaignShard
settle shard = if is_waiting shard then published_shard shard else shard

publish_first-settle :
    (limit : ℕ) (table : List CampaignShard)
    → waiting table ≤ limit
    → publish_first limit table ≡ map settle table
unfolding publish_first
publish_first-settle zero [] h = refl
publish_first-settle zero (shard ∷ table) h = ground (arith, publish_first-settle zero table)
publish_first-settle (suc limit) [] h = refl
publish_first-settle (suc limit) (shard ∷ table) h =
    ground (arith, publish_first-settle limit table, publish_first-settle (suc limit) table)

-- What the database answers at a tick that can go through: it claims and marks, no more shards are
-- open than the planner accepts, and the claimed shards are returned once each, in some order.
unfoldable pub Open : Settings → List CampaignShard → Database → Type 0
Open settings table database =
    (database.claims ≡ true)
    × (database.marks ≡ true)
    × (backlog database.running table ≤ settings.max_shard_backlog)
    × ((shards : List CampaignShard) → Permᴰ (database.returned shards) shards)

pub Open-publish_first :
    (settings : Settings) (limit : ℕ) (table : List CampaignShard) (databases : List Database)
    → All (Open settings table) databases
    → All (Open settings (publish_first limit table)) databases
unfolding Open
Open-publish_first settings limit table [] h = tt
Open-publish_first settings limit table (database ∷ later) ((c, m, b, p), h) = (
  (c, m, omega (arith, b, backlog-publish_first database.running limit table), p),
  Open-publish_first settings limit table later h,
)

run-publish_first :
    {W : Type 0} (outlets : Outlets W) (settings : Settings) (databases : List Database) (w : W)
    (table : List CampaignShard)
    → Reliable outlets
    → All (Readable outlets) table
    → Distinct table
    → All (Open settings table) databases
    → (run outlets settings databases w table).1
      ≡ publish_first (length databases * settings.batch_size) table
unfolding run Open
run-publish_first outlets settings [] w table h r d o =
    let none_left : 0 ≡ 0 * settings.batch_size = omega arith in
    unfold publish_first in ap (λ t. publish_first t table) none_left
run-publish_first outlets settings (database ∷ later) w table h r d
      ((claims, marks, few, perm), o) =
    let after = publish_batch outlets settings database w table in
    let e : after.1 ≡ publish_first settings.batch_size table =
      publish_batch-publish_first outlets settings database w table h claims marks r d few perm in
    let first = publish_first settings.batch_size table in
    ap (λ t. (run outlets settings later after.0 t).1) e
    ∙ run-publish_first outlets settings later after.0 first h
        (Readable-publish_first outlets settings.batch_size table r)
        (Distinct-publish_first settings.batch_size table d)
        (Open-publish_first settings settings.batch_size table later o)
    ∙ publish_first-add settings.batch_size (length later * settings.batch_size)
        (suc (length later) * settings.batch_size) table (omega arith)

-- With outlets that take every event, shards that can be read, and a backlog within the limit, so
-- many ticks as the claims need publish every shard that waits and change no other shard.
pub run-settle :
    {W : Type 0} (outlets : Outlets W) (settings : Settings) (databases : List Database) (w : W)
    (table : List CampaignShard)
    → Reliable outlets
    → All (Readable outlets) table
    → Distinct table
    → All (Open settings table) databases
    → waiting table ≤ length databases * settings.batch_size
    → (run outlets settings databases w table).1 ≡ map settle table
run-settle outlets settings databases w table h r d o enough =
    run-publish_first outlets settings databases w table h r d o
    ∙ publish_first-settle (length databases * settings.batch_size) table enough

-- More open shards of running campaigns than the limit stop the planner for good: the shards that it
-- has not published count against it, and no number of ticks changes any.
pub run-stalled :
    {W : Type 0} (outlets : Outlets W) (settings : Settings) (databases : List Database) (w : W)
    (table : List CampaignShard)
    → All (λ database. settings.max_shard_backlog < backlog database.running table) databases
    → run outlets settings databases w table ≡ (w, table)
unfolding run publish_batch
run-stalled outlets settings [] w table h = refl
run-stalled outlets settings (database ∷ later) w table (over, h) =
    rw (lt→ltb settings.max_shard_backlog (backlog database.running table) over)
      (run-stalled outlets settings later w table h)
