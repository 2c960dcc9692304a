-- ===== src/Planner/Orders.antt =====
-- internal/planner/service.go: what does not depend on the order of the claimed shards.
use Prim.Native.String.{String}
use text.Mathlib.Text.{◌==◌}
use mathlib.Core.List.{Permᴰ}
use mathlib.Core.List.Permᴰ
use ota_platform.Prelude.{
  ◌≡◌, refl, ap, ◌∙◌, sym, inl, inr, Bool, true, false, ◌||◌, List, [], ◌∷◌, ◌++◌, append_assoc,
  All, Bool-cases,
}
use ota_platform.Executor.Types.{CardEvent}
use ota_platform.Shards.{CampaignShard, shard_published, one_of}
use ota_platform.Planner.{Outlets, ids, set_published}
use ota_platform.Planner.Outcomes.{events_of, all_events}

pub All-Perm : {A : Type 0} (P : A → Type 0) {xs ys : List A} → Permᴰ xs ys → All P ys → All P xs
All-Perm P Permᴰ.nil h = tt
All-Perm P (Permᴰ.cons e d) (p, h) = (rw e p, All-Perm P d h)
All-Perm P (Permᴰ.swap e f) (p, (q, h)) = (rw e q, (rw f p, h))
All-Perm P (Permᴰ.trans d d') h = All-Perm P d (All-Perm P d' h)

or_swap : (a b c : Bool) → (a || (b || c)) ≡ (b || (a || c))
or_swap true true c = refl
or_swap true false c = refl
or_swap false true c = refl
or_swap false false c = refl

one_of-Perm :
    (id : String) {xs ys : List CampaignShard}
    → Permᴰ xs ys
    → one_of id (ids xs) ≡ one_of id (ids ys)
unfolding one_of
one_of-Perm id Permᴰ.nil = refl
one_of-Perm id (Permᴰ.cons {a} {b} e d) = rw e (ap (λ t. (b.id == id) || t) (one_of-Perm id d))
one_of-Perm id (Permᴰ.swap {a' = a'} {b' = b'} {l = l} e f) =
    rw (e, f) (or_swap (b'.id == id) (a'.id == id) (one_of id (ids l)))
one_of-Perm id (Permᴰ.trans d d') = one_of-Perm id d ∙ one_of-Perm id d'

pub set_published-Perm :
    {xs ys : List CampaignShard} (table : List CampaignShard)
    → Permᴰ xs ys
    → set_published (ids xs) table ≡ set_published (ids ys) table
unfolding set_published
set_published-Perm [] d = refl
set_published-Perm {ys = ys} (shard ∷ table) d =
    let rest = set_published-Perm table d in
    elim (Bool-cases (one_of shard.id (ids ys))) [
      | inl e ↦
          rw (one_of-Perm shard.id d, e)
            (ap (λ t. record shard { status = shard_published } ∷ t) rest)
      | inr e ↦ rw (one_of-Perm shard.id d, e) (ap (λ t. shard ∷ t) rest)
    ]

swap_front : (x y r : List CardEvent) → Permᴰ (x ++ (y ++ r)) (y ++ (x ++ r))
swap_front x y r =
    rw (sym (append_assoc x y r), sym (append_assoc y x r))
      (Permᴰ.append_right r (Permᴰ.append_comm x y))

pub all_events-Perm :
    {W : Type 0} (outlets : Outlets W) {xs ys : List CampaignShard}
    → Permᴰ xs ys
    → Permᴰ (all_events outlets xs) (all_events outlets ys)
unfolding all_events
all_events-Perm outlets Permᴰ.nil = Permᴰ.nil
all_events-Perm outlets (Permᴰ.cons {b = b} e d) =
    rw e (Permᴰ.append_left (events_of outlets b) (all_events-Perm outlets d))
all_events-Perm outlets (Permᴰ.swap {a' = a'} {b' = b'} {l = l} e f) =
    rw (e, f) (swap_front (events_of outlets b') (events_of outlets a') (all_events outlets l))
all_events-Perm outlets (Permᴰ.trans d d') =
    Permᴰ.trans (all_events-Perm outlets d) (all_events-Perm outlets d')
