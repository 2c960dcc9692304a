-- ===== src/Store/Counters/Index.antt =====
-- internal/pgstore/counter_store.go: the index of a card's applications, and what an eviction leaves.
use ota_platform.Prelude.{
  ℕ, ◌+◌, ◌≡◌, refl, ap, ◌∙◌, sym, inl, inr, Bool, true, false, ◌||◌, List, [], ◌∷◌, ◌++◌, Option,
  none, some, ◌==◌, arith, Bool-cases, Option-cases,
}
use ota_platform.SmsFrame.Reassembly.{key_eq, update}
use ota_platform.SmsFrame.Reassembly.Sessions.{key_eq_refl}
use ota_platform.Store.Counters.{
  Key, CounterStore, new_counter_store, counter_key, add_app, incr_counter, split_colon,
  preload_one,
}

pub key_eq_sound : (k l : Key) → key_eq k l ≡ true → k ≡ l
unfolding key_eq
key_eq_sound [] [] h = refl
key_eq_sound [] (y ∷ ys) h = absurd (cc h)
key_eq_sound (x ∷ xs) [] h = absurd (cc h)
key_eq_sound (x ∷ xs) (y ∷ ys) h = ground (arith, key_eq_sound xs ys)

unfoldable pub has_colon : Key → Bool
has_colon [] = false
has_colon (c ∷ text) = c == b':' || has_colon text

unfoldable pub member : Key → List Key → Bool
member key [] = false
member key (k ∷ keys) = key_eq key k || member key keys

abbrev pub is_some : Option ℕ → Bool
is_some none = false
is_some (some n) = true

-- Every counter of a card stands in the index under the card.
unfoldable pub Indexed : CounterStore → Type 0
Indexed store =
    (card app : Key)
    → has_colon card ≡ false
    → is_some (store.counters (counter_key card app)) ≡ true
    → member app (store.card_apps card) ≡ true

-- A key is taken apart as it was put together.
pub split_colon-counter_key :
    (card app : Key)
    → has_colon card ≡ false
    → split_colon (counter_key card app) ≡ some (card, app)
unfolding split_colon counter_key has_colon
split_colon-counter_key [] app h = refl
split_colon-counter_key (c ∷ card) app h = ground (arith, split_colon-counter_key card app)

member-append :
    (key : Key) (keys more : List Key) → member key keys ≡ true → member key (keys ++ more) ≡ true
unfolding member
member-append key [] more h = absurd (cc h)
member-append key (k ∷ keys) more h = ground (arith, member-append key keys more)

member-last : (key : Key) (keys : List Key) → member key (keys ++ (key ∷ [])) ≡ true
unfolding member
member-last key [] = rw (key_eq_refl key) refl
member-last key (k ∷ keys) = ground (arith, member-last key keys)

-- The index grows under one card and stays elsewhere.
member-add_app :
    (store : CounterStore) (card app other key : Key)
    → member key (store.card_apps other) ≡ true
    → member key ((add_app store card app).card_apps other) ≡ true
unfolding add_app
member-add_app store card app other key h = elim (Bool-cases (key_eq other card)) [
  | inl e ↦
      rw e
        (member-append key (store.card_apps card) (app ∷ []) (rw (key_eq_sound other card e) at h))
  | inr e ↦ rw e h
]

add_app-member :
    (store : CounterStore) (card app : Key)
    → member app ((add_app store card app).card_apps card) ≡ true
unfolding add_app
add_app-member store card app = rw (key_eq_refl card) (member-last app (store.card_apps card))

-- A store with a counter written: the pair that its key spells stands in the index.
Indexed-write :
    (store next : CounterStore) (key : Key) (n : ℕ)
    → Indexed store
    → ((c a : Key) → member a (store.card_apps c) ≡ true → member a (next.card_apps c) ≡ true)
    → ((c a : Key) → split_colon key ≡ some (c, a) → member a (next.card_apps c) ≡ true)
    → next.counters ≡ update store.counters key (some n)
    → Indexed next
unfolding Indexed
Indexed-write store next key n indexed grows new e c a free h =
    elim (Bool-cases (key_eq (counter_key c a) key)) [
      | inl same ↦ new c a (
          ap split_colon (sym (key_eq_sound (counter_key c a) key same))
          ∙ split_colon-counter_key c a free)
      | inr other ↦
          grows c a
            (indexed c a free (rw other at (ap (λ f. is_some (f (counter_key c a))) (sym e) ∙ h)))
    ]

member-parts :
    (f : Key → List Key) (parts : Option (Key × Key)) (card app c a : Key)
    → parts ≡ some (card, app)
    → member app (f card) ≡ true
    → parts ≡ some (c, a)
    → member a (f c) ≡ true
member-parts f parts card app c a e h e' = cc (e, e', h)

pub Indexed-new_counter_store : Indexed new_counter_store
unfolding Indexed new_counter_store
Indexed-new_counter_store c a free h = absurd (cc h)

pub Indexed-incr_counter :
    (store : CounterStore) (card app : Key)
    → has_colon card ≡ false
    → Indexed store
    → Indexed (incr_counter store card app).0
unfolding incr_counter Indexed
Indexed-incr_counter store card app free indexed =
    elim (Option-cases (store.counters (counter_key card app))) [
      | inl e ↦ rw e (
          Indexed-write store _ (counter_key card app) 1 indexed (member-add_app store card app)
            (λ c a.
              member-parts (add_app store card app).card_apps _ card app c a
                (split_colon-counter_key card app free) (add_app-member store card app))
            refl)
      | inr (n, e) ↦ rw e (
          Indexed-write store _ (counter_key card app) (n + 1) indexed (λ c a h. h)
            (λ c a.
              member-parts store.card_apps _ card app c a (split_colon-counter_key card app free)
                (indexed card app free (ap is_some e)))
            refl)
    ]

pub Indexed-preload_one :
    (store : CounterStore) (key : Key) (value : ℕ)
    → Indexed store
    → Indexed (preload_one store key value)
unfolding preload_one
Indexed-preload_one store key value indexed = elim (Option-cases (split_colon key)) [
  | inl e ↦
      rw (e, preload_one)
        (Indexed-write store _ key value indexed (λ c a h. h) (λ c a split. absurd (cc (e, split)))
          refl)
  | inr ((c, a), e) ↦
      rw (e, preload_one)
        (Indexed-write store _ key value indexed (member-add_app store c a)
          (λ c' a'.
            member-parts (add_app store c a).card_apps _ c a c' a' e (add_app-member store c a))
          refl)
]
