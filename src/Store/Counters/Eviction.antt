-- ===== src/Store/Counters/Eviction.antt =====
-- internal/pgstore/counter_store.go, EvictCard: what is left of a card, and of the others.
use ota_platform.Prelude.{
  ℕ, ◌≡◌, refl, ap, ◌∙◌, sym, inl, inr, true, false, List, [], ◌∷◌, Option, none, Bool-cases,
  Option-cases, All,
}
use ota_platform.SmsFrame.Reassembly.{key_eq, update}
use ota_platform.SmsFrame.Reassembly.Sessions.{key_eq_refl}
use ota_platform.Store.Counters.{
  Key, CounterStore, new_counter_store, counter_key, or_zero, get_counter, preload_one,
  incr_counter, delete_counters, evict_card, preload_counters,
}
use ota_platform.Store.Counters.Index.{
  has_colon, member, is_some, Indexed, key_eq_sound, split_colon-counter_key,
  Indexed-new_counter_store, Indexed-incr_counter, Indexed-preload_one,
}

delete-none :
    (card : Key) (apps : List Key) (counters : Key → Option ℕ) (key : Key)
    → counters key ≡ none
    → delete_counters card apps counters key ≡ none
unfolding delete_counters
delete-none card [] counters key h = h
delete-none card (app ∷ apps) counters key h =
    delete-none card apps (update counters (counter_key card app) none) key
      (elim (Bool-cases (key_eq key (counter_key card app))) [ inl e ↦ rw e refl | inr e ↦ rw e h ])

delete-member :
    (card app : Key) (apps : List Key) (counters : Key → Option ℕ)
    → member app apps ≡ true
    → delete_counters card apps counters (counter_key card app) ≡ none
unfolding delete_counters member
delete-member card app [] counters h = absurd (cc h)
delete-member card app (a ∷ apps) counters h = elim (Bool-cases (key_eq app a)) [
  | inl e ↦
      delete-none card apps (update counters (counter_key card a) none) (counter_key card app)
        (rw (key_eq_sound app a e, key_eq_refl (counter_key card a)) refl)
  | inr e ↦ delete-member card app apps (update counters (counter_key card a) none) (rw e at h)
]

delete-other :
    (card : Key) (apps : List Key) (counters : Key → Option ℕ) (key : Key)
    → ((app : Key) → key_eq key (counter_key card app) ≡ false)
    → delete_counters card apps counters key ≡ counters key
unfolding delete_counters
delete-other card [] counters key h = refl
delete-other card (app ∷ apps) counters key h =
    delete-other card apps (update counters (counter_key card app) none) key h ∙ rw (h app) refl

-- Two cards have no key in common.
counter_key-other :
    (card other app a : Key)
    → has_colon card ≡ false
    → has_colon other ≡ false
    → key_eq other card ≡ false
    → key_eq (counter_key other a) (counter_key card app) ≡ false
counter_key-other card other app a free free' h =
    elim (Bool-cases (key_eq (counter_key other a) (counter_key card app))) [
      | inr e ↦ e
      | inl e ↦
          let same : other ≡ card = cc (
            key_eq_sound (counter_key other a) (counter_key card app) e,
            split_colon-counter_key other a free',
            split_colon-counter_key card app free,
          ) in
          absurd (cc (h, same, key_eq_refl card))
    ]

evicted :
    (store : CounterStore) (card app : Key)
    → has_colon card ≡ false
    → Indexed store
    → (evict_card store card).counters (counter_key card app) ≡ none
unfolding evict_card Indexed
evicted store card app free indexed = elim (Option-cases (store.counters (counter_key card app))) [
  | inl e ↦ delete-none card (store.card_apps card) store.counters (counter_key card app) e
  | inr (n, e) ↦
      delete-member card app (store.card_apps card) store.counters
        (indexed card app free (ap is_some e))
]

kept :
    (store : CounterStore) (card other app : Key)
    → has_colon card ≡ false
    → has_colon other ≡ false
    → key_eq other card ≡ false
    → (evict_card store card).counters (counter_key other app)
      ≡ store.counters (counter_key other app)
unfolding evict_card
kept store card other app free free' h =
    delete-other card (store.card_apps card) store.counters (counter_key other app)
      (λ a. counter_key-other card other a app free free' h)

Indexed-evict_card :
    (store : CounterStore) (card : Key)
    → has_colon card ≡ false
    → Indexed store
    → Indexed (evict_card store card)
unfolding Indexed evict_card
Indexed-evict_card store card free indexed c a free' h = elim (Bool-cases (key_eq c card)) [
  | inl e ↦ absurd (
      cc (
        ap is_some (evicted store card a free indexed),
        ap (λ k. is_some ((evict_card store card).counters (counter_key k a)))
            (key_eq_sound c card e),
        h,
      ))
  | inr e ↦ rw e (indexed c a free' (ap is_some (sym (kept store card c a free free' e)) ∙ h))
]

pub data CounterCall : Type 0 where
  increment : Key → Key → CounterCall
  preload : List (Key × ℕ) → CounterCall
  evict : Key → CounterCall

-- A card is named by a text without a colon, as a UUID is.
unfoldable pub NamesCard : CounterCall → Type 0
NamesCard (increment card app) = has_colon card ≡ false
NamesCard (preload values) = Unit
NamesCard (evict card) = has_colon card ≡ false

unfoldable pub call : CounterStore → CounterCall → CounterStore
call store (increment card app) = (incr_counter store card app).0
call store (preload values) = preload_counters store values
call store (evict card) = evict_card store card

unfoldable pub calls : CounterStore → List CounterCall → CounterStore
unfolding call
calls store [] = store
calls store (c ∷ cs) = calls (call store c) cs

Indexed-preload_counters :
    (store : CounterStore) (values : List (Key × ℕ))
    → Indexed store
    → Indexed (preload_counters store values)
unfolding preload_counters
Indexed-preload_counters store [] h = h
Indexed-preload_counters store ((key, value) ∷ values) h =
    Indexed-preload_counters (preload_one store key value) values
      (Indexed-preload_one store key value h)

Indexed-call :
    (store : CounterStore) (c : CounterCall) → NamesCard c → Indexed store → Indexed (call store c)
unfolding call NamesCard
Indexed-call store (increment card app) free h = Indexed-incr_counter store card app free h
Indexed-call store (preload values) free h = Indexed-preload_counters store values h
Indexed-call store (evict card) free h = Indexed-evict_card store card free h

Indexed-calls :
    (store : CounterStore) (cs : List CounterCall)
    → All NamesCard cs
    → Indexed store
    → Indexed (calls store cs)
unfolding calls
Indexed-calls store [] free h = h
Indexed-calls store (c ∷ cs) (f, fs) h =
    Indexed-calls (call store c) cs fs (Indexed-call store c f h)

-- After any calls on a new store, evicting a card leaves it no counter of any application, and the
-- counters of every other card as they were; card ids have no colon.
pub evict_card_lem :
    (cs : List CounterCall) (card other app : Key)
    → All NamesCard cs
    → has_colon card ≡ false
    → has_colon other ≡ false
    → key_eq other card ≡ false
    → (let store = calls new_counter_store cs in
        ((evict_card store card).counters (counter_key card app) ≡ none)
        × (get_counter (evict_card store card) card app ≡ 0)
        × (get_counter (evict_card store card) other app ≡ get_counter store other app))
unfolding get_counter
evict_card_lem cs card other app free f g h =
    let store = calls new_counter_store cs in
    let gone =
      evicted store card app f
        (Indexed-calls new_counter_store cs free Indexed-new_counter_store) in
    (gone, ap or_zero gone, ap or_zero (kept store card other app f g h))
