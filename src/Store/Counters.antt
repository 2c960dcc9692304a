-- ===== src/Store/Counters.antt =====
-- internal/pgstore/counter_store.go: the counters of cards, by card and application. A text is the
-- list of its code points, a map a function of its key; each call holds the lock, so it is one step.
-- The counters are int64, which count up from small numbers; they are ℕ.
pub mod Index
pub mod Eviction
use ota_platform.Prelude.{
  ℕ, ◌+◌, Bool, true, false, ◌||◌, List, [], ◌∷◌, ◌++◌, Option, none, some, ◌==◌, if◌then◌else◌,
}
use ota_platform.SmsFrame.Reassembly.{key_eq, update}

abbrev pub Key : Type 0
Key = List ℕ

pub record CounterStore : Type 0 where
  pub counters : Key → Option ℕ
  pub card_apps : Key → List Key

unfoldable pub new_counter_store : CounterStore
new_counter_store = record { counters = λ _. none; card_apps = λ _. [] }

-- cardID + ":" + applicationID
unfoldable pub counter_key : Key → Key → Key
counter_key card_id application_id = card_id ++ b':' ∷ application_id

abbrev pub or_zero : Option ℕ → ℕ
or_zero none = 0
or_zero (some n) = n

unfoldable pub get_counter : CounterStore → Key → Key → ℕ
unfolding counter_key
get_counter store card_id application_id =
    or_zero (store.counters (counter_key card_id application_id))

-- A new pair goes into the index.
unfoldable pub add_app : CounterStore → Key → Key → CounterStore
add_app store card_id application_id = record store {
  card_apps = update store.card_apps card_id (store.card_apps card_id ++ (application_id ∷ []));
}

unfoldable pub incr_counter : CounterStore → Key → Key → CounterStore × ℕ
unfolding counter_key add_app
incr_counter store card_id application_id =
    let key = counter_key card_id application_id in
    let value = or_zero (store.counters key) + 1 in
    let indexed : CounterStore = elim (store.counters key) [
      | none ↦ add_app store card_id application_id
      | some _ ↦ store
    ] in
    (record indexed { counters = update indexed.counters key (some value) }, value)

unfoldable pub delete_counters : Key → List Key → (Key → Option ℕ) → Key → Option ℕ
unfolding counter_key
delete_counters card_id [] counters = counters
delete_counters card_id (app ∷ apps) counters =
    delete_counters card_id apps (update counters (counter_key card_id app) none)

unfoldable pub evict_card : CounterStore → Key → CounterStore
unfolding delete_counters
evict_card store card_id = record {
  counters = delete_counters card_id (store.card_apps card_id) store.counters;
  card_apps = update store.card_apps card_id [];
}

-- The texts before and after the first colon.
unfoldable pub split_colon : Key → Option (Key × Key)
split_colon [] = none
split_colon (c ∷ text) =
    let rest = split_colon text in
    if c == b':'
    then some ([], text)
    else elim rest [ none ↦ none | some parts ↦ some (c ∷ parts.0, parts.1) ]

unfoldable pub preload_one : CounterStore → Key → ℕ → CounterStore
unfolding split_colon add_app
preload_one store key value =
    let stored = record store { counters = update store.counters key (some value) } in
    elim (split_colon key) [ none ↦ stored | some parts ↦ add_app stored parts.0 parts.1 ]

-- The values in the order in which the map gives them.
unfoldable pub preload_counters : CounterStore → List (Key × ℕ) → CounterStore
unfolding preload_one
preload_counters store [] = store
preload_counters store ((key, value) ∷ values) =
    preload_counters (preload_one store key value) values
