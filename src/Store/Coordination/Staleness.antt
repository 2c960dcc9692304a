-- ===== src/Store/Coordination/Staleness.antt =====
-- internal/pgstore/coordination.go: how old a status from the cache of campaign statuses can be.
use Prim.Native.String.{String}
use mathlib.Core.Path.{subst}
use text.Mathlib.Text.{◌==◌ as ◌=ₜ◌}
use text.Mathlib.TextEquality.{eq_iff}
use ota_platform.Prelude.{
  ℕ, ◌+◌, ◌-◌, ◌≤◌, ◌<◌, ◌≡◌, refl, sym, inl, inr, ◌⊎◌, Bool, true, false, List, [], ◌∷◌, ◌++◌,
  Option, none, some, Option-cases, Bool-cases, All, ltb, ltb→lt, arith,
}
use ota_platform.Prelude.Results.{Result, ok, err}
use ota_platform.Gateway.Tables.{load, store, remove}
use ota_platform.Store.Coordination.{
  StatusEntry, CoordinationError, get_status_failed, status_cache_ttl, Query, row, no_row,
  query_failed, Statuses, query_status, get_campaign_status, set_campaign_status,
}

All-load {ℓ} :
    {A : Type ℓ} (P : String × A → Type 0) (key : String) (table : List (String × A)) (a : A)
    → All P table
    → load key table ≡ some a
    → P (key, a)
unfolding load
All-load P key [] a all e = absurd (cc e)
All-load P key ((k, b) ∷ table) a (p, all) e = elim (Bool-cases (k =ₜ key)) [
  | inl same ↦
      let at_key : k ≡ key = (eq_iff k key).0 same in
      let found : some b ≡ some a = rw same at e in
      let value : b ≡ a = cc found in subst (λ t. P t) (cc (at_key, value)) p
  | inr other ↦ All-load P key table a all (rw other at e)
]

All-remove {ℓ} :
    {A : Type ℓ} (P : String × A → Type 0) (key : String) (table : List (String × A))
    → All P table
    → All P (remove key table)
unfolding remove
All-remove P key [] all = tt
All-remove P key ((k, b) ∷ table) (p, all) = elim (Bool-cases (k =ₜ key)) [
  | inl same ↦ rw same (All-remove P key table all)
  | inr other ↦ rw other (p, All-remove P key table all)
]

All-store {ℓ} :
    {A : Type ℓ} (P : String × A → Type 0) (key : String) (table : List (String × A)) (a : A)
    → All P table
    → P (key, a)
    → All P (store key a table)
unfolding store
All-store P key table a all p = (p, All-remove P key table all)

-- A status is asked for, or it comes from an entry that is young enough.
get_campaign_status-cases :
    (answer : Query String) (now later : ℕ) (id : String) (cache : Statuses)
    → (get_campaign_status answer now later id cache ≡ query_status answer later id cache)
      ⊎ ((entry : StatusEntry) × (load id cache ≡ some entry)
          × (now - entry.cached_at < status_cache_ttl)
          × (get_campaign_status answer now later id cache ≡ (cache, ok entry.status)))
unfolding get_campaign_status
get_campaign_status-cases answer now later id cache = elim (Option-cases (load id cache)) [
  | inl e ↦ inl (rw (e, get_campaign_status) refl)
  | inr (entry, e) ↦ elim (Bool-cases (ltb (now - entry.cached_at) status_cache_ttl)) [
    | inl fresh ↦ inr (entry, e, ltb→lt _ _ fresh, rw (e, get_campaign_status, fresh) refl)
    | inr old ↦ inl (rw (e, get_campaign_status, old) refl)
  ]
]

-- A call with the times at which it starts and ends, and what the database answers, if it is asked.
pub data Call : Type 0 where
  get : Query String → ℕ → ℕ → String → Call
  set : Bool → ℕ → ℕ → String → String → Call

abbrev serve : Call → Statuses → Statuses
serve (get answer started ended id) cache = (get_campaign_status answer started ended id cache).0
serve (set updated started ended id status) cache =
    (set_campaign_status updated ended id status cache).0

unfoldable pub serve_calls : List Call → Statuses → Statuses
unfolding get_campaign_status set_campaign_status
serve_calls [] cache = cache
serve_calls (call ∷ calls) cache = serve_calls calls (serve call cache)

-- The status that the row of a campaign has at each time, whoever writes it, and the longest time
-- that a call takes.
module _ (history : ℕ → String → Option String) (lag : ℕ) where
  -- The answer is the row as it was at a time of the call.
  unfoldable pub IsTrue : ℕ → ℕ → String → Query String → Type 0
  IsTrue started ended id (row status) =
      (t : ℕ) × (started ≤ t) × (t ≤ ended) × (history t id ≡ some status)
  IsTrue started ended id no_row = (t : ℕ) × (started ≤ t) × (t ≤ ended) × (history t id ≡ none)
  IsTrue started ended id query_failed = Unit

  -- An update that is done leaves the row with the status, where there is a row.
  unfoldable pub IsUpdated : ℕ → ℕ → String → String → Type 0
  IsUpdated started ended id status =
      (t : ℕ) × (started ≤ t) × (t ≤ ended) × ((history t id ≡ some status) ⊎ (history t id ≡ none))

  -- The calls follow each other from a time on, none takes longer than the lag, the database answers
  -- the truth, and an update that is done sets the row, if any.
  unfoldable pub Answered : ℕ → List Call → Type 0
  Answered clock [] = Unit
  Answered clock (get answer started ended id ∷ calls) =
      (clock ≤ started)
      × (started ≤ ended)
      × (ended ≤ started + lag)
      × IsTrue started ended id answer
      × Answered ended calls
  Answered clock (set updated started ended id status ∷ calls) =
      (clock ≤ started)
      × (started ≤ ended)
      × (ended ≤ started + lag)
      × (updated ≡ true → IsUpdated started ended id status)
      × Answered ended calls

  -- An entry is the status that the row had not long before it was cached, or there was no row then.
  unfoldable IsKept : ℕ → String × StatusEntry → Type 0
  IsKept clock (id, entry) =
      (t : ℕ) × (t ≤ entry.cached_at)
      × (entry.cached_at ≤ t + lag)
      × (entry.cached_at ≤ clock)
      × ((history t id ≡ some entry.status) ⊎ (history t id ≡ none))

  IsKept-later :
      (clock later : ℕ) (cache : Statuses)
      → clock ≤ later
      → All (IsKept clock) cache
      → All (IsKept later) cache
  unfolding IsKept
  IsKept-later clock later [] h k = tt
  IsKept-later clock later ((id, entry) ∷ cache) h ((t, before, near, past, was), k) =
      ((t, before, near, omega (arith, h, past), was), IsKept-later clock later cache h k)

  query_status-IsKept :
      (answer : Query String) (started ended : ℕ) (id : String) (cache : Statuses)
      → ended ≤ started + lag
      → IsTrue started ended id answer
      → All (IsKept ended) cache
      → All (IsKept ended) (query_status answer ended id cache).0
  unfolding query_status IsTrue IsKept
  query_status-IsKept (row status) started ended id cache short (t, after, before, was) k =
      All-store (IsKept ended) id cache _ k (t, before, omega arith, omega arith, inl was)
  query_status-IsKept no_row started ended id cache short h k = k
  query_status-IsKept query_failed started ended id cache short h k = k

  get_campaign_status-IsKept :
      (answer : Query String) (started ended : ℕ) (id : String) (cache : Statuses)
      → ended ≤ started + lag
      → IsTrue started ended id answer
      → All (IsKept ended) cache
      → All (IsKept ended) (get_campaign_status answer started ended id cache).0
  get_campaign_status-IsKept answer started ended id cache short h k =
      elim (get_campaign_status-cases answer started ended id cache) [
        | inl asked ↦
            subst (λ r. All (IsKept ended) r.0) (sym asked)
              (query_status-IsKept answer started ended id cache short h k)
        | inr (entry, e, young, cached) ↦ subst (λ r. All (IsKept ended) r.0) (sym cached) k
      ]

  set_campaign_status-IsKept :
      (updated : Bool) (started ended : ℕ) (id status : String) (cache : Statuses)
      → ended ≤ started + lag
      → (updated ≡ true → IsUpdated started ended id status)
      → All (IsKept ended) cache
      → All (IsKept ended) (set_campaign_status updated ended id status cache).0
  unfolding set_campaign_status IsUpdated IsKept
  set_campaign_status-IsKept true started ended id status cache short h k =
      let (t, after, before, was) = h refl in
      All-store (IsKept ended) id cache _ k (t, before, omega arith, omega arith, was)
  set_campaign_status-IsKept false started ended id status cache short h k = k

  -- A status that the row had at a time that is not long before the call, or any status if there was
  -- no row at that time; an error only where the query failed.
  unfoldable pub IsRecent : Query String → ℕ → ℕ → String → Result CoordinationError String → Type 0
  IsRecent answer started ended id (ok status) =
      (t : ℕ) × (t ≤ ended)
      × (started < t + lag + status_cache_ttl)
      × ((history t id ≡ some status) ⊎ (history t id ≡ none))
  IsRecent answer started ended id (err e) = (answer ≡ query_failed) × (e ≡ get_status_failed)

  query_status-IsRecent :
      (answer : Query String) (started ended : ℕ) (id : String) (cache : Statuses)
      → IsTrue started ended id answer
      → IsRecent answer started ended id (query_status answer ended id cache).1
  unfolding query_status IsTrue IsRecent
  query_status-IsRecent (row status) started ended id cache (t, after, before, was) =
      (t, before, omega arith, inl was)
  query_status-IsRecent no_row started ended id cache (t, after, before, was) =
      (t, before, omega arith, inr was)
  query_status-IsRecent query_failed started ended id cache h = (refl, refl)

  get_campaign_status-IsRecent :
      (answer : Query String) (clock started ended : ℕ) (id : String) (cache : Statuses)
      → clock ≤ started
      → started ≤ ended
      → IsTrue started ended id answer
      → All (IsKept clock) cache
      → IsRecent answer started ended id (get_campaign_status answer started ended id cache).1
  unfolding IsRecent IsKept
  get_campaign_status-IsRecent answer clock started ended id cache later order h k =
      elim (get_campaign_status-cases answer started ended id cache) [
        | inl asked ↦
            subst (λ r. IsRecent answer started ended id r.1) (sym asked)
              (query_status-IsRecent answer started ended id cache h)
        | inr (entry, e, young, cached) ↦
            let (t, before, near, past, was) = All-load (IsKept clock) id cache entry k e in
            subst (λ r. IsRecent answer started ended id r.1) (sym cached)
              (t, omega (arith, before, past, later, order), omega (arith, young, near), was)
      ]

  serve_calls-IsRecent :
      (clock : ℕ) (calls : List Call) (answer : Query String) (started ended : ℕ) (id : String)
      (cache : Statuses)
      → All (IsKept clock) cache
      → Answered clock (calls ++ (get answer started ended id ∷ []))
      → IsRecent answer started ended id
          (get_campaign_status answer started ended id (serve_calls calls cache)).1
  unfolding serve_calls Answered
  serve_calls-IsRecent clock [] answer started ended id cache k (later, order, short, h, _) =
      get_campaign_status-IsRecent answer clock started ended id cache later order h k
  serve_calls-IsRecent clock (get a s e i ∷ calls) answer started ended id cache k
        (later, order, short, h, rest) =
      serve_calls-IsRecent e calls answer started ended id (get_campaign_status a s e i cache).0
        (get_campaign_status-IsKept a s e i cache short h
          (IsKept-later clock e cache (omega (arith, later, order)) k))
        rest
  serve_calls-IsRecent clock (set u s e i status ∷ calls) answer started ended id cache k
        (later, order, short, h, rest) =
      serve_calls-IsRecent e calls answer started ended id
        (set_campaign_status u e i status cache).0
        (set_campaign_status-IsKept u s e i status cache short h
          (IsKept-later clock e cache (omega (arith, later, order)) k))
        rest

  -- After any calls that follow each other and that the database answers truly, none longer than the
  -- lag, the status that is read is one that the row had less than the time to live and one lag
  -- before the call began, or later, up to its end, whoever changed the row since, unless the campaign
  -- had no row at that time; an error comes only from a query that failed. An update that is done is
  -- taken to set the row only of a campaign that has one.
  pub get_campaign_status-serve_calls :
      (calls : List Call) (answer : Query String) (started ended : ℕ) (id : String)
      → Answered 0 (calls ++ (get answer started ended id ∷ []))
      → IsRecent answer started ended id
          (get_campaign_status answer started ended id (serve_calls calls [])).1
  get_campaign_status-serve_calls calls answer started ended id h =
      serve_calls-IsRecent 0 calls answer started ended id [] tt h
