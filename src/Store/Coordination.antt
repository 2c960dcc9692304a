-- ===== src/Store/Coordination.antt =====
-- internal/pgstore/coordination.go: the caches in front of the database, and the throttles. A time is a
-- number of nanoseconds on a clock that does not go back.
pub mod Staleness
use Prim.Native.String.{String}
use text.Mathlib.Text.{◌==◌ as ◌=ₜ◌}
use ota_platform.Prelude.{
  ℕ, ◌+◌, ◌*◌, ◌-◌, Bool, true, false, ◌||◌, not, List, Option, none, some, ltb, ◌==◌,
  if◌then◌else◌,
}
use ota_platform.Prelude.Bits.{Bytes}
use ota_platform.Prelude.Results.{Result, ok, err}
use ota_platform.Executor.Types.{CardState, Status, CampaignCommand, CampaignParams}
use ota_platform.Gateway.Tables.{load, store, remove}

pub record StatusEntry : Type 0 where
  pub status : String
  pub cached_at : ℕ

-- 30 * time.Second
abbrev pub status_cache_ttl : ℕ
status_cache_ttl = 30 * 1000000000

-- What First finds: a row, no row, or an error.
pub data Query (A : Type 0) : Type 0 where
  row : A → Query A
  no_row : Query A
  query_failed : Query A

pub data CoordinationError : Type 0 where
  get_status_failed : CoordinationError
  set_status_failed : CoordinationError
  get_card_failed : CoordinationError
  marshal_failed : CoordinationError
  unmarshal_failed : CoordinationError
  cache_miss : CoordinationError

abbrev pub Statuses : Type 0
Statuses = List (String × StatusEntry)

-- The query, begun at any time before `later`, and the entry that it leaves.
unfoldable pub query_status :
    Query String → ℕ → String → Statuses → Statuses × Result CoordinationError String
query_status (row status) later id cache =
    (store id (record { status = status; cached_at = later }) cache, ok status)
query_status no_row later id cache = (cache, ok "")
query_status query_failed later id cache = (cache, err get_status_failed)

-- GetCampaignStatus at the time `now`; the query, where one is made, is answered at `later`.
unfoldable pub get_campaign_status :
    Query String → ℕ → ℕ → String → Statuses → Statuses × Result CoordinationError String
unfolding query_status
get_campaign_status answer now later id cache = elim (load id cache) [
  | none ↦ query_status answer later id cache
  | some entry ↦
      if ltb (now - entry.cached_at) status_cache_ttl
      then (cache, ok entry.status)
      else query_status answer later id cache
]

-- SetCampaignStatus; `updated` is whether the update of the row was done.
unfoldable pub set_campaign_status :
    Bool → ℕ → String → String → Statuses → Statuses × Result CoordinationError (Unit {0})
set_campaign_status updated later id status cache =
    if updated
    then (store id (record { status = status; cached_at = later }) cache, ok tt)
    else (cache, err set_status_failed)

abbrev pub CardStates : Type 0
CardStates = List (String × CardState)

abbrev pub set_card_state : String → CardState → CardStates → CardStates
set_card_state id state cache = store id state cache

abbrev pub evict_card_state : String → CardStates → CardStates
evict_card_state id cache = remove id cache

-- The columns that GetCardState reads; a NULL message id is `none`.
pub record CardRow : Type 0 where
  pub campaign_id : String
  pub current_step : ℕ
  pub status : Status
  pub retry_count : ℕ
  pub last_msg_id : Option String
  pub transition_seq : ℕ

unfoldable pub state_of_row : CardRow → CardState
state_of_row r = record {
  campaign_id = r.campaign_id;
  current_step = r.current_step;
  status = r.status;
  retry_count = r.retry_count;
  last_msg_id = elim r.last_msg_id [ none ↦ "" | some id ↦ id ];
  last_event_id = "";
  transition_seq = r.transition_seq;
}

unfoldable pub query_card :
    Query CardRow → String → CardStates → CardStates × Result CoordinationError (Option CardState)
unfolding state_of_row
query_card (row r) id cache = (store id (state_of_row r) cache, ok (some (state_of_row r)))
query_card no_row id cache = (cache, ok none)
query_card query_failed id cache = (cache, err get_card_failed)

unfoldable pub get_card_state :
    Query CardRow → String → CardStates → CardStates × Result CoordinationError (Option CardState)
unfolding query_card
get_card_state answer id cache = elim (load id cache) [
  | none ↦ query_card answer id cache
  | some state ↦ (cache, ok (some state))
]

-- The profiles, as JSON; `out` is what the text is read into.
unfoldable pub get_cached_profile :
    {P : Type 0} → (Bytes → Option P) → String → List (String × Bytes) → Result CoordinationError P
get_cached_profile unmarshal id profiles = elim (load id profiles) [
  | none ↦ err cache_miss
  | some raw ↦ elim (unmarshal raw) [ none ↦ err unmarshal_failed | some profile ↦ ok profile ]
]

unfoldable pub cache_profile :
    {P : Type 0}
    → (P → Option Bytes)
    → String
    → P
    → List (String × Bytes)
    → List (String × Bytes) × Result CoordinationError (Unit {0})
cache_profile marshal id profile profiles = elim (marshal profile) [
  | none ↦ (profiles, err marshal_failed)
  | some written ↦ (store id written profiles, ok tt)
]

-- The limiter is the library's: its making, the rate it was made with, and Allow.
pub record Limiters (L : Type 0) : Type 0 where
  pub new_limiter : ℕ → L
  pub limit : L → ℕ
  pub allow : L → L × Bool

unfoldable pub limiter_for : {L : Type 0} → Limiters L → String → ℕ → List (String × L) → L
limiter_for limiters id rate throttles = elim (load id throttles) [
  | none ↦ limiters.new_limiter rate
  | some lim ↦ if limiters.limit lim == rate then lim else limiters.new_limiter rate
]

-- The limiter changes in place: the table has it as Allow leaves it.
unfoldable pub acquire_throttle :
    {L : Type 0} → Limiters L → String → ℕ → List (String × L) → List (String × L) × Bool
unfolding limiter_for
acquire_throttle limiters id rate throttles =
    let allowed = limiters.allow (limiter_for limiters id rate throttles) in
    (store id allowed.0 throttles, allowed.1)

-- CheckAndSetDedupe: every event counts as new.
unfoldable pub check_and_set_dedupe : String → Result CoordinationError Bool
check_and_set_dedupe event_id = ok true

unfoldable pub get_cached_campaign_params :
    String → List (String × CampaignParams) → Option CampaignParams
get_cached_campaign_params id params = load id params

unfoldable pub cache_campaign_params :
    String → CampaignParams → List (String × CampaignParams) → List (String × CampaignParams)
cache_campaign_params id p params = store id p params

unfoldable pub get_campaign_commands :
    String → List (String × List CampaignCommand) → Option (List CampaignCommand)
get_campaign_commands id commands = load id commands

unfoldable pub cache_campaign_commands :
    String
    → List CampaignCommand
    → List (String × List CampaignCommand)
    → List (String × List CampaignCommand)
cache_campaign_commands id cmds commands = store id cmds commands
