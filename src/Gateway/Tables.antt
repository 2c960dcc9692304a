-- ===== src/Gateway/Tables.antt =====
-- internal/transport/inprocess_gateway.go: correlations, multipart tracking, recordPartDLR.
use Prim.Native.String.{String}
use text.Mathlib.Text.{◌==◌ as ◌=ₜ◌}
use ota_platform.Prelude.{
  ℕ, ◌+◌, Bool, ◌||◌, not, List, [], ◌∷◌, Option, some, none, ltb, leb, if◌then◌else◌,
}

-- A sync.Map.
unfoldable pub load {ℓ} : {A : Type ℓ} → String → List (String × A) → Option A
load key [] = none
load key ((k, a) ∷ table) = if k =ₜ key then some a else load key table

unfoldable pub remove {ℓ} : {A : Type ℓ} → String → List (String × A) → List (String × A)
remove key [] = []
remove key ((k, a) ∷ table) =
    let rest = remove key table in if k =ₜ key then rest else (k, a) ∷ rest

unfoldable pub store {ℓ} : {A : Type ℓ} → String → A → List (String × A) → List (String × A)
unfolding remove
store key a table = (key, a) ∷ remove key table

-- SMPPMapping and the time at which it expires
pub record Correlation : Type 0 where
  pub msg_id : String
  pub campaign_id : String
  pub card_id : String
  pub msisdn : String
  pub expires_at : ℕ

pub record MultipartState : Type 0 where
  pub total : ℕ
  pub resolved : ℕ
  pub any_failed : Bool

pub record Tables : Type 0 where
  pub correlations : List (String × Correlation)
  pub multipart : List (String × MultipartState)

-- What recordPartDLR returns: no tracking, parts outstanding, or all resolved with anyFailed.
pub data PartOutcome : Type 0 where
  no_tracking : PartOutcome
  waiting : PartOutcome
  resolved_all : Bool → PartOutcome

-- The part counted.
unfoldable pub count_part : MultipartState → Bool → MultipartState
count_part state delivered = record {
  total = state.total;
  resolved = state.resolved + 1;
  any_failed = state.any_failed || not delivered;
}

unfoldable pub record_tracked : Tables → String → MultipartState → Tables × PartOutcome
record_tracked tables msg_id state =
    if leb state.total state.resolved
    then (
      record tables { multipart = remove msg_id tables.multipart },
      resolved_all state.any_failed,
    )
    else (record tables { multipart = store msg_id state tables.multipart }, waiting)

unfoldable pub record_part_dlr : Tables → String → Bool → Tables × PartOutcome
unfolding load count_part record_tracked
record_part_dlr tables msg_id delivered = elim (load msg_id tables.multipart) [
  | none ↦ (tables, no_tracking)
  | some state ↦ record_tracked tables msg_id (count_part state delivered)
]

-- A tick of cleanupCorrelations: what has expired is deleted, the multipart states are left.
unfoldable pub drop_expired : ℕ → List (String × Correlation) → List (String × Correlation)
drop_expired now [] = []
drop_expired now ((k, entry) ∷ table) =
    let rest = drop_expired now table in
    if ltb entry.expires_at now then rest else (k, entry) ∷ rest

unfoldable pub cleanup_correlations : ℕ → Tables → Tables
unfolding drop_expired
cleanup_correlations now tables = record tables {
  correlations = drop_expired now tables.correlations;
}
