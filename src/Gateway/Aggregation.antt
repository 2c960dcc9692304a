-- ===== src/Gateway/Aggregation.antt =====
-- A message of several parts is reported once, when the last of its parts is resolved.
use Prim.Native.String.{String}
use text.Mathlib.TextPositions.{eq_refl}
use ota_platform.Prelude.{
  ℕ, suc, ◌+◌, ◌<◌, ◌≡◌, ◌∙◌, ap, refl, Bool, true, false, ◌||◌, not, List, [], ◌∷◌, ◌++◌, some,
  none, arith, length, replicate, le→leb, gt→leb,
}
use ota_platform.Gateway.Tables.{
  MultipartState, Tables, PartOutcome, waiting, resolved_all, load, remove, store, count_part,
  record_tracked, record_part_dlr,
}

-- One call for each part, in the order in which the receipts come.
unfoldable pub record_parts : Tables → String → List Bool → Tables × List PartOutcome
record_parts tables msg_id [] = (tables, [])
record_parts tables msg_id (d ∷ ds) =
    let (next, outcome) = record_part_dlr tables msg_id d in
    let (final, outcomes) = record_parts next msg_id ds in (final, outcome ∷ outcomes)

unfoldable pub any_failure : List Bool → Bool
any_failure [] = false
any_failure (d ∷ ds) = not d || any_failure ds

pub load-store {ℓ} :
    {A : Type ℓ} (key : String) (a : A) (table : List (String × A))
    → load key (store key a table) ≡ some a
unfolding load store
load-store key a table = rw (eq_refl key) refl

pub load-remove {ℓ} :
    {A : Type ℓ} (key : String) (table : List (String × A)) → load key (remove key table) ≡ none
unfolding load remove
load-remove key [] = refl
load-remove key ((k, a) ∷ table) = ground (arith, load-remove key table)

or_assoc : (a b c : Bool) → ((a || b) || c) ≡ (a || (b || c))
or_assoc true b c = refl
or_assoc false b c = refl

or_false : (a : Bool) → (a || false) ≡ a
or_false true = refl
or_false false = refl

module _ (tables : Tables) (msg_id : String) (total resolved : ℕ) (bad d : Bool)
    (tracked : load msg_id tables.multipart
      ≡ some (record { total = total; resolved = resolved; any_failed = bad })) where
  last_part :
      resolved + 1 ≡ total
      → record_part_dlr tables msg_id d ≡ (
        record tables { multipart = remove msg_id tables.multipart },
        resolved_all (bad || not d),
      )
  unfolding record_part_dlr record_tracked count_part
  last_part n =
      rw (tracked, record_part_dlr)
        (rw (le→leb total (resolved + 1) (omega arith), record_tracked) refl)

  early_part :
      resolved + 1 < total
      → record_part_dlr tables msg_id d ≡ (
        record tables {
          multipart =
              store msg_id
                (record { total = total; resolved = resolved + 1; any_failed = bad || not d })
                tables.multipart;
        },
        waiting,
      )
  unfolding record_part_dlr record_tracked count_part
  early_part n =
      rw (tracked, record_part_dlr) (rw (gt→leb total (resolved + 1) n, record_tracked) refl)

-- From a state with some parts resolved, the parts that are missing.
record_parts-from :
    (tables : Tables) (msg_id : String) (total resolved : ℕ) (bad d : Bool) (ds : List Bool)
    → load msg_id tables.multipart
      ≡ some (record { total = total; resolved = resolved; any_failed = bad })
    → resolved + suc (length ds) ≡ total
    → (let (final, outcomes) = record_parts tables msg_id (d ∷ ds) in
        (outcomes
          ≡ replicate (length ds) waiting ++ resolved_all (bad || any_failure (d ∷ ds)) ∷ [])
        × (load msg_id final.multipart ≡ none))
unfolding record_parts any_failure
record_parts-from tables msg_id total resolved bad d [] tracked n =
    rw (last_part tables msg_id total resolved bad d tracked n, or_false (not d))
      (refl, load-remove msg_id tables.multipart)
record_parts-from tables msg_id total resolved bad d (e ∷ ds) tracked n =
    let state : MultipartState = record {
      total = total;
      resolved = resolved + 1;
      any_failed = bad || not d;
    } in
    let next = record tables { multipart = store msg_id state tables.multipart } in
    let (same, gone) =
      record_parts-from next msg_id total (resolved + 1) (bad || not d) e ds
        (load-store msg_id state tables.multipart) (omega arith) in
    rw (early_part tables msg_id total resolved bad d tracked (omega arith)) (
      ap (λ os. waiting ∷ os)
          (same
            ∙ ap (λ b. replicate (length ds) waiting ++ resolved_all b ∷ [])
                (or_assoc bad (not d) (any_failure (e ∷ ds)))),
      gone,
    )

-- The receipts of a tracked message of one or more parts, one for each part, in whatever order they
-- come: all but the last leave it waiting, the last resolves it, with a failure just when some part
-- was not delivered, and its tracking is gone.
pub record_parts_once :
    (tables : Tables) (msg_id : String) (d : Bool) (ds : List Bool)
    → load msg_id tables.multipart
      ≡ some (record { total = suc (length ds); resolved = 0; any_failed = false })
    → (let (final, outcomes) = record_parts tables msg_id (d ∷ ds) in
        (outcomes ≡ replicate (length ds) waiting ++ resolved_all (any_failure (d ∷ ds)) ∷ [])
        × (load msg_id final.multipart ≡ none))
record_parts_once tables msg_id d ds tracked =
    record_parts-from tables msg_id (suc (length ds)) 0 false d ds tracked (omega arith)
