-- ===== src/Store/Writer/Updates.antt =====
-- internal/pgstore/card_state_writer.go, buildStatsUpdateSQL: what an update of the statistics adds to
-- each column.
use Prim.Native.String.{String}
use text.Mathlib.Text.{◌==◌ as ◌=ₜ◌}
use ota_platform.Prelude.{
  ℕ, ◌+◌, ◌≡◌, refl, inl, inr, ◌⊎◌, true, false, List, [], ◌∷◌, ◌==◌, ==_iff, if◌then◌else◌, arith,
  Bool-cases,
}
use ota_platform.Store.Writer.{
  Column, pending_column, in_progress_column, completed_column, failed_column, skipped_column, Net,
  StatsDelta, set_column, stats_update, StateDatabase, Write, card_rows, stats_row, stats_updates,
}
use ota_platform.Store.Writer.Deltas.{number, net_of}

-- What an update adds to a column, and what it takes off.
unfoldable pub set_up : Column → List (Column × Net) → ℕ
set_up column [] = 0
set_up column ((c, net) ∷ sets) =
    (if number c == number column then net.up else 0) + set_up column sets

unfoldable pub set_down : Column → List (Column × Net) → ℕ
set_down column [] = 0
set_down column ((c, net) ∷ sets) =
    (if number c == number column then net.down else 0) + set_down column sets

-- What the updates of a campaign's row add and take off in all.
unfoldable pub written_up : String → Column → List Write → ℕ
unfolding set_up
written_up campaign column [] = 0
written_up campaign column (card_rows rows ∷ writes) = written_up campaign column writes
written_up campaign column (stats_row id sets ∷ writes) =
    (if id =ₜ campaign then set_up column sets else 0) + written_up campaign column writes

unfoldable pub written_down : String → Column → List Write → ℕ
unfolding set_down
written_down campaign column [] = 0
written_down campaign column (card_rows rows ∷ writes) = written_down campaign column writes
written_down campaign column (stats_row id sets ∷ writes) =
    (if id =ₜ campaign then set_down column sets else 0) + written_down campaign column writes

-- A column that changes by nothing is left out, which does not change the difference.
set_column-difference :
    (column c : Column) (net : Net) (sets : List (Column × Net))
    → set_up column (set_column c net sets)
        + ((if number c == number column then net.down else 0) + set_down column sets)
      ≡ set_down column (set_column c net sets)
        + ((if number c == number column then net.up else 0) + set_up column sets)
unfolding set_column set_up set_down
set_column-difference column c net sets = elim (Bool-cases (net.up == net.down)) [
  | inl e ↦ rw (e, (==_iff net.up net.down).0 e) (omega arith)
  | inr e ↦ rw e (omega arith)
]

pub stats_update-difference :
    (column : Column) (d : StatsDelta)
    → set_up column (stats_update d) + (net_of d column).down
      ≡ set_down column (stats_update d) + (net_of d column).up
unfolding stats_update
stats_update-difference column d =
    let s1 = set_column skipped_column d.skipped [] in
    let s2 = set_column failed_column d.failed s1 in
    let s3 = set_column completed_column d.completed s2 in
    let s4 = set_column in_progress_column d.in_progress s3 in
    let e1 = set_column-difference column skipped_column d.skipped [] in
    let e2 = set_column-difference column failed_column d.failed s1 in
    let e3 = set_column-difference column completed_column d.completed s2 in
    let e4 = set_column-difference column in_progress_column d.in_progress s3 in
    let e5 = set_column-difference column pending_column d.pending s4 in
    go column d (set_up column s1) (set_down column s1) (set_up column s2) (set_down column s2)
      (set_up column s3) (set_down column s3) (set_up column s4) (set_down column s4) _ _
      (unfold set_up in unfold set_down in e1) e2 e3 e4 e5
  where
    same : Column → Column → ℕ → ℕ
    same c column n = if number c == number column then n else 0

    go :
        (column : Column) (d : StatsDelta) (u1 d1 u2 d2 u3 d3 u4 d4 u5 d5 : ℕ)
        → u1 + (same skipped_column column d.skipped.down + 0)
          ≡ d1 + (same skipped_column column d.skipped.up + 0)
        → u2 + (same failed_column column d.failed.down + d1)
          ≡ d2 + (same failed_column column d.failed.up + u1)
        → u3 + (same completed_column column d.completed.down + d2)
          ≡ d3 + (same completed_column column d.completed.up + u2)
        → u4 + (same in_progress_column column d.in_progress.down + d3)
          ≡ d4 + (same in_progress_column column d.in_progress.up + u3)
        → u5 + (same pending_column column d.pending.down + d4)
          ≡ d5 + (same pending_column column d.pending.up + u4)
        → u5 + (net_of d column).down ≡ d5 + (net_of d column).up
    go pending_column d u1 d1 u2 d2 u3 d3 u4 d4 u5 d5 a b c e f = omega (arith, a, b, c, e, f)
    go in_progress_column d u1 d1 u2 d2 u3 d3 u4 d4 u5 d5 a b c e f = omega (arith, a, b, c, e, f)
    go completed_column d u1 d1 u2 d2 u3 d3 u4 d4 u5 d5 a b c e f = omega (arith, a, b, c, e, f)
    go failed_column d u1 d1 u2 d2 u3 d3 u4 d4 u5 d5 a b c e f = omega (arith, a, b, c, e, f)
    go skipped_column d u1 d1 u2 d2 u3 d3 u4 d4 u5 d5 a b c e f = omega (arith, a, b, c, e, f)

sets-cases :
    (sets : List (Column × Net))
    → (sets ≡ []) ⊎ ((set : Column × Net) × (more : List (Column × Net)) × (sets ≡ set ∷ more))
sets-cases [] = inl refl
sets-cases (set ∷ more) = inr (set, more, refl)

-- The update of one row, if any, and those after it.
pub written_up-cons :
    (db : StateDatabase) (campaign id : String) (column : Column) (d : StatsDelta)
    (deltas : List (String × StatsDelta))
    → db.is_uuid id ≡ true
    → written_up campaign column (stats_updates db ((id, d) ∷ deltas))
      ≡ (if id =ₜ campaign then set_up column (stats_update d) else 0)
        + written_up campaign column (stats_updates db deltas)
unfolding stats_updates written_up set_up
written_up-cons db campaign id column d deltas uuid = elim (sets-cases (stats_update d)) [
  | inl e ↦
      rw (uuid, e)
        (elim (Bool-cases (id =ₜ campaign)) [
          | inl f ↦ rw f (omega arith)
          | inr f ↦ rw f (omega arith)
        ])
  | inr (set, more, e) ↦ rw (uuid, e) refl
]

pub written_down-cons :
    (db : StateDatabase) (campaign id : String) (column : Column) (d : StatsDelta)
    (deltas : List (String × StatsDelta))
    → db.is_uuid id ≡ true
    → written_down campaign column (stats_updates db ((id, d) ∷ deltas))
      ≡ (if id =ₜ campaign then set_down column (stats_update d) else 0)
        + written_down campaign column (stats_updates db deltas)
unfolding stats_updates written_down set_down
written_down-cons db campaign id column d deltas uuid = elim (sets-cases (stats_update d)) [
  | inl e ↦
      rw (uuid, e)
        (elim (Bool-cases (id =ₜ campaign)) [
          | inl f ↦ rw f (omega arith)
          | inr f ↦ rw f (omega arith)
        ])
  | inr (set, more, e) ↦ rw (uuid, e) refl
]

-- The update of another campaign's row does not matter.
pub written-other :
    (db : StateDatabase) (campaign id : String) (column : Column) (d : StatsDelta)
    (deltas : List (String × StatsDelta))
    → (id =ₜ campaign) ≡ false
    → (written_up campaign column (stats_updates db ((id, d) ∷ deltas))
        ≡ written_up campaign column (stats_updates db deltas))
      × (written_down campaign column (stats_updates db ((id, d) ∷ deltas))
          ≡ written_down campaign column (stats_updates db deltas))
unfolding stats_updates written_up written_down
written-other db campaign id column d deltas away = elim (Bool-cases (db.is_uuid id)) [
  | inr e ↦ rw e (refl, refl)
  | inl e ↦ elim (sets-cases (stats_update d)) [
    | inl f ↦ rw (e, f) (refl, refl)
    | inr (set, more, f) ↦ rw (e, f, away) (omega arith, omega arith)
  ]
]
