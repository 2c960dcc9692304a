-- ===== src/Store/Writer/Loop.antt =====
-- internal/pgstore/card_state_writer.go, RunCardStateWriter.
use ota_platform.Prelude.{ℕ, ◌+◌, List, [], ◌∷◌, ◌++◌, leb, if◌then◌else◌, length}
use ota_platform.Prelude.Results.{Result}
use ota_platform.Store.Writer.{StateEvent, StateDatabase, Write, write_card_state_batch}

-- What the writer's loop is woken by, in the order in which it is.
pub data Wake : Type 0 where
  event : StateEvent → Wake
  ticked : Wake
  closed : Wake
  cancelled : Wake

-- A batch that was handed to writeCardStateBatch, what was written of it and the error, if any.
pub record Flush : Type 0 where
  pub batch : List StateEvent
  pub writes : List Write
  pub result : Result ℕ (Unit {0})

-- An error is logged, and the batch is given up; a batch that is empty is not written.
unfoldable pub flush : StateDatabase → List StateEvent → List Flush
unfolding write_card_state_batch
flush db [] = []
flush db (ev ∷ batch) =
    let written = write_card_state_batch db (ev ∷ batch) in
    record { batch = ev ∷ batch; writes = written.0; result = written.1 } ∷ []

-- The flushes of the loop; the database answers each wake on its own.
unfoldable pub run_card_state_writer :
    (ℕ → StateDatabase) → ℕ → ℕ → List StateEvent → List Wake → List Flush
unfolding flush
run_card_state_writer dbs n max_batch batch [] = []
run_card_state_writer dbs n max_batch batch (closed ∷ wakes) = flush (dbs n) batch
run_card_state_writer dbs n max_batch batch (cancelled ∷ wakes) = flush (dbs n) batch
run_card_state_writer dbs n max_batch batch (ticked ∷ wakes) =
    flush (dbs n) batch ++ run_card_state_writer dbs (n + 1) max_batch [] wakes
run_card_state_writer dbs n max_batch batch (event ev ∷ wakes) =
    let full = batch ++ (ev ∷ []) in
    let after_flush = run_card_state_writer dbs (n + 1) max_batch [] wakes in
    let go_on = run_card_state_writer dbs (n + 1) max_batch full wakes in
    if leb max_batch (length full) then flush (dbs n) full ++ after_flush else go_on
