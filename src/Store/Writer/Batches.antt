-- ===== src/Store/Writer/Batches.antt =====
-- internal/pgstore/card_state_writer.go, RunCardStateWriter: how events are cut into batches.
use ota_platform.Prelude.{
  ℕ, ◌≤◌, ◌<◌, ◌≡◌, refl, ap, ◌∙◌, sym, Bool, true, false, List, [], ◌∷◌, ◌++◌, map, append_assoc,
  length, concat,
}
use ota_platform.Store.Writer.{StateEvent, StateDatabase, write_card_state_batch}
use ota_platform.Store.Writer.Loop.{Wake, event, ticked, closed, cancelled, Flush}

-- The events that arrive before the channel is closed or the context ends.
unfoldable pub arrived : List Wake → List StateEvent
arrived [] = []
arrived (event ev ∷ wakes) = ev ∷ arrived wakes
arrived (ticked ∷ wakes) = arrived wakes
arrived (closed ∷ wakes) = []
arrived (cancelled ∷ wakes) = []

unfoldable pub ends : List Wake → Bool
ends [] = false
ends (event ev ∷ wakes) = ends wakes
ends (ticked ∷ wakes) = ends wakes
ends (closed ∷ wakes) = true
ends (cancelled ∷ wakes) = true

abbrev pub batches : List Flush → List (List StateEvent)
batches flushes = map (λ f. f.batch) flushes

concat-append : {A : Type 0} (xs ys : List (List A)) → concat (xs ++ ys) ≡ concat xs ++ concat ys
concat-append [] ys = refl
concat-append (x ∷ xs) ys =
    ap (λ t. x ++ t) (concat-append xs ys) ∙ sym (append_assoc x (concat xs) (concat ys))

module _ (dbs : ℕ → StateDatabase) (max_batch : ℕ) where
  -- A batch that is not empty and not too large, written as far as the database let it.
  IsFlush : Flush → Type 0
  IsFlush f =
      (0 < length f.batch)
      × (length f.batch ≤ max_batch)
      × (n : ℕ) × (write_card_state_batch (dbs n) f.batch ≡ (f.writes, f.result))
