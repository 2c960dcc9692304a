-- ===== src/Store/Multipart/Agreement.antt =====
-- The multipart tracking of the gateway (internal/transport/inprocess_gateway.go, recordPartDLR) and
-- that of the store (internal/pgstore/gateway_coordination.go, RecordPartDLR) against each other.
use Prim.Native.String.{String}
use text.Mathlib.Text.{◌==◌ as ◌=ₜ◌}
use ota_platform.Prelude.{
  ℕ, zero, suc, ◌+◌, ◌≡◌, refl, ap, ◌∙◌, inl, inr, ◌⊎◌, Bool, true, false, List, [], ◌∷◌, map,
  Option, none, some, Bool-cases, ltb, leb, if◌then◌else◌, arith,
}
use ota_platform.Gateway.Tables.{
  load, store, remove, MultipartState, Tables, PartOutcome, no_tracking, waiting, resolved_all,
  Correlation, count_part, record_tracked, record_part_dlr,
}
use ota_platform.Store.Multipart.{
  Tally, Tallies, init_multipart_tracking, tally, record_tally, record_stored_dlr,
}

-- A message that is tracked, and a receipt for one of its parts.
pub data PartCall : Type 0 where
  begin_tracking : String → ℕ → PartCall
  part : String → Bool → PartCall

-- The answers of the gateway to the receipts.
unfoldable pub by_gateway : List PartCall → Tables → List PartOutcome
unfolding record_part_dlr
by_gateway [] tables = []
by_gateway (begin_tracking id total ∷ calls) tables = by_gateway calls (record tables {
  multipart =
      store id (record { total = total; resolved = 0; any_failed = false }) tables.multipart;
})
by_gateway (part id delivered ∷ calls) tables =
    let (next, outcome) = record_part_dlr tables id delivered in outcome ∷ by_gateway calls next

-- The answers of the store.
unfoldable pub by_store : List PartCall → Tallies → List (Option (Bool × Bool))
unfolding init_multipart_tracking record_stored_dlr
by_store [] table = []
by_store (begin_tracking id total ∷ calls) table =
    by_store calls (init_multipart_tracking id total table)
by_store (part id delivered ∷ calls) table =
    let (next, answer) = record_stored_dlr id delivered table in answer ∷ by_store calls next

-- What an answer of the store tells: whether a part failed counts once all are resolved.
abbrev pub told : Option (Bool × Bool) → PartOutcome
told none = no_tracking
told (some (resolved, failed)) = if resolved then resolved_all failed else waiting

unfoldable IsSame : MultipartState → Tally → Type 0
IsSame s t =
    (s.total ≡ t.total) × (s.resolved ≡ t.delivered + t.failed) × (s.any_failed ≡ ltb 0 t.failed)

unfoldable Agrees : List (String × MultipartState) → Tallies → Type 0
Agrees [] [] = Unit
Agrees [] (y ∷ ys) = zero ≡ suc zero
Agrees (x ∷ xs) [] = zero ≡ suc zero
Agrees ((k, s) ∷ xs) ((l, t) ∷ ys) = (k ≡ l) × IsSame s t × Agrees xs ys

load-Agrees :
    (id : String) (xs : List (String × MultipartState)) (ys : Tallies)
    → Agrees xs ys
    → ((load id xs ≡ none) × (load id ys ≡ none))
      ⊎ ((s : MultipartState) × (t : Tally) × (load id xs ≡ some s)
          × (load id ys ≡ some t)
          × IsSame s t)
unfolding load Agrees
load-Agrees id [] [] h = inl (refl, refl)
load-Agrees id [] (y ∷ ys) h = absurd (omega arith)
load-Agrees id (x ∷ xs) [] h = absurd (omega arith)
load-Agrees id ((k, s) ∷ xs) ((l, t) ∷ ys) (same, is, h) = elim (Bool-cases (k =ₜ id)) [
  | inl e ↦ inr (s, t, rw e refl, rw (← same, e) refl, is)
  | inr e ↦ rw (← same, e) (load-Agrees id xs ys h)
]

remove-Agrees :
    (id : String) (xs : List (String × MultipartState)) (ys : Tallies)
    → Agrees xs ys
    → Agrees (remove id xs) (remove id ys)
unfolding remove Agrees
remove-Agrees id [] [] h = tt
remove-Agrees id [] (y ∷ ys) h = absurd (omega arith)
remove-Agrees id (x ∷ xs) [] h = absurd (omega arith)
remove-Agrees id ((k, s) ∷ xs) ((l, t) ∷ ys) (same, is, h) = elim (Bool-cases (k =ₜ id)) [
  | inl e ↦ rw (← same, e) (remove-Agrees id xs ys h)
  | inr e ↦ rw (← same, e) (refl, is, remove-Agrees id xs ys h)
]

store-Agrees :
    (id : String) (s : MultipartState) (t : Tally) (xs : List (String × MultipartState))
    (ys : Tallies)
    → IsSame s t
    → Agrees xs ys
    → Agrees (store id s xs) (store id t ys)
unfolding store Agrees
store-Agrees id s t xs ys is h = (refl, is, remove-Agrees id xs ys h)

count_part-tally :
    (s : MultipartState) (t : Tally) (delivered : Bool)
    → IsSame s t
    → IsSame (count_part s delivered) (tally t delivered)
unfolding IsSame count_part tally
count_part-tally s t true (total, resolved, bad) =
    (total, omega (arith, resolved), ground (arith, bad))
count_part-tally s t false (total, resolved, bad) =
    (total, omega (arith, resolved), ground (arith, bad))

record_tracked-record_tally :
    (id : String) (s : MultipartState) (t : Tally) (tables : Tables) (ys : Tallies)
    → IsSame s t
    → Agrees tables.multipart ys
    → Agrees (record_tracked tables id s).0.multipart (record_tally id t ys).0
      × ((record_tracked tables id s).1 ≡ told (record_tally id t ys).1)
unfolding record_tracked record_tally IsSame
record_tracked-record_tally id s t tables ys (total, resolved, bad) h =
    let same : leb s.total s.resolved ≡ leb t.total (t.delivered + t.failed) =
      cc (total, resolved) in
    elim (Bool-cases (leb t.total (t.delivered + t.failed))) [
      | inl e ↦
          let f : leb s.total s.resolved ≡ true = same ∙ e in
          rw (f, e) (remove-Agrees id tables.multipart ys h, ap (λ b. resolved_all b) bad)
      | inr e ↦
          let f : leb s.total s.resolved ≡ false = same ∙ e in
          rw (f, e)
            (
              store-Agrees id s t tables.multipart ys (unfold IsSame in (total, resolved, bad)) h,
              refl,
            )
    ]

record_part_dlr-record_stored_dlr :
    (id : String) (delivered : Bool) (tables : Tables) (ys : Tallies)
    → Agrees tables.multipart ys
    → Agrees (record_part_dlr tables id delivered).0.multipart (record_stored_dlr id delivered ys).0
      × ((record_part_dlr tables id delivered).1 ≡ told (record_stored_dlr id delivered ys).1)
unfolding record_part_dlr Agrees record_stored_dlr
record_part_dlr-record_stored_dlr id delivered tables ys h =
    elim (load-Agrees id tables.multipart ys h) [
      | inl (e, f) ↦ rw (record_part_dlr, record_stored_dlr, e, f) (h, refl)
      | inr (s, t, e, f, is) ↦
          rw (record_part_dlr, record_stored_dlr, e, f)
            (record_tracked-record_tally id (count_part s delivered) (tally t delivered) tables ys
              (count_part-tally s t delivered is) h)
    ]

by_gateway-from :
    (calls : List PartCall) (tables : Tables) (ys : Tallies)
    → Agrees tables.multipart ys
    → by_gateway calls tables ≡ map told (by_store calls ys)
unfolding by_gateway by_store init_multipart_tracking
by_gateway-from [] tables ys h = refl
by_gateway-from (begin_tracking id total ∷ calls) tables ys h =
    let s : MultipartState = record { total = total; resolved = 0; any_failed = false } in
    let t : Tally = record { total = total; delivered = 0; failed = 0 } in
    let is : IsSame s t = unfold IsSame in (refl, refl, refl) in
    by_gateway-from calls (record tables { multipart = store id s tables.multipart })
      (store id t ys) (store-Agrees id s t tables.multipart ys is h)
by_gateway-from (part id delivered ∷ calls) tables ys h =
    let (next, answer) = record_part_dlr-record_stored_dlr id delivered tables ys h in
    cc (
      answer,
      by_gateway-from calls (record_part_dlr tables id delivered).0
          (record_stored_dlr id delivered ys).0 next,
    )

-- From no tracking on either side, any messages tracked and any receipts for their parts, in any
-- order, get the same answers from the gateway's own tracking and from the store's: no tracking,
-- parts outstanding, or all resolved with or without a failure.
pub by_gateway-by_store :
    (calls : List PartCall) (correlations : List (String × Correlation))
    → by_gateway calls (record { correlations = correlations; multipart = [] })
      ≡ map told (by_store calls [])
by_gateway-by_store calls correlations =
    by_gateway-from calls (record { correlations = correlations; multipart = [] }) []
      (unfold Agrees in tt)
