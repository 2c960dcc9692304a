-- ===== src/Campaign/Targets.antt =====
-- internal/controlplane/campaign.go, forEachCampaignTargetBatch: the targets of a campaign, read in
-- batches by the key of the last card. A card's UUID is its number.
pub mod Groups
use ota_platform.Prelude.{
  ℕ, zero, suc, ◌≤◌, ◌<◌, ◌≡◌, refl, ap, ◌∙◌, sym, inl, inr, ◌⊎◌, List, [], ◌∷◌, ◌++◌, Option, none,
  some, ltb, if◌then◌else◌, Bool-cases, length, take, drop, concat, All, arith, length-take,
  length-drop, take-append-drop, ltb→lt, ge→ltb, lt→ltb, drop-all,
}
use ota_platform.Campaign.Targets.Groups.{groups, groups-nil, concat-groups, length-groups-le}
use ota_platform.Prelude.Results.{Result, ok, err, Result-cases}

-- WHERE card_id > last, on the targets in the order of card_id
unfoldable pub greater : ℕ → List ℕ → List ℕ
greater last [] = []
greater last (card ∷ cards) =
    let rest = greater last cards in if ltb last card then card ∷ rest else rest

unfoldable pub after : Option ℕ → List ℕ → List ℕ
unfolding greater
after none targets = targets
after (some last) targets = greater last targets

abbrev pub last_of : List ℕ → ℕ → ℕ
last_of [] d = d
last_of (x ∷ xs) d = last_of xs x

-- The loop; `none` where the rounds are over before it ends. `find` is whether the query behind a card
-- is answered or fails, and `fn` changes the state `S` or fails. The size of the callers is positive,
-- so that the default for other sizes is left out.
unfoldable pub for_each_target_batch :
    {S : Type 0} {E : Type 0}
    → ℕ
    → (Option ℕ → Result E (Unit {0}))
    → (S → List ℕ → Result E S)
    → List ℕ
    → ℕ
    → Option ℕ
    → S
    → Option (Result E S)
unfolding after
for_each_target_batch zero find fn targets batch_size last_card s = none
for_each_target_batch (suc rounds) find fn targets batch_size last_card s = elim (find last_card) [
  | err e ↦ some (err e)
  | ok _ ↦ elim (take batch_size (after last_card targets)) [
    | [] ↦ some (ok s)
    | row ∷ rows ↦ elim (fn s (row ∷ rows)) [
      | err e ↦ some (err e)
      | ok s' ↦
          let rest =
            for_each_target_batch rounds find fn targets batch_size (some (last_of rows row)) s' in
          if ltb (length (row ∷ rows)) batch_size then some (ok s') else rest
    ]
  ]
]

-- A function on each batch in turn, up to its first error.
unfoldable pub on_batches :
    {S : Type 0} {E : Type 0} → (S → List ℕ → Result E S) → S → List (List ℕ) → Result E S
on_batches fn s [] = ok s
on_batches fn s (batch ∷ batches) = elim (fn s batch) [
  | err e ↦ err e
  | ok s' ↦ on_batches fn s' batches
]

pub on_batches-cons :
    {S : Type 0} {E : Type 0} (fn : S → List ℕ → Result E S) (s s' : S) (batch : List ℕ)
    (batches : List (List ℕ))
    → on_batches fn s (batch ∷ batches) ≡ ok s'
    → (t : S) × (fn s batch ≡ ok t) × (on_batches fn t batches ≡ ok s')
unfolding on_batches
on_batches-cons fn s s' batch batches h = elim (Result-cases (fn s batch)) [
  | inl (t, ran) ↦ (t, ran, rw (ran, on_batches) at h)
  | inr (error, failed) ↦ absurd (cc (rw (failed, on_batches) at h))
]

unfoldable pub Ascending : List ℕ → Type 0
Ascending [] = Unit
Ascending (x ∷ xs) = All (λ y. x < y) xs × Ascending xs

greater_identity : (x : ℕ) (xs : List ℕ) → All (λ y. x < y) xs → greater x xs ≡ xs
unfolding greater
greater_identity x [] h = refl
greater_identity x (y ∷ ys) (h, hs) = rw (lt→ltb x y h) (ap (λ t. y ∷ t) (greater_identity x ys hs))

greater-greater : (x y : ℕ) (xs : List ℕ) → x ≤ y → greater y (greater x xs) ≡ greater y xs
unfolding greater
greater-greater x y [] h = refl
greater-greater x y (z ∷ zs) h = ground (arith, greater-greater x y zs h)

le-last_of :
    (x : ℕ) (n : ℕ) (xs : List ℕ) → All (λ y. x < y) xs → Ascending xs → x ≤ last_of (take n xs) x
unfolding Ascending
le-last_of x zero xs h a = omega arith
le-last_of x (suc n) [] h a = omega arith
le-last_of x (suc n) (y ∷ ys) (h, hs) (a, below) = omega (arith, h, le-last_of y n ys a below)

greater-take :
    (n x : ℕ) (xs : List ℕ) → Ascending (x ∷ xs) → greater (last_of (take n xs) x) xs ≡ drop n xs
unfolding greater Ascending
greater-take zero x xs (h, a) = greater_identity x xs h
greater-take (suc n) x [] (h, a) = refl
greater-take (suc n) x (y ∷ ys) ((h, hs), (a, below)) =
    rw (ge→ltb (last_of (take n ys) y) y (le-last_of y n ys a below))
      (greater-take n y ys (a, below))

Ascending-drop : (n : ℕ) (xs : List ℕ) → Ascending xs → Ascending (drop n xs)
unfolding Ascending
Ascending-drop zero xs a = a
Ascending-drop (suc n) [] a = tt
Ascending-drop (suc n) (x ∷ xs) (h, a) = Ascending-drop n xs a

greater-All : (x : ℕ) (xs : List ℕ) → All (λ y. x < y) (greater x xs)
unfolding greater
greater-All x [] = tt
greater-All x (y ∷ ys) = elim (Bool-cases (ltb x y)) [
  | inl e ↦ rw e (ltb→lt x y e, greater-All x ys)
  | inr e ↦ rw e (greater-All x ys)
]

-- What is read next does not depend on how the last rows were read.
greater-after :
    (last : Option ℕ) (targets : List ℕ) (row y : ℕ) (rows : List ℕ)
    → after last targets ≡ row ∷ rows
    → row ≤ y
    → greater y targets ≡ greater y (row ∷ rows)
unfolding after
greater-after none targets row y rows e h = ap (greater y) e
greater-after (some x) targets row y rows e h =
    let above : All (λ z. x < z) (row ∷ rows) = rw e at (greater-All x targets) in
    sym (greater-greater x y targets (omega (arith, above.0))) ∙ ap (greater y) e

after-take :
    (last : Option ℕ) (targets : List ℕ) (size row : ℕ) (rows : List ℕ)
    → after last targets ≡ row ∷ rows
    → Ascending (row ∷ rows)
    → after (some (last_of (take size rows) row)) targets ≡ drop size rows
unfolding after greater Ascending
after-take last targets size row rows e (h, a) =
    let above = le-last_of row size rows h a in
    greater-after last targets row (last_of (take size rows) row) rows e above
    ∙ rw (ge→ltb (last_of (take size rows) row) row above) (greater-take size row rows (h, a))

-- Some query fails with this error.
abbrev pub FailsIn : {E : Type 0} → (Option ℕ → Result E (Unit {0})) → E → Type 0
FailsIn find e = (last : Option ℕ) × (find last ≡ err e)

-- What the loop ends with: what the function gives on batches, or the error of a query.
abbrev pub Ends :
    {S : Type 0} {E : Type 0}
    → (Option ℕ → Result E (Unit {0}))
    → Option (Result E S)
    → Result E S
    → Type 0
Ends {E = E} find result expected =
    (result ≡ some expected) ⊎ ((e : E) × FailsIn find e × (result ≡ some (err e)))

for_each-from :
    {S : Type 0} {E : Type 0} (rounds : ℕ) (find : Option ℕ → Result E (Unit {0}))
    (fn : S → List ℕ → Result E S) (targets : List ℕ) (size : ℕ) (last : Option ℕ) (s : S)
    (rest : List ℕ)
    → after last targets ≡ rest
    → Ascending rest
    → length rest < rounds
    → Ends find
        (for_each_target_batch rounds find fn targets (suc size) last s)
        (on_batches fn s (groups rounds (suc size) rest))
unfolding for_each_target_batch groups on_batches
for_each-from zero find fn targets size last s rest e a h = absurd (omega arith)
for_each-from (suc rounds) find fn targets size last s [] e a h = elim (Result-cases (find last)) [
  | inr (x, f) ↦ inr (x, (last, f), rw (f, for_each_target_batch) refl)
  | inl (u, f) ↦ inl (rw (f, e, for_each_target_batch) refl)
]
for_each-from (suc rounds) find fn targets size last s (row ∷ rows) e a h =
    elim (Result-cases (find last)) [
      | inr (x, f) ↦ inr (x, (last, f), rw (f, for_each_target_batch) refl)
      | inl (u, f) ↦
          rw (f, e, for_each_target_batch)
            (elim (Result-cases (fn s (row ∷ take size rows))) [
              | inr (error, failed) ↦ rw failed (inl refl)
              | inl (s', ran) ↦
                  rw ran (elim (Bool-cases (ltb (suc (length (take size rows))) (suc size))) [
                    | inl short ↦
                        let few : length rows < suc size =
                          omega (arith, ltb→lt _ _ short, length-take size rows) in
                        rw
                          (
                            short,
                            drop-all rows size (omega (arith, few)),
                            groups-nil rounds (suc size),
                          )
                          (inl refl)
                    | inr long ↦ rw long (
                        for_each-from rounds find fn targets size
                          (some (last_of (take size rows) row)) s' (drop size rows)
                          (after-take last targets size row rows e a)
                          (Ascending-drop (suc size) (row ∷ rows) a)
                          (omega (arith, length-drop size rows)))
                  ])
            ])
    ]

pub for_each_target_batch_lem :
    {S : Type 0} {E : Type 0} (find : Option ℕ → Result E (Unit {0})) (fn : S → List ℕ → Result E S)
    (targets : List ℕ) (batch_size : ℕ) (s : S)
    → 0 < batch_size
    → Ascending targets
    → (batches : List (List ℕ)) × (concat batches ≡ targets)
      × All (λ batch. (0 < length batch) × (length batch ≤ batch_size)) batches
      × Ends find
          (for_each_target_batch (suc (length targets)) find fn targets batch_size none s)
          (on_batches fn s batches)
for_each_target_batch_lem find fn targets zero s p a = absurd (omega arith)
for_each_target_batch_lem find fn targets (suc size) s p a = (
  groups (suc (length targets)) (suc size) targets,
  concat-groups (suc (length targets)) (suc size) targets p (omega arith),
  length-groups-le (suc (length targets)) (suc size) targets p,
  for_each-from (suc (length targets)) find fn targets size none s targets (unfold after in refl) a
      (omega arith),
)
