-- ===== src/Store/Writer/Latest.antt =====
-- internal/pgstore/card_state_writer.go, writeCardStateBatch: the event that is kept for each card.
use text.Mathlib.TextEquality.{eq_iff}
use ota_platform.Prelude.{
  zero, suc, ◌<◌, ◌≤◌, ◌≡◌, refl, ◌∙◌, sym, ◌⊎◌, inl, inr, true, false, List, [], ◌∷◌, Option, none,
  some, if◌then◌else◌, arith, Bool-cases, Option-cases, All,
}
use ota_platform.Store.Writer.{StateEvent, same_key, supersedes, keep_latest, latest_of}

-- The row of a card and a campaign, those of the first argument.
unfoldable pub lookup : StateEvent → List StateEvent → Option StateEvent
lookup probe [] = none
lookup probe (ev ∷ events) =
    let rest = lookup probe events in if same_key probe ev then some ev else rest

same_key-eq :
    (a b : StateEvent)
    → same_key a b ≡ true
    → (a.change.card_id ≡ b.change.card_id) × (a.change.campaign_id ≡ b.change.campaign_id)
unfolding same_key
same_key-eq a b h = (
  (eq_iff a.change.card_id b.change.card_id).0 (ground arith),
  (eq_iff a.change.campaign_id b.change.campaign_id).0 (ground arith),
)

same_key-cong : (p a b : StateEvent) → same_key a b ≡ true → same_key p a ≡ same_key p b
unfolding same_key
same_key-cong p a b h = let (card, campaign) = same_key-eq a b h in rw (card, campaign) refl

same_key-cong_left : (p a b : StateEvent) → same_key a b ≡ true → same_key a p ≡ same_key b p
unfolding same_key
same_key-cong_left p a b h = let (card, campaign) = same_key-eq a b h in rw (card, campaign) refl

-- An event of another card leaves the row as it is.
lookup-keep_latest-other :
    (probe ev : StateEvent) (latest : List StateEvent)
    → same_key probe ev ≡ false
    → lookup probe (keep_latest latest ev) ≡ lookup probe latest
unfolding lookup keep_latest
lookup-keep_latest-other probe ev [] h = rw h refl
lookup-keep_latest-other probe ev (existing ∷ latest) h =
    let rest = lookup-keep_latest-other probe ev latest h in
    elim (Bool-cases (same_key ev existing)) [
      | inl e ↦
          let away : same_key probe existing ≡ false =
            sym (same_key-cong probe ev existing e) ∙ h in
          ground (arith, away, e)
      | inr e ↦ ground (arith, rest, e)
    ]

-- An event of the card becomes the row, unless that row is as late.
lookup-keep_latest-same :
    (probe ev : StateEvent) (latest : List StateEvent)
    → same_key probe ev ≡ true
    → lookup probe (keep_latest latest ev) ≡ elim (lookup probe latest) [
      | none ↦ some ev
      | some r ↦ if supersedes ev r then some ev else some r
    ]
unfolding lookup keep_latest
lookup-keep_latest-same probe ev [] h = rw h refl
lookup-keep_latest-same probe ev (existing ∷ latest) h =
    let rest = lookup-keep_latest-same probe ev latest h in
    elim (Bool-cases (same_key ev existing)) [
      | inl e ↦
          let own : same_key probe existing ≡ true = sym (same_key-cong probe ev existing e) ∙ h in
          ground (arith, own, e)
      | inr e ↦
          let away : same_key probe existing ≡ false = same_key-cong_left existing probe ev h ∙ e in
          ground (arith, away, e, rest)
    ]

pub In : StateEvent → List StateEvent → Type 0
In r [] = zero ≡ suc zero
In r (ev ∷ events) = (r ≡ ev) ⊎ In r events

-- Of the events of the card, this one has the greatest number and, for it, the latest time.
pub IsLatest : StateEvent → List StateEvent → StateEvent → Type 0
IsLatest probe events r =
    (same_key probe r ≡ true)
    × In r events
    × All (λ ev. (same_key probe ev ≡ false) ⊎ (supersedes ev r ≡ false)) events

Row : StateEvent → List StateEvent → Option StateEvent → Type 0
Row probe events none = All (λ ev. same_key probe ev ≡ false) events
Row probe events (some r) = IsLatest probe events r

supersedes_trans :
    (ev ev' r : StateEvent)
    → supersedes ev r ≡ false
    → supersedes ev' r ≡ true
    → supersedes ev ev' ≡ false
unfolding supersedes
supersedes_trans ev ev' r h h' = ground arith

supersedes_irrefl : (ev : StateEvent) → supersedes ev ev ≡ false
unfolding supersedes
supersedes_irrefl ev = ground arith

All-later :
    (probe ev r : StateEvent) (events : List StateEvent)
    → supersedes ev r ≡ true
    → All (λ e. (same_key probe e ≡ false) ⊎ (supersedes e r ≡ false)) events
    → All (λ e. (same_key probe e ≡ false) ⊎ (supersedes e ev ≡ false)) events
All-later probe ev r [] later h = tt
All-later probe ev r (e ∷ events) later (inl h, hs) = (inl h, All-later probe ev r events later hs)
All-later probe ev r (e ∷ events) later (inr h, hs) =
    (inr (supersedes_trans e ev r h later), All-later probe ev r events later hs)

All-others :
    (probe ev : StateEvent) (events : List StateEvent)
    → All (λ e. same_key probe e ≡ false) events
    → All (λ e. (same_key probe e ≡ false) ⊎ (supersedes e ev ≡ false)) events
All-others probe ev [] h = tt
All-others probe ev (e ∷ events) (h, hs) = (inl h, All-others probe ev events hs)

-- One more event.
Row-keep_latest :
    (probe ev : StateEvent) (seen latest : List StateEvent)
    → Row probe seen (lookup probe latest)
    → Row probe (ev ∷ seen) (lookup probe (keep_latest latest ev))
unfolding Row IsLatest In
Row-keep_latest probe ev seen latest row = elim (Bool-cases (same_key probe ev)) [
  | inr other ↦
      rw (lookup-keep_latest-other probe ev latest other)
        (elim (Option-cases (lookup probe latest)) [
          | inl e ↦ rw e (other, rw e at row)
          | inr (r, e) ↦
              let (key, among, all) : IsLatest probe seen r = rw e at row in
              rw e (key, inr among, (inl other, all))
        ])
  | inl own ↦
      rw (lookup-keep_latest-same probe ev latest own) (elim (Option-cases (lookup probe latest)) [
        | inl e ↦
            rw e
              (own, inl refl, (inr (supersedes_irrefl ev), All-others probe ev seen (rw e at row)))
        | inr (r, e) ↦
            let (key, among, all) : IsLatest probe seen r = rw e at row in
            rw e (elim (Bool-cases (supersedes ev r)) [
              | inl later ↦
                  rw later (
                    own,
                    inl refl,
                    (inr (supersedes_irrefl ev), All-later probe ev r seen later all),
                  )
              | inr earlier ↦ rw earlier (key, inr among, (inr earlier, all))
            ])
      ])
]

-- The events seen, the last one first.
rev_onto : List StateEvent → List StateEvent → List StateEvent
rev_onto seen [] = seen
rev_onto seen (ev ∷ events) = rev_onto (ev ∷ seen) events

Row-latest_of :
    (probe : StateEvent) (seen latest events : List StateEvent)
    → Row probe seen (lookup probe latest)
    → Row probe (rev_onto seen events) (lookup probe (latest_of latest events))
unfolding latest_of rev_onto
Row-latest_of probe seen latest [] row = row
Row-latest_of probe seen latest (ev ∷ events) row =
    Row-latest_of probe (ev ∷ seen) (keep_latest latest ev) events
      (Row-keep_latest probe ev seen latest row)

In-rev_onto :
    (r : StateEvent) (seen events : List StateEvent)
    → In r (rev_onto seen events)
    → In r seen ⊎ In r events
unfolding rev_onto In
In-rev_onto r seen [] h = inl h
In-rev_onto r seen (ev ∷ events) h = elim (In-rev_onto r (ev ∷ seen) events h) [
  | inl (inl e) ↦ inr (inl e)
  | inl (inr among) ↦ inl among
  | inr later ↦ inr (inr later)
]

All-rev_onto {κ} :
    (P : StateEvent → Type κ) (seen events : List StateEvent)
    → All P (rev_onto seen events)
    → All P seen × All P events
unfolding rev_onto
All-rev_onto P seen [] h = (h, tt)
All-rev_onto P seen (ev ∷ events) h =
    let ((p, ps), qs) = All-rev_onto P (ev ∷ seen) events h in (ps, (p, qs))

-- Of another card or campaign, or with a smaller number, or with the same number and no later time.
pub IsEarlier : StateEvent → StateEvent → StateEvent → Type 0
IsEarlier probe r ev =
    (same_key probe ev ≡ false)
    ⊎ (ev.change.transition_seq < r.change.transition_seq)
    ⊎ (ev.change.transition_seq ≡ r.change.transition_seq) × (ev.timestamp ≤ r.timestamp)

supersedes-earlier :
    (ev r : StateEvent)
    → supersedes ev r ≡ false
    → (ev.change.transition_seq < r.change.transition_seq)
      ⊎ (ev.change.transition_seq ≡ r.change.transition_seq) × (ev.timestamp ≤ r.timestamp)
unfolding supersedes
supersedes-earlier ev r h = ground arith

All-IsEarlier :
    (probe r : StateEvent) (events : List StateEvent)
    → All (λ ev. (same_key probe ev ≡ false) ⊎ (supersedes ev r ≡ false)) events
    → All (IsEarlier probe r) events
unfolding IsEarlier
All-IsEarlier probe r [] h = tt
All-IsEarlier probe r (ev ∷ events) (inl other, h) = (inl other, All-IsEarlier probe r events h)
All-IsEarlier probe r (ev ∷ events) (inr earlier, h) =
    (inr (supersedes-earlier ev r earlier), All-IsEarlier probe r events h)

-- What a batch keeps for a card and a campaign: nothing if the batch has no event of theirs, and else
-- one of them with the greatest number and, among those with that number, the latest time.
pub latest_of_lem :
    (probe : StateEvent) (events : List StateEvent)
    → ((lookup probe (latest_of [] events) ≡ none) × All (λ ev. same_key probe ev ≡ false) events)
      ⊎ ((r : StateEvent) × (lookup probe (latest_of [] events) ≡ some r)
          × (same_key probe r ≡ true)
          × In r events
          × All (IsEarlier probe r) events)
unfolding Row IsLatest In lookup
latest_of_lem probe events =
    let row = Row-latest_of probe [] [] events tt in
    elim (Option-cases (lookup probe (latest_of [] events))) [
      | inl e ↦ inl (e, (All-rev_onto _ [] events (rw e at row)).1)
      | inr (r, e) ↦
          let (key, among, all) : IsLatest probe (rev_onto [] events) r = rw e at row in
          inr (
            r,
            e,
            key,
            elim (In-rev_onto r [] events among) [ inl h ↦ absurd (omega arith) | inr h ↦ h ],
            All-IsEarlier probe r events (All-rev_onto _ [] events all).1,
          )
    ]
