-- ===== src/Executor/Steps.antt =====
-- The next step of a card is the least one above its step.
use ota_platform.Prelude.{
  ℕ, ◌≤◌, ◌<◌, ◌≡◌, refl, sym, ◌⊎◌, inl, inr, List, [], ◌∷◌, Option, some, none, arith, ltb, ltb→lt,
  ltb→ge, Bool-cases, ◌&&◌,
}
use ota_platform.Executor.Types.{CampaignCommand}
use ota_platform.Executor.Advance.{find_next_step}

-- A command of this sequence number is among the commands.
abbrev pub Has : ℕ → List CampaignCommand → Type 0
Has n [] = ⊥
Has n (cmd ∷ cmds) = (cmd.sequence ≡ n) ⊎ Has n cmds

-- Nothing of the commands is above the step, or this one is the least that is.
abbrev pub IsNext : ℕ → List CampaignCommand → Option ℕ → Type 0
IsNext step cmds none = (n : ℕ) → Has n cmds → n ≤ step
IsNext step cmds (some next) =
    (step < next) × Has next cmds × ((n : ℕ) → Has n cmds → step < n → next ≤ n)

-- From a best step so far, the search ends in the least step of it and the commands.
abbrev Reached : ℕ → ℕ → List CampaignCommand → Option ℕ → Type 0
Reached step best cmds none = ⊥
Reached step best cmds (some next) =
    (step < next)
    × ((next ≡ best) ⊎ Has next cmds)
    × (next ≤ best)
    × ((n : ℕ) → Has n cmds → step < n → next ≤ n)

-- A command that improves on the best step, and one that does not.
better-Reached :
    (step best : ℕ) (cmd : CampaignCommand) (cmds : List CampaignCommand) (r : Option ℕ)
    → cmd.sequence < best
    → Reached step cmd.sequence cmds r
    → Reached step best (cmd ∷ cmds) r
better-Reached step best cmd cmds none h absent = elim absent [ ]
better-Reached step best cmd cmds (some next) h (above, among, bound, least) = (
  above,
  elim among [ inl e ↦ inr (inl (sym e)) | inr m ↦ inr (inr m) ],
  omega arith,
  λ n m k. elim m [ inl e ↦ omega (arith, e) | inr m' ↦ least n m' k ],
)

worse-Reached :
    (step best : ℕ) (cmd : CampaignCommand) (cmds : List CampaignCommand) (r : Option ℕ)
    → (step < cmd.sequence → best ≤ cmd.sequence)
    → Reached step best cmds r
    → Reached step best (cmd ∷ cmds) r
worse-Reached step best cmd cmds none h absent = elim absent [ ]
worse-Reached step best cmd cmds (some next) h (above, among, bound, least) = (
  above,
  elim among [ inl e ↦ inl e | inr m ↦ inr (inr m) ],
  bound,
  λ n m k. elim m [ inl e ↦ grind (arith, e, h, bound, k) | inr m' ↦ least n m' k ],
)

find_next_step-Reached :
    (step best : ℕ) (cmds : List CampaignCommand)
    → step < best
    → Reached step best cmds (find_next_step step (some best) cmds)
unfolding find_next_step
find_next_step-Reached step best [] h = (h, inl refl, omega arith, λ n m. elim m [ ])
find_next_step-Reached step best (cmd ∷ cmds) h =
    let better = ltb step cmd.sequence && ltb cmd.sequence best in
    elim (Bool-cases better) [
      | inl e ↦
          let p : step < cmd.sequence = ground (arith, e) in
          let q : cmd.sequence < best = ground (arith, e) in
          rw (e, find_next_step)
            (better-Reached step best cmd cmds _ q
              (find_next_step-Reached step cmd.sequence cmds p))
      | inr e ↦
          let q : step < cmd.sequence → best ≤ cmd.sequence = λ k. ground (arith, e, k) in
          rw (e, find_next_step)
            (worse-Reached step best cmd cmds _ q (find_next_step-Reached step best cmds h))
    ]

Reached-IsNext :
    (step : ℕ) (cmd : CampaignCommand) (cmds : List CampaignCommand) (r : Option ℕ)
    → Reached step cmd.sequence cmds r
    → IsNext step (cmd ∷ cmds) r
Reached-IsNext step cmd cmds none absent = elim absent [ ]
Reached-IsNext step cmd cmds (some next) (above, among, bound, least) = (
  above,
  elim among [ inl e ↦ inl (sym e) | inr m ↦ inr m ],
  λ n m k. elim m [ inl e ↦ omega (arith, e) | inr m' ↦ least n m' k ],
)

skip-IsNext :
    (step : ℕ) (cmd : CampaignCommand) (cmds : List CampaignCommand) (r : Option ℕ)
    → cmd.sequence ≤ step
    → IsNext step cmds r
    → IsNext step (cmd ∷ cmds) r
skip-IsNext step cmd cmds none h below =
    λ n m. elim m [ inl e ↦ omega (arith, e) | inr m' ↦ below n m' ]
skip-IsNext step cmd cmds (some next) h (above, among, least) =
    (above, inr among, λ n m k. elim m [ inl e ↦ omega (arith, e) | inr m' ↦ least n m' k ])

-- The next step is the least sequence number above the current step that a command has, and there is
-- none only when no command is above.
pub find_next_step-IsNext :
    (step : ℕ) (cmds : List CampaignCommand) → IsNext step cmds (find_next_step step none cmds)
unfolding find_next_step
find_next_step-IsNext step [] = λ n m. elim m [ ]
find_next_step-IsNext step (cmd ∷ cmds) = elim (Bool-cases (ltb step cmd.sequence)) [
  | inl e ↦
      rw (e, find_next_step)
        (Reached-IsNext step cmd cmds _
          (find_next_step-Reached step cmd.sequence cmds (ltb→lt step cmd.sequence e)))
  | inr e ↦
      rw (e, find_next_step)
        (skip-IsNext step cmd cmds _ (ltb→ge step cmd.sequence e) (find_next_step-IsNext step cmds))
]
