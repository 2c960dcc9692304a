-- ===== src/Campaign/Targets/Groups.antt =====
-- Lists of numbers in groups of a size.
use ota_platform.Prelude.{
  ℕ, zero, suc, ◌≤◌, ◌<◌, ◌≡◌, refl, ap, ◌∙◌, List, [], ◌∷◌, ◌++◌, length, take, drop, concat, All,
  arith, length-take, length-drop, take-append-drop,
}

-- The list in groups of a size, the last one shorter.
unfoldable pub groups : ℕ → ℕ → List ℕ → List (List ℕ)
groups zero size xs = []
groups (suc n) size [] = []
groups (suc n) size (x ∷ xs) = take size (x ∷ xs) ∷ groups n size (drop size (x ∷ xs))

pub groups-nil : (n size : ℕ) → groups n size [] ≡ []
unfolding groups
groups-nil zero size = refl
groups-nil (suc n) size = refl

pub concat-groups :
    (n size : ℕ) (xs : List ℕ) → 0 < size → length xs ≤ n → concat (groups n size xs) ≡ xs
unfolding groups
concat-groups zero size [] p h = refl
concat-groups zero size (x ∷ xs) p h = absurd (omega arith)
concat-groups (suc n) size [] p h = refl
concat-groups (suc n) zero (x ∷ xs) p h = absurd (omega arith)
concat-groups (suc n) (suc size) (x ∷ xs) p h =
    ap (λ t. x ∷ (take size xs ++ t))
      (concat-groups n (suc size) (drop size xs) p (omega (arith, length-drop size xs)))
    ∙ ap (λ t. x ∷ t) (take-append-drop size xs)

pub length-groups-le :
    (n size : ℕ) (xs : List ℕ)
    → 0 < size
    → All (λ group. (0 < length group) × (length group ≤ size)) (groups n size xs)
unfolding groups
length-groups-le zero size xs p = tt
length-groups-le (suc n) size [] p = tt
length-groups-le (suc n) zero (x ∷ xs) p = absurd (omega arith)
length-groups-le (suc n) (suc size) (x ∷ xs) p = (
  (omega arith, omega (arith, length-take size xs)),
  length-groups-le n (suc size) (drop size xs) p,
)
