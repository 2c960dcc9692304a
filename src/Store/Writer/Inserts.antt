-- ===== src/Store/Writer/Inserts.antt =====
-- internal/pgstore/card_state_writer.go, flushCardStatesFallback: the INSERTs and their parameters.
use native.Mathlib.Numerals.{unary_clauses}
use ota_platform.Prelude.{
  ℕ, zero, suc, ◌+◌, ◌*◌, ◌≤◌, ◌≡◌, refl, ap, ◌∙◌, sym, List, [], ◌∷◌, ◌++◌, map, append_assoc,
  length, take, drop, concat, All, All-take, All-drop, arith, length-append, length-take,
  length-drop,
}
use ota_platform.Store.Writer.{row_placeholders, insert_from, fallback_inserts, max_rows, columns}

-- So many numbers counted up from the one after `b`.
unfoldable pub numbers : ℕ → ℕ → List ℕ
numbers b zero = []
numbers b (suc n) = suc b ∷ numbers (suc b) n

numbers-append : (b n m c t : ℕ) → c ≡ b + n → t ≡ n + m → numbers b n ++ numbers c m ≡ numbers b t
unfolding numbers
numbers-append b zero m c t e e' =
    ap (λ x. numbers x m) (omega arith) ∙ ap (numbers b) (omega arith)
numbers-append b (suc n) m c zero e e' = absurd (omega arith)
numbers-append b (suc n) m c (suc t) e e' =
    ap (λ x. suc b ∷ x) (numbers-append (suc b) n m c t (omega arith) (omega arith))

row_placeholders-numbers : (base : ℕ) → row_placeholders base ≡ numbers base 10
unfolding row_placeholders numbers
row_placeholders-numbers base =
    let nine : base + 9 ≡ suc (base + 8) = omega arith in
    let ten : base + 10 ≡ suc (suc (base + 8)) = omega arith in
    rw (nine, ten) (simp unary_clauses refl)

-- A row of each of the columns.
unfoldable pub IsRow : {A : Type 0} → List A → Type 0
IsRow row = length row ≡ 10

insert_from-rows :
    {A : Type 0} (i : ℕ) (rows : List (List A))
    → All IsRow rows
    → ((insert_from i rows).args ≡ concat rows)
      × (length (concat rows) ≡ 10 * length rows)
      × (concat (insert_from i rows).placeholders ≡ numbers (10 * i) (10 * length rows))
unfolding insert_from IsRow
insert_from-rows i [] h = (refl, omega arith, unfold numbers in refl)
insert_from-rows i (row ∷ rows) (h, hs) =
    let (args, size, places) = insert_from-rows (i + 1) rows hs in
    (
      ap (λ t. row ++ t) args,
      omega (arith, h, size, length-append row (concat rows)),
      ap (λ t. t ++ concat (insert_from (i + 1) rows).placeholders)
            (row_placeholders-numbers (i * columns))
          ∙ ap (λ t. numbers (i * columns) 10 ++ t) places
          ∙ ap (λ b. numbers b 10 ++ numbers (10 * (i + 1)) (10 * length rows)) (omega arith)
          ∙ numbers-append (10 * i) 10 (10 * length rows) (10 * (i + 1)) (10 * suc (length rows))
              (omega arith) (omega arith),
    )

concat-take-drop :
    {A : Type 0} (n : ℕ) (rows : List (List A))
    → concat (take n rows) ++ concat (drop n rows) ≡ concat rows
concat-take-drop zero rows = refl
concat-take-drop (suc n) [] = refl
concat-take-drop (suc n) (row ∷ rows) =
    append_assoc row (concat (take n rows)) (concat (drop n rows))
    ∙ ap (λ t. row ++ t) (concat-take-drop n rows)

fallback-rounds :
    {A : Type 0} (rounds : ℕ) (rows : List (List A))
    → All IsRow rows
    → length rows ≤ rounds
    → (concat (map (λ insert. insert.args) (fallback_inserts rounds rows)) ≡ concat rows)
      × All
          (λ insert.
            (length insert.args ≤ 65535)
            × (concat insert.placeholders ≡ numbers 0 (length insert.args)))
          (fallback_inserts rounds rows)
unfolding fallback_inserts
fallback-rounds zero [] h few = (refl, tt)
fallback-rounds zero (row ∷ rows) h few = absurd (omega arith)
fallback-rounds (suc rounds) [] h few = (refl, tt)
fallback-rounds (suc rounds) (row ∷ rows) h few =
    let first = take max_rows (row ∷ rows) in
    let later = drop max_rows (row ∷ rows) in
    let (args, size, places) = insert_from-rows 0 first (All-take IsRow max_rows (row ∷ rows) h) in
    let (joined, all) =
      fallback-rounds rounds later (All-drop IsRow max_rows (row ∷ rows) h)
        (omega (arith, length-drop max_rows (row ∷ rows))) in
    let total : length (insert_from 0 first).args ≡ 10 * length first = ap length args ∙ size in
    (
      ap (λ t. t ++ concat (map (λ insert. insert.args) (fallback_inserts rounds later))) args
          ∙ ap (λ t. concat first ++ t) joined
          ∙ concat-take-drop max_rows (row ∷ rows),
      (
        (
          omega (arith, total, length-take max_rows (row ∷ rows)),
          places ∙ ap (numbers 0) (sym total),
        ),
        all,
      ),
    )

-- The INSERTs together carry every row, in order; each has at most 65,535 parameters, and its
-- placeholders count up from 1 to their number.
pub fallback_inserts_lem :
    {A : Type 0} (rows : List (List A))
    → All IsRow rows
    → (concat (map (λ insert. insert.args) (fallback_inserts (length rows) rows)) ≡ concat rows)
      × All
          (λ insert.
            (length insert.args ≤ 65535)
            × (concat insert.placeholders ≡ numbers 0 (length insert.args)))
          (fallback_inserts (length rows) rows)
fallback_inserts_lem rows h = fallback-rounds (length rows) rows h (omega arith)
