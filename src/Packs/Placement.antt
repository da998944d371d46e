-- ===== src/Packs/Placement.antt =====
-- Every position and every exception is printed once, in its order, on finitely many sheets.
use apex_appraise.Common.{
  if◌then◌else◌, Bool-cases, length, take, drop, length-drop, append-take, ℕ, zero, suc, ◌+◌, ◌≤◌,
  ◌<◌, ◌≡◌, refl, sym, ap, ◌∙◌, subst, inl, inr, Bool, true, false, ◌&&◌, not, Option, none, some,
  List, [], ◌∷◌, ◌++◌, arith,
}
use apex_appraise.Packs.Sheets.{
  PackLayout, PackSheet, is_empty, rows_in, chrome, lines_on, lines_px, closes_on, rows_on, Laid,
  with_rows, with_lines, next_sheet, sheets_from, paginate_pack,
}

lines_on-pos : (L : PackLayout) (first : Bool) (used n : ℕ) → 1 ≤ n → 1 ≤ lines_on L first used n
lines_on-pos L first used n h = ground (arith, h)

lines_on-le : (L : PackLayout) (first : Bool) (used n : ℕ) → lines_on L first used n ≤ n
lines_on-le L first used n = ground arith

is_empty-eq : {A : Type 0} → (xs : List A) → is_empty xs ≡ true → xs ≡ []
is_empty-eq [] h = refl
is_empty-eq (x ∷ xs) h = cc

is_empty-length : {A : Type 0} → (xs : List A) → is_empty xs ≡ false → 1 ≤ length xs
is_empty-length [] h = cc
is_empty-length (x ∷ xs) h = omega arith

append-nil : {A : Type 0} → (xs : List A) → xs ++ [] ≡ xs
append-nil [] = refl
append-nil (x ∷ xs) = ap (λ ys. x ∷ ys) (append-nil xs)

-- A sheet that must take a row and does not close the book takes one and leaves one.
rows_on-pos :
    (remaining : ℕ) (a b : Option ℕ)
    → closes_on true remaining a ≡ false
    → (1 ≤ rows_on true remaining b) × (1 ≤ remaining)
rows_on-pos remaining none none h = (ground (arith, h), ground (arith, h))
rows_on-pos remaining none (some k) h = (ground (arith, h), ground (arith, h))
rows_on-pos remaining (some m) none h = (ground (arith, h), ground (arith, h))
rows_on-pos remaining (some m) (some k) h = (ground (arith, h), ground (arith, h))

rows-shorter :
    {A : Type 0}
    → (first must : Bool) (n : ℕ) (xs : List A) (a b : Option ℕ)
    → (must ≡ false → 1 ≤ n + (if first then 1 else 0))
    → closes_on must (length xs) a ≡ false
    → length (drop (rows_on must (length xs) b) xs) + 1 ≤ n + length xs + (if first then 1 else 0)
rows-shorter first true n xs a b h e =
    let (k, r) = rows_on-pos (length xs) a b e in
    omega (arith, k, r, length-drop (rows_on true (length xs) b) xs)
rows-shorter first false n xs a b h e =
    omega (arith, h refl, length-drop (rows_on false (length xs) b) xs)

some_left :
    {A : Type 0}
    → (first : Bool) (exceptions : List A) → (not first && is_empty exceptions) ≡ false
    → 1 ≤ length exceptions + (if first then 1 else 0)
some_left true exceptions h = omega arith
some_left false [] h = cc
some_left false (x ∷ exceptions) h = omega arith

module _ {T E : Type 0} where
  -- What one turn of the loop makes of what is left.
  record IsPlaced (first : Bool) (exceptions : List E) (positions : List T) (laid : Laid T E)
      : Type 0 where
    lines : laid.sheet.exceptions ++ laid.exceptions ≡ exceptions
    rows : laid.sheet.rows ++ laid.positions ≡ positions
    done : laid.closes ≡ true → (laid.exceptions ≡ []) × (laid.positions ≡ [])
    shorter :
        laid.closes ≡ false
        → length laid.exceptions + length laid.positions + 1
          ≤ length exceptions + length positions + (if first then 1 else 0)

  -- Rows on a sheet that places what is left of the exceptions.
  with_rows-IsPlaced :
      (L : PackLayout) (used : ℕ) (first must continued : Bool) (exceptions : List E)
      (positions : List T)
      → (must ≡ false → 1 ≤ length exceptions + (if first then 1 else 0))
      → IsPlaced first exceptions positions (with_rows L used must continued exceptions positions)
  with_rows-IsPlaced L used first must continued exceptions positions h =
      elim (Bool-cases (closes_on must (length positions) (rows_in L used true))) [
        | inl e ↦ rw e (record {
          lines = append-nil exceptions;
          rows = append-nil positions;
          done = λ _. (refl, refl);
          shorter = λ f. cc;
        })
        | inr e ↦ rw e (record {
          lines = append-nil exceptions;
          rows = append-take _ positions;
          done = λ f. cc;
          shorter = λ _. omega (
            arith,
            rows-shorter first must (length exceptions) positions (rows_in L used true)
                (rows_in L used false) h e,
          );
        })
      ]

  with_lines-IsPlaced :
      (L : PackLayout) (used : ℕ) (first must continued : Bool) (k : ℕ) (exceptions : List E)
      (positions : List T)
      → (1 ≤ length exceptions → 1 ≤ k)
      → (must ≡ false → 1 ≤ length exceptions + (if first then 1 else 0))
      → IsPlaced first exceptions positions
          (with_lines L used must continued k exceptions positions)
  unfolding with_lines
  with_lines-IsPlaced L used first must continued k exceptions positions some_line h =
      elim (Bool-cases (is_empty (drop k exceptions))) [
        | inl e ↦
            let whole : take k exceptions ≡ exceptions =
              sym (append-nil (take k exceptions))
              ∙ ap (λ xs. take k exceptions ++ xs) (sym (is_empty-eq (drop k exceptions) e))
              ∙ append-take k exceptions in
            rw e (
              subst
                (λ (xs : List E).
                  IsPlaced first xs positions
                    (with_rows L used must continued (take k exceptions) positions))
                whole
                (with_rows-IsPlaced L used first must continued (take k exceptions) positions (λ f.
                  subst (λ (xs : List E). 1 ≤ length xs + (if first then 1 else 0)) (sym whole)
                    (h f))))
        | inr e ↦
            let left = is_empty-length (drop k exceptions) e in
            rw e (record {
              lines = append-take k exceptions;
              rows = refl;
              done = λ f. cc;
              shorter = λ _. omega (
                arith,
                left,
                length-drop k exceptions,
                some_line (omega (arith, left, length-drop k exceptions)),
              );
            })
      ]

  next_sheet-IsPlaced :
      (L : PackLayout) (reserve_px : ℕ) (first : Bool) (exceptions : List E) (positions : List T)
      → IsPlaced first exceptions positions (next_sheet L reserve_px first exceptions positions)
  unfolding next_sheet
  next_sheet-IsPlaced L reserve_px first exceptions positions =
      let continued = not first && not (is_empty exceptions) in
      let before = chrome L reserve_px first continued in
      let k = lines_on L first before (length exceptions) in
      with_lines-IsPlaced L (before + lines_px L first k) first (not first && is_empty exceptions)
        continued k exceptions positions (lines_on-pos L first before (length exceptions))
        (some_left first exceptions)

  -- The rows of the sheets, and their lines, in order.
  unfoldable pub all_rows : List (PackSheet T E) → List T
  all_rows [] = []
  all_rows (s ∷ sheets) = s.rows ++ all_rows sheets

  unfoldable pub all_lines : List (PackSheet T E) → List E
  all_lines [] = []
  all_lines (s ∷ sheets) = s.exceptions ++ all_lines sheets

  sheets_from-lem :
      (L : PackLayout) (reserve_px fuel : ℕ) (first : Bool) (exceptions : List E)
      (positions : List T)
      → length exceptions + length positions + (if first then 1 else 0) < fuel
      → (sheets : List (PackSheet T E)) × (sheets_from L reserve_px fuel first exceptions positions
          ≡ some sheets)
        × (all_rows sheets ≡ positions)
        × (all_lines sheets ≡ exceptions)
        × (length sheets ≤ fuel)
  unfolding all_rows all_lines
  sheets_from-lem L reserve_px zero first exceptions positions h = absurd (omega (arith, h))
  sheets_from-lem L reserve_px (suc fuel) first exceptions positions h =
      let laid = next_sheet L reserve_px first exceptions positions in
      let p = next_sheet-IsPlaced L reserve_px first exceptions positions in
      elim (Bool-cases laid.closes) [
        | inl e ↦ (
          laid.sheet ∷ [],
          rw e refl,
          ap (λ r. laid.sheet.rows ++ r) (sym (p.done e).1) ∙ p.rows,
          ap (λ r. laid.sheet.exceptions ++ r) (sym (p.done e).0) ∙ p.lines,
          omega arith,
        )
        | inr e ↦
            let (sheets, made, rows, lines, few) =
              sheets_from-lem L reserve_px fuel false laid.exceptions laid.positions
                (omega (arith, h, p.shorter e)) in
            (
              laid.sheet ∷ sheets,
              rw (e, made) refl,
              ap (λ r. laid.sheet.rows ++ r) rows ∙ p.rows,
              ap (λ r. laid.sheet.exceptions ++ r) lines ∙ p.lines,
              omega (arith, few),
            )
      ]

  -- The loop ends, on at most two sheets more than there are positions and exceptions, and the sheets
  -- carry every position and every exception once, in the order in which they were given: for any
  -- layout and any reserve, however large.
  pub paginate_pack-total :
      (L : PackLayout) (reserve_px : ℕ) (exceptions : List E) (positions : List T)
      → (sheets : List (PackSheet T E)) × (paginate_pack positions exceptions L reserve_px
          ≡ some sheets)
        × (all_rows sheets ≡ positions)
        × (all_lines sheets ≡ exceptions)
        × (length sheets ≤ length exceptions + length positions + 2)
  unfolding paginate_pack
  paginate_pack-total L reserve_px exceptions positions =
      sheets_from-lem L reserve_px (length exceptions + length positions + 2) true exceptions
        positions (omega arith)
