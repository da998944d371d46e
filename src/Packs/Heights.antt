-- ===== src/Packs/Heights.antt =====
-- No sheet is taller than the page.
use apex_appraise.Common.{
  if◌then◌else◌, Bool-cases, length, take, drop, length-take, ℕ, zero, suc, ◌+◌, ◌-◌, ◌*◌, ◌≤◌, ◌≡◌,
  refl, sym, ◌∙◌, subst, inl, inr, Bool, true, false, ◌&&◌, not, Option, none, some, List, [], ◌∷◌,
  arith,
}
use apex_appraise.Packs.Sheets.{
  PackLayout, PackSheet, room, at_least, lesser, is_empty, note_of, rows_in, chrome, lines_on,
  lines_px, closes_on, rows_on, with_rows, with_lines, next_sheet, followed, sheets_from,
  paginate_pack,
}
use apex_appraise.Packs.Fitting.{table_px, closing_fits, lesser-right, open_fits, lines_fit}

-- A layout in which each sheet has room for its summary, or for a box with one line, or for one row.
pub record IsRoomy (L : PackLayout) (reserve_px : ℕ) : Type 0 where
  pub summary : reserve_px + L.summary_px ≤ L.page_content_px
  pub line : reserve_px + L.exception_box_px + L.exception_line_px ≤ L.page_content_px
  pub row : reserve_px + L.table_head_px + L.total_px + L.note_px + L.row_px ≤ L.page_content_px

lines_room :
    {E : Type 0}
    → (L : PackLayout) (reserve_px : ℕ) (first : Bool) (exceptions : List E) → IsRoomy L reserve_px
    → chrome L reserve_px first (not first && not (is_empty exceptions))
        + (if first then 0 else lesser 1 (length exceptions) * L.exception_line_px)
      ≤ L.page_content_px
lines_room L reserve_px true exceptions roomy = omega (arith, roomy.summary)
lines_room L reserve_px false [] roomy = omega (arith, roomy.row)
lines_room L reserve_px false (x ∷ exceptions) roomy = grind (arith, roomy.line)

bare_room :
    {E : Type 0}
    → (L : PackLayout) (reserve_px : ℕ) (first : Bool) (exceptions : List E) → IsRoomy L reserve_px
    → (not first && is_empty exceptions) ≡ true
    → let before = chrome L reserve_px first (not first && not (is_empty exceptions)) in
      before
        + lines_px L first (lines_on L first before (length exceptions))
        + L.table_head_px
        + L.total_px
        + L.note_px
        + L.row_px
      ≤ L.page_content_px
bare_room L reserve_px true exceptions roomy h = cc
bare_room L reserve_px false (x ∷ exceptions) roomy h = cc
bare_room L reserve_px false [] roomy h =
    let none_on : lines_on L false (chrome L reserve_px false false) 0 ≡ 0 = omega (
      arith,
      lesser-right
          (at_least 1
            (room L.page_content_px (chrome L reserve_px false false) L.exception_line_px))
          0,
    ) in
    rw none_on (omega (arith, roomy.row))

module _ {T E : Type 0} where
  unfoldable pub sheet_px : PackLayout → (reserve_px : ℕ) → (first last : Bool) → PackSheet T E → ℕ
  sheet_px L reserve_px first last s =
      chrome L reserve_px first s.continued
      + lines_px L first (length s.exceptions)
      + table_px L last (length s.rows)
      + note_of L last

  with_rows-fits :
      (L : PackLayout) (reserve_px used : ℕ) (first must continued : Bool) (placed : List E)
      (positions : List T)
      → chrome L reserve_px first continued + lines_px L first (length placed) ≡ used
      → used ≤ L.page_content_px
      → (must ≡ true
          → used + L.table_head_px + L.total_px + L.note_px + L.row_px ≤ L.page_content_px)
      → sheet_px L reserve_px first
          (with_rows L used must continued placed positions).closes
          (with_rows L used must continued placed positions).sheet
        ≤ L.page_content_px
  unfolding sheet_px
  with_rows-fits L reserve_px used first must continued placed positions same h one =
      elim (Bool-cases (closes_on must (length positions) (rows_in L used true))) [
        | inl e ↦ rw (e, same) (closing_fits L used (length positions) must e one)
        | inr e ↦
            let fitting = rows_in L used false in
            let taken = length-take (rows_on must (length positions) fitting) positions (
              omega (
                arith,
                lesser-right (at_least (if must then 1 else 0) fitting) (length positions - 1),
              )) in
            rw (e, same, taken) (omega (arith, open_fits L used (length positions) must h one))
      ]

  with_lines-fits :
      (L : PackLayout) (reserve_px : ℕ) (first must continued : Bool) (k : ℕ) (exceptions : List E)
      (positions : List T)
      → k ≤ length exceptions
      → chrome L reserve_px first continued + lines_px L first k ≤ L.page_content_px
      → (must ≡ true
          → chrome L reserve_px first continued
              + lines_px L first k
              + L.table_head_px
              + L.total_px
              + L.note_px
              + L.row_px
            ≤ L.page_content_px)
      → sheet_px L reserve_px first
          (with_lines L
            (chrome L reserve_px first continued + lines_px L first k)
            must
            continued
            k
            exceptions
            positions).closes
          (with_lines L
            (chrome L reserve_px first continued + lines_px L first k)
            must
            continued
            k
            exceptions
            positions).sheet
        ≤ L.page_content_px
  unfolding with_lines sheet_px
  with_lines-fits L reserve_px first must continued k exceptions positions le h one =
      let used = chrome L reserve_px first continued + lines_px L first k in
      let taken = length-take k exceptions le in
      elim (Bool-cases (is_empty (drop k exceptions))) [
        | inl e ↦ rw e (
            with_rows-fits L reserve_px used first must continued (take k exceptions) positions
              (rw taken refl) h one)
        | inr e ↦ rw (e, taken) (omega (arith, h))
      ]

  next_sheet-fits :
      (L : PackLayout) (reserve_px : ℕ) (first : Bool) (exceptions : List E) (positions : List T)
      → IsRoomy L reserve_px
      → sheet_px L reserve_px first
          (next_sheet L reserve_px first exceptions positions).closes
          (next_sheet L reserve_px first exceptions positions).sheet
        ≤ L.page_content_px
  unfolding next_sheet
  next_sheet-fits L reserve_px first exceptions positions roomy =
      let continued = not first && not (is_empty exceptions) in
      let before = chrome L reserve_px first continued in
      let k = lines_on L first before (length exceptions) in
      with_lines-fits L reserve_px first (not first && is_empty exceptions) continued k exceptions
        positions (lesser-right _ (length exceptions))
        (lines_fit L first before (length exceptions)
          (lines_room L reserve_px first exceptions roomy))
        (bare_room L reserve_px first exceptions roomy)

  -- Each sheet of a pack, the last one with the totals and the closing note.
  unfoldable pub IsFitting :
      PackLayout → (reserve_px : ℕ) → (first : Bool) → List (PackSheet T E) → Type 0
  IsFitting L reserve_px first [] = Unit
  IsFitting L reserve_px first (s ∷ sheets) =
      (sheet_px L reserve_px first (is_empty sheets) s ≤ L.page_content_px)
      × IsFitting L reserve_px false sheets

  followed-open :
      (s : PackSheet T E) (rest : Option (List (PackSheet T E))) (sheets : List (PackSheet T E))
      → followed false s rest ≡ some sheets
      → (more : List (PackSheet T E)) × (rest ≡ some more) × (s ∷ more ≡ sheets)
  followed-open s none sheets h = absurd (ground (arith, h))
  followed-open s (some more) sheets h = (more, refl, ground (arith, h))

  followed-some :
      (closes : Bool) (s : PackSheet T E) (rest : Option (List (PackSheet T E)))
      (sheets : List (PackSheet T E))
      → followed closes s rest ≡ some sheets
      → is_empty sheets ≡ false
  followed-some true s rest [] h = ground (arith, h)
  followed-some false s none [] h = ground (arith, h)
  followed-some false s (some more) [] h = ground (arith, h)
  followed-some closes s rest (x ∷ sheets) h = refl

  sheets_from-some :
      (L : PackLayout) (reserve_px fuel : ℕ) (first : Bool) (exceptions : List E)
      (positions : List T) (sheets : List (PackSheet T E))
      → sheets_from L reserve_px fuel first exceptions positions ≡ some sheets
      → is_empty sheets ≡ false
  sheets_from-some L reserve_px zero first exceptions positions sheets h =
      absurd (ground (arith, h))
  sheets_from-some L reserve_px (suc fuel) first exceptions positions sheets h =
      followed-some (next_sheet L reserve_px first exceptions positions).closes _ _ sheets h

  sheets_from-IsFitting :
      (L : PackLayout) (reserve_px fuel : ℕ) (first : Bool) (exceptions : List E)
      (positions : List T) (sheets : List (PackSheet T E))
      → IsRoomy L reserve_px
      → sheets_from L reserve_px fuel first exceptions positions ≡ some sheets
      → IsFitting L reserve_px first sheets
  unfolding IsFitting
  sheets_from-IsFitting L reserve_px zero first exceptions positions sheets roomy h =
      absurd (ground (arith, h))
  sheets_from-IsFitting L reserve_px (suc fuel) first exceptions positions sheets roomy h =
      let laid = next_sheet L reserve_px first exceptions positions in
      let fits = next_sheet-fits L reserve_px first exceptions positions roomy in
      elim (Bool-cases laid.closes) [
        | inl e ↦
            let one : laid.sheet ∷ [] ≡ sheets = ground (arith, h, e) in
            subst (IsFitting L reserve_px first) one (
              subst
                  (λ (last : Bool). sheet_px L reserve_px first last laid.sheet ≤ L.page_content_px)
                  e fits,
              tt,
            )
        | inr e ↦
            let rest = sheets_from L reserve_px fuel false laid.exceptions laid.positions in
            let (more, made, same) = followed-open laid.sheet rest sheets (rw e at h) in
            let some_more =
              sheets_from-some L reserve_px fuel false laid.exceptions laid.positions more made in
            subst (IsFitting L reserve_px first) same (
              subst
                  (λ (last : Bool). sheet_px L reserve_px first last laid.sheet ≤ L.page_content_px)
                  (e ∙ sym some_more) fits,
              sheets_from-IsFitting L reserve_px fuel false laid.exceptions laid.positions more
                  roomy made,
            )
      ]

  -- In a layout with room on each sheet for the summary, for a box with one line and for one row, no
  -- sheet of a pack is taller than the page: its summary or box, its lines, its table and, on the
  -- last, the totals and the note, beside the reserve.
  pub paginate_pack-IsFitting :
      (L : PackLayout) (reserve_px : ℕ) (exceptions : List E) (positions : List T)
      (sheets : List (PackSheet T E))
      → IsRoomy L reserve_px
      → paginate_pack positions exceptions L reserve_px ≡ some sheets
      → IsFitting L reserve_px true sheets
  unfolding paginate_pack
  paginate_pack-IsFitting L reserve_px exceptions positions sheets roomy h =
      sheets_from-IsFitting L reserve_px (length exceptions + length positions + 2) true exceptions
        positions sheets roomy h
