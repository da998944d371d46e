-- ===== src/Packs/Fitting.antt =====
-- What fits on a sheet: the quotients that bound lines and rows, multiplied out.
use apex_appraise.Common.{
  leb, ◌==◌, if◌then◌else◌, Bool-cases, ℕ, zero, suc, ◌+◌, ◌-◌, ◌*◌, ◌/◌, ◌≤◌, ◌≡◌, refl, inl, inr,
  Bool, true, false, ◌||◌, not, arith,
}
use apex_appraise.Packs.Sheets.{
  PackLayout, room, at_least, is_within, lesser, rows_in, lines_on, lines_px, closes_on, rows_on,
}
use native.Mathlib.Nat.{mul-le-mul_right, div-mul-le_self}

-- What fits by the division fits by the multiplication.
pub quotient_fits :
    (page used unit k : ℕ) → used ≤ page → k ≤ (page - used) / unit → used + k * unit ≤ page
quotient_fits page used unit k h le =
    omega (arith, h, mul-le-mul_right unit le, div-mul-le_self (page - used) unit)

pub within_fits :
    (page used unit k : ℕ) → is_within k (room page used unit) ≡ true → used + k * unit ≤ page
within_fits page used unit k h = elim (Bool-cases (leb used page)) [
  | inl e ↦ quotient_fits page used unit k (ground (arith, e)) (ground (arith, e, h))
  | inr e ↦ absurd (ground (arith, e, h))
]

-- As many units as are allowed, `m` being allowed in any case.
pub allowed_fits :
    (page used unit m k : ℕ)
    → k ≤ at_least m (room page used unit)
    → used + m * unit ≤ page
    → used + k * unit ≤ page
allowed_fits page used unit m k le h =
    let some_room : used ≤ page = omega (arith, h) in
    elim (Bool-cases (leb k m)) [
      | inl e ↦ let less : k ≤ m = ground (arith, e) in omega (arith, h, mul-le-mul_right unit less)
      | inr e ↦ quotient_fits page used unit k some_room (ground (arith, e, le, some_room))
    ]

pub free_fits :
    (page used unit k : ℕ) → 1 ≤ k → k ≤ at_least 0 (room page used unit) → used + k * unit ≤ page
free_fits page used unit k pos le = elim (Bool-cases (leb used page)) [
  | inl e ↦ quotient_fits page used unit k (ground (arith, e)) (ground (arith, e, le))
  | inr e ↦ absurd (ground (arith, e, le, pos))
]

-- The height of the table on a sheet, which is not drawn over no rows before the last sheet.
abbrev pub table_px : PackLayout → (last : Bool) → (n : ℕ) → ℕ
table_px L last n = if last || not (n == 0) then L.table_head_px + L.total_px + n * L.row_px else 0

pub closing_fits :
    (L : PackLayout) (used n : ℕ) (must : Bool)
    → closes_on must n (rows_in L used true) ≡ true
    → (must ≡ true → used + L.table_head_px + L.total_px + L.note_px + L.row_px ≤ L.page_content_px)
    → used + table_px L true n + L.note_px ≤ L.page_content_px
closing_fits L used n true h one = omega (
  arith,
  allowed_fits L.page_content_px (used + L.table_head_px + L.total_px + L.note_px) L.row_px 1 n
      (ground (arith, h)) (omega (arith, one refl)),
)
closing_fits L used n false h one = omega (
  arith,
  within_fits L.page_content_px (used + L.table_head_px + L.total_px + L.note_px) L.row_px n h,
)

pub lesser-left : (a b : ℕ) → lesser a b ≤ a
lesser-left a b = ground arith

pub lesser-right : (a b : ℕ) → lesser a b ≤ b
lesser-right a b = ground arith

pub open_table_fits :
    (L : PackLayout) (used k : ℕ)
    → used ≤ L.page_content_px
    → (1 ≤ k → used + L.table_head_px + L.total_px + k * L.row_px ≤ L.page_content_px)
    → used + table_px L false k ≤ L.page_content_px
open_table_fits L used zero h g = omega (arith, h)
open_table_fits L used (suc k) h g = grind (arith, g (omega arith))

pub rows_fit :
    (L : PackLayout) (used k : ℕ) (must : Bool)
    → 1 ≤ k
    → k ≤ at_least (if must then 1 else 0) (rows_in L used false)
    → (must ≡ true → used + L.table_head_px + L.total_px + L.note_px + L.row_px ≤ L.page_content_px)
    → used + L.table_head_px + L.total_px + k * L.row_px ≤ L.page_content_px
rows_fit L used k true pos le one = omega (
  arith,
  allowed_fits L.page_content_px (used + L.table_head_px + L.total_px + 0) L.row_px 1 k le
      (omega (arith, one refl)),
)
rows_fit L used k false pos le one =
    omega (
      arith,
      free_fits L.page_content_px (used + L.table_head_px + L.total_px + 0) L.row_px k pos le,
    )

pub open_fits :
    (L : PackLayout) (used n : ℕ) (must : Bool)
    → used ≤ L.page_content_px
    → (must ≡ true → used + L.table_head_px + L.total_px + L.note_px + L.row_px ≤ L.page_content_px)
    → used + table_px L false (rows_on must n (rows_in L used false)) ≤ L.page_content_px
open_fits L used n must h one =
    let fitting = rows_in L used false in
    let k = rows_on must n fitting in
    open_table_fits L used k h (λ pos.
      rows_fit L used k must pos (lesser-left (at_least (if must then 1 else 0) fitting) (n - 1))
        one)

-- The lines that a sheet carries fit beside what is on it already.
pub lines_fit :
    (L : PackLayout) (first : Bool) (used n : ℕ)
    → used + (if first then 0 else lesser 1 n * L.exception_line_px) ≤ L.page_content_px
    → used + lines_px L first (lines_on L first used n) ≤ L.page_content_px
lines_fit L true used n h =
    quotient_fits L.page_content_px used L.exception_line_px (lines_on L true used n - 1)
      (omega (arith, h)) (ground (arith, h))
lines_fit L false used zero h =
    let none_on : lines_on L false used 0 ≡ 0 =
      omega
        (arith, lesser-right (at_least 1 (room L.page_content_px used L.exception_line_px)) 0) in
    rw none_on h
lines_fit L false used (suc n) h =
    allowed_fits L.page_content_px used L.exception_line_px 1 (lines_on L false used (suc n))
      (lesser-left (at_least 1 (room L.page_content_px used L.exception_line_px)) (suc n))
      (ground (arith, h))
