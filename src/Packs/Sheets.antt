-- ===== src/Packs/Sheets.antt =====
-- apps/web/src/lib/pack-pagination.ts. Heights are whole pixels. What the source computes as `page - used`
-- is the pair of the two, since it may be negative. A row and a line have a positive height in every layout of
-- the source: a division by 0 is 0 here.
use apex_appraise.Common.{
  leb, if◌then◌else◌, length, take, drop, ℕ, zero, suc, ◌+◌, ◌-◌, ◌*◌, ◌/◌, Bool, true, false, ◌&&◌,
  not, Option, none, some, List, [], ◌∷◌,
}

-- `PackLayout`
pub record PackLayout : Type 0 where
  pub page_content_px : ℕ
  pub row_px : ℕ
  pub table_head_px : ℕ
  pub total_px : ℕ
  pub summary_px : ℕ
  pub exception_line_px : ℕ
  pub note_px : ℕ
  pub exception_box_px : ℕ

abbrev pub pack_layout : PackLayout
pack_layout = record {
  page_content_px = 924;
  row_px = 32;
  table_head_px = 34;
  total_px = 36;
  summary_px = 420;
  exception_line_px = 19;
  note_px = 44;
  exception_box_px = 56;
}

pub record PackSheet (T E : Type 0) : Type 0 where
  pub exceptions : List E
  pub continued : Bool
  pub rows : List T

-- `Math.floor((page - used) / unit)`, with `none` for a negative one
abbrev pub room : (page used unit : ℕ) → Option ℕ
room page used unit = if leb used page then some ((page - used) / unit) else none

-- `Math.max(k, n)`
abbrev pub at_least : ℕ → Option ℕ → ℕ
at_least k none = k
at_least k (some n) = if leb k n then n else k

-- `k <= n`
abbrev pub is_within : ℕ → Option ℕ → Bool
is_within k none = false
is_within k (some n) = leb k n

abbrev pub lesser : ℕ → ℕ → ℕ
lesser a b = if leb a b then a else b

abbrev pub is_empty : {A : Type 0} → List A → Bool
is_empty [] = true
is_empty (x ∷ xs) = false

abbrev pub note_of : PackLayout → (last : Bool) → ℕ
note_of L last = if last then L.note_px else 0

-- `firstPageRows`
unfoldable pub first_page_rows :
    (exception_lines : ℕ) → PackLayout → (last : Bool) → (reserve_px : ℕ) → ℕ
first_page_rows exception_lines L last reserve_px = at_least 0 (
    room L.page_content_px
      (reserve_px
        + L.summary_px
        + (exception_lines - 1) * L.exception_line_px
        + L.table_head_px
        + L.total_px
        + note_of L last)
      L.row_px)

-- `laterPageRows`
unfoldable pub later_page_rows : PackLayout → (last : Bool) → (reserve_px : ℕ) → ℕ
later_page_rows L last reserve_px =
    at_least 1
      (room L.page_content_px (reserve_px + L.table_head_px + L.total_px + note_of L last) L.row_px)

-- `rowsIn`
abbrev pub rows_in : PackLayout → (used : ℕ) → (last : Bool) → Option ℕ
rows_in L used last =
    room L.page_content_px (used + L.table_head_px + L.total_px + note_of L last) L.row_px

-- what a sheet has used before any exception line
abbrev pub chrome : PackLayout → (reserve_px : ℕ) → (first continued : Bool) → ℕ
chrome L reserve_px first continued =
    reserve_px + (if first then L.summary_px else 0) + (if continued then L.exception_box_px else 0)

-- the lines that a sheet carries of `n` that are left
abbrev pub lines_on : PackLayout → (first : Bool) → (used n : ℕ) → ℕ
lines_on L first used n =
    let fitting = room L.page_content_px used L.exception_line_px in
    lesser (if first then 1 + at_least 0 fitting else at_least 1 fitting) n

-- the height of `k` lines: the summary holds the first of them
abbrev pub lines_px : PackLayout → (first : Bool) → (k : ℕ) → ℕ
lines_px L first k = (if first then k - 1 else k) * L.exception_line_px

-- whether a sheet with `remaining` rows left closes the book
abbrev pub closes_on : (must : Bool) → (remaining : ℕ) → (fitting : Option ℕ) → Bool
closes_on must remaining fitting =
    if must then leb remaining (at_least 1 fitting) else is_within remaining fitting

-- the rows of a sheet that does not
abbrev pub rows_on : (must : Bool) → (remaining : ℕ) → (fitting : Option ℕ) → ℕ
rows_on must remaining fitting = lesser (at_least (if must then 1 else 0) fitting) (remaining - 1)

-- a sheet, what is left after it, and whether it closes the book
pub record Laid (T E : Type 0) : Type 0 where
  pub sheet : PackSheet T E
  pub exceptions : List E
  pub positions : List T
  pub closes : Bool

module _ {T E : Type 0} where
  -- the rows of a sheet once the exceptions are placed
  abbrev pub with_rows :
      PackLayout
      → (used : ℕ) → (must continued : Bool) → (placed : List E) → (positions : List T) → Laid T E
  with_rows L used must continued placed positions =
      let remaining = length positions in
      if closes_on must remaining (rows_in L used true)
      then record {
        sheet = record { exceptions = placed; continued = continued; rows = positions };
        exceptions = [];
        positions = [];
        closes = true;
      }
      else let k = rows_on must remaining (rows_in L used false) in
        record {
          sheet = record { exceptions = placed; continued = continued; rows = take k positions };
          exceptions = [];
          positions = drop k positions;
          closes = false;
        }

  -- a sheet with `k` of the exceptions: rows follow on it if they are the last
  unfoldable pub with_lines :
      PackLayout
      → (used : ℕ) → (must continued : Bool) → (k : ℕ) → (exceptions : List E)
      → (positions : List T) → Laid T E
  with_lines L used must continued k exceptions positions =
      if is_empty (drop k exceptions)
      then with_rows L used must continued (take k exceptions) positions
      else record {
        sheet = record { exceptions = take k exceptions; continued = continued; rows = [] };
        exceptions = drop k exceptions;
        positions = positions;
        closes = false;
      }

  -- One turn of the loop of `paginatePack`.
  unfoldable pub next_sheet :
      PackLayout
      → (reserve_px : ℕ) → (first : Bool) → (exceptions : List E) → (positions : List T) → Laid T E
  next_sheet L reserve_px first exceptions positions =
      let continued = not first && not (is_empty exceptions) in
      let before = chrome L reserve_px first continued in
      let k = lines_on L first before (length exceptions) in
      with_lines L (before + lines_px L first k) (not first && is_empty exceptions) continued k
        exceptions positions

  abbrev pub followed :
      (closes : Bool)
      → PackSheet T E
      → Option (List (PackSheet T E))
      → Option (List (PackSheet T E))
  followed true sheet rest = some (sheet ∷ [])
  followed false sheet none = none
  followed false sheet (some sheets) = some (sheet ∷ sheets)

  -- The loop, on fuel.
  abbrev pub sheets_from :
      PackLayout
      → (reserve_px : ℕ) → (fuel : ℕ) → (first : Bool) → (exceptions : List E)
      → (positions : List T) → Option (List (PackSheet T E))
  sheets_from L reserve_px zero first exceptions positions = none
  sheets_from L reserve_px (suc fuel) first exceptions positions =
      let laid = next_sheet L reserve_px first exceptions positions in
      followed laid.closes laid.sheet
        (sheets_from L reserve_px fuel false laid.exceptions laid.positions)

  -- `paginatePack`
  unfoldable pub paginate_pack :
      (positions : List T)
      → (exceptions : List E) → PackLayout
      → (reserve_px : ℕ) → Option (List (PackSheet T E))
  paginate_pack positions exceptions L reserve_px =
      sheets_from L reserve_px (length exceptions + length positions + 2) true exceptions positions
