-- ===== src/Packs/Tests.antt =====
-- Sheets of a funding pack: runs.
use apex_appraise.Common.{length, ℕ, ◌≤◌, ◌≡◌, refl, true, false, some, List, [], ◌∷◌, arith}
use apex_appraise.Packs.Sheets.{
  PackLayout, pack_layout, PackSheet, first_page_rows, later_page_rows, with_lines, next_sheet,
  paginate_pack,
}
use apex_appraise.Packs.Placement.{all_rows, all_lines, paginate_pack-total}
use apex_appraise.Packs.Heights.{IsRoomy, IsFitting, paginate_pack-IsFitting}

-- A sheet with room for two lines and two rows beside its summary.
abbrev small_layout : PackLayout
small_layout = record {
  page_content_px = 100;
  row_px = 10;
  table_head_px = 10;
  total_px = 10;
  summary_px = 50;
  exception_line_px = 40;
  note_px = 10;
  exception_box_px = 20;
}

-- Three lines take three sheets, and the rows begin on the last of them.
small_pack :
    paginate_pack {T = ℕ} {E = ℕ} (1 ∷ 2 ∷ 3 ∷ []) (7 ∷ 8 ∷ 9 ∷ []) small_layout 0
    ≡ some (
        record { exceptions = 7 ∷ 8 ∷ []; continued = false; rows = [] }
        ∷ record { exceptions = 9 ∷ []; continued = true; rows = 1 ∷ 2 ∷ [] }
        ∷ record { exceptions = []; continued = false; rows = 3 ∷ [] }
        ∷ [])
unfolding paginate_pack next_sheet with_lines
small_pack = refl

first_rows :
    (first_page_rows 1 pack_layout false 0 ≡ 13) × (later_page_rows pack_layout true 0 ≡ 25)
unfolding first_page_rows later_page_rows
first_rows = (refl, refl)

paginate_pack-total_example :
    (sheets : List (PackSheet ℕ ℕ)) × (paginate_pack
        (1 ∷ 2 ∷ 3 ∷ [])
        (7 ∷ 8 ∷ 9 ∷ [])
        small_layout
        90
      ≡ some sheets)
    × (all_rows sheets ≡ 1 ∷ 2 ∷ 3 ∷ [])
    × (all_lines sheets ≡ 7 ∷ 8 ∷ 9 ∷ [])
    × (length sheets ≤ 8)
paginate_pack-total_example = paginate_pack-total small_layout 90 (7 ∷ 8 ∷ 9 ∷ []) (1 ∷ 2 ∷ 3 ∷ [])

small_layout-IsRoomy : IsRoomy small_layout 0
small_layout-IsRoomy = record { summary = omega arith; line = omega arith; row = omega arith }

paginate_pack-IsFitting_example : IsFitting {T = ℕ} {E = ℕ} small_layout 0 true (
    record { exceptions = 7 ∷ 8 ∷ []; continued = false; rows = [] }
    ∷ record { exceptions = 9 ∷ []; continued = true; rows = 1 ∷ 2 ∷ [] }
    ∷ record { exceptions = []; continued = false; rows = 3 ∷ [] }
    ∷ [])
paginate_pack-IsFitting_example =
    paginate_pack-IsFitting small_layout 0 (7 ∷ 8 ∷ 9 ∷ []) (1 ∷ 2 ∷ 3 ∷ []) _ small_layout-IsRoomy
      small_pack
