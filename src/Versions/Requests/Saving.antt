-- ===== src/Versions/Requests/Saving.antt =====
-- `save`.
use apex_appraise.Common.{
  ◌==◌, if◌then◌else◌, Result, ◌>>=◌, ◌>>◌, guard, ok, err, ℕ, ◌+◌, String, Bool, true, ◌&&◌, not,
  Option, none, some, List, [], ◌∷◌, ◌++◌,
}
use apex_appraise.Table.{count}
use apex_appraise.Table.Keyed.{has}
use apex_appraise.Versions.Row.{status_eq, Version, version_id, at_deal, current_appraisal, draft}
use apex_appraise.Versions.Requests.Shared.{
  Refusal, Workspace, SaveRequest, is_approved, is_in_review, or_text, assert_unchanged, advanced,
  stood_down, updated, with_versions, conflict,
}

module _ {R : Type 0} where
  -- the row that `save` creates: a first version has no note
  abbrev pub created :
      SaveRequest R → (label : String) → (note : Option String) → (now : ℕ) → Version R
  created q label note now = record {
    id = q.new_id;
    org_id = q.org_id;
    deal_id = q.deal_id;
    is_current = true;
    label = label;
    note = note;
    review_status = draft;
    submitted_by = none;
    submitted_at = none;
    reviewed_by = none;
    reviewed_at = none;
    review_note = none;
    source = q.source;
    input = q.input;
    narrative = none;
    approval_pin = none;
    updated_at = now;
  }

  -- a version that was out for review is withdrawn by an edit
  abbrev pub edited : SaveRequest R → (existing : Version R) → (now : ℕ) → Version R → Version R
  edited q existing now v =
      let withdrawn = is_in_review existing.review_status in
      record v {
        source = q.source;
        input = q.input;
        updated_at = advanced now existing.updated_at;
        review_status = if withdrawn then draft else v.review_status;
        submitted_by = if withdrawn then none else v.submitted_by;
        submitted_at = if withdrawn then none else v.submitted_at;
      }

  -- the row still stands as the caller opened it
  abbrev pub may_edit : SaveRequest R → (existing : Version R) → Version R → Bool
  may_edit q existing v =
      at_deal q.org_id q.deal_id v
      && (v.is_current
          && (v.updated_at == existing.updated_at
              && status_eq v.review_status existing.review_status))

  unfoldable pub edit :
      SaveRequest R
      → (existing : Version R) → (now : ℕ) → List (Version R)
      → Result Refusal (List (Version R))
  edit q existing now rows = do
    guard (not (is_approved existing.review_status)) conflict
    assert_unchanged existing.updated_at q.expected_updated_at
    updated (λ (v : Version R). has version_id existing.id v && may_edit q existing v)
        (edited q existing now) rows

  -- the transaction reads the current row again
  unfoldable pub first_version :
      SaveRequest R → (now : ℕ) → List (Version R) → Result Refusal (List (Version R))
  first_version q now rows = elim (current_appraisal q.org_id q.deal_id rows) [
    | some raced ↦ err conflict
    | none ↦ ok (rows ++ (created q (or_text "Base" q.label) none now ∷ []))
  ]

  -- `next_label` prints a count as `v<count>`. A save that carries a reviewed field cost is not modelled: its
  -- write asks for the stamp that the caller opened as well.
  unfoldable pub branch :
      (next_label : ℕ → String)
      → SaveRequest R
      → (existing : Version R) → (now : ℕ) → List (Version R)
      → Result Refusal (List (Version R))
  branch next_label q existing now rows = do
    stood ← stood_down existing.id now rows
    let label = or_text (next_label (count (at_deal q.org_id q.deal_id) stood + 1)) q.label
    ok (stood ++ (created q label q.note now ∷ []))

  -- `save` with the current version as it was read
  unfoldable pub save_read :
      (next_label : ℕ → String)
      → SaveRequest R
      → (now : ℕ) → Option (Version R)
      → List (Version R)
      → Result Refusal (List (Version R))
  save_read next_label q now none rows = first_version q now rows
  save_read next_label q now (some existing) rows =
      if q.as_new_version then branch next_label q existing now rows else edit q existing now rows

  unfoldable pub save :
      (next_label : ℕ → String)
      → SaveRequest R
      → (now : ℕ) → (seen : List (Version R)) → Workspace R
      → Result Refusal (Workspace R)
  save next_label q now seen w = do
    rows ← save_read next_label q now (current_appraisal q.org_id q.deal_id seen) w.versions
    ok (with_versions w rows)
