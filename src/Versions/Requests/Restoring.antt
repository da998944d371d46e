-- ===== src/Versions/Requests/Restoring.antt =====
-- `restore`.
use apex_appraise.Common.{
  Result, ◌>>=◌, ok, err, ℕ, String, true, Option, none, some, List, [], ◌∷◌, ◌++◌,
}
use apex_appraise.Versions.Row.{Version, current_appraisal, find_at_deal, draft}
use apex_appraise.Versions.Requests.Shared.{
  Refusal, Workspace, stood_down, with_versions, not_found,
}

module _ {R : Type 0} where
  abbrev pub as_draft : (now : ℕ) → Version R → Version R
  as_draft now v = record v {
    is_current = true;
    review_status = draft;
    submitted_by = none;
    submitted_at = none;
    reviewed_by = none;
    reviewed_at = none;
    review_note = none;
    updated_at = now;
  }

  -- `restore` copies a version, less its review, as the new current one. `as_restored` adds
  -- ` (restored)` to the label.
  abbrev pub restored :
      (as_restored : String → String) → (new_id : String) → (now : ℕ) → Version R → Version R
  restored as_restored new_id now v = record (as_draft now v) {
    id = new_id;
    label = as_restored v.label;
  }

  abbrev pub stood_down_if :
      Option (Version R) → (now : ℕ) → List (Version R) → Result Refusal (List (Version R))
  stood_down_if none now rows = ok rows
  stood_down_if (some v) now rows = stood_down v.id now rows

  unfoldable pub restore_read :
      (as_restored : String → String)
      → (new_id : String) → (now : ℕ) → (v : Version R) → Option (Version R)
      → Workspace R
      → Result Refusal (Workspace R)
  restore_read as_restored new_id now v current w = do
    rows ← stood_down_if current now w.versions
    ok (with_versions w (rows ++ (restored as_restored new_id now v ∷ [])))

  -- the version is read first, the current one after it
  unfoldable pub restore :
      (as_restored : String → String)
      → (org deal id new_id : String) → (now : ℕ) → (seen later : List (Version R)) → Workspace R
      → Result Refusal (Workspace R)
  restore as_restored org deal id new_id now seen later w = elim (find_at_deal id org deal seen) [
    | none ↦ err not_found
    | some v ↦ restore_read as_restored new_id now v (current_appraisal org deal later) w
  ]
