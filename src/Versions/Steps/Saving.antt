-- ===== src/Versions/Steps/Saving.antt =====
-- `save`: the first version of a deal, a branch, and an edit in place.
use apex_appraise.Versions.Steps.{replace-IsWrite, current-place}
use apex_appraise.Common.{
  Bool-cases, Option-cases, keep, any, All, OnOk, OnOk-bind, ℕ, ◌≤◌, String, ◌≡◌, refl, inl, inr,
  true, false, Option, none, some, List, [], ◌∷◌, ◌++◌, arith,
}
use apex_appraise.Table.Keyed.{has}
use apex_appraise.Engine.Number.{Number}
use apex_appraise.Engine.Types.{AppraisalInput}
use apex_appraise.Versions.Row.{Version, version_id, is_current_at, newest, current_appraisal}
use apex_appraise.Versions.Requests.{
  Workspace, SaveRequest, or_text, created, stood_down, edit, first_version, branch, save_read,
  save,
}
use apex_appraise.Versions.Later.{Later}
use apex_appraise.Versions.Sound.{HasOneCurrent, IsSound, IsWrite, IsWrite-first}
use apex_appraise.Versions.Reads.{newest-keep-none}
use apex_appraise.Versions.Writes.{edit-IsWrite}

module _ {R : Type 0} ⦃n : Number R⦄ (hash : AppraisalInput R → String) where
  branch-IsWrite :
      (next_label : ℕ → String) (q : SaveRequest R) (existing : Version R) (now : ℕ)
      (seen rows : List (Version R))
      → current_appraisal q.org_id q.deal_id seen ≡ some existing
      → any (has version_id q.new_id) rows ≡ false
      → All (λ (v : Version R). v.updated_at ≤ now) rows
      → IsSound hash seen
      → Later seen rows
      → IsSound hash rows
      → OnOk (IsWrite hash rows) (branch next_label q existing now rows)
  unfolding branch
  branch-IsWrite next_label q existing now seen rows h fresh timely s_seen later s =
      OnOk-bind (λ stood. (l : String) → IsWrite hash rows (stood ++ (created q l q.note now ∷ [])))
        (IsWrite hash rows) (stood_down existing.id now rows) _
        (replace-IsWrite hash existing.id now (λ l. created q l q.note now) rows
          (λ r l at. current-place hash q.org_id q.deal_id existing seen rows s_seen later h r at)
          (λ l. fresh) (λ l. refl) (λ l. refl) timely s)
        (λ stood w. w _)

  first-IsWrite :
      (q : SaveRequest R) (now : ℕ) (rows : List (Version R))
      → any (has version_id q.new_id) rows ≡ false
      → IsSound hash rows
      → OnOk (IsWrite hash rows) (first_version q now rows)
  unfolding first_version current_appraisal HasOneCurrent
  first-IsWrite q now rows fresh s =
      elim (Option-cases (newest (keep (is_current_at q.org_id q.deal_id) rows))) [
        | inr (v, e) ↦ rw (e, OnOk) tt
        | inl e ↦
            rw (e, OnOk)
              (IsWrite-first hash (created q (or_text "Base" q.label) none now) rows
                (ground (
                  arith,
                  newest-keep-none (is_current_at q.org_id q.deal_id) rows e,
                  s.one q.org_id q.deal_id,
                ))
                fresh refl refl s)
      ]

  save_read-IsWrite :
      (next_label : ℕ → String) (q : SaveRequest R) (now : ℕ) (found : Option (Version R))
      (seen rows : List (Version R))
      → current_appraisal q.org_id q.deal_id seen ≡ found
      → any (has version_id q.new_id) rows ≡ false
      → (q.as_new_version ≡ true → All (λ (v : Version R). v.updated_at ≤ now) rows)
      → IsSound hash seen
      → Later seen rows
      → IsSound hash rows
      → OnOk (IsWrite hash rows) (save_read next_label q now found rows)
  unfolding save_read branch edit
  save_read-IsWrite next_label q now none seen rows h fresh timely s_seen later s =
      first-IsWrite q now rows fresh s
  save_read-IsWrite next_label q now (some existing) seen rows h fresh timely s_seen later s =
      elim (Bool-cases q.as_new_version) [
        | inl e ↦
            rw e
              (branch-IsWrite next_label q existing now seen rows h fresh (timely e) s_seen later s)
        | inr e ↦ rw e (edit-IsWrite hash q existing now rows s)
      ]

  pub save-IsWrite :
      (next_label : ℕ → String) (q : SaveRequest R) (now : ℕ) (seen : List (Version R))
      (w : Workspace R)
      → any (has version_id q.new_id) w.versions ≡ false
      → (q.as_new_version ≡ true → All (λ (v : Version R). v.updated_at ≤ now) w.versions)
      → IsSound hash seen
      → Later seen w.versions
      → IsSound hash w.versions
      → OnOk
          (λ (after : Workspace R). IsWrite hash w.versions after.versions)
          (save next_label q now seen w)
  unfolding save
  save-IsWrite next_label q now seen w fresh timely s_seen later s =
      OnOk-bind (IsWrite hash w.versions)
        (λ (after : Workspace R). IsWrite hash w.versions after.versions) _ _
        (save_read-IsWrite next_label q now (current_appraisal q.org_id q.deal_id seen) seen
          w.versions refl fresh timely s_seen later s)
        (λ rows h. h)
