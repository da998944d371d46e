-- ===== src/Versions/Overwrites.antt =====
-- apps/api/src/routers/appraisal.ts: `draftNarrative` and `applyToAppraisal`, which check the version
-- that they read and then write by its id.
use apex_appraise.Common.{
  ◌==◌, str_eq_self, Result, ◌>>=◌, ◌>>◌, guard, ok, err, ℕ, String, ◌≡◌, refl, ◌∙◌, ◌≢◌, Bool,
  true, false, not, none, some, List, [], ◌∷◌, map, arith,
}
use apex_appraise.Table.{find_first, update_many, count, find_first-update_many}
use apex_appraise.Table.Keyed.{has, row, row-key}
use apex_appraise.Engine.Types.{AppraisalUnit, AppraisalInput}
use apex_appraise.Versions.Row.{Version, version_id, current_appraisal, approved}
use apex_appraise.Versions.Requests.{
  Refusal, Workspace, is_approved, updated, with_versions, conflict, bad_request,
}
use apex_appraise.Versions.Approval.{is_open}

module _ {R : Type 0} where
  abbrev pub narrated : (text : String) → (now : ℕ) → Version R → Version R
  narrated text now v = record v { narrative = some text; updated_at = now }

  -- `draftNarrative`: `prose` is what the model or the template writes about the inputs.
  unfoldable pub draft_narrative :
      (prose : AppraisalInput R → String)
      → (org deal : String) → (now : ℕ) → (seen : List (Version R)) → Workspace R
      → Result Refusal (Workspace R)
  draft_narrative prose org deal now seen w = elim (current_appraisal org deal seen) [
    | none ↦ err bad_request
    | some v ↦
        guard (not (is_approved v.review_status)) conflict
        >> (updated (has version_id v.id) (narrated (prose v.input) now) w.versions >>= λ rows.
            ok (with_versions w rows))
  ]

  -- every unit of the version as it was read, at the supported price
  abbrev pub supported_units : (supported : R) → Version R → List (AppraisalUnit R)
  supported_units supported v =
      map (λ (u : AppraisalUnit R). record u { cap = supported }) v.input.units

  abbrev pub repriced : (units : List (AppraisalUnit R)) → (now : ℕ) → Version R → Version R
  repriced units now v = record v { input = record v.input { units = units }; updated_at = now }

  -- `applyToAppraisal`: `supported` is the rounded price of the weighted comparables.
  unfoldable pub apply_to_appraisal :
      (supported : R)
      → (org deal : String) → (now : ℕ) → (seen : List (Version R)) → Workspace R
      → Result Refusal (Workspace R)
  apply_to_appraisal supported org deal now seen w = elim (current_appraisal org deal seen) [
    | none ↦ err bad_request
    | some v ↦
        guard (not (is_approved v.review_status)) conflict
        >> (updated (has version_id v.id) (repriced (supported_units supported v) now) w.versions
            >>= λ rows. ok (with_versions w rows))
  ]

  count-found :
      (p : Version R → Bool) (rows : List (Version R)) (v : Version R)
      → find_first p rows ≡ some v
      → (count p rows == 0) ≡ false
  count-found p [] v h = ground (arith, h)
  count-found p (x ∷ rows) v h = ground (arith, h, count-found p rows v)

  -- An update by id alone writes the row of the id, whatever has become of it.
  updated-row :
      (id : String) (f : Version R → Version R) (rows : List (Version R)) (v : Version R)
      → ((r : Version R) → (f r).id ≡ r.id)
      → row version_id id rows ≡ some v
      → (after : List (Version R)) × (updated (has version_id id) f rows ≡ ok after)
        × (row version_id id after ≡ some (f v))
  updated-row id f rows v same at =
      let mine : has version_id id v ≡ true =
        ground (arith, row-key version_id id rows v at, str_eq_self id) in
      (
        update_many (has version_id id) f rows,
        rw (count-found (has version_id id) rows v at) refl,
        find_first-update_many (has version_id id) (has version_id id) f (λ r. rw (same r) refl)
              rows
            ∙ rw (at, mine) refl,
      )

  draft_narrative-overwrites :
      (prose : AppraisalInput R → String) (org deal : String) (now : ℕ) (seen : List (Version R))
      (w : Workspace R) (v r : Version R)
      → current_appraisal org deal seen ≡ some v
      → v.review_status ≢ approved
      → row version_id v.id w.versions ≡ some r
      → (after : Workspace R) × (draft_narrative prose org deal now seen w ≡ ok after)
        × (row version_id v.id after.versions ≡ some (narrated (prose v.input) now r))
  unfolding draft_narrative
  draft_narrative-overwrites prose org deal now seen w v r read open_ at =
      let (rows, done, now_at) =
        updated-row v.id (narrated (prose v.input) now) w.versions r (λ x. refl) at in
      (
        with_versions w rows,
        rw (read, is_open v.review_status open_, done, draft_narrative) refl,
        now_at,
      )

  apply_to_appraisal-overwrites :
      (supported : R) (org deal : String) (now : ℕ) (seen : List (Version R)) (w : Workspace R)
      (v r : Version R)
      → current_appraisal org deal seen ≡ some v
      → v.review_status ≢ approved
      → row version_id v.id w.versions ≡ some r
      → (after : Workspace R) × (apply_to_appraisal supported org deal now seen w ≡ ok after)
        × (row version_id v.id after.versions ≡ some (repriced (supported_units supported v) now r))
  unfolding apply_to_appraisal
  apply_to_appraisal-overwrites supported org deal now seen w v r read open_ at =
      let (rows, done, now_at) =
        updated-row v.id (repriced (supported_units supported v) now) w.versions r (λ x. refl) at in
      (
        with_versions w rows,
        rw (read, is_open v.review_status open_, done, apply_to_appraisal) refl,
        now_at,
      )

  -- A version that was not approved when it was read is written to although it is approved by then: the
  -- narrative is replaced by one call, the prices of its units by the other, and it stays approved, with
  -- the pin that it had.
  pub approved-overwritten :
      (prose : AppraisalInput R → String) (supported : R) (org deal : String) (now : ℕ)
      (seen : List (Version R)) (w : Workspace R) (v r : Version R)
      → current_appraisal org deal seen ≡ some v
      → v.review_status ≢ approved
      → row version_id v.id w.versions ≡ some r
      → r.review_status ≡ approved
      → ((after : Workspace R) × (draft_narrative prose org deal now seen w ≡ ok after)
          × (x : Version R) × (row version_id v.id after.versions ≡ some x)
          × (x.review_status ≡ approved)
          × (x.approval_pin ≡ r.approval_pin)
          × (x.narrative ≡ some (prose v.input)))
        × ((after : Workspace R) × (apply_to_appraisal supported org deal now seen w ≡ ok after)
            × (x : Version R) × (row version_id v.id after.versions ≡ some x)
            × (x.review_status ≡ approved)
            × (x.approval_pin ≡ r.approval_pin)
            × (x.input.units ≡ supported_units supported v))
  approved-overwritten prose supported org deal now seen w v r read open_ at signed =
      let (a, a_done, a_at) =
        draft_narrative-overwrites prose org deal now seen w v r read open_ at in
      let (b, b_done, b_at) =
        apply_to_appraisal-overwrites supported org deal now seen w v r read open_ at in
      ((a, a_done, _, a_at, signed, refl, refl), (b, b_done, _, b_at, signed, refl, refl))
