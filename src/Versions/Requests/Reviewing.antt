-- ===== src/Versions/Requests/Reviewing.antt =====
-- `submitForReview` and `review`.
use apex_appraise.Common.{
  ◌==◌, if◌then◌else◌, str_eq, Result, ◌>>=◌, ◌>>◌, guard, ok, err, ℕ, String, Bool, ◌&&◌, not,
  Option, none, some, List, ◌∷◌,
}
use apex_appraise.Table.{update_many, count}
use apex_appraise.Table.Keyed.{has}
use apex_appraise.Engine.Number.{Number}
use apex_appraise.Engine.Types.{AppraisalInput}
use apex_appraise.Versions.Pin.{ApprovalPin, pin_for}
use apex_appraise.Versions.Row.{status_eq, Version, version_id, find_owned, in_review}
use apex_appraise.Versions.Requests.Shared.{
  Refusal, Workspace, Decision, is_approved, is_in_review, assert_unchanged, advanced, status_of,
  event_of, lacks_reason, updated, not_found, conflict, bad_request, submitted, approve,
  request_changes,
}

module _ {R : Type 0} where
  abbrev pub in_hand : (user : String) → (now : ℕ) → (v : Version R) → Version R → Version R
  in_hand user now v r = record r {
    review_status = in_review;
    updated_at = advanced now v.updated_at;
    submitted_by = some user;
    submitted_at = some now;
    reviewed_by = none;
    reviewed_at = none;
    review_note = none;
  }

  abbrev pub may_submit : (org : String) → Version R → Version R → Bool
  may_submit org v r =
      str_eq r.org_id org
      && (r.updated_at == v.updated_at && status_eq r.review_status v.review_status)

  -- `submitForReview` of the version `v`, as it was read
  unfoldable pub submit_read :
      (org user : String) → (now : ℕ) → (v : Version R) → Workspace R → Result Refusal (Workspace R)
  submit_read org user now v w = do
    guard (not (is_approved v.review_status)) conflict
    rows ←
        updated (λ (r : Version R). has version_id v.id r && may_submit org v r)
          (in_hand user now v) w.versions
    ok (record { versions = rows; events = submitted v.id ∷ w.events })

  unfoldable pub submit_for_review :
      (org user id : String)
      → (now : ℕ) → (seen : List (Version R)) → Workspace R
      → Result Refusal (Workspace R)
  submit_for_review org user id now seen w = elim (find_owned id org seen) [
    | none ↦ err not_found
    | some v ↦ submit_read org user now v w
  ]

  abbrev pub may_decide : (org : String) → Version R → Version R → Bool
  may_decide org v r =
      str_eq r.org_id org && (is_in_review r.review_status && r.updated_at == v.updated_at)

  -- the checks that `review` makes before it writes
  unfoldable pub reviewable :
      Decision
      → (reason : Option String) → (expected : Option ℕ) → (v : Version R)
      → Result Refusal (Unit {0})
  reviewable d reason expected v = do
    guard (is_in_review v.review_status) conflict
    guard (not (lacks_reason d reason)) bad_request
    assert_unchanged v.updated_at expected

  module _ ⦃n : Number R⦄ (hash : AppraisalInput R → String) where
    abbrev pub pin_if :
        Decision → AppraisalInput R → ℕ → Option (ApprovalPin R) → Option (ApprovalPin R)
    pin_if approve input now before = some (pin_for hash input now)
    pin_if request_changes input now before = before

    -- the decision, its note and the pin of the snapshot `v` in one statement
    abbrev pub decided :
        Decision
        → (user : String) → (note : Option String) → (now : ℕ) → (v : Version R) → Version R
        → Version R
    decided d user note now v r = record r {
      updated_at = advanced now v.updated_at;
      review_status = status_of d;
      reviewed_by = some user;
      reviewed_at = some now;
      review_note = note;
      approval_pin = pin_if d v.input now r.approval_pin;
    }

    -- the compare-and-set of `review`, which must find the row that was read
    unfoldable pub decide :
        Decision
        → (org user : String) → (note : Option String) → (now : ℕ) → (v : Version R) → Workspace R
        → Result Refusal (Workspace R)
    decide d org user note now v w =
        let mine = λ (r : Version R). has version_id v.id r && may_decide org v r in
        if count mine w.versions == 1
        then ok (record {
          versions = update_many mine (decided d user note now v) w.versions;
          events = event_of d v.id ∷ w.events;
        })
        else err conflict

    -- `review` of the version `v`, as it was read. `reason` is the note, trimmed, with `none` for one
    -- that is missing or blank.
    unfoldable pub review_read :
        Decision
        → (org user : String) → (reason : Option String) → (expected : Option ℕ) → (now : ℕ)
        → (v : Version R) → Workspace R
        → Result Refusal (Workspace R)
    review_read d org user reason expected now v w =
        reviewable d reason expected v >> decide d org user reason now v w

    unfoldable pub review :
        Decision
        → (org user id : String) → (reason : Option String) → (expected : Option ℕ) → (now : ℕ)
        → (seen : List (Version R)) → Workspace R
        → Result Refusal (Workspace R)
    review d org user id reason expected now seen w = elim (find_owned id org seen) [
      | none ↦ err not_found
      | some v ↦ review_read d org user reason expected now v w
    ]
