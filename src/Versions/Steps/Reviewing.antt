-- ===== src/Versions/Steps/Reviewing.antt =====
-- `submitForReview` and `review`.
use apex_appraise.Versions.Steps.{owned-row}
use apex_appraise.Common.{
  ◌==◌, Bool-cases, Option-cases, All, OnOk, OnOk-bind, OnOk-guard, OnOk-any, ℕ, String, ◌≡◌, refl,
  sym, ◌∙◌, inl, inr, true, ◌&&◌, Option, some, List, arith,
}
use apex_appraise.Table.{count}
use apex_appraise.Table.Keyed.{has, row}
use apex_appraise.Table.Unique.{Unique}
use apex_appraise.Table.Counting.{All-row_only, All-weaken_to}
use apex_appraise.Engine.Number.{Number}
use apex_appraise.Engine.Types.{AppraisalInput}
use apex_appraise.Versions.Row.{Version, version_id, find_owned}
use apex_appraise.Versions.Requests.{
  Workspace, Decision, in_hand, may_submit, submit_read, submit_for_review, may_decide, reviewable,
  decided, decide, review_read, review, conflict, approve, request_changes,
}
use apex_appraise.Versions.Later.{Later}
use apex_appraise.Versions.Sound.{IsPinned, IsSound, IsWrite, IsWrite-update}
use apex_appraise.Versions.Reads.{status_eq_sound}
use apex_appraise.Versions.Writes.{
  advanced-gt, not_approved, All-Unit, Evolves-rewritten, unapproved-IsPinned, updated-IsWrite,
}

module _ {R : Type 0} ⦃n : Number R⦄ (hash : AppraisalInput R → String) where
  submit-IsWrite :
      (org user : String) (now : ℕ) (v : Version R) (w : Workspace R)
      → IsSound hash w.versions
      → OnOk
          (λ (after : Workspace R). IsWrite hash w.versions after.versions)
          (submit_read org user now v w)
  unfolding submit_read
  submit-IsWrite org user now v w s =
      OnOk-guard (λ (after : Workspace R). IsWrite hash w.versions after.versions) _ conflict _
        (λ unsigned.
          OnOk-bind (IsWrite hash w.versions)
            (λ (after : Workspace R). IsWrite hash w.versions after.versions) _ _
            (updated-IsWrite hash _ _ w.versions (
              IsWrite-update hash v.id (may_submit org v) (in_hand user now v) (λ _. Unit {0})
                (λ r. refl) (λ r org deal. refl) (λ r. refl)
                (λ r _ h.
                  Evolves-rewritten r (in_hand user now v r) refl refl
                    (ground (arith, h, advanced-gt now v.updated_at))
                    (λ e. not_approved v.review_status unsigned (
                      sym (status_eq_sound r.review_status v.review_status (ground (arith, h)))
                      ∙ e)))
                (λ r _ b h.
                  unapproved-IsPinned hash (in_hand user now v r) (λ e. ground (arith, e)))
                w.versions (All-Unit w.versions) s))
            (λ rows h. h))

  pub submit_for_review-IsWrite :
      (org user id : String) (now : ℕ) (seen : List (Version R)) (w : Workspace R)
      → IsSound hash w.versions
      → OnOk
          (λ (after : Workspace R). IsWrite hash w.versions after.versions)
          (submit_for_review org user id now seen w)
  unfolding submit_for_review
  submit_for_review-IsWrite org user id now seen w s =
      elim (Option-cases (find_owned id org seen)) [
        | inl e ↦ rw (e, OnOk) tt
        | inr (v, e) ↦ rw (e, OnOk) (submit-IsWrite org user now v w s)
      ]

  -- The row that a decision may change has the inputs that the reviewer read.
  decided-input :
      (seen rows : List (Version R)) (v : Version R)
      → Later seen rows
      → Unique version_id rows
      → row version_id v.id seen ≡ some v
      → All
          (λ (r : Version R).
            has version_id v.id r ≡ true → r.updated_at ≡ v.updated_at → r.input ≡ v.input)
          rows
  unfolding Later
  decided-input seen rows v later u at =
      let (r, now_at, e) = later v.id v at in
      All-weaken_to _ _ rows (λ x only k stamp. rw (only k) (e.input (sym (rw (only k) at stamp))))
        (All-row_only version_id v.id rows r u now_at)

  decided-IsPinned :
      (d : Decision) (user : String) (reason : Option String) (now : ℕ) (v r : Version R)
      → r.input ≡ v.input
      → IsPinned hash (decided hash d user reason now v r)
  unfolding IsPinned
  decided-IsPinned approve user reason now v r same e = (now, rw same refl)
  decided-IsPinned request_changes user reason now v r same e = cc

  decide-IsWrite :
      (d : Decision) (org user : String) (note : Option String) (now : ℕ) (v : Version R)
      (seen : List (Version R)) (w : Workspace R)
      → Later seen w.versions
      → row version_id v.id seen ≡ some v
      → IsSound hash w.versions
      → OnOk
          (λ (after : Workspace R). IsWrite hash w.versions after.versions)
          (decide hash d org user note now v w)
  unfolding decide
  decide-IsWrite d org user note now v seen w later at s =
      let mine = λ (r : Version R). has version_id v.id r && may_decide org v r in
      elim (Bool-cases (count mine w.versions == 1)) [
        | inr e ↦ rw e tt
        | inl e ↦ rw e (
            IsWrite-update hash v.id (may_decide org v) (decided hash d user note now v)
              (λ (r : Version R).
                has version_id v.id r ≡ true → r.updated_at ≡ v.updated_at → r.input ≡ v.input)
              (λ r. refl) (λ r place deal. refl) (λ r. refl)
              (λ r _ h.
                Evolves-rewritten r (decided hash d user note now v r) refl refl
                  (ground (arith, h, advanced-gt now v.updated_at))
                  (λ e. ground (arith, h, (rw e at h))))
              (λ r same _ h.
                decided-IsPinned d user note now v r (same (ground (arith, h)) (ground (arith, h))))
              w.versions (decided-input seen w.versions v later s.unique at) s)
      ]

  pub review-IsWrite :
      (d : Decision) (org user id : String) (reason : Option String) (expected : Option ℕ) (now : ℕ)
      (seen : List (Version R)) (w : Workspace R)
      → IsSound hash seen
      → Later seen w.versions
      → IsSound hash w.versions
      → OnOk
          (λ (after : Workspace R). IsWrite hash w.versions after.versions)
          (review hash d org user id reason expected now seen w)
  unfolding review review_read
  review-IsWrite d org user id reason expected now seen w s_seen later s =
      elim (Option-cases (find_owned id org seen)) [
        | inl e ↦ rw (e, OnOk) tt
        | inr (v, e) ↦
            rw (e, OnOk)
              (OnOk-bind (λ _. Unit {0})
                (λ (after : Workspace R). IsWrite hash w.versions after.versions)
                (reviewable d reason expected v) (λ _. decide hash d org user reason now v w)
                (OnOk-any (reviewable d reason expected v))
                (λ _ _.
                  decide-IsWrite d org user reason now v seen w later
                    (owned-row id org seen v s_seen.unique e) s))
      ]
