-- ===== src/Versions/Writes.antt =====
-- The writes of the handlers: what each transaction makes of a sound table.
use apex_appraise.Common.{
  ◌==◌, Bool-cases, All, OnOk, OnOk-bind, OnOk-guard, OnOk-any, ℕ, ◌<◌, String, ◌≡◌, refl, sym, ◌∙◌,
  inl, inr, Bool, true, ◌&&◌, not, List, [], ◌∷◌, arith,
}
use apex_appraise.Table.{update_many, count}
use apex_appraise.Table.Keyed.{has}
use apex_appraise.Engine.Number.{Number}
use apex_appraise.Engine.Types.{AppraisalInput}
use apex_appraise.Versions.Row.{ReviewStatus, Version, version_id, approved}
use apex_appraise.Versions.Requests.{
  SaveRequest, is_approved, is_in_review, assert_unchanged, advanced, updated, edited, may_edit,
  edit, conflict,
}
use apex_appraise.Versions.Later.{Evolves}
use apex_appraise.Versions.Sound.{IsPinned, IsSound, IsWrite, IsWrite-update}
use apex_appraise.Versions.Reads.{status_eq_sound}

pub advanced-gt : (now stamp : ℕ) → stamp < advanced now stamp
advanced-gt now stamp = ground arith

pub not_approved : (s : ReviewStatus) → not (is_approved s) ≡ true → ¬ (s ≡ approved)
not_approved s h e = ground (arith, (rw e at h))

module _ {R : Type 0} where
  pub All-Unit : (rows : List (Version R)) → All (λ (v : Version R). Unit {0}) rows
  All-Unit [] = tt
  All-Unit (v ∷ rows) = (tt, All-Unit rows)

  -- A write with a new stamp to a version that is not approved.
  pub Evolves-rewritten :
      (v r : Version R)
      → r.org_id ≡ v.org_id
      → r.deal_id ≡ v.deal_id
      → v.updated_at < r.updated_at
      → ¬ (v.review_status ≡ approved)
      → Evolves v r
  Evolves-rewritten v r o d t a = record {
    org = o;
    deal = d;
    stamp = omega (arith, t);
    input = λ e. absurd (omega (arith, t, e));
    signed = λ e. absurd (a e);
  }

module _ {R : Type 0} ⦃n : Number R⦄ (hash : AppraisalInput R → String) where
  pub unapproved-IsPinned : (v : Version R) → ¬ (v.review_status ≡ approved) → IsPinned hash v
  unfolding IsPinned
  unapproved-IsPinned v h e = absurd (h e)

  pub updated-IsWrite :
      (p : Version R → Bool) (f : Version R → Version R) (rows : List (Version R))
      → IsWrite hash rows (update_many p f rows)
      → OnOk (IsWrite hash rows) (updated p f rows)
  updated-IsWrite p f rows h = elim (Bool-cases (count p rows == 0)) [
    | inl e ↦ rw e tt
    | inr e ↦ rw e h
  ]

  pub may_edit-status :
      (q : SaveRequest R) (existing r : Version R)
      → (has version_id existing.id r && may_edit q existing r) ≡ true
      → (r.updated_at ≡ existing.updated_at) × (r.review_status ≡ existing.review_status)
  may_edit-status q existing r h = (
    ground (arith, h),
    status_eq_sound r.review_status existing.review_status (ground (arith, h)),
  )

  edited-not_approved :
      (q : SaveRequest R) (existing r : Version R) (now : ℕ)
      → ¬ (r.review_status ≡ approved)
      → ¬ ((edited q existing now r).review_status ≡ approved)
  edited-not_approved q existing r now h e =
      elim (Bool-cases (is_in_review existing.review_status)) [
        | inl w ↦ ground (arith, w, e)
        | inr w ↦ h (ground (arith, w, e))
      ]

  pub edit-IsWrite :
      (q : SaveRequest R) (existing : Version R) (now : ℕ) (rows : List (Version R))
      → IsSound hash rows
      → OnOk (IsWrite hash rows) (edit q existing now rows)
  unfolding edit
  edit-IsWrite q existing now rows s = OnOk-guard (IsWrite hash rows) _ conflict _ (λ unsigned.
      let still_open : (r : Version R)
          → (has version_id existing.id r && may_edit q existing r) ≡ true
          → ¬ (r.review_status ≡ approved) =
        λ r h e.
          not_approved existing.review_status unsigned
            (sym (may_edit-status q existing r h).1 ∙ e) in
      OnOk-bind (λ _. Unit {0}) (IsWrite hash rows) _ _
        (OnOk-any (assert_unchanged existing.updated_at q.expected_updated_at))
        (λ _ _. updated-IsWrite _ _ rows (
          IsWrite-update hash existing.id (may_edit q existing) (edited q existing now)
            (λ _. Unit {0}) (λ r. refl) (λ r org deal. refl) (λ r. refl)
            (λ r _ h.
              Evolves-rewritten r (edited q existing now r) refl refl
                (let (stamp, same) = may_edit-status q existing r h in
                  omega (arith, stamp, advanced-gt now existing.updated_at))
                (λ e. still_open r h e))
            (λ r _ b h.
              unapproved-IsPinned _ (edited-not_approved q existing r now (still_open r h)))
            rows (All-Unit rows) s)))
