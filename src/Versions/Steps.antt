-- ===== src/Versions/Steps.antt =====
-- What the handlers' writes share: a version that takes the place of the current one, and the row that a
-- read found. A request that is not refused makes a write that keeps the table sound, whatever was written
-- since the request read the table.
pub mod Saving
pub mod Reviewing
pub mod Restoring
use apex_appraise.Common.{
  ltb, leb, ◌==◌, if◌then◌else◌, str_eq, str_eq_iff, str_eq_self, Bool-cases, Option-cases, length,
  get_elem?, get_or, set, keep, take, any, All, length-append, Result, ◌>>=◌, ◌>>◌, guard, OnOk,
  OnOk-bind, OnOk-guard, OnOk-any, ok, err, insert_by, sort_by, IsSortedBy, sort_by-IsSortedBy, ℕ,
  zero, suc, ◌+◌, ◌-◌, ◌*◌, ◌/◌, ◌%◌, ◌^◌, ◌≤◌, ◌<◌, min, max, String, ◌≡◌, refl, sym, ap, ◌∙◌,
  subst, ◌≢◌, ◌↔◌, ◌⊎◌, inl, inr, Bool, true, false, ◌&&◌, ◌||◌, not, Option, none, some, List, [],
  ◌∷◌, ◌++◌, map, arith,
}
use apex_appraise.Table.{
  find_first, update_many, count, upsert, delete_many, find_first-update_many, any-find_first,
  find_first-any, find_first-append, find_first_sound, update_many-none,
}
use apex_appraise.Table.Keyed.{
  upserted, has, row, row-key, row-update_many, row-update_key, row-upsert, row-delete_many,
}
use apex_appraise.Table.Unique.{
  Unique, any-update_many, Unique-update_many, Unique-insert, Unique-upsert, Unique-delete_many,
  row-absent, spared, row-delete_by, Unique-append, count-absent, met, count-row, All-update_many,
  All-insert, All-upsert, All-delete_many, All-row, All-append,
}
use apex_appraise.Table.Counting.{
  count-append, any-append_one, count-update_many, any-update_same, any-of-row, row-of-owned,
  All-row_only, count-change_row, All-update_where, All-weaken_to,
}
use apex_appraise.Engine.Number.{
  Number, ◌⊕◌, ◌⊖◌, ◌⊗◌, ◌⊘◌, num, gt, or_else, or_default, clamp, clamp_whole, sum_from, sum_by,
  ◌≼◌, IsOrdered,
}
use apex_appraise.Engine.Types.{
  SpendProfileKey, SiteMode, IncomeMethod, AppraisalUnit, CostTiming, BuildTrade, OtherCost,
  FinanceInput, IncomeLine, IncomeInput, IncomeLineResult, IncomeResult, Phase, Site, Disposal,
  AppraisalInput, PhaseCalc, AppraisalResult, CashflowRow, scurve, even, linear, front, back,
  residual, perpetuity, term_reversion, hardcore,
}
use apex_appraise.Versions.Pin.{
  Figures, ApprovalPin, engine_version, PinnedFigure, pinned_figures, figure, Verification,
  to_nearest_thousand, reported_market_value, analysed_psf, penny, figures_of, differs, pin_for,
  drift_of, is_empty, verify, verify-pin_for,
}
use apex_appraise.Versions.Row.{
  ReviewStatus, status_eq, Version, version_id, at_deal, is_current_at, newest, current_appraisal,
  find_owned, find_at_deal, current_by_deal, draft, in_review, approved, changes_requested,
}
use apex_appraise.Versions.Requests.{
  Refusal, Event, Workspace, SaveRequest, Decision, is_approved, is_in_review, or_text,
  assert_unchanged, advanced, status_of, event_of, is_blank, lacks_reason, as_draft, created,
  stand_down, stood_down, updated, with_versions, edited, may_edit, edit, first_version, branch,
  save_read, save, in_hand, may_submit, submit_read, submit_for_review, restored, stood_down_if,
  restore_read, restore, may_decide, reviewable, pin_if, decided, decide, review_read, review,
  not_found, conflict, bad_request, submitted, signed_off, sent_back, approve, request_changes,
}
use apex_appraise.Versions.Later.{
  IsSameSigned, Evolves, Evolves-refl, Evolves-trans, Later, Later-refl, Later-trans, Later-append,
  Later-update_many, Evolves-stand_down,
}
use apex_appraise.Versions.Sound.{
  HasOneCurrent, IsPinned, IsSound, IsWrite, IsWrite-update, IsWrite-first, IsWrite-replace,
}
use apex_appraise.Versions.Reads.{status_eq_sound, newest-keep, newest-keep-none}
use apex_appraise.Versions.Writes.{
  advanced-gt, not_approved, All-Unit, Evolves-rewritten, unapproved-IsPinned, updated-IsWrite,
  edit-IsWrite,
}

module _ {R : Type 0} ⦃n : Number R⦄ (hash : AppraisalInput R → String) where
  -- The row of `k` stood down and a new one raised in its place. The label of the new one may be made
  -- after the old one is stood down.
  pub replace-IsWrite :
      (k : String) (now : ℕ) (new : String → Version R) (rows : List (Version R))
      → ((r : Version R) (l : String)
          → row version_id k rows ≡ some r
          → (r.org_id ≡ (new l).org_id) × (r.deal_id ≡ (new l).deal_id))
      → ((l : String) → any (has version_id (new l).id) rows ≡ false)
      → ((l : String) → (new l).is_current ≡ true)
      → ((l : String) → (new l).review_status ≡ draft)
      → All (λ (v : Version R). v.updated_at ≤ now) rows
      → IsSound hash rows
      → OnOk
          (λ stood. (l : String) → IsWrite hash rows (stood ++ (new l ∷ [])))
          (stood_down k now rows)
  unfolding stood_down
  replace-IsWrite k now new rows place fresh current status timely s =
      let mine = λ (v : Version R). has version_id k v && v.is_current in
      let met_one = count-row version_id k (λ (v : Version R). v.is_current) rows s.unique in
      elim (Bool-cases (count mine rows == 1)) [
        | inr e ↦ rw e tt
        | inl e ↦ elim (Option-cases (row version_id k rows)) [
          | inl absent ↦ absurd (ground (arith, e, met_one, absent))
          | inr (r, at) ↦
              let same : r.id ≡ k = row-key version_id k rows r at in
              let cur : r.is_current ≡ true = ground (arith, e, met_one, at) in
              rw e (λ l.
                subst
                  (λ (x : String). IsWrite hash rows (
                    update_many (λ (v : Version R). has version_id x v && v.is_current)
                      (stand_down now) rows
                    ++ (new l ∷ [])))
                  same
                  (IsWrite-replace hash now (new l) r rows
                    (subst (λ (x : String). row version_id x rows ≡ some r) (sym same) at) cur
                    (place r l at).0 (place r l at).1 (fresh l) (current l) (status l) timely s))
        ]
      ]

  -- The row of a version that was current when it was read is at the same deal now.
  pub current-place :
      (org deal : String) (existing : Version R) (seen rows : List (Version R))
      → IsSound hash seen
      → Later seen rows
      → current_appraisal org deal seen ≡ some existing
      → (r : Version R) → row version_id existing.id rows ≡ some r
      → (r.org_id ≡ org) × (r.deal_id ≡ deal)
  unfolding current_appraisal Later
  current-place org deal existing seen rows s later h r at =
      let (was, test) = newest-keep (is_current_at org deal) seen existing s.unique h in
      let (x, now_at, e) = later existing.id existing was in
      let same : x ≡ r = ground (arith, at, now_at) in
      (
        rw (sym same) (e.org ∙ ground (arith, test, str_eq_iff existing.org_id org)),
        rw (sym same) (e.deal ∙ ground (arith, test, str_eq_iff existing.deal_id deal)),
      )

module _ {R : Type 0} where
  -- A lookup by id and workspace finds the row of the id.
  pub owned-row :
      (id org : String) (seen : List (Version R)) (v : Version R)
      → Unique version_id seen
      → find_owned id org seen ≡ some v
      → row version_id v.id seen ≡ some v
  owned-row id org seen v u h =
      let (at, _) =
        row-of-owned version_id id (λ (x : Version R). str_eq x.org_id org) seen v u h in
      subst (λ (x : String). row version_id x seen ≡ some v) (sym (row-key version_id id seen v at))
        at
