-- ===== src/Versions/Tests.antt =====
-- Versions of an appraisal: runs of schedules, over numbers in thousandths.
use mathlib.Core.Option
use apex_appraise.Versions.Portfolio.{at_pair, current_by_deal-current}
use apex_appraise.Table.{find_first}
use apex_appraise.Versions.Retry.{
  serialisation_failure, default_attempts, Outcome, is_retriable, retry_from,
  retry_on_serialisation_failure, retry_on_serialisation_failure-settled, returned, thrown,
}
use apex_appraise.Versions.Guarantees.{
  versions_after, empty-IsSound, run-HasOneCurrent, run-IsSameSigned, run-verify, save-loaded,
}
use apex_appraise.Versions.Sound.{HasOneCurrent, IsSound, IsWrite-first}
use apex_appraise.Common.{
  ltb, if◌then◌else◌, str_eq, ok, ℕ, ◌-◌, ◌≤◌, ◌<◌, String, ◌≡◌, refl, ◌≢◌, Bool, true, false, none,
  some, List, [], ◌∷◌, arith,
}
use apex_appraise.Table.Keyed.{row}
use apex_appraise.Engine.Types.{AppraisalInput, residual}
use apex_appraise.Engine.Sample.{thousandths, thousandths-IsOrdered, flats_in}
use apex_appraise.Versions.Pin.{pin_for, verify}
use apex_appraise.Versions.Row.{Version, version_id, current_appraisal, current_by_deal, approved}
use apex_appraise.Versions.Requests.{
  Workspace, SaveRequest, assert_unchanged, created, stood_down, edited, edit, first_version,
  branch, save_read, save, submit_read, submit_for_review, restore_read, restore, reviewable,
  decide, review_read, review, approve,
}
use apex_appraise.Versions.History.{
  Act, Database, empty_database, attempt, run, AreSupplied, saving, submitting, reviewing,
  restoring,
}
use apex_appraise.Versions.Later.{IsSameSigned, Later-refl}
use apex_appraise.Versions.Approval.{submit-review}
use apex_appraise.Versions.Overwrites.{
  draft_narrative, supported_units, apply_to_appraisal, approved-overwritten,
}

abbrev digest : AppraisalInput ℕ → String
digest input = "digest"

abbrev label_of : ℕ → String
label_of k = "next"

abbrev restored_label : String → String
restored_label t = "restored"

abbrev asked : (id : String) → Bool → SaveRequest ℕ
asked id as_new = record {
  org_id = "org";
  deal_id = "deal";
  input = flats_in residual;
  source = "manual";
  as_new_version = as_new;
  label = none;
  note = none;
  expected_updated_at = some 10;
  new_id = id;
}

-- A version is saved, sent for review and approved.
abbrev signing : List (Act ℕ)
signing =
    saving (asked "a" false) 10 0
    ∷ submitting "org" "ann" "a" 20 0
    ∷ reviewing approve "org" "bob" "a" none (some 20) 30 0
    ∷ []

-- A branch whose read is one write old, and a restore of the approved version.
abbrev following : List (Act ℕ)
following = saving (asked "b" true) 40 1 ∷ restoring "org" "deal" "a" "c" 50 1 1 ∷ []

abbrev signed_database : Database ℕ
signed_database = run digest label_of restored_label signing empty_database

signing-AreSupplied : AreSupplied digest label_of restored_label signing empty_database
unfolding str_eq attempt
signing-AreSupplied = ((refl, λ e. cc), (tt, (tt, tt)))

following-AreSupplied : AreSupplied digest label_of restored_label following signed_database
unfolding str_eq attempt save save_read first_version branch stood_down edit current_appraisal
    submit_for_review submit_read review review_read reviewable decide assert_unchanged restore
    restore_read
following-AreSupplied =
    ((refl, λ e. (omega arith, tt)), ((refl, (omega arith, (omega arith, tt))), tt))

-- what the first three requests leave
abbrev signed_version : Version ℕ
signed_version = record (created (asked "a" false) "Base" none 10) {
  review_status = approved;
  submitted_by = some "ann";
  submitted_at = some 20;
  reviewed_by = some "bob";
  reviewed_at = some 30;
  approval_pin = some (pin_for digest (flats_in residual) 30);
  updated_at = 30;
}

signed_database_now : versions_after digest label_of restored_label signing ≡ signed_version ∷ []
unfolding str_eq attempt save save_read first_version branch stood_down edit current_appraisal
    submit_for_review submit_read review review_read reviewable decide assert_unchanged restore
    restore_read
signed_database_now = refl

signed_row :
    row version_id "a" (versions_after digest label_of restored_label signing) ≡ some signed_version
unfolding str_eq
signed_row = rw signed_database_now refl

run-HasOneCurrent_example : HasOneCurrent (versions_after digest label_of restored_label signing)
run-HasOneCurrent_example =
    run-HasOneCurrent digest label_of restored_label signing signing-AreSupplied

run-IsSameSigned_example :
    (r : Version ℕ) × (row version_id "a"
        (run digest label_of restored_label following signed_database).now.versions
      ≡ some r)
    × IsSameSigned signed_version r
run-IsSameSigned_example =
    run-IsSameSigned digest label_of restored_label signing following "a" signed_version
      signing-AreSupplied following-AreSupplied signed_row refl

run-verify_example :
    verify digest signed_version.input signed_version.approval_pin
    ≡ some
        (record { same_engine = true; inputs_unchanged = true; figures_match = true; drift = [] })
run-verify_example =
    run-verify digest label_of restored_label thousandths-IsOrdered signing "a" signed_version
      signing-AreSupplied signed_row refl

-- one draft, saved again by a caller that had loaded it
abbrev saved_draft : Version ℕ
saved_draft = created (asked "a" false) "Base" none 10

abbrev saved_once : Workspace ℕ
saved_once = record { versions = saved_draft ∷ []; events = [] }

abbrev saved_again : Workspace ℕ
saved_again = record {
  versions = edited (asked "b" false) saved_draft 15 saved_draft ∷ [];
  events = [];
}

saved_draft-accepted :
    save label_of (asked "b" false) 15 saved_once.versions saved_once ≡ ok saved_again
unfolding str_eq attempt save save_read first_version branch stood_down edit current_appraisal
    submit_for_review submit_read review review_read reviewable decide assert_unchanged restore
    restore_read
saved_draft-accepted = refl

saved_once-IsSound : IsSound digest saved_once.versions
saved_once-IsSound =
    (IsWrite-first digest saved_draft [] refl refl refl refl
      (empty-IsSound digest label_of restored_label)).sound

saved_draft-current : current_appraisal "org" "deal" saved_once.versions ≡ some saved_draft
unfolding str_eq current_appraisal
saved_draft-current = refl

save-loaded_example :
    (r : Version ℕ) × (row version_id "a" saved_once.versions ≡ some r)
    × (r.input ≡ saved_draft.input)
    × (r.review_status ≢ approved)
    × (row version_id "a" saved_again.versions ≡ some (edited (asked "b" false) saved_draft 15 r))
unfolding str_eq
save-loaded_example =
    save-loaded digest label_of restored_label (asked "b" false) 15 saved_once.versions
      saved_once.versions saved_once saved_again saved_draft saved_draft saved_once-IsSound
      saved_once-IsSound (Later-refl saved_once.versions) (Later-refl saved_once.versions) refl
      saved_draft-current refl refl saved_draft-accepted

submit-review_example :
    (sent signed : Workspace ℕ) × (submit_for_review "org" "ann" "a" 20 saved_once.versions
        saved_once
      ≡ ok sent)
    × (review digest approve "org" "bob" "a" none (some 20) 30 sent.versions sent ≡ ok signed)
    × (r : Version ℕ) × (row version_id "a" signed.versions ≡ some r)
    × (r.review_status ≡ approved)
    × (r.reviewed_by ≡ some "bob")
    × (r.approval_pin ≡ some (pin_for digest (flats_in residual) 30))
unfolding str_eq
submit-review_example =
    submit-review digest "org" "ann" "bob" "a" none 20 30 saved_draft saved_once (refl, tt) refl
      (λ e. cc)

abbrev approved_once : Workspace ℕ
approved_once = record { versions = signed_version ∷ []; events = [] }

approved-overwritten_example :
    ((after : Workspace ℕ) × (draft_narrative
          (λ _. "prose")
          "org"
          "deal"
          40
          saved_once.versions
          approved_once
        ≡ ok after)
      × (x : Version ℕ) × (row version_id "a" after.versions ≡ some x)
      × (x.review_status ≡ approved)
      × (x.approval_pin ≡ signed_version.approval_pin)
      × (x.narrative ≡ some "prose"))
    × ((after : Workspace ℕ) × (apply_to_appraisal 350_000 "org" "deal" 40 saved_once.versions
            approved_once
          ≡ ok after)
        × (x : Version ℕ) × (row version_id "a" after.versions ≡ some x)
        × (x.review_status ≡ approved)
        × (x.approval_pin ≡ signed_version.approval_pin)
        × (x.input.units ≡ supported_units 350_000 saved_draft))
unfolding str_eq
approved-overwritten_example =
    approved-overwritten (λ _. "prose") 350_000 "org" "deal" 40 saved_once.versions approved_once
      saved_draft signed_version saved_draft-current (λ e. cc) refl refl

-- Two serialisation failures, then a value.
abbrev third_time : ℕ → Outcome ℕ
third_time k = if ltb k 3 then thrown (some serialisation_failure) else returned k

retry_on_serialisation_failure-settled_example :
    let t = retry_on_serialisation_failure third_time (λ k c. c - 1) default_attempts in
    (t.outcome ≡ third_time t.runs)
    × (1 ≤ t.runs)
    × (t.runs ≤ default_attempts)
    × ((k : ℕ) → 1 ≤ k → k < t.runs → is_retriable (third_time k) ≡ true)
    × (t.runs < default_attempts → is_retriable (third_time t.runs) ≡ false)
    × (default_attempts ≡ default_attempts → t.waited ≤ 1_078)
retry_on_serialisation_failure-settled_example =
    retry_on_serialisation_failure-settled third_time (λ k c. c - 1) default_attempts (omega arith)
      (λ k c. omega arith)

third_time-runs :
    retry_on_serialisation_failure third_time (λ k c. c - 1) default_attempts
    ≡ record { outcome = returned 3; runs = 3; waited = 68 }
unfolding retry_on_serialisation_failure retry_from is_retriable str_eq
third_time-runs = refl

-- Two deals, the newer one first.
abbrev two_deals : List (Version ℕ)
two_deals = record saved_draft { deal_id = "other"; updated_at = 30 } ∷ saved_draft ∷ []

current_by_deal-current_example :
    Option.map
      (λ (p : String × Version ℕ). p.1)
      (find_first (at_pair "deal") (current_by_deal two_deals))
    ≡ current_appraisal "org" "deal" two_deals
current_by_deal-current_example =
    current_by_deal-current "org" "deal" two_deals ((refl, refl), ((refl, refl), tt))
      ((omega arith, tt), (tt, tt))
