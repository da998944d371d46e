-- ===== src/Versions/Requests/Shared.antt =====
-- What the handlers share: refusals, events, the state, and the writes that must find their row.
use apex_appraise.Common.{
  ltb, ◌==◌, if◌then◌else◌, Result, ok, err, ℕ, ◌+◌, String, Bool, true, false, ◌&&◌, Option, none,
  some, List,
}
pub use apex_appraise.Common.Refusals.{Refusal, not_found, conflict, bad_request}
unfoldable pub use apex_appraise.Common.Refusals.{assert_unchanged}
use apex_appraise.Table.{update_many, count}
use apex_appraise.Table.Keyed.{has}
use apex_appraise.Engine.Types.{AppraisalInput}
use apex_appraise.Versions.Row.{
  ReviewStatus, status_eq, Version, version_id, in_review, approved, changes_requested,
}

-- What the audit trail and the webhooks are told of a version.
pub data Event : Type 0 where
  submitted signed_off sent_back : (id : String) → Event

pub record Workspace (R : Type 0) : Type 0 where
  pub versions : List (Version R)
  pub events : List Event

-- The input of `save`, the id that the database gives to a row it creates, and the label trimmed, with
-- `none` for one that is missing or blank.
pub record SaveRequest (R : Type 0) : Type 0 where
  pub org_id : String
  pub deal_id : String
  pub input : AppraisalInput R
  pub source : String
  pub as_new_version : Bool
  pub label : Option String
  pub note : Option String
  pub expected_updated_at : Option ℕ
  pub new_id : String

pub data Decision : Type 0 where
  approve request_changes : Decision

abbrev pub is_approved : ReviewStatus → Bool
is_approved s = status_eq s approved

abbrev pub is_in_review : ReviewStatus → Bool
is_in_review s = status_eq s in_review

abbrev pub or_text : String → Option String → String
or_text d none = d
or_text d (some t) = t

-- the stamp of a write, which moves on within one tick of the clock and after a rollback
abbrev pub advanced : (now stamp : ℕ) → ℕ
advanced now stamp = if ltb stamp now then now else stamp + 1

abbrev pub status_of : Decision → ReviewStatus
status_of approve = approved
status_of request_changes = changes_requested

abbrev pub event_of : Decision → String → Event
event_of approve id = signed_off id
event_of request_changes id = sent_back id

abbrev pub is_blank : Option String → Bool
is_blank none = true
is_blank (some t) = false

abbrev pub lacks_reason : Decision → Option String → Bool
lacks_reason approve reason = false
lacks_reason request_changes reason = is_blank reason

module _ {R : Type 0} where
  abbrev pub stand_down : (now : ℕ) → Version R → Version R
  stand_down now v = record v { is_current = false; updated_at = now }

  -- `updateMany({ where: { id, isCurrent: true }, data: { isCurrent: false } })`, which must find one row
  unfoldable pub stood_down :
      (id : String) → (now : ℕ) → List (Version R) → Result Refusal (List (Version R))
  stood_down id now rows =
      let mine = λ (v : Version R). has version_id id v && v.is_current in
      if count mine rows == 1 then ok (update_many mine (stand_down now) rows) else err conflict

  -- `update`, which must find a row
  abbrev pub updated :
      (Version R → Bool)
      → (Version R → Version R)
      → List (Version R)
      → Result Refusal (List (Version R))
  updated p f rows = if count p rows == 0 then err conflict else ok (update_many p f rows)

  abbrev pub with_versions : Workspace R → List (Version R) → Workspace R
  with_versions w rows = record w { versions = rows }
