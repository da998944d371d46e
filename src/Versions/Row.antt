-- ===== src/Versions/Row.antt =====
-- The rows of Appraisal, and the queries that the handlers send. `input` is what
-- `appraisalRowToEngineInput` reads from the columns of a row.
use apex_appraise.Common.{
  ltb, if◌then◌else◌, str_eq, keep, ℕ, String, Bool, true, false, ◌&&◌, not, Option, none, some,
  List, [], ◌∷◌,
}
use apex_appraise.Table.{find_first}
use apex_appraise.Table.Keyed.{has}
use apex_appraise.Engine.Types.{AppraisalInput}
use apex_appraise.Versions.Pin.{ApprovalPin}

pub data ReviewStatus : Type 0 where
  draft in_review approved changes_requested : ReviewStatus

abbrev pub status_eq : ReviewStatus → ReviewStatus → Bool
status_eq draft draft = true
status_eq in_review in_review = true
status_eq approved approved = true
status_eq changes_requested changes_requested = true
status_eq a b = false

-- `model Appraisal`, with the columns that the handlers below read or write
pub record Version (R : Type 0) : Type 0 where
  pub id : String
  pub org_id : String
  pub deal_id : String
  pub is_current : Bool
  pub label : String
  pub note : Option String
  pub review_status : ReviewStatus
  pub submitted_by : Option String
  pub submitted_at : Option ℕ
  pub reviewed_by : Option String
  pub reviewed_at : Option ℕ
  pub review_note : Option String
  pub source : String
  pub input : AppraisalInput R
  pub narrative : Option String
  pub approval_pin : Option (ApprovalPin R)
  pub updated_at : ℕ

module _ {R : Type 0} where
  abbrev pub version_id : Version R → String
  version_id v = v.id

  abbrev pub at_deal : (org deal : String) → Version R → Bool
  at_deal org deal v = str_eq v.org_id org && str_eq v.deal_id deal

  abbrev pub is_current_at : (org deal : String) → Version R → Bool
  is_current_at org deal v = at_deal org deal v && v.is_current

  -- `orderBy: { updatedAt: 'desc' }`
  abbrev pub newest : List (Version R) → Option (Version R)
  newest [] = none
  newest (v ∷ vs) = elim (newest vs) [
    | none ↦ some v
    | some w ↦ if ltb v.updated_at w.updated_at then some w else some v
  ]

  -- `currentAppraisal`
  unfoldable pub current_appraisal : (org deal : String) → List (Version R) → Option (Version R)
  current_appraisal org deal rows = newest (keep (is_current_at org deal) rows)

  -- `findFirst({ where: { id, orgId } })`
  abbrev pub find_owned : (id org : String) → List (Version R) → Option (Version R)
  find_owned id org = find_first (λ (v : Version R). has version_id id v && str_eq v.org_id org)

  abbrev pub find_at_deal : (id org deal : String) → List (Version R) → Option (Version R)
  find_at_deal id org deal =
      find_first (λ (v : Version R). has version_id id v && at_deal org deal v)

  -- `currentByDeal`, as an association list: the first row seen for each deal
  unfoldable pub current_by_deal : List (Version R) → List (String × Version R)
  current_by_deal [] = []
  current_by_deal (v ∷ vs) =
      (v.deal_id, v) ∷ keep (λ p. not (str_eq p.0 v.deal_id)) (current_by_deal vs)
