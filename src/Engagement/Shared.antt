-- ===== src/Engagement/Shared.antt =====
-- The row of EngagementTerms (apps/api/prisma/schema.prisma), the trail, and the writes of the handlers.
-- `dealId` is unique, so a deal has one row at most; the model is of one deal.
use apex_appraise.Common.{
  leb, Result, guard, ok, err, ℕ, zero, suc, String, Bool, true, false, Option, none, some, List,
  [], ◌∷◌, ◌++◌,
}
use apex_appraise.Common.Refusals.{Refusal, not_found}

pub data TermsStatus : Type 0 where
  draft issued accepted : TermsStatus

-- The fields of `zTerms`, the date and the liability cap as they are stored.
pub record TermsText : Type 0 where
  pub client_name : String
  pub client_address : String
  pub other_users : String
  pub purpose : String
  pub interest : String
  pub basis_of_value : String
  pub valuation_date : Option ℕ
  pub extent_of_investigation : String
  pub sources_of_information : String
  pub assumptions : String
  pub special_assumptions : String
  pub report_format : String
  pub restrictions_on_use : String
  pub fee_basis : String
  pub liability_cap : Option ℕ
  pub complaints_procedure : String
  pub ai_use : String
  pub valuer_name : String
  pub valuer_reg : String

-- What the database holds of a signature.
pub record EngagementTerms : Type 0 where
  pub status : TermsStatus
  pub terms : TermsText
  pub issued_at : Option ℕ
  pub accepted_at : Option ℕ
  pub accepted_by : Option String
  pub sign_token : Option String
  pub sign_token_expires_at : Option ℕ
  pub signed_name : Option String
  pub signed_at : Option ℕ
  pub signed_ip : Option String
  pub signed_user_agent : Option String
  pub updated_at : ℕ

-- What the audit trail is told.
pub data TrailEntry : Type 0 where
  drafted edited issued_terms revoked_link withdrew : TrailEntry
  recorded_acceptance signed : (name : String) → TrailEntry

-- A handler writes the row and then, in a statement of its own, the entry in the trail.
pub record Deal : Type 0 where
  pub row : Option EngagementTerms
  -- The writes to the row, newest first, each as the entry that it calls for. No table holds this history.
  pub written : List TrailEntry
  -- the entries that the handlers have yet to write
  pub owed : List TrailEntry
  -- newest first
  pub trail : List TrailEntry

abbrev pub wrote : EngagementTerms → TrailEntry → Deal → Deal
wrote r e d = record d { row = some r; written = e ∷ d.written; owed = e ∷ d.owed }

abbrev pub picked {ℓ} : {A : Type ℓ} → ℕ → List A → List A
picked n [] = []
picked zero (x ∷ xs) = x ∷ []
picked (suc n) (x ∷ xs) = picked n xs

abbrev pub left {ℓ} : {A : Type ℓ} → ℕ → List A → List A
left n [] = []
left zero (x ∷ xs) = xs
left (suc n) (x ∷ xs) = x ∷ left n xs

-- `activityEvent.create` with one of the entries that are owed
abbrev pub tell : ℕ → Deal → Deal
tell n d = record d { owed = left n d.owed; trail = picked n d.owed ++ d.trail }

abbrev pub is_draft : TermsStatus → Bool
is_draft draft = true
is_draft issued = false
is_draft accepted = false

abbrev pub is_accepted : TermsStatus → Bool
is_accepted draft = false
is_accepted issued = false
is_accepted accepted = true

abbrev pub is_some {ℓ} : {A : Type ℓ} → Option A → Bool
is_some none = false
is_some (some a) = true

-- `linkExpired`
abbrev pub link_expired : (now : ℕ) → EngagementTerms → Bool
link_expired now r = elim r.sign_token_expires_at [ none ↦ false | some end ↦ leb end now ]

-- `assertDeal`
abbrev pub assert_deal : (has_deal : Bool) → Result Refusal (Unit {0})
assert_deal has_deal = guard has_deal not_found

-- `update({ where: { id: row.id } })`, which throws where there is no row. The entry comes later.
abbrev pub update : (EngagementTerms → EngagementTerms) → TrailEntry → Deal → Result Refusal Deal
update f e d = elim d.row [ none ↦ err not_found | some r ↦ ok (wrote (f r) e d) ]
