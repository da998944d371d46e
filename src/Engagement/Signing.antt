-- ===== src/Engagement/Signing.antt =====
-- `publicGet` and `sign` of engagement.ts, which a client reaches by the token of a link.
use apex_appraise.Common.{
  if◌then◌else◌, str_eq, Result, ◌>>◌, guard, ok, err, ℕ, String, ◌&&◌, not, Option, none, some,
}
use apex_appraise.Common.Refusals.{Refusal, not_found, bad_request}
use apex_appraise.Engagement.Shared.{
  EngagementTerms, Deal, wrote, is_draft, is_accepted, link_expired, accepted, signed,
}

pub record Signature : Type 0 where
  pub name : String
  pub ip : Option String
  pub user_agent : Option String

-- `findFirst({ where: { signToken: token } })` on the row of the deal
abbrev pub row_of_link : (token : String) → Option EngagementTerms → Option EngagementTerms
row_of_link token none = none
row_of_link token (some r) = elim r.sign_token [
  | none ↦ none
  | some t ↦ if str_eq t token then some r else none
]

-- The columns that are removed stand as `none`.
abbrev pub as_shown : EngagementTerms → EngagementTerms
as_shown r = record r { sign_token = none; signed_ip = none; signed_user_agent = none }

abbrev pub shown : (now : ℕ) → Option EngagementTerms → Result Refusal EngagementTerms
shown now none = err not_found
shown now (some r) = do
  guard (not (is_draft r.status)) not_found
  guard (not (link_expired now r && not (is_accepted r.status))) not_found
  ok (as_shown r)

-- What a visitor is shown, less what comes from the deal and the firm.
unfoldable pub public_get :
    (token : String) → (now : ℕ) → (seen : Option EngagementTerms) → Result Refusal EngagementTerms
public_get token now seen = shown now (row_of_link token seen)

abbrev pub as_signed : Signature → (now : ℕ) → EngagementTerms → EngagementTerms
as_signed s now r = record r {
  status = accepted;
  accepted_at = some now;
  accepted_by = some s.name;
  signed_name = some s.name;
  signed_at = some now;
  signed_ip = s.ip;
  signed_user_agent = s.user_agent;
  updated_at = now;
}

-- `updateMany` where the status is not ACCEPTED, which must find one row
abbrev pub sign_unaccepted : Signature → (now : ℕ) → Deal → Result Refusal Deal
sign_unaccepted s now d = elim d.row [
  | none ↦ err bad_request
  | some r ↦
      if is_accepted r.status
      then err bad_request
      else ok (wrote (as_signed s now r) (signed s.name) d)
]

abbrev pub sign_seen :
    Signature → (now : ℕ) → (seen : Option EngagementTerms) → Deal → Result Refusal Deal
sign_seen s now none d = err not_found
sign_seen s now (some r) d = do
  guard (not (is_draft r.status)) not_found
  guard (not (link_expired now r)) bad_request
  guard (not (is_accepted r.status)) bad_request
  sign_unaccepted s now d

-- The name is trimmed. One reading of the clock stands for the two that are a moment apart.
unfoldable pub sign :
    (token : String)
    → Signature
    → (now : ℕ) → (seen : Option EngagementTerms) → Deal
    → Result Refusal Deal
sign token s now seen d = sign_seen s now (row_of_link token seen) d
