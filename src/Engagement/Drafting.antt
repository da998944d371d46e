-- ===== src/Engagement/Drafting.antt =====
-- `save`, `issue`, `revokeLink`, `accept` and `withdraw` of engagement.ts. Each reads the row first, `seen`,
-- and writes to the deal as it stands by then.
use apex_appraise.Common.Text.{codes, trim}
use apex_appraise.Common.{
  Result, ◌>>◌, guard, ok, err, ℕ, ◌+◌, ◌*◌, String, Bool, true, false, not, Option, none, some, [],
  ◌∷◌,
}
use apex_appraise.Common.Refusals.{Refusal, assert_unchanged, conflict, bad_request}
use apex_appraise.Engagement.Shared.{
  TermsText, EngagementTerms, Deal, is_draft, is_accepted, is_some, assert_deal, wrote, update,
  draft, issued, accepted, drafted, edited, issued_terms, revoked_link, withdrew,
  recorded_acceptance,
}

abbrev pub default_link_days : ℕ
default_link_days = 30

abbrev pub day_ms : ℕ
day_ms = 86_400_000

abbrev pub new_terms : TermsText → (now : ℕ) → EngagementTerms
new_terms terms now = record {
  status = draft;
  terms = terms;
  issued_at = none;
  accepted_at = none;
  accepted_by = none;
  sign_token = none;
  sign_token_expires_at = none;
  signed_name = none;
  signed_at = none;
  signed_ip = none;
  signed_user_agent = none;
  updated_at = now;
}

-- `create`, which throws where the deal has a row already
abbrev pub create : TermsText → (now : ℕ) → Deal → Result Refusal Deal
create terms now d = elim d.row [
  | none ↦ ok (wrote (new_terms terms now) drafted d)
  | some r ↦ err conflict
]

abbrev pub with_terms : TermsText → (now : ℕ) → EngagementTerms → EngagementTerms
with_terms terms now r = record r { terms = terms; updated_at = now }

abbrev pub save_seen :
    TermsText
    → (expected : Option ℕ) → (now : ℕ) → (seen : Option EngagementTerms) → Deal
    → Result Refusal Deal
save_seen terms expected now none d = create terms now d
save_seen terms expected now (some r) d = do
  guard (not (is_accepted r.status)) bad_request
  assert_unchanged r.updated_at expected
  update (with_terms terms now) edited d

unfoldable pub save :
    (has_deal : Bool)
    → TermsText
    → (expected : Option ℕ) → (now : ℕ) → (seen : Option EngagementTerms) → Deal
    → Result Refusal Deal
save has_deal terms expected now seen d = do
  assert_deal has_deal
  save_seen terms expected now seen d

-- `!row.clientName.trim()`
abbrev pub is_unnamed : TermsText → Bool
is_unnamed t = elim (trim (codes t.client_name)) [ [] ↦ true | c ∷ cs ↦ false ]

abbrev pub as_issued : (token : String) → (days now : ℕ) → EngagementTerms → EngagementTerms
as_issued token days now r = record r {
  status = issued;
  issued_at = some now;
  accepted_at = none;
  accepted_by = none;
  sign_token = some token;
  sign_token_expires_at = some (now + days * day_ms);
  signed_name = none;
  signed_at = none;
  signed_ip = none;
  signed_user_agent = none;
  updated_at = now;
}

-- `expiryDays` of the input, or the default
abbrev pub link_days : Option ℕ → ℕ
link_days none = default_link_days
link_days (some days) = days

abbrev pub issue_seen :
    (token : String) → (days now : ℕ) → (seen : Option EngagementTerms) → Deal → Result Refusal Deal
issue_seen token days now none d = err bad_request
issue_seen token days now (some r) d = do
  guard (not (is_unnamed r.terms)) bad_request
  update (as_issued token days now) issued_terms d

-- `token` is what `randomBytes` draws.
unfoldable pub issue :
    (has_deal : Bool)
    → (token : String) → (expiry_days : Option ℕ) → (now : ℕ) → (seen : Option EngagementTerms)
    → Deal
    → Result Refusal Deal
issue has_deal token expiry_days now seen d = do
  assert_deal has_deal
  issue_seen token (link_days expiry_days) now seen d

-- `row?.signToken`
abbrev pub has_link : Option EngagementTerms → Bool
has_link none = false
has_link (some r) = is_some r.sign_token

abbrev pub as_revoked : (now : ℕ) → EngagementTerms → EngagementTerms
as_revoked now r = record r { sign_token_expires_at = some now; updated_at = now }

unfoldable pub revoke_link :
    (has_deal : Bool) → (now : ℕ) → (seen : Option EngagementTerms) → Deal → Result Refusal Deal
revoke_link has_deal now seen d = do
  assert_deal has_deal
  guard (has_link seen) bad_request
  update (as_revoked now) revoked_link d

abbrev pub as_accepted : (by : String) → (now : ℕ) → EngagementTerms → EngagementTerms
as_accepted by now r = record r {
  status = accepted;
  accepted_at = some now;
  accepted_by = some by;
  updated_at = now;
}

abbrev pub accept_seen :
    (by : String) → (now : ℕ) → (seen : Option EngagementTerms) → Deal → Result Refusal Deal
accept_seen by now none d = err bad_request
accept_seen by now (some r) d = do
  guard (not (is_draft r.status)) bad_request
  guard (not (is_some r.signed_at)) conflict
  update (as_accepted by now) (recorded_acceptance by) d

-- `by` is the name of the input, trimmed.
unfoldable pub accept :
    (has_deal : Bool)
    → (by : String) → (now : ℕ) → (seen : Option EngagementTerms) → Deal
    → Result Refusal Deal
accept has_deal by now seen d = do assert_deal has_deal; accept_seen by now seen d

abbrev pub as_withdrawn : (now : ℕ) → EngagementTerms → EngagementTerms
as_withdrawn now r = record r {
  status = draft;
  issued_at = none;
  accepted_at = none;
  accepted_by = none;
  sign_token = none;
  sign_token_expires_at = none;
  signed_name = none;
  signed_at = none;
  signed_ip = none;
  signed_user_agent = none;
  updated_at = now;
}

unfoldable pub withdraw :
    (has_deal : Bool) → (now : ℕ) → (seen : Option EngagementTerms) → Deal → Result Refusal Deal
withdraw has_deal now seen d = do
  assert_deal has_deal
  guard (is_some seen) bad_request
  update (as_withdrawn now) withdrew d
