-- ===== src/Engagement/Tests.antt =====
-- The terms of engagement on a small deal.
use apex_appraise.Common.{
  ltb, str_eq, ok, err, ℕ, ◌+◌, ◌*◌, String, ◌≡◌, refl, Bool, true, ◌&&◌, not, none, some, List, [],
  ◌∷◌,
}
use apex_appraise.Engagement.{
  TermsText, EngagementTerms, TrailEntry, Deal, drafted, issued_terms, signed, day_ms, new_terms,
  save, as_issued, issue, revoke_link, accept, Signature, row_of_link, as_shown, public_get,
  as_signed, sign,
}
use apex_appraise.Engagement.Schedule.{
  handle, settled, Step, run, serve, new_deal, saves, issues, revokes, accepts, signs, writes,
  tells,
}
use apex_appraise.Table.{count}
use apex_appraise.Common.{
  ltb, str_eq, ok, err, ℕ, ◌+◌, ◌*◌, String, ◌≡◌, refl, true, ◌&&◌, not, none, some, List, [], ◌∷◌,
}
use apex_appraise.Common.Refusals.{assert_unchanged, not_found, conflict, bad_request}
use apex_appraise.Engagement.{
  TermsText, EngagementTerms, Deal, drafted, issued_terms, signed, day_ms, new_terms, save,
  as_issued, issue, revoke_link, accept, Signature, row_of_link, as_shown, public_get, as_signed,
  sign,
}
use apex_appraise.Engagement.Schedule.{
  handle, settled, Step, run, serve, new_deal, writes, tells, saves, issues, revokes, accepts,
  signs,
}
use apex_appraise.Engagement.Sound.{IsExclusive, IsSoundRow}
use apex_appraise.Engagement.Interleavings.{run-IsExclusive, run-IsSoundRow}
use apex_appraise.Engagement.Kept.{Keeps, serve_signed}
use apex_appraise.Engagement.Links.{is_ok, is_settled, sign_iff_shown, issue-sign}
use apex_appraise.Engagement.Races.{IsSignedWith, edited_under_link, signed_while_saving}

abbrev wording : (cap : ℕ) → TermsText
wording cap = record {
  client_name = "Marchmont Ltd";
  client_address = "";
  other_users = "None";
  purpose = "Secured lending";
  interest = "Freehold";
  basis_of_value = "Market Value";
  valuation_date = none;
  extent_of_investigation = "Inspection";
  sources_of_information = "Client";
  assumptions = "Good title";
  special_assumptions = "None";
  report_format = "Written";
  restrictions_on_use = "Not to be published";
  fee_basis = "Fixed";
  liability_cap = some cap;
  complaints_procedure = "On request";
  ai_use = "None";
  valuer_name = "A Valuer";
  valuer_reg = "RICS";
}

abbrev link : String
link = "0123456789abcdef"

abbrev other_link : String
other_link = "fedcba9876543210"

abbrev jane : Signature
jane = record { name = "Jane Marchmont"; ip = some "192.0.2.7"; user_agent = none }

abbrev kim : Signature
kim = record { name = "Kim Else"; ip = none; user_agent = none }

abbrev issued_row : EngagementTerms
issued_row = as_issued link 30 2_000 (new_terms (wording 500) 1_000)

abbrev issued_deal : Deal
issued_deal = record {
  row = some issued_row;
  written = issued_terms ∷ drafted ∷ [];
  owed = [];
  trail = issued_terms ∷ drafted ∷ [];
}

abbrev signed_row : EngagementTerms
signed_row = as_signed jane 3_000 issued_row

abbrev executed_deal : Deal
executed_deal = record {
  row = some signed_row;
  written = signed "Jane Marchmont" ∷ issued_terms ∷ drafted ∷ [];
  owed = [];
  trail = signed "Jane Marchmont" ∷ issued_terms ∷ drafted ∷ [];
}

abbrev drafts : Step
drafts = writes (record { request = saves true (wording 500) none; now = 1_000; seen = none })

abbrev issues_terms : Step
issues_terms = writes (record {
  request = issues true link none;
  now = 2_000;
  seen = some (new_terms (wording 500) 1_000);
})

abbrev jane_signs : Step
jane_signs = writes (record { request = signs link jane; now = 3_000; seen = some issued_row })

abbrev kim_signs : Step
kim_signs = writes (record { request = signs link kim; now = 3_001; seen = some issued_row })

-- a draft, its issue, and two signatures that have both read the issued row
abbrev double_click : List Step
double_click = drafts ∷ tells 0 ∷ issues_terms ∷ tells 0 ∷ jane_signs ∷ kim_signs ∷ tells 0 ∷ []

double_click_lem : run double_click new_deal ≡ executed_deal
unfolding handle save issue sign str_eq
double_click_lem = refl

-- The terms are issued again between two signatures, and the entry of that issue comes last.
abbrev late_issue : List Step
late_issue =
    drafts
    ∷ tells 0
    ∷ issues_terms
    ∷ tells 0
    ∷ jane_signs
    ∷ issues_terms
    ∷ kim_signs
    ∷ tells 2
    ∷ tells 0
    ∷ tells 0
    ∷ []

late_issue_lem :
    (run late_issue new_deal).trail
    ≡ issued_terms ∷ signed "Kim Else" ∷ signed "Jane Marchmont" ∷ issued_terms ∷ drafted ∷ []
unfolding handle save issue sign str_eq
late_issue_lem = refl

second_visit : sign link kim 4_000 executed_deal.row executed_deal ≡ err bad_request
unfolding sign str_eq
second_visit = refl

late_visit : sign link jane 2_592_002_000 issued_deal.row issued_deal ≡ err bad_request
unfolding sign str_eq
late_visit = refl

typed_over : accept true "The firm" 4_000 executed_deal.row executed_deal ≡ err conflict
unfolding accept
typed_over = refl

unstamped_save : save true (wording 600) none 4_000 issued_deal.row issued_deal ≡ err bad_request
unfolding save assert_unchanged
unstamped_save = refl

revoked_then_visited :
    public_get link 5_000
      (settled issued_deal (revoke_link true 4_000 issued_deal.row issued_deal)).row
    ≡ err not_found
unfolding public_get revoke_link str_eq
revoked_then_visited = refl

executed_copy : public_get link 2_592_002_000 executed_deal.row ≡ ok (as_shown signed_row)
unfolding public_get str_eq
executed_copy = refl

run-IsExclusive_example :
    IsExclusive (run double_click new_deal).written
    × ((p : TrailEntry → Bool)
        → count p (run double_click new_deal).owed + count p (run double_click new_deal).trail
          ≡ count p (run double_click new_deal).written)
run-IsExclusive_example = run-IsExclusive double_click

run-IsSoundRow_example : IsSoundRow signed_row
unfolding handle save issue sign str_eq
run-IsSoundRow_example = run-IsSoundRow double_click signed_row refl

serve_signed_example : Keeps signed_row (
    serve
      ((4_000, saves true (wording 600) (some 3_000))
        ∷ (5_000, accepts true "The firm")
        ∷ (6_000, signs link kim)
        ∷ (7_000, revokes true)
        ∷ [])
      executed_deal)
serve_signed_example =
    serve_signed
      ((4_000, saves true (wording 600) (some 3_000))
        ∷ (5_000, accepts true "The firm")
        ∷ (6_000, signs link kim)
        ∷ (7_000, revokes true)
        ∷ [])
      executed_deal signed_row refl refl refl (refl, (refl, (refl, (refl, tt))))

sign_iff_shown_example : is_ok (sign link jane 3_000 issued_deal.row issued_deal) ≡ (
    is_ok (public_get link 3_000 issued_deal.row)
    && not (is_settled (row_of_link link issued_deal.row)))
sign_iff_shown_example = sign_iff_shown link jane 3_000 issued_deal

abbrev reissued_deal : Deal
reissued_deal = record {
  row = some (as_issued other_link 10 9_000 signed_row);
  written = issued_terms ∷ executed_deal.written;
  owed = issued_terms ∷ [];
  trail = executed_deal.trail;
}

issue-sign_example :
    is_ok (sign link jane 9_500 reissued_deal.row reissued_deal)
    ≡ (str_eq other_link link && ltb 9_500 (9_000 + 10 * day_ms))
unfolding issue
issue-sign_example =
    issue-sign true other_link (some 10) 9_000 executed_deal reissued_deal refl link jane 9_500

edited_under_link_example :
    (saves : Deal) × (signs : Deal) × (save true
        (wording 0)
        (some 2_000)
        2_500
        issued_deal.row
        issued_deal
      ≡ ok saves)
    × (sign link jane 3_000 saves.row saves ≡ ok signs)
    × IsSignedWith (wording 0) signs
edited_under_link_example =
    edited_under_link link (wording 0) jane 2_500 3_000 issued_deal issued_row refl refl refl refl

signed_while_saving_example :
    (signs : Deal) × (saves : Deal) × (sign link jane 3_000 issued_deal.row issued_deal ≡ ok signs)
    × (save true (wording 0) (some 2_000) 3_001 issued_deal.row signs ≡ ok saves)
    × IsSignedWith (wording 0) saves
signed_while_saving_example =
    signed_while_saving link (wording 0) jane 3_000 3_001 issued_deal issued_row refl refl refl refl
