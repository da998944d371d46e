-- ===== src/Plans/Tests.antt =====
-- Runs of the plan checks, and their theorems at concrete workspaces.
use apex_appraise.Plans.Guards.{
  Principal, Organisation, internal_procedure, query, mutation, lapsed,
}
use apex_appraise.Common.{str_eq, ok, err, ◌≡◌, refl, ◌≢◌, ◌↔◌, some, List, [], ◌∷◌}
use apex_appraise.Common.{str_eq, ok, err, ◌≡◌, refl, ◌≢◌, ◌↔◌, some, List, [], ◌∷◌}
use apex_appraise.Common.Text.{codes}
use apex_appraise.Plans.Catalogue.{
  plan_key, plan_has_feature, cheapest_plan_with, growth, enterprise, public_api,
}
use apex_appraise.Plans.Entitlements.{
  entitlements_for, assert_feature, Deal, User, assert_can_add_deal, assert_can_add_member,
  usage_for, HasRoom, can_add_iff_room, active_deals, feature_missing, limit_reached,
}
use apex_appraise.Plans.Trial.{
  trial_state_of, allowed_while_expired, OrgTrial, assert_trial_live, payment_attention,
}

abbrev deals : List Deal
deals =
    record { id = "d1"; org_id = "o" }
    ∷ record { id = "d2"; org_id = "p" }
    ∷ record { id = "d3"; org_id = "o" }
    ∷ []

abbrev users : List User
users =
    record { id = "u1"; org_id = "o"; principal_type = "internal" }
    ∷ record { id = "u2"; org_id = "o"; principal_type = "buyer" }
    ∷ []

starter_full :
    assert_can_add_deal (record { id = "d4"; org_id = "o" } ∷ deals) "o" "STARTER"
    ≡ err (limit_reached active_deals 3 growth)
unfolding assert_can_add_deal entitlements_for plan_key str_eq
starter_full = refl

api_needs_enterprise :
    assert_feature (record { id = "o"; plan = "GROWTH" } ∷ []) "o" public_api
    ≡ err (feature_missing public_api enterprise)
unfolding assert_feature plan_has_feature plan_key cheapest_plan_with str_eq
api_needs_enterprise = refl

can_add_iff_room_example :
    ((assert_can_add_deal deals "o" "TRIAL" ≡ ok tt)
      ↔ HasRoom (usage_for deals users "o" "TRIAL").deals)
    × ((assert_can_add_member users "o" "TRIAL" ≡ ok tt)
        ↔ HasRoom (usage_for deals users "o" "TRIAL").members)
can_add_iff_room_example = can_add_iff_room deals users "o" "TRIAL"

abbrev lapsed_trial : OrgTrial
lapsed_trial = record {
  plan = "TRIAL";
  trial_ends_at = some 5000;
  subscription_status = some "paused";
}

lapsed_needs_payment :
    assert_trial_live (some lapsed_trial) (codes "deals.create") 5000 ≡ err payment_attention
unfolding assert_trial_live allowed_while_expired trial_state_of str_eq
lapsed_needs_payment = refl

abbrev lapsed_orgs : List Organisation
lapsed_orgs = record { id = "o"; trial = lapsed_trial } ∷ []

abbrev analyst : Principal
analyst = record { org_id = "o"; principal_type = "internal"; role = "ANALYST" }

lapsed_reads : internal_procedure lapsed_orgs (some analyst) query (codes "deals.list") 6000 ≡ ok tt
unfolding internal_procedure str_eq
lapsed_reads = refl

lapsed_leaves :
    internal_procedure lapsed_orgs (some analyst) mutation (codes "org.exportData") 6000 ≡ ok tt
unfolding internal_procedure assert_trial_live allowed_while_expired str_eq
lapsed_leaves = refl

lapsed_writes :
    internal_procedure lapsed_orgs (some analyst) mutation (codes "deals.create") 6000
    ≡ err (lapsed payment_attention)
unfolding internal_procedure assert_trial_live allowed_while_expired trial_state_of str_eq
lapsed_writes = refl
