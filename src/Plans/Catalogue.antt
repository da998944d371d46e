-- ===== src/Plans/Catalogue.antt =====
-- packages/types/src/plan.ts: the plans and the features that each of them includes.
use apex_appraise.Common.{
  if◌then◌else◌, str_eq, any, ℕ, ◌≤◌, String, ◌≡◌, refl, ◌≢◌, Bool, true, false, Option, none, some,
  List, [], ◌∷◌, arith,
}

pub data PlanKey : Type 0 where
  trial starter growth enterprise : PlanKey

pub data Feature : Type 0 where
  ai_director portals benchmarking public_api : Feature

pub Feature-discrete : Discrete Feature
Feature-discrete = hlevel

abbrev pub is_feature : Feature → Feature → Bool
is_feature ai_director ai_director = true
is_feature portals portals = true
is_feature benchmarking benchmarking = true
is_feature public_api public_api = true
is_feature _ _ = false

abbrev pub includes : Feature → List Feature → Bool
includes f = any (is_feature f)

abbrev pub plan_features : PlanKey → List Feature
plan_features trial = ai_director ∷ portals ∷ benchmarking ∷ public_api ∷ []
plan_features starter = []
plan_features growth = ai_director ∷ portals ∷ benchmarking ∷ []
plan_features enterprise = ai_director ∷ portals ∷ benchmarking ∷ public_api ∷ []

abbrev pub paid_plans_by_price : List PlanKey
paid_plans_by_price = starter ∷ growth ∷ enterprise ∷ []

-- The plan that a column of text names; `none` for any text that is not a key of the catalogue.
unfoldable pub plan_key : String → Option PlanKey
plan_key plan =
    if str_eq plan "TRIAL"
    then some trial
    else if str_eq plan "STARTER"
    then some starter
    else if str_eq plan "GROWTH"
    then some growth
    else if str_eq plan "ENTERPRISE"
    then some enterprise
    else none

abbrev pub or_plan : PlanKey → Option PlanKey → PlanKey
or_plan d none = d
or_plan d (some p) = p

-- A name that every object has, such as `constructor`, finds no list, and the check throws. No plan is one.
unfoldable pub features_for : String → List Feature
features_for plan = plan_features (or_plan starter (plan_key plan))

unfoldable pub plan_has_feature : String → Feature → Bool
unfolding features_for
plan_has_feature plan f = includes f (features_for plan)

abbrev pub find_plan : (PlanKey → Bool) → List PlanKey → Option PlanKey
find_plan p [] = none
find_plan p (x ∷ xs) = if p x then some x else find_plan p xs

unfoldable pub cheapest_plan_with : Feature → PlanKey
cheapest_plan_with f =
    or_plan enterprise (find_plan (λ p. includes f (plan_features p)) paid_plans_by_price)

-- `PLANS`: the price of each plan that is sold, in pence a month
pub record PlanDef : Type 0 where
  pub key : PlanKey
  pub name : String
  pub price_pence_per_month : ℕ
  pub featured : Bool

abbrev pub plans : List PlanDef
plans =
    record { key = starter; name = "Starter"; price_pence_per_month = 4900; featured = false }
    ∷ record { key = growth; name = "Growth"; price_pence_per_month = 14_900; featured = true }
    ∷ record {
      key = enterprise;
      name = "Enterprise";
      price_pence_per_month = 39_900;
      featured = false;
    }
    ∷ []

abbrev pub has_plan : PlanKey → PlanKey → Bool
has_plan trial trial = true
has_plan starter starter = true
has_plan growth growth = true
has_plan enterprise enterprise = true
has_plan _ _ = false

abbrev pub price_in : List PlanDef → PlanKey → ℕ
price_in [] p = 0
price_in (d ∷ ds) p = if has_plan d.key p then d.price_pence_per_month else price_in ds p

-- The plan that a refusal tells a workspace to buy includes the feature, is for sale, and costs no more
-- than any plan for sale that includes it.
pub cheapest_plan_with-least :
    (f : Feature) (p : PlanKey)
    → p ≢ trial
    → includes f (plan_features p) ≡ true
    → (includes f (plan_features (cheapest_plan_with f)) ≡ true)
      × (cheapest_plan_with f ≢ trial)
      × (price_in plans (cheapest_plan_with f) ≤ price_in plans p)
unfolding cheapest_plan_with
cheapest_plan_with-least ai_director p t h = ground arith
cheapest_plan_with-least portals p t h = ground arith
cheapest_plan_with-least benchmarking p t h = ground arith
cheapest_plan_with-least public_api p t h = ground arith

-- A plan for sale that costs more includes every feature of one that costs less.
pub features_grow_with_price :
    (p q : PlanKey) (f : Feature)
    → p ≢ trial
    → q ≢ trial
    → price_in plans p ≤ price_in plans q
    → includes f (plan_features p) ≡ true
    → includes f (plan_features q) ≡ true
features_grow_with_price trial q f t u h i = absurd (t refl)
features_grow_with_price p trial f t u h i = absurd (u refl)
features_grow_with_price starter q f t u h i = ground arith
features_grow_with_price growth starter f t u h i = absurd (omega arith)
features_grow_with_price growth growth f t u h i = i
features_grow_with_price growth enterprise f t u h i = ground arith
features_grow_with_price enterprise starter f t u h i = absurd (omega arith)
features_grow_with_price enterprise growth f t u h i = absurd (omega arith)
features_grow_with_price enterprise enterprise f t u h i = i
