-- ===== src/Plans/Entitlements.antt =====
-- apps/api/src/entitlements.ts: the volumes of a plan, and the refusals of what a plan leaves out.
use apex_appraise.Common.{
  leb, if◌then◌else◌, str_eq, any, Result, guard, ok, err, ℕ, ◌+◌, ◌≤◌, ◌<◌, String, ◌≡◌, refl, ◌↔◌,
  Bool, false, ◌&&◌, Option, none, some, List, [], ◌∷◌, ◌++◌, arith,
}
use apex_appraise.Common.{
  leb, if◌then◌else◌, str_eq, Result, guard, ok, err, ℕ, ◌+◌, ◌≤◌, ◌<◌, String, ◌≡◌, ◌↔◌, Bool,
  false, ◌&&◌, Option, none, some, List, [], ◌∷◌, ◌++◌, arith,
}
use apex_appraise.Table.{find_first, count}
use apex_appraise.Plans.Catalogue.{
  PlanKey, Feature, plan_key, or_plan, plan_has_feature, cheapest_plan_with, trial, starter, growth,
  enterprise,
}

-- `none` is unlimited.
pub record Entitlements : Type 0 where
  pub max_deals : Option ℕ
  pub max_members : Option ℕ

abbrev pub plan_entitlements : PlanKey → Entitlements
plan_entitlements trial = record { max_deals = some 3; max_members = some 2 }
plan_entitlements starter = record { max_deals = some 3; max_members = some 2 }
plan_entitlements growth = record { max_deals = none; max_members = some 10 }
plan_entitlements enterprise = record { max_deals = none; max_members = none }

-- the names that `in` finds in every object
abbrev pub inherited_names : List String
inherited_names =
    "constructor" ∷ "toString" ∷ "toLocaleString" ∷ "valueOf" ∷ "hasOwnProperty" ∷ "isPrototypeOf"
    ∷ "propertyIsEnumerable" ∷ "__proto__" ∷ "__defineGetter__" ∷ "__defineSetter__"
    ∷ "__lookupGetter__" ∷ "__lookupSetter__" ∷ []

abbrev pub is_inherited : String → Bool
is_inherited plan = any (λ name. str_eq plan name) inherited_names

-- What an inherited name finds has no limits: both are `undefined`, and no count is at least that.
unfoldable pub entitlements_for : String → Entitlements
entitlements_for plan =
    if is_inherited plan
    then record { max_deals = none; max_members = none }
    else plan_entitlements (or_plan trial (plan_key plan))

pub data What : Type 0 where
  active_deals team_members : What

-- The refusals, with what their messages are made of.
pub data Refusal : Type 0 where
  feature_missing : Feature → (need : PlanKey) → Refusal
  limit_reached : What → (limit : ℕ) → (next : PlanKey) → Refusal

pub record Organisation : Type 0 where
  pub id : String
  pub plan : String

abbrev pub plan_or_empty : Option Organisation → String
plan_or_empty none = ""
plan_or_empty (some o) = o.plan

unfoldable pub assert_feature : List Organisation → String → Feature → Result Refusal (Unit {0})
assert_feature orgs org_id f =
    guard (plan_has_feature (plan_or_empty (find_first (λ o. str_eq o.id org_id) orgs)) f)
      (feature_missing f (cheapest_plan_with f))

abbrev pub next_plan : String → PlanKey
next_plan plan = if str_eq plan "GROWTH" then enterprise else growth

abbrev pub within : What → Option ℕ → ℕ → String → Result Refusal (Unit {0})
within what none used plan = ok tt
within what (some limit) used plan =
    if leb limit used then err (limit_reached what limit (next_plan plan)) else ok tt

-- A deal, and a user, as far as they are counted.
pub record Deal : Type 0 where
  pub id : String
  pub org_id : String

pub record User : Type 0 where
  pub id : String
  pub org_id : String
  pub principal_type : String

abbrev pub deals_of : String → List Deal → ℕ
deals_of org_id = count (λ d. str_eq d.org_id org_id)

abbrev pub is_member : String → User → Bool
is_member org_id u = str_eq u.org_id org_id && str_eq u.principal_type "internal"

abbrev pub members_of : String → List User → ℕ
members_of org_id = count (is_member org_id)

unfoldable pub assert_can_add_deal : List Deal → String → String → Result Refusal (Unit {0})
assert_can_add_deal deals org_id plan =
    within active_deals (entitlements_for plan).max_deals (deals_of org_id deals) plan

unfoldable pub assert_can_add_member : List User → String → String → Result Refusal (Unit {0})
assert_can_add_member users org_id plan =
    within team_members (entitlements_for plan).max_members (members_of org_id users) plan

pub record Allowance : Type 0 where
  pub used : ℕ
  pub limit : Option ℕ

pub record Usage : Type 0 where
  pub plan : String
  pub deals : Allowance
  pub members : Allowance

unfoldable pub usage_for : List Deal → List User → String → String → Usage
usage_for deals users org_id plan = record {
  plan = plan;
  deals = record { used = deals_of org_id deals; limit = (entitlements_for plan).max_deals };
  members = record { used = members_of org_id users; limit = (entitlements_for plan).max_members };
}

abbrev pub HasRoom : Allowance → Type 0
HasRoom a = elim a.limit [ none ↦ Unit | some n ↦ a.used < n ]

abbrev pub IsWithin : Allowance → Type 0
IsWithin a = elim a.limit [ none ↦ Unit | some n ↦ a.used ≤ n ]

within_iff :
    (what : What) (limit : Option ℕ) (used : ℕ) (plan : String)
    → (within what limit used plan ≡ ok tt) ↔ HasRoom (record { used = used; limit = limit })
within_iff what none used plan = ground arith
within_iff what (some n) used plan = ground arith

-- A deal may be added exactly when the usage that the workspace is shown leaves room for one, and a
-- team member likewise.
pub can_add_iff_room :
    (deals : List Deal) (users : List User) (org_id plan : String)
    → ((assert_can_add_deal deals org_id plan ≡ ok tt)
        ↔ HasRoom (usage_for deals users org_id plan).deals)
      × ((assert_can_add_member users org_id plan ≡ ok tt)
          ↔ HasRoom (usage_for deals users org_id plan).members)
unfolding assert_can_add_deal assert_can_add_member usage_for
can_add_iff_room deals users org_id plan = (
  within_iff active_deals (entitlements_for plan).max_deals (deals_of org_id deals) plan,
  within_iff team_members (entitlements_for plan).max_members (members_of org_id users) plan,
)

within_added :
    (what : What) (limit : Option ℕ) (used added : ℕ) (plan : String)
    → added ≤ 1
    → within what limit used plan ≡ ok tt
    → IsWithin (record { used = used + added; limit = limit })
within_added what none used added plan h e = tt
within_added what (some n) used added plan h e = ground arith

count-append :
    (u : User) (org_id : String) (users : List User)
    → members_of org_id (users ++ (u ∷ []))
      ≡ members_of org_id users + (if is_member org_id u then 1 else 0)
count-append u org_id [] = ground arith
count-append u org_id (v ∷ users) = ground (arith, count-append u org_id users)

deals_of-append :
    (d : Deal) (org_id : String) (deals : List Deal)
    → deals_of org_id (deals ++ (d ∷ []))
      ≡ deals_of org_id deals + (if str_eq d.org_id org_id then 1 else 0)
deals_of-append d org_id [] = ground arith
deals_of-append d org_id (v ∷ deals) = ground (arith, deals_of-append d org_id deals)

-- After an addition that the check let through, of any deal and any user, the workspace is within its
-- allowance.
pub added-IsWithin :
    (deals : List Deal) (users : List User) (d : Deal) (u : User) (org_id plan : String)
    → assert_can_add_deal deals org_id plan ≡ ok tt
    → assert_can_add_member users org_id plan ≡ ok tt
    → let after = usage_for (deals ++ (d ∷ [])) (users ++ (u ∷ [])) org_id plan in
      IsWithin after.deals × IsWithin after.members
unfolding assert_can_add_deal assert_can_add_member usage_for
added-IsWithin deals users d u org_id plan hd hm =
    let e = entitlements_for plan in
    (
      rw (deals_of-append d org_id deals)
          (within_added active_deals e.max_deals (deals_of org_id deals) _ plan (ground arith) hd),
      rw (count-append u org_id users) (
          within_added team_members e.max_members (members_of org_id users) _ plan (ground arith)
            hm),
    )

-- A plan that the catalogue does not know, the empty one of a missing workspace included, has no
-- feature and the volumes of the trial, unless it is a name that every object has.
pub unknown_plan_restricted :
    (plan : String) (f : Feature)
    → plan_key plan ≡ none
    → is_inherited plan ≡ false
    → (plan_has_feature plan f ≡ false) × (entitlements_for plan ≡ plan_entitlements trial)
unfolding entitlements_for plan_has_feature
unknown_plan_restricted plan f h i = (ground (arith, h), rw i (rw h refl))
