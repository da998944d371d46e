-- ===== src/Engine/BookTests.antt =====
-- Cohorts and books on small inputs, in thousandths.
use apex_appraise.Common.{
  str_eq, length, any, All, ℕ, ◌*◌, String, ◌≡◌, refl, true, some, List, [], ◌∷◌, ◌++◌, arith,
}
use apex_appraise.Engine.Sample.{thousandths}
use apex_appraise.Engine.Benchmarks.{
  CohortPoint, Cohort, withheld_for, cohort_of, cohort_stats, rank_within, period_median,
  too_few_contributors, published, withheld,
}
use apex_appraise.Engine.Exposure.{asset_type, ExposurePosition, group_by, aggregate_exposure}
use apex_appraise.Engine.Exposure.Groups.{total_deals, IsSumOf, group_by-IsSumOf}
use apex_appraise.Engine.Benchmarks.Anonymity.{is_outside, published_hides, own_ignored}

abbrev point : String → ℕ → CohortPoint ℕ
point org value = record { value = value * 1_000; org_id = org }

-- five firms and the reader
abbrev firms : List (CohortPoint ℕ)
firms =
    point "a" 150
    ∷ point "b" 160
    ∷ point "c" 155
    ∷ point "d" 170
    ∷ point "e" 165
    ∷ point "a" 152
    ∷ point "b" 158
    ∷ point "c" 162
    ∷ []

abbrev with_own : List (CohortPoint ℕ)
with_own = point "me" 900 ∷ firms

abbrev shown_cohort : Cohort ℕ
shown_cohort = cohort_of firms

abbrev four : List String
four = "a" ∷ "b" ∷ "c" ∷ "d" ∷ []

firms_published : cohort_stats with_own (some "me") ≡ published shown_cohort
unfolding cohort_stats str_eq
firms_published = refl

thin_cohort : cohort_stats firms (some "e") ≡ withheld (withheld_for too_few_contributors 7 4)
unfolding cohort_stats str_eq
thin_cohort = refl

published_hides_example : any (is_outside ("me" ∷ four)) with_own ≡ true
unfolding cohort_stats str_eq
published_hides_example = published_hides with_own "me" shown_cohort four refl refl (omega arith)

own_ignored_example :
    (cohort_stats ([] ++ (point "me" 900 ∷ firms)) (some "me")
      ≡ cohort_stats ([] ++ firms) (some "me"))
    × (rank_within ([] ++ (point "me" 900 ∷ firms)) (some 160_000) (some "me")
        ≡ rank_within ([] ++ firms) (some 160_000) (some "me"))
    × (period_median ([] ++ (point "me" 900 ∷ firms)) (some "me")
        ≡ period_median ([] ++ firms) (some "me"))
unfolding str_eq
own_ignored_example = own_ignored "me" (point "me" 900) [] firms (some 160_000) refl refl

abbrev position : (name kind place : String) → ℕ → ExposurePosition ℕ
position name kind place facility = record {
  name = name;
  asset_type = kind;
  region = place;
  gdv = facility * 2_000;
  total_cost = facility * 1_500;
  facility = facility * 1_000;
  equity = facility * 500;
  drawn = facility * 400;
}

abbrev loans : List (ExposurePosition ℕ)
loans =
    position "Quay" "RESIDENTIAL" "BH" 40
    ∷ position "Mill" "COMMERCIAL" "" 30
    ∷ position "Yard" "RESIDENTIAL" "SO" 20
    ∷ []

loans_largest :
    (aggregate_exposure loans).largest
    ≡ some (record { dimension = asset_type; key = "RESIDENTIAL"; share = 666 })
unfolding aggregate_exposure group_by str_eq
loans_largest = refl

group_by-IsSumOf_example :
    All
      (IsSumOf (λ (p : ExposurePosition ℕ). p.region) loans)
      (group_by loans (λ p. p.region) 90_000)
    × (total_deals (group_by loans (λ (p : ExposurePosition ℕ). p.region) 90_000) ≡ length loans)
group_by-IsSumOf_example = group_by-IsSumOf (λ (p : ExposurePosition ℕ). p.region) loans 90_000
