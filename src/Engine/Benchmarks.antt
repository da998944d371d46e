-- ===== src/Engine/Benchmarks.antt =====
-- packages/appraisal-engine/src/benchmarks.ts: the statistics of a cohort of firms.
pub mod Anonymity
use apex_appraise.Common.{
  ltb, leb, ◌==◌, if◌then◌else◌, str_eq, str_eq_iff, str_eq_self, Bool-cases, Option-cases, length,
  get_elem?, get_or, set, keep, take, drop, any, All, length-append, length-drop, length-take,
  append-take, Result, ◌>>=◌, ◌>>◌, guard, OnOk, OnOk-bind, OnOk-guard, OnOk-any, ok, err,
  insert_by, sort_by, IsSortedBy, sort_by-IsSortedBy, insert_with, sort_with, All-sort_with, ℕ,
  zero, suc, ◌+◌, ◌-◌, ◌*◌, ◌/◌, ◌%◌, ◌^◌, ◌≤◌, ◌<◌, min, max, String, ◌≡◌, refl, sym, ap, ◌∙◌,
  subst, ◌≢◌, ◌↔◌, ◌⊎◌, inl, inr, Bool, true, false, ◌&&◌, ◌||◌, not, Option, none, some, List, [],
  ◌∷◌, ◌++◌, map, arith,
}
use apex_appraise.Engine.Number.{
  Number, ◌⊕◌, ◌⊖◌, ◌⊗◌, ◌⊘◌, num, gt, or_else, or_default, clamp, clamp_whole, sum_from, sum_by,
  ◌≼◌, IsOrdered,
}

abbrev pub min_contributors : ℕ
min_contributors = 5

abbrev pub min_points : ℕ
min_points = 8

pub record CohortPoint (R : Type 0) : Type 0 where
  pub value : R
  pub org_id : String

pub data WithheldReason : Type 0 where
  no_data too_few_contributors too_few_points : WithheldReason

pub record Cohort (R : Type 0) : Type 0 where
  pub lo : R
  pub p25 : R
  pub median : R
  pub p75 : R
  pub hi : R
  pub points : ℕ
  pub contributors : ℕ

-- The thresholds go with the verdict.
pub record Withheld : Type 0 where
  pub reason : WithheldReason
  pub points : ℕ
  pub contributors : ℕ
  pub min_contributors : ℕ
  pub min_points : ℕ

pub data CohortVerdict (R : Type 0) : Type 0 where
  published : Cohort R → CohortVerdict R
  withheld : Withheld → CohortVerdict R

-- the members of `new Set`, in some order
abbrev pub distinct : List String → List String
distinct [] = []
distinct (x ∷ xs) = if any (str_eq x) xs then distinct xs else x ∷ distinct xs

abbrev pub withheld_for : WithheldReason → (points contributors : ℕ) → Withheld
withheld_for reason points contributors = record {
  reason = reason;
  points = points;
  contributors = contributors;
  min_contributors = min_contributors;
  min_points = min_points;
}

module _ {R : Type 0} where
  abbrev pub org_of : CohortPoint R → String
  org_of p = p.org_id

  abbrev pub is_of_another : String → CohortPoint R → Bool
  is_of_another org p = not (str_eq p.org_id org)

  -- An empty id excludes nothing.
  abbrev pub eligible : Option String → List (CohortPoint R) → List (CohortPoint R)
  eligible none points = points
  eligible (some org) points = if str_eq org "" then points else keep (is_of_another org) points

  abbrev pub contributors_of : List (CohortPoint R) → ℕ
  contributors_of points = length (distinct (map org_of points))

module _ {R : Type 0} ⦃n : Number R⦄ where
  abbrev pub quantile : List R → R → R
  quantile sorted q =
      let pos = (n.lit (length sorted) ⊖ n.lit 1) ⊗ q in
      let lo = n.floor pos in
      let hi = n.ceil pos in
      let at_lo = get_or sorted (n.whole lo) (n.lit 0) in
      at_lo ⊕ (get_or sorted (n.whole hi) (n.lit 0) ⊖ at_lo) ⊗ (pos ⊖ lo)

  abbrev pub hundredths : ℕ → R
  hundredths k = n.lit k ⊘ n.lit 100

  abbrev pub cohort_of : List (CohortPoint R) → Cohort R
  cohort_of points =
      let sorted =
        sort_with (λ (a b : R). n.le a b) (map (λ (p : CohortPoint R). p.value) points) in
      record {
        lo = quantile sorted (hundredths 5);
        p25 = quantile sorted (hundredths 25);
        median = quantile sorted (hundredths 50);
        p75 = quantile sorted (hundredths 75);
        hi = quantile sorted (hundredths 95);
        points = length points;
        contributors = contributors_of points;
      }

  -- the verdict on the points that are eligible
  abbrev pub verdict_on : List (CohortPoint R) → CohortVerdict R
  verdict_on points =
      let contributors = contributors_of points in
      let count = length points in
      if count == 0
      then withheld (withheld_for no_data 0 0)
      else if ltb contributors min_contributors
      then withheld (withheld_for too_few_contributors count contributors)
      else if ltb count min_points
      then withheld (withheld_for too_few_points count contributors)
      else published (cohort_of points)

  -- `cohortStats`
  unfoldable pub cohort_stats :
      List (CohortPoint R) → (exclude_org_id : Option String) → CohortVerdict R
  cohort_stats points exclude_org_id = verdict_on (eligible exclude_org_id points)

  abbrev pub is_published : CohortVerdict R → Bool
  is_published (published c) = true
  is_published (withheld w) = false

  abbrev pub percentile : List (CohortPoint R) → R → R
  percentile points value = n.round (
      (n.lit (length (keep (λ (p : CohortPoint R). n.le p.value value) points))
        ⊘ n.lit (length points))
      ⊗ n.lit 100)

  -- `rankWithin`
  unfoldable pub rank_within :
      List (CohortPoint R) → Option R → (exclude_org_id : Option String) → Option R
  unfolding cohort_stats
  rank_within points none exclude_org_id = none
  rank_within points (some value) exclude_org_id =
      if is_published (cohort_stats points exclude_org_id)
      then some (percentile (eligible exclude_org_id points) value)
      else none

  abbrev pub median_of : CohortVerdict R → Option R
  median_of (published c) = some c.median
  median_of (withheld w) = none

  -- `periodMedian`
  unfoldable pub period_median : List (CohortPoint R) → (exclude_org_id : Option String) → Option R
  unfolding cohort_stats
  period_median points exclude_org_id = median_of (cohort_stats points exclude_org_id)
