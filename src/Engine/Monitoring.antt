-- ===== src/Engine/Monitoring.antt =====
-- packages/appraisal-engine/src/drawdown.ts and cost-report.ts: spend against programme and works, and
-- the cost plan of a scheme.
pub mod Budgets
use apex_appraise.Common.{
  ltb, leb, ◌==◌, if◌then◌else◌, str_eq, str_eq_iff, str_eq_self, Bool-cases, Option-cases, length,
  get_elem?, get_or, set, keep, take, drop, any, All, length-append, length-drop, length-take,
  append-take, Result, ◌>>=◌, ◌>>◌, guard, OnOk, OnOk-bind, OnOk-guard, OnOk-any, ok, err,
  insert_by, sort_by, IsSortedBy, sort_by-IsSortedBy, insert_with, sort_with, All-sort_with, ℕ,
  zero, suc, ◌+◌, ◌-◌, ◌*◌, ◌/◌, ◌%◌, ◌^◌, ◌≤◌, ◌<◌, min, max, String, ◌≡◌, refl, sym, ap, ◌∙◌,
  subst, ◌≢◌, ◌↔◌, ◌⊎◌, inl, inr, Bool, true, false, ◌&&◌, ◌||◌, not, Option, none, some, List, [],
  ◌∷◌, ◌++◌, map, arith,
}
use apex_appraise.Engine.Number.{
  Number, ◌⊕◌, ◌⊖◌, ◌⊗◌, ◌⊘◌, num, gt, or_else, or_default, clamp, clamp_whole, sum_from, sum_by,
  ◌≼◌, IsOrdered,
}
use apex_appraise.Engine.Types.{
  SpendProfileKey, SiteMode, IncomeMethod, AppraisalUnit, CostTiming, BuildTrade, OtherCost,
  FinanceInput, IncomeLine, IncomeInput, IncomeLineResult, IncomeResult, Phase, Site, Disposal,
  AppraisalInput, PhaseCalc, AppraisalResult, CashflowRow, scurve, even, linear, front, back,
  residual, perpetuity, term_reversion, hardcore,
}
use apex_appraise.Engine.Spend.{
  smoothstep, weight, weights, build_spend_profile, length-map, length-build_spend_profile,
}
use mathlib.Core.Int.{ℤ, pos, ◌+ℤ◌, ◌-ℤ◌}
use mathlib.Core.Int

pub record DrawdownInput (R : Type 0) : Type 0 where
  pub construction_total : R
  pub period_months : R
  pub profile : SpendProfileKey
  pub months_elapsed : R
  pub actual_to_date : R
  pub progress_pct : R

pub data DrawdownStatus : Type 0 where
  not_started on_budget overspending underspending : DrawdownStatus

pub record DrawdownResult (R : Type 0) : Type 0 where
  pub months_elapsed : R
  pub time_elapsed_pct : R
  pub expected_by_programme : R
  pub expected_by_progress : R
  pub actual_to_date : R
  pub variance_on_progress : R
  pub variance_on_programme : R
  pub status : DrawdownStatus

pub record CostPackageLike (R : Type 0) : Type 0 where
  pub budget : R
  pub committed : R
  pub spent : R
  pub forecast : R
  pub retention_pct : Option R
  pub certificates : Option R
  pub progress_pct : Option R

pub record CostBaseline (R : Type 0) : Type 0 where
  pub appraised_build : Option R
  pub contingency : Option R

pub record CostRollup (R : Type 0) : Type 0 where
  pub package_budgets : R
  pub committed : R
  pub spent : R
  pub forecast : R
  pub appraised_build : Option R
  pub contingency : Option R
  pub variance : Option R
  pub profit_impact : Option R
  pub unallocated : Option R
  pub retention_held : R
  pub retention_at_completion : R
  pub certificates : R
  pub weighted_progress_pct : Option R
  pub drawdown_pct : Option R

pub record ContractorTotals (R : Type 0) : Type 0 where
  pub contract_value : R
  pub retention : R
  pub retention_at_completion : R
  pub certificates : R

pub record TradeLike (R : Type 0) : Type 0 where
  pub label : String
  pub rate : R

pub record TradeBudget : Type 0 where
  pub label : String
  pub budget_pence : ℤ

-- the figures of a rollup that need a baseline and packages
pub record Impact (R : Type 0) : Type 0 where
  pub variance : Option R
  pub profit_impact : Option R
  pub unallocated : Option R

module _ {R : Type 0} ⦃n : Number R⦄ where
  -- `TOLERANCE`
  abbrev pub tolerance : R
  tolerance = n.lit 5 ⊘ n.lit 100

  abbrev pub status_of : (elapsed construction actual variance : R) → DrawdownStatus
  status_of elapsed construction actual variance =
      if (n.le elapsed (n.lit 0) && n.le (n.lit 0) elapsed)
        && (n.le actual (n.lit 0) && n.le (n.lit 0) actual)
      then not_started
      else if n.le construction (n.lit 0)
      then not_started
      else if n.le (n.abs variance) (construction ⊗ tolerance)
      then on_budget
      else if gt variance (n.lit 0)
      then overspending
      else underspending

  -- `spendAgainstProgramme`
  unfoldable pub spend_against_programme : DrawdownInput R → DrawdownResult R
  spend_against_programme input =
      let months = n.greatest (n.lit 1) (n.round input.period_months) in
      let elapsed = n.greatest (n.lit 0) (n.least months (n.round input.months_elapsed)) in
      let weights = build_spend_profile months input.profile in
      let cumulative_weight = sum_by (λ (w : R). w) (take (n.whole elapsed) weights) in
      let progress = n.greatest (n.lit 0) (n.least (n.lit 100) input.progress_pct) ⊘ n.lit 100 in
      let by_programme = input.construction_total ⊗ cumulative_weight in
      let by_progress = input.construction_total ⊗ progress in
      let variance = input.actual_to_date ⊖ by_progress in
      record {
        months_elapsed = elapsed;
        time_elapsed_pct = elapsed ⊘ months;
        expected_by_programme = by_programme;
        expected_by_progress = by_progress;
        actual_to_date = input.actual_to_date;
        variance_on_progress = variance;
        variance_on_programme = input.actual_to_date ⊖ by_programme;
        status = status_of elapsed input.construction_total input.actual_to_date variance;
      }

  -- `retentionOn`
  abbrev pub retention_on : (CostPackageLike R → R) → List (CostPackageLike R) → R
  retention_on value packages =
      sum_by
        (λ (p : CostPackageLike R). value p ⊗ (or_default (n.lit 0) p.retention_pct ⊘ n.lit 100))
        packages

  -- `contractorTotals`
  unfoldable pub contractor_totals : List (CostPackageLike R) → ContractorTotals R
  contractor_totals packages = record {
    contract_value = sum_by (λ (p : CostPackageLike R). p.committed) packages;
    retention = retention_on (λ p. p.spent) packages;
    retention_at_completion = retention_on (λ p. p.committed) packages;
    certificates = sum_by (λ (p : CostPackageLike R). or_default (n.lit 0) p.certificates) packages;
  }

  abbrev pub profit_impact_of : (variance : R) → (contingency : Option R) → R
  profit_impact_of variance contingency =
      or_else
        (if gt variance (n.lit 0)
          then n.neg (n.greatest (n.lit 0) (variance ⊖ or_default (n.lit 0) contingency))
          else n.neg variance)
        (n.lit 0)

  -- the two returns of `costRollup`
  abbrev pub impact_of :
      List (CostPackageLike R)
      → (forecast budgets : R) → (appraised contingency : Option R) → Impact R
  impact_of packages forecast budgets none contingency = record {
    variance = none;
    profit_impact = none;
    unallocated = none;
  }
  impact_of [] forecast budgets (some build) contingency = record {
    variance = none;
    profit_impact = none;
    unallocated = some build;
  }
  impact_of (p ∷ packages) forecast budgets (some build) contingency = record {
    variance = some (forecast ⊖ build);
    profit_impact = some (profit_impact_of (forecast ⊖ build) contingency);
    unallocated = some (build ⊖ budgets);
  }

  abbrev pub share_if : (whole : R) → R → Option R
  share_if whole share = if gt whole (n.lit 0) then some share else none

  -- `costRollup`
  unfoldable pub cost_rollup : List (CostPackageLike R) → CostBaseline R → CostRollup R
  cost_rollup packages baseline =
      let budgets = sum_by (λ (p : CostPackageLike R). p.budget) packages in
      let forecast = sum_by (λ (p : CostPackageLike R). p.forecast) packages in
      let spent = sum_by (λ (p : CostPackageLike R). p.spent) packages in
      let progress =
        sum_by (λ (p : CostPackageLike R). p.budget ⊗ or_default (n.lit 0) p.progress_pct)
          packages in
      let impact =
        impact_of packages forecast budgets baseline.appraised_build baseline.contingency in
      record {
        package_budgets = budgets;
        committed = sum_by (λ (p : CostPackageLike R). p.committed) packages;
        spent = spent;
        forecast = forecast;
        appraised_build = baseline.appraised_build;
        contingency = baseline.contingency;
        variance = impact.variance;
        profit_impact = impact.profit_impact;
        unallocated = impact.unallocated;
        retention_held = retention_on (λ p. p.spent) packages;
        retention_at_completion = retention_on (λ p. p.committed) packages;
        certificates =
            sum_by (λ (p : CostPackageLike R). or_default (n.lit 0) p.certificates) packages;
        weighted_progress_pct = share_if budgets (progress ⊘ budgets);
        drawdown_pct = share_if forecast ((spent ⊘ forecast) ⊗ n.lit 100);
      }

  -- `outturnBuildPsf`
  unfoldable pub outturn_build_psf : (certified_spend gia : R) → Option R
  outturn_build_psf certified_spend gia =
      if gt gia (n.lit 0) && gt certified_spend (n.lit 0)
      then some (certified_spend ⊘ gia)
      else none

-- `BigInt` of a whole number and `Number` of an integer are parameters.
module _ {R : Type 0} ⦃n : Number R⦄ (big_int : R → ℤ) (number : ℤ → R) where
  abbrev pub share_pence : (total : ℤ) → (rate_sum : R) → TradeLike R → ℤ
  share_pence total rate_sum t =
      big_int (n.round ((number total ⊗ t.rate) ⊘ or_else rate_sum (n.lit 1)))

  abbrev pub budgets_from :
      (total : ℤ) → (rate_sum : R) → (allocated : ℤ) → List (TradeLike R) → List TradeBudget
  budgets_from total rate_sum allocated [] = []
  budgets_from total rate_sum allocated (t ∷ []) =
      record { label = t.label; budget_pence = total -ℤ allocated } ∷ []
  budgets_from total rate_sum allocated (t ∷ next ∷ trades) =
      let share = share_pence total rate_sum t in
      record { label = t.label; budget_pence = share }
      ∷ budgets_from total rate_sum (allocated +ℤ share) (next ∷ trades)

  -- `tradeBudgets`
  unfoldable pub trade_budgets : List (TradeLike R) → (build : R) → List TradeBudget
  trade_budgets trades build =
      budgets_from (big_int (n.round (build ⊗ n.lit 100)))
        (sum_by (λ (t : TradeLike R). t.rate) trades) (pos 0) trades
