-- ===== src/Engine/Tests.antt =====
-- packages/appraisal-engine: runs, over numbers in thousandths.
use apex_appraise.Engine.Covenants.{CovenantLimits, CovenantMetrics}
use apex_appraise.Engine.Sample.{thousandths, leb_of, thousandths-IsOrdered, flats_in}
use apex_appraise.Engine.Waterfall.{JvInput}
use apex_appraise.Engine.Scheme.{Scheme, scheme_of}
use apex_appraise.Engine.Facility.{Loan, loan_month, loan_after, loan_within_facility}
use apex_appraise.Engine.Phases.{absorption_share}
use apex_appraise.Engine.Types.{profit}
use apex_appraise.Common.{ℕ, ◌≡◌, refl, none, some, List, [], ◌∷◌, arith}
use apex_appraise.Engine.Number.{◌≼◌}

-- 800,000 of sales, over four months of building and two of selling
flats_gdv :
    let s = scheme_of (flats_in profit) 1_000 1_000 in
    (s.gdv ≡ 800_000_000) × (s.build ≡ 300_000_000) × (s.period ≡ 4) × (s.sales_months ≡ 2)
unfolding scheme_of absorption_share
flats_gdv = (refl, refl, refl, refl)

abbrev tenth : List ℕ
tenth = 0 ∷ 100 ∷ []

abbrev site_costs : List ℕ
site_costs = (0 ∷ 100_000 ∷ 50_000 ∷ 0 ∷ [])

abbrev site_revenue : List ℕ
site_revenue = (0 ∷ 0 ∷ 30_000 ∷ 200_000 ∷ [])

-- 60 % of the costs at 1 % a month
abbrev site_loan : ℕ → Loan ℕ
site_loan k = loan_after 10 600 site_costs site_revenue (0 ∷ 0 ∷ 0 ∷ 0 ∷ []) k

loan_run : (site_loan 3).peak ≡ 60_600
unfolding loan_after loan_month
loan_run = refl

loan_within_facility_example :
    (0 ≼ (site_loan 2).balance)
    × ((site_loan 2).balance ≼ (site_loan 3).peak)
    × (0 ≼ (site_loan 3).total_interest)
loan_within_facility_example =
    loan_within_facility thousandths-IsOrdered 10 600 site_costs site_revenue (0 ∷ 0 ∷ 0 ∷ 0 ∷ [])
      refl refl (λ m. leb_of 0 _ (omega arith)) 2 3 (omega arith)

abbrev venture : JvInput ℕ
venture = record { gp_coinvest_pct = 10_000; pref_pct = 0; promote_pct = 20_000 }

-- three profits, the largest in the last column
abbrev profits : List ℕ
profits = 1_000 ∷ 2_000 ∷ 9_000 ∷ []

abbrev flats_scheme : Scheme ℕ
flats_scheme = scheme_of (flats_in profit) 1_000 1_000

-- A loan of 80 against 100 of sales and 90 of cost, with 10 of profit.
abbrev loan_metrics : CovenantMetrics ℕ
loan_metrics = record { facility = 80_000; total_cost = 90_000; gdv = 100_000; profit = 10_000 }

abbrev loan_limits : CovenantLimits ℕ
loan_limits = record {
  ltgdv_max_pct = some 65_000;
  ltc_max_pct = some 90_000;
  min_profit_on_cost_pct = none;
}
