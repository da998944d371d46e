-- ===== src/Engine/Appraisal.antt =====
-- packages/appraisal-engine/src/engine.ts, `computeAppraisal`: finance, the solution for land or for
-- profit, and the cashflow.
use apex_appraise.Common.{◌==◌, if◌then◌else◌, ℕ, zero, suc, ◌+◌, Option, List, [], ◌∷◌}
use apex_appraise.Engine.Number.{Number, ◌⊕◌, ◌⊖◌, ◌⊗◌, ◌⊘◌, gt, or_default}
use apex_appraise.Engine.Types.{
  SiteMode, Site, AppraisalInput, AppraisalResult, CashflowRow, residual, profit,
}
use apex_appraise.Engine.Series.{entry}
use apex_appraise.Engine.Facility.{Loan, loan_after}
use apex_appraise.Engine.Scheme.{
  Scheme, scheme_of, construction_total, total_months, zeros, cost_series, revenue_series,
}
use apex_appraise.Engine.Irr.{irr, annualise}

-- What the solution for land and profit sees of the costs.
pub record Costs (R : Type 0) : Type 0 where
  pub gdv : R
  pub sale_costs : R
  pub build : R
  pub fees : R
  pub cont : R
  pub other_total : R
  pub finance : R

pub record Solution (R : Type 0) : Type 0 where
  pub profit : R
  pub residual_net : R
  pub land_gross : R

-- `CashflowResult`
pub record Cashflow (R : Type 0) : Type 0 where
  pub rows : List (CashflowRow R)
  pub total_months : ℕ
  pub peak : R
  pub proj_irr : Option R
  pub eq_irr : Option R

module _ {R : Type 0} ⦃n : Number R⦄ where
  abbrev pub loan_of : AppraisalInput R → (build_mult : R) → Scheme R → Loan R
  loan_of input build_mult s =
      loan_after (input.finance.rate_pct ⊘ n.lit 100 ⊘ n.lit 12) (input.finance.ltc_pct ⊘ n.lit 100)
        (cost_series input build_mult s) (revenue_series input s) (zeros (total_months s))
        (total_months s)

  abbrev pub arrangement_of : AppraisalInput R → Loan R → R
  arrangement_of input l = l.peak ⊗ input.finance.arrangement_fee_pct ⊘ n.lit 100

  abbrev pub costs_of : AppraisalInput R → Scheme R → Loan R → Costs R
  costs_of input s l = record {
    gdv = s.gdv;
    sale_costs = s.sale_costs;
    build = s.build;
    fees = s.fees;
    cont = s.cont;
    other_total = s.other_total;
    finance = l.total_interest ⊕ arrangement_of input l;
  }

  abbrev pub acq_factor : Site R → R
  acq_factor site = n.lit 1 ⊕ site.acq_pct ⊘ n.lit 100

  -- `totalCost`
  abbrev pub cost_with_land : Costs R → R → R
  cost_with_land c land_gross =
      c.sale_costs ⊕ c.build ⊕ c.fees ⊕ c.cont ⊕ c.other_total ⊕ c.finance ⊕ land_gross

  abbrev pub solve_by : SiteMode → Site R → R → Costs R → Solution R
  solve_by residual site target c =
      let aim = c.gdv ⊗ target ⊘ n.lit 100 in
      let remainder =
        c.gdv ⊖ c.sale_costs ⊖ c.build ⊖ c.fees ⊖ c.cont ⊖ c.other_total ⊖ c.finance ⊖ aim in
      let residual_net = remainder ⊘ acq_factor site in
      record {
        profit = aim;
        residual_net = residual_net;
        land_gross = residual_net ⊗ acq_factor site;
      }
  solve_by profit site target c =
      let land_gross = site.land_fixed ⊗ acq_factor site in
      record {
        profit = c.gdv ⊖ cost_with_land c land_gross;
        residual_net = site.land_fixed;
        land_gross = land_gross;
      }

  -- land is the output in residual mode, and an input in profit mode
  abbrev pub solve : AppraisalInput R → Costs R → Solution R
  solve input c = solve_by input.site.mode input.site input.target_profit_on_gdv_pct c

  -- `b > 0 ? a / b : 0`
  abbrev pub ratio_or_zero : R → R → R
  ratio_or_zero a b = if gt b (n.lit 0) then a ⊘ b else n.lit 0

  abbrev pub equity_of : AppraisalInput R → Scheme R → R → R
  equity_of input s land_gross =
      land_gross ⊕ construction_total s ⊗ (n.lit 1 ⊖ input.finance.ltc_pct ⊘ n.lit 100)

  -- `computeAppraisal` without `withCash`
  unfoldable pub compute_appraisal :
      AppraisalInput R → (sales_mult build_mult : Option R) → AppraisalResult R
  compute_appraisal input sales_opt build_opt =
      let build_mult = or_default (n.lit 1) build_opt in
      let s = scheme_of input (or_default (n.lit 1) sales_opt) build_mult in
      let loan = loan_of input build_mult s in
      let costs = costs_of input s loan in
      let land = solve input costs in
      let total_cost = cost_with_land costs land.land_gross in
      let equity = equity_of input s land.land_gross in
      record {
        nia = s.nia;
        gia = s.gia;
        gdv = s.gdv;
        sales_gdv = s.sales_gdv;
        investment_value = s.investment_value;
        income = s.income;
        phases = s.phase_calc;
        build_rate = s.build_rate;
        build = s.build;
        fees = s.fees;
        cont = s.cont;
        other_total = s.other_total;
        sale_costs = s.sale_costs;
        interest = loan.total_interest;
        arrangement = arrangement_of input loan;
        finance = costs.finance;
        facility = loan.peak;
        equity = equity;
        residual_net = land.residual_net;
        land_gross = land.land_gross;
        acq_cost = land.land_gross ⊖ land.residual_net;
        profit = land.profit;
        total_cost = total_cost;
        poc = ratio_or_zero land.profit total_cost;
        rogdv = ratio_or_zero land.profit s.gdv;
        roe = ratio_or_zero land.profit equity;
        period = s.period;
        sales_months = s.sales_months;
        hold_years = n.lit (total_months s) ⊘ n.lit 12;
      }

  -- the rows of the cashflow, the land in month 1
  unfoldable pub cash_rows :
      (land : R) → (costs revs ints : List R) → (cum : R) → (left m : ℕ) → List (CashflowRow R)
  cash_rows land costs revs ints cum zero m = []
  cash_rows land costs revs ints cum (suc left) m =
      let cost = entry costs m ⊕ (if m == 1 then land else n.lit 0) in
      let net = entry revs m ⊖ cost ⊖ entry ints m in
      record {
        m = m;
        cost = cost;
        intr = entry ints m;
        rev = entry revs m;
        net = net;
        cum = cum ⊕ net;
      }
      ∷ cash_rows land costs revs ints (cum ⊕ net) left (m + 1)

  -- `cfU` from month 1
  abbrev pub unlevered_flows : (costs revs : List R) → (left m : ℕ) → List R
  unlevered_flows costs revs zero m = []
  unlevered_flows costs revs (suc left) m =
      (entry revs m ⊖ entry costs m) ∷ unlevered_flows costs revs left (m + 1)

  -- `cfE` from month 1, where receipts service the facility first
  abbrev pub equity_flows : (ltc : R) → (costs revs : List R) → (debt : R) → (left m : ℕ) → List R
  equity_flows ltc costs revs debt zero m = []
  equity_flows ltc costs revs debt (suc left) m =
      let repay = n.least (entry revs m) debt in
      (n.lit 0 ⊖ entry costs m ⊗ (n.lit 1 ⊖ ltc) ⊕ (entry revs m ⊖ repay))
      ∷ equity_flows ltc costs revs (debt ⊖ repay) left (m + 1)

  -- `out.cash` with `withCash`
  unfoldable pub compute_cash : AppraisalInput R → (sales_mult build_mult : Option R) → Cashflow R
  compute_cash input sales_opt build_opt =
      let build_mult = or_default (n.lit 1) build_opt in
      let s = scheme_of input (or_default (n.lit 1) sales_opt) build_mult in
      let loan = loan_of input build_mult s in
      let land = (solve input (costs_of input s loan)).land_gross in
      let months = total_months s in
      let costs = cost_series input build_mult s in
      let revs = revenue_series input s in
      record {
        rows = cash_rows land costs revs loan.int_series (n.lit 0) months 1;
        total_months = months;
        peak = loan.peak;
        proj_irr = annualise (irr (n.neg land ∷ unlevered_flows costs revs months 1));
        eq_irr = annualise (
            irr (
              n.neg land
              ∷ equity_flows (input.finance.ltc_pct ⊘ n.lit 100) costs revs
                  (loan.drawn ⊕ loan.total_interest) months 1));
      }
