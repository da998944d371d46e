-- ===== src/Engine/Scheme.antt =====
-- packages/appraisal-engine/src/engine.ts, `computeAppraisal`: the totals of a scheme, phased or not,
-- its programme, and its two monthly series.
use apex_appraise.Common.{
  leb, if◌then◌else◌, any, ℕ, ◌+◌, ◌-◌, Bool, ◌||◌, Option, none, some, List, [], ◌∷◌, ◌++◌, map,
}
use apex_appraise.Engine.Number.{Number, ◌⊕◌, ◌⊖◌, ◌⊗◌, ◌⊘◌, gt, or_else, clamp_whole, sum_by}
use apex_appraise.Engine.Types.{
  SpendProfileKey, AppraisalUnit, BuildTrade, OtherCost, IncomeInput, IncomeResult, Phase,
  AppraisalInput, PhaseCalc, scurve,
}
use apex_appraise.Engine.Spend.{build_spend_profile}
use apex_appraise.Engine.Income.{capitalise_income}
use apex_appraise.Engine.Phases.{
  replicate, absorption_share, rate_sum, area_sum, gdv_sum, unit_sum, cost_sum, phase_calc,
}
use apex_appraise.Engine.Series.{
  profile_or, is_timed, spread_phase, spread_phases, spread_others, spread_scheme_trades,
  flat_costs, phases_revenue, held_revenue, sales_revenue,
}

-- The totals of the scheme and its programme.
pub record Scheme (R : Type 0) : Type 0 where
  pub nia : R
  pub gia : R
  pub gdv : R
  pub sales_gdv : R
  pub investment_value : R
  pub income : Option (IncomeResult R)
  pub phase_calc : Option (List (PhaseCalc R))
  pub scheme_rate : R
  pub unphased_gia : R
  pub build : R
  pub fees : R
  pub cont : R
  pub build_rate : R
  pub other_total : R
  pub sale_costs : R
  pub period : ℕ
  pub sales_months : ℕ
  pub rev_share : List R

-- `Math.max(...xs)` of whole numbers that are not negative
abbrev pub greatest_of : List ℕ → ℕ
greatest_of [] = 0
greatest_of (k ∷ ks) = let m = greatest_of ks in if leb k m then m else k

abbrev pub phased_of {ℓ} : {A : Type ℓ} → Option (List A) → Option (List A)
phased_of none = none
phased_of (some []) = none
phased_of (some (p ∷ ps)) = some (p ∷ ps)

module _ {R : Type 0} ⦃n : Number R⦄ where
  abbrev pub all_units : List (Phase R) → List (AppraisalUnit R)
  all_units [] = []
  all_units (p ∷ ps) = p.units ++ all_units ps

  abbrev pub units_of : AppraisalInput R → Option (List (Phase R)) → List (AppraisalUnit R)
  units_of input none = input.units
  units_of input (some ps) = all_units ps

  abbrev pub income_value : R → Option (IncomeResult R) → R
  income_value sales_mult none = n.lit 0
  income_value sales_mult (some r) = r.net_capital_value ⊗ sales_mult

  abbrev pub income_area : Option (IncomeResult R) → R
  income_area none = n.lit 0
  income_area (some r) = r.total_area

  abbrev pub capitalise_some : Option (IncomeInput R) → Option (IncomeResult R)
  capitalise_some none = none
  capitalise_some (some i) = some (capitalise_income i)

  abbrev pub calc_phases :
      AppraisalInput R
      → (sales_mult build_mult eff scheme_rate : R) → Option (List (Phase R))
      → Option (List (PhaseCalc R))
  calc_phases input sales_mult build_mult eff scheme_rate none = none
  calc_phases input sales_mult build_mult eff scheme_rate (some ps) =
      some (map (phase_calc input sales_mult build_mult eff scheme_rate) ps)

  abbrev pub unphased_area : R → Option (List (PhaseCalc R)) → R
  unphased_area gia none = gia
  unphased_area gia (some ps) = gia ⊖ sum_by (λ (p : PhaseCalc R). p.gia) ps

  abbrev pub build_of : (scheme_rate gia unphased_gia : R) → Option (List (PhaseCalc R)) → R
  build_of scheme_rate gia unphased_gia none = scheme_rate ⊗ gia
  build_of scheme_rate gia unphased_gia (some ps) =
      sum_by (λ (p : PhaseCalc R). p.build) ps ⊕ scheme_rate ⊗ unphased_gia

  -- fees or contingency, a percentage of the build, of each phase and of the held element
  abbrev pub on_cost :
      (pct build scheme_rate unphased_gia : R) → (PhaseCalc R → R) → Option (List (PhaseCalc R)) → R
  on_cost pct build scheme_rate unphased_gia f none = build ⊗ pct ⊘ n.lit 100
  on_cost pct build scheme_rate unphased_gia f (some ps) =
      sum_by f ps ⊕ scheme_rate ⊗ unphased_gia ⊗ pct ⊘ n.lit 100

  abbrev pub phase_costs : Option (List (PhaseCalc R)) → R
  phase_costs none = n.lit 0
  phase_costs (some ps) = sum_by (λ (p : PhaseCalc R). p.other_total) ps

  -- the months of construction, and the months that follow
  abbrev pub programme : R → ℕ → Option (List (PhaseCalc R)) → ℕ × ℕ
  programme period_months scheme_sales_months none =
      (clamp_whole (or_else (n.round period_months) (n.lit 12)) 4 22, scheme_sales_months)
  programme period_months scheme_sales_months (some ps) =
      let period = greatest_of (map (λ (p : PhaseCalc R). p.practical_completion) ps) in
      (period, greatest_of (map (λ (p : PhaseCalc R). p.end) ps) - period)

  unfoldable pub scheme_of : AppraisalInput R → (sales_mult build_mult : R) → Scheme R
  scheme_of input sales_mult build_mult =
      let phased = phased_of input.phases in
      let units = units_of input phased in
      let sales_gdv = gdv_sum units ⊗ sales_mult in
      let income = capitalise_some input.income in
      let investment_value = income_value sales_mult income in
      let gdv = sales_gdv ⊕ investment_value in
      let nia = area_sum units ⊕ income_area income in
      let eff = or_else (input.efficiency ⊘ n.lit 100) (n.lit 1) in
      let gia = if gt eff (n.lit 0) then nia ⊘ eff else nia in
      let scheme_rate = rate_sum input.trades ⊗ build_mult in
      let phases = calc_phases input sales_mult build_mult eff scheme_rate phased in
      let unphased_gia = unphased_area gia phases in
      let build = build_of scheme_rate gia unphased_gia phases in
      let (scheme_sales_months, rev_share) =
        absorption_share (unit_sum units) input.finance.absorption_units_per_month
          input.finance.sales_months 8 in
      let (period, sales_months) =
        programme input.finance.period_months scheme_sales_months phases in
      record {
        nia = nia;
        gia = gia;
        gdv = gdv;
        sales_gdv = sales_gdv;
        investment_value = investment_value;
        income = income;
        phase_calc = phases;
        scheme_rate = scheme_rate;
        unphased_gia = unphased_gia;
        build = build;
        fees =
            on_cost input.prof_fee_pct build scheme_rate unphased_gia (λ (p : PhaseCalc R). p.fees)
              phases;
        cont =
            on_cost input.contingency_pct build scheme_rate unphased_gia
              (λ (p : PhaseCalc R). p.cont) phases;
        build_rate = if gt gia (n.lit 0) then build ⊘ gia else scheme_rate;
        other_total = cost_sum input.other_costs ⊕ phase_costs phases;
        sale_costs = gdv ⊗ (input.disposal.agent_pct ⊕ input.disposal.legal_pct) ⊘ n.lit 100;
        period = period;
        sales_months = sales_months;
        rev_share = rev_share;
      }

  abbrev pub construction_total : Scheme R → R
  construction_total s = s.build ⊕ s.fees ⊕ s.cont ⊕ s.other_total

  abbrev pub total_months : Scheme R → ℕ
  total_months s = s.period + s.sales_months

  -- `new Array(totalMonths + 1).fill(0)`
  abbrev pub zeros : ℕ → List R
  zeros months = replicate (months + 1) (n.lit 0)

  abbrev pub scheme_on_costs : AppraisalInput R → R
  scheme_on_costs input = n.lit 1 ⊕ (input.prof_fee_pct ⊕ input.contingency_pct) ⊘ n.lit 100

  -- `constrSeries[m] = tradeSeries[m] * onCosts` from month 1 on
  abbrev pub with_on_costs : R → List R → List R
  with_on_costs on_costs [] = []
  with_on_costs on_costs (x ∷ xs) = n.lit 0 ∷ map (λ y. y ⊗ on_costs) xs

  abbrev pub is_scheme_timed : AppraisalInput R → Bool
  is_scheme_timed input =
      any (λ (t : BuildTrade R). is_timed t.timing) input.trades
      || any (λ (o : OtherCost R). is_timed o.timing) input.other_costs

  -- `constrSeries`
  abbrev pub phased_costs :
      AppraisalInput R → (build_mult : R) → Scheme R → List (PhaseCalc R) → SpendProfileKey → List R
  phased_costs input build_mult s ps profile =
      let months = total_months s in
      let of_phases = spread_phases months profile build_mult ps (zeros months) in
      let with_held =
        if gt s.unphased_gia (n.lit 1 ⊘ n.lit 10_000)
        then spread_phase months profile (s.scheme_rate ⊗ s.unphased_gia ⊗ scheme_on_costs input) 1
            s.period of_phases
        else of_phases in
      spread_others months profile s.period input.other_costs with_held

  abbrev pub unphased_costs :
      AppraisalInput R → (build_mult : R) → Scheme R → SpendProfileKey → List R
  unphased_costs input build_mult s profile =
      let months = total_months s in
      if is_scheme_timed input
      then spread_others months profile s.period input.other_costs (
          with_on_costs (scheme_on_costs input) (
            spread_scheme_trades months profile s.period build_mult s.gia input.trades
              (zeros months)))
      else flat_costs (construction_total s) (build_spend_profile (n.lit s.period) profile) s.period
          0 (zeros months)

  abbrev pub costs_by :
      AppraisalInput R → R → Scheme R → Option (List (PhaseCalc R)) → SpendProfileKey → List R
  costs_by input build_mult s none profile = unphased_costs input build_mult s profile
  costs_by input build_mult s (some ps) profile = phased_costs input build_mult s ps profile

  unfoldable pub cost_series : AppraisalInput R → (build_mult : R) → Scheme R → List R
  cost_series input build_mult s =
      costs_by input build_mult s s.phase_calc (profile_or scurve input.finance.spend_profile)

  abbrev pub revenue_by : AppraisalInput R → Scheme R → Option (List (PhaseCalc R)) → List R
  revenue_by input s none =
      sales_revenue (s.gdv ⊖ s.sale_costs) s.rev_share s.period s.sales_months 0
        (zeros (total_months s))
  revenue_by input s (some ps) =
      let months = total_months s in
      let rate = (input.disposal.agent_pct ⊕ input.disposal.legal_pct) ⊘ n.lit 100 in
      let of_phases = phases_revenue months rate ps (zeros months) in
      if gt s.investment_value (n.lit 0)
      then held_revenue (s.investment_value ⊗ (n.lit 1 ⊖ rate)) s.sales_months s.period
          s.sales_months 0 of_phases
      else of_phases

  -- `revSeries`
  unfoldable pub revenue_series : AppraisalInput R → Scheme R → List R
  revenue_series input s = revenue_by input s s.phase_calc
