-- ===== src/Engine/Types.antt =====
-- packages/appraisal-engine/src/types.ts: the inputs and results of the engine, over numbers `R`.
-- An optional field is an `Option`.
use apex_appraise.Common.{ℕ, String, Bool, Option, List}

pub data SpendProfileKey : Type 0 where
  scurve even linear front back : SpendProfileKey

pub data SiteMode : Type 0 where
  residual profit : SiteMode

pub data IncomeMethod : Type 0 where
  perpetuity term_reversion hardcore : IncomeMethod

module _ (R : Type 0) where
  pub record AppraisalUnit : Type 0 where
    pub label : String
    pub count : R
    pub area : R
    pub cap : R

  pub record CostTiming : Type 0 where
    pub start : Option R
    pub months : Option R
    pub profile : Option SpendProfileKey

  pub record BuildTrade : Type 0 where
    pub label : String
    pub rate : R
    pub timing : Option CostTiming

  pub record OtherCost : Type 0 where
    pub label : String
    pub amount : R
    pub timing : Option CostTiming

  pub record FinanceInput : Type 0 where
    pub ltc_pct : R
    pub rate_pct : R
    pub period_months : R
    pub sales_months : R
    pub arrangement_fee_pct : R
    pub spend_profile : Option SpendProfileKey
    pub absorption_units_per_month : Option R

  pub record IncomeLine : Type 0 where
    pub label : String
    pub count : R
    pub area : R
    pub rent_psf : R
    pub void_pct : Option R
    pub erv_psf : Option R
    pub years_to_review : Option R
    pub yield_pct : Option R

  pub record IncomeInput : Type 0 where
    pub lines : List IncomeLine
    pub method : Option IncomeMethod
    pub reversion_yield_pct : Option R
    pub non_recoverable_pct : R
    pub annual_deductions : Option R
    pub yield_pct : R
    pub purchaser_costs_pct : Option R
    pub let_up_months : Option R

  pub record IncomeLineResult : Type 0 where
    pub label : String
    pub count : R
    pub area : R
    pub total_area : R
    pub gross_rent : R
    pub void_allowance : R
    pub rent_after_void : R
    pub net_passing : R
    pub net_erv : R
    pub gross_erv : R
    pub years_to_review : R
    pub yield_used : R
    pub reversion_yield_used : R
    pub value : R
    pub term_value : R
    pub reversion_value : R
    pub is_reversionary : Bool

  pub record IncomeResult : Type 0 where
    pub lines : List IncomeLineResult
    pub total_area : R
    pub gross_rent : R
    pub void_allowance : R
    pub non_recoverable : R
    pub deductions : R
    pub net_rent : R
    pub years_purchase : R
    pub gross_capital_value : R
    pub let_up_deduction : R
    pub capital_value_before_costs : R
    pub purchaser_costs : R
    pub net_capital_value : R
    pub net_initial_yield : R
    pub reversionary_yield : R
    pub equivalent_yield : R
    pub net_erv : R
    pub gross_erv : R
    pub method : IncomeMethod
    pub capital_value_psf : R
    pub blended_rent_psf : R

  pub record Phase : Type 0 where
    pub name : String
    pub start : R
    pub build_months : R
    pub sales_months : R
    pub absorption_units_per_month : Option R
    pub units : List AppraisalUnit
    pub trades : Option (List BuildTrade)
    pub prof_fee_pct : Option R
    pub contingency_pct : Option R
    pub other_costs : Option (List OtherCost)

  pub record Site : Type 0 where
    pub mode : SiteMode
    pub land_fixed : R
    pub acq_pct : R

  pub record Disposal : Type 0 where
    pub agent_pct : R
    pub legal_pct : R

  -- The parts of `AppraisalInput` that the engine's core reads: the JV terms, the DCF settings and the
  -- start date are passed on by its callers.
  pub record AppraisalInput : Type 0 where
    pub units : List AppraisalUnit
    pub phases : Option (List Phase)
    pub efficiency : R
    pub trades : List BuildTrade
    pub prof_fee_pct : R
    pub contingency_pct : R
    pub other_costs : List OtherCost
    pub finance : FinanceInput
    pub site : Site
    pub disposal : Disposal
    pub target_profit_on_gdv_pct : R
    pub income : Option IncomeInput

  -- `PhaseResult`, with what `computeAppraisal` keeps beside it while it runs
  pub record PhaseCalc : Type 0 where
    pub name : String
    pub start : ℕ
    pub build_months : ℕ
    pub sales_months : ℕ
    pub practical_completion : ℕ
    pub end : ℕ
    pub nia : R
    pub gia : R
    pub gdv : R
    pub trades : List BuildTrade
    pub own_trades : Bool
    pub fee_pct : R
    pub cont_pct : R
    pub build_rate : R
    pub build : R
    pub fees : R
    pub cont : R
    pub cost : R
    pub other_costs : List OtherCost
    pub other_total : R
    pub unit_count : R
    pub share : List R

  pub record AppraisalResult : Type 0 where
    pub nia : R
    pub gia : R
    pub gdv : R
    pub sales_gdv : R
    pub investment_value : R
    pub income : Option IncomeResult
    pub phases : Option (List PhaseCalc)
    pub build_rate : R
    pub build : R
    pub fees : R
    pub cont : R
    pub other_total : R
    pub sale_costs : R
    pub interest : R
    pub arrangement : R
    pub finance : R
    pub facility : R
    pub equity : R
    pub residual_net : R
    pub land_gross : R
    pub acq_cost : R
    pub profit : R
    pub total_cost : R
    pub poc : R
    pub rogdv : R
    pub roe : R
    pub period : ℕ
    pub sales_months : ℕ
    pub hold_years : R

  pub record CashflowRow : Type 0 where
    pub m : ℕ
    pub cost : R
    pub intr : R
    pub rev : R
    pub net : R
    pub cum : R
