-- ===== src/Engine/Indicative.antt =====
-- packages/appraisal-engine/src/engine.ts, `cilCharge` and `autoAppraise`: the indicative appraisal.
use apex_appraise.Common.{if◌then◌else◌, Option, none, some, List}
use apex_appraise.Engine.Number.{Number, ◌⊕◌, ◌⊖◌, ◌⊗◌, ◌⊘◌, gt, or_else}
use apex_appraise.Engine.Types.{AppraisalUnit}
use apex_appraise.Engine.Duty.{sdlt_commercial}
use apex_appraise.Engine.Phases.{area_sum, gdv_sum}
use apex_appraise.Engine.Appraisal.{ratio_or_zero}

pub record AutoAppraisalInput (R : Type 0) : Type 0 where
  pub units : List (AppraisalUnit R)
  pub efficiency : R
  pub build_per_sqft : R
  pub prof_fee_pct : R
  pub contingency_pct : R
  pub cil_per_sqm : R
  pub s106 : R
  pub agent_pct : R
  pub legal_pct : R
  pub ltc_pct : R
  pub rate_pct : R
  pub period_months : R
  pub sales_months : R
  pub arrangement_fee_pct : R
  pub target_profit_pct : R
  pub acq_pct : R
  pub asking : R

pub record AutoAppraisalResult (R : Type 0) : Type 0 where
  pub nia : R
  pub gia : R
  pub gdv : R
  pub build : R
  pub fees : R
  pub cont : R
  pub cil : R
  pub other : R
  pub sale_costs : R
  pub facility : R
  pub interest : R
  pub arrangement : R
  pub finance : R
  pub target_profit : R
  pub residual_net : R
  pub land_gross : R
  pub total_cost : R
  pub profit : R
  pub poc : R
  pub sdlt : R
  pub asking_gross : Option R
  pub total_cost_at_asking : Option R
  pub profit_at_asking : Option R
  pub roc_at_asking : Option R
  pub headroom : Option R

module _ {R : Type 0} ⦃n : Number R⦄ where
  -- 10.7639 square feet
  abbrev pub sqft_per_sqm : R
  sqft_per_sqm = n.lit 107_639 ⊘ n.lit 10_000

  abbrev pub cil_charge : R → R → R
  cil_charge gia_sqft rate_per_sqm = rate_per_sqm ⊗ (gia_sqft ⊘ sqft_per_sqm)

  -- a figure at the asking price, where there is one
  abbrev pub if_asked : R → R → Option R
  if_asked asking x = if gt asking (n.lit 0) then some x else none

  unfoldable pub auto_appraise : AutoAppraisalInput R → AutoAppraisalResult R
  auto_appraise j =
      let nia = area_sum j.units in
      let gdv = gdv_sum j.units in
      let eff = or_else (j.efficiency ⊘ n.lit 100) (n.lit 1) in
      let gia = if gt eff (n.lit 0) then nia ⊘ eff else nia in
      let build = j.build_per_sqft ⊗ gia in
      let fees = build ⊗ j.prof_fee_pct ⊘ n.lit 100 in
      let cont = build ⊗ j.contingency_pct ⊘ n.lit 100 in
      let cil = cil_charge gia j.cil_per_sqm in
      let other = cil ⊕ j.s106 in
      let sale_costs = gdv ⊗ (j.agent_pct ⊕ j.legal_pct) ⊘ n.lit 100 in
      let facility = (build ⊕ fees ⊕ cont ⊕ other) ⊗ j.ltc_pct ⊘ n.lit 100 in
      let interest =
        facility
        ⊗ (j.rate_pct ⊘ n.lit 100)
        ⊗ ((j.period_months ⊕ j.sales_months) ⊘ n.lit 12)
        ⊗ (n.lit 55 ⊘ n.lit 100) in
      let arrangement = facility ⊗ j.arrangement_fee_pct ⊘ n.lit 100 in
      let finance = interest ⊕ arrangement in
      let target = gdv ⊗ j.target_profit_pct ⊘ n.lit 100 in
      let remainder = gdv ⊖ sale_costs ⊖ build ⊖ fees ⊖ cont ⊖ other ⊖ finance ⊖ target in
      let acq = n.lit 1 ⊕ j.acq_pct ⊘ n.lit 100 in
      let residual_net = remainder ⊘ acq in
      let land_gross = residual_net ⊗ acq in
      let before_land = sale_costs ⊕ build ⊕ fees ⊕ cont ⊕ other ⊕ finance in
      let total_cost = before_land ⊕ land_gross in
      let profit = gdv ⊖ total_cost in
      let price = if gt j.asking (n.lit 0) then j.asking else n.greatest residual_net (n.lit 0) in
      let asking_gross = j.asking ⊗ acq ⊕ sdlt_commercial j.asking in
      let cost_asked = before_land ⊕ asking_gross in
      let profit_asked = gdv ⊖ cost_asked in
      record {
        nia = nia;
        gia = gia;
        gdv = gdv;
        build = build;
        fees = fees;
        cont = cont;
        cil = cil;
        other = other;
        sale_costs = sale_costs;
        facility = facility;
        interest = interest;
        arrangement = arrangement;
        finance = finance;
        target_profit = target;
        residual_net = residual_net;
        land_gross = land_gross;
        total_cost = total_cost;
        profit = profit;
        poc = ratio_or_zero profit total_cost;
        sdlt = sdlt_commercial price;
        asking_gross = if_asked j.asking asking_gross;
        total_cost_at_asking = if_asked j.asking cost_asked;
        profit_at_asking = if_asked j.asking profit_asked;
        roc_at_asking = if_asked j.asking (ratio_or_zero profit_asked cost_asked);
        headroom = if_asked j.asking (residual_net ⊖ j.asking);
      }
