-- ===== src/Engine/Scenario.antt =====
-- packages/appraisal-engine/src/scenario.ts: the figures of a scenario.
use apex_appraise.Common.{[], ◌∷◌}
use apex_appraise.Engine.Number.{Number, ◌⊗◌, ◌⊘◌}
use apex_appraise.Engine.Indicative.{AutoAppraisalInput, AutoAppraisalResult, auto_appraise}

pub record ScenarioLevers (R : Type 0) : Type 0 where
  pub blended_psf : R
  pub build_psf : R
  pub gia : R
  pub target_profit_pct : R

pub record ScenarioMetrics (R : Type 0) : Type 0 where
  pub residual : R
  pub gdv : R
  pub total_cost : R
  pub profit : R
  pub poc : R

module _ {R : Type 0} ⦃n : Number R⦄ where
  abbrev pub efficiency : R
  efficiency = n.lit 90

  -- `SCENARIO_ASSUMPTIONS` and the levers
  abbrev pub scenario_input : ScenarioLevers R → AutoAppraisalInput R
  scenario_input s = record {
    units =
        record {
          label = "Blended";
          count = n.lit 1;
          area = s.gia ⊗ (efficiency ⊘ n.lit 100);
          cap = s.blended_psf;
        }
        ∷ [];
    efficiency = efficiency;
    build_per_sqft = s.build_psf;
    prof_fee_pct = n.lit 11;
    contingency_pct = n.lit 5;
    cil_per_sqm = n.lit 40;
    s106 = n.lit 150_000;
    agent_pct = n.lit 15 ⊘ n.lit 10;
    legal_pct = n.lit 5 ⊘ n.lit 10;
    ltc_pct = n.lit 60;
    rate_pct = n.lit 75 ⊘ n.lit 10;
    period_months = n.lit 18;
    sales_months = n.lit 3;
    arrangement_fee_pct = n.lit 15 ⊘ n.lit 10;
    target_profit_pct = s.target_profit_pct;
    acq_pct = n.lit 68 ⊘ n.lit 10;
    asking = n.lit 0;
  }

  abbrev pub metrics_of : AutoAppraisalResult R → ScenarioMetrics R
  metrics_of r = record {
    residual = r.residual_net;
    gdv = r.gdv;
    total_cost = r.total_cost;
    profit = r.profit;
    poc = r.poc;
  }

  -- `scenarioMetrics`
  unfoldable pub scenario_metrics : ScenarioLevers R → ScenarioMetrics R
  scenario_metrics s = metrics_of (auto_appraise (scenario_input s))
