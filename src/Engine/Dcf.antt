-- ===== src/Engine/Dcf.antt =====
-- packages/appraisal-engine/src/engine.ts, `discountedCashflow`.
use apex_appraise.Common.{
  if◌then◌else◌, ℕ, zero, suc, ◌+◌, Bool, false, ◌&&◌, ◌||◌, Option, List, [], ◌∷◌,
}
use apex_appraise.Engine.Number.{Number, ◌⊕◌, ◌⊖◌, ◌⊗◌, ◌⊘◌, gt, or_default}
use apex_appraise.Engine.Types.{IncomeInput, IncomeLineResult}
use apex_appraise.Engine.Income.{bisect_yield, capitalise_income}
use apex_appraise.Engine.Appraisal.{ratio_or_zero}

pub record DcfInput (R : Type 0) : Type 0 where
  pub hold_years : R
  pub rental_growth_pct : R
  pub discount_rate_pct : R
  pub exit_yield_pct : R
  pub exit_costs_pct : Option R
  pub review_cycle_years : Option R

pub record DcfYear (R : Type 0) : Type 0 where
  pub year : ℕ
  pub rent : R
  pub reviewed : Bool
  pub discount_factor : R
  pub present_value : R

pub record DcfResult (R : Type 0) : Type 0 where
  pub years : List (DcfYear R)
  pub income_pv : R
  pub exit_rent : R
  pub exit_value_gross : R
  pub exit_costs : R
  pub exit_value_net : R
  pub exit_pv : R
  pub net_present_value : R
  pub pv_from_income : R
  pub pv_from_exit : R
  pub equated_yield : R

-- What `build` returns.
pub record DcfBuild (R : Type 0) : Type 0 where
  pub rows : List (DcfYear R)
  pub income_pv : R
  pub exit_rent : R
  pub exit_value_gross : R
  pub exit_costs : R
  pub exit_value_net : R
  pub exit_pv : R
  pub npv : R

module _ {R : Type 0} ⦃n : Number R⦄ where
  -- the rent of one line in year `t`, and whether a review lands in it
  abbrev pub line_rent : (cycle t growth : R) → IncomeLineResult R → R × Bool
  line_rent cycle t growth l =
      let first = if gt l.years_to_review (n.lit 0) then l.years_to_review else cycle in
      let passed = n.floor ((t ⊖ first) ⊘ cycle) ⊕ n.lit 1 in
      let last = first ⊕ (passed ⊖ n.lit 1) ⊗ cycle in
      if n.lt t first
      then (l.net_passing, false)
      else (l.net_erv ⊗ n.pow (n.lit 1 ⊕ growth) last, n.le t last && n.le last t)

  -- `rentIn`
  abbrev pub rent_in : (cycle t growth : R) → R × Bool → List (IncomeLineResult R) → R × Bool
  rent_in cycle t growth acc [] = acc
  rent_in cycle t growth (rent, reviewed) (l ∷ ls) =
      let (r, lands) = line_rent cycle t growth l in
      rent_in cycle t growth (rent ⊕ r, reviewed || lands) ls

  abbrev pub rent_of_year : (cycle growth : R) → List (IncomeLineResult R) → ℕ → R × Bool
  rent_of_year cycle growth lines t = rent_in cycle (n.lit t) growth (n.lit 0, false) lines

  -- the years of the hold, and the present value of their rent
  abbrev pub dcf_years :
      (cycle growth discount : R)
      → List (IncomeLineResult R)
      → R
      → (left t : ℕ) → List (DcfYear R) × R
  dcf_years cycle growth discount lines pv zero t = ([], pv)
  dcf_years cycle growth discount lines pv (suc left) t =
      let (rent, reviewed) = rent_of_year cycle growth lines t in
      let df = n.pow (n.lit 1 ⊕ discount) (n.neg (n.lit t)) in
      let (rows, total) = dcf_years cycle growth discount lines (pv ⊕ rent ⊗ df) left (t + 1) in
      (
        record {
          year = t;
          rent = rent;
          reviewed = reviewed;
          discount_factor = df;
          present_value = rent ⊗ df;
        }
            ∷ rows,
        total,
      )

  abbrev pub review_cycle : DcfInput R → R
  review_cycle dcf = n.greatest (n.lit 1) (n.round (or_default (n.lit 5) dcf.review_cycle_years))

  abbrev pub held_for : DcfInput R → ℕ
  held_for dcf = n.whole (n.greatest (n.lit 1) (n.round dcf.hold_years))

  unfoldable pub build_dcf :
      DcfInput R → List (IncomeLineResult R) → (growth discount : R) → DcfBuild R
  build_dcf dcf lines growth discount =
      let cycle = review_cycle dcf in
      let years = held_for dcf in
      let (rows, income_pv) = dcf_years cycle growth discount lines (n.lit 0) years 1 in
      let exit_rent = (rent_of_year cycle growth lines (years + 1)).0 in
      let gross = ratio_or_zero exit_rent (dcf.exit_yield_pct ⊘ n.lit 100) in
      let costs = gross ⊗ or_default (n.lit 0) dcf.exit_costs_pct ⊘ n.lit 100 in
      let exit_pv = (gross ⊖ costs) ⊗ n.pow (n.lit 1 ⊕ discount) (n.neg (n.lit years)) in
      record {
        rows = rows;
        income_pv = income_pv;
        exit_rent = exit_rent;
        exit_value_gross = gross;
        exit_costs = costs;
        exit_value_net = gross ⊖ costs;
        exit_pv = exit_pv;
        npv = income_pv ⊕ exit_pv;
      }

  unfoldable pub discounted_cashflow : IncomeInput R → DcfInput R → DcfResult R
  discounted_cashflow income dcf =
      let cap = capitalise_income income in
      let growth = dcf.rental_growth_pct ⊘ n.lit 100 in
      let at = build_dcf dcf cap.lines growth (dcf.discount_rate_pct ⊘ n.lit 100) in
      let target = cap.net_capital_value in
      record {
        years = at.rows;
        income_pv = at.income_pv;
        exit_rent = at.exit_rent;
        exit_value_gross = at.exit_value_gross;
        exit_costs = at.exit_costs;
        exit_value_net = at.exit_value_net;
        exit_pv = at.exit_pv;
        net_present_value = at.npv;
        pv_from_income = ratio_or_zero at.income_pv at.npv;
        pv_from_exit = ratio_or_zero at.exit_pv at.npv;
        equated_yield =
            if gt target (n.lit 0)
            then bisect_yield 90 (λ d. (build_dcf dcf cap.lines growth d).npv) target
                (n.lit 5 ⊘ n.lit 10_000) (n.lit 6 ⊘ n.lit 10)
            else n.lit 0;
      }
