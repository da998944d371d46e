-- ===== src/Engine/Income.antt =====
-- packages/appraisal-engine/src/engine.ts, `capitaliseIncome`: the investment method.
use apex_appraise.Common.{
  if◌then◌else◌, ℕ, zero, suc, Bool, true, false, ◌&&◌, not, Option, none, some, List, [], ◌∷◌, map,
}
use apex_appraise.Engine.Number.{Number, ◌⊕◌, ◌⊖◌, ◌⊗◌, ◌⊘◌, gt, or_default, sum_by}
use apex_appraise.Engine.Types.{
  IncomeMethod, IncomeLine, IncomeInput, IncomeLineResult, IncomeResult, perpetuity, term_reversion,
}

-- One line of the rent roll while it is analysed.
pub record RawLine (R : Type 0) : Type 0 where
  pub line : IncomeLine R
  pub total_area : R
  pub gross_rent : R
  pub gross_erv : R
  pub void_allowance : R
  pub rent_after_void : R
  pub erv_after_void : R

abbrev pub is_perpetuity : IncomeMethod → Bool
is_perpetuity perpetuity = true
is_perpetuity _ = false

abbrev pub method_or_default : Option IncomeMethod → IncomeMethod
method_or_default none = perpetuity
method_or_default (some m) = m

module _ {R : Type 0} ⦃n : Number R⦄ where
  -- 6.8 %
  abbrev pub default_purchaser_costs_pct : R
  default_purchaser_costs_pct = n.lit 68 ⊘ n.lit 10

  unfoldable pub yp_perpetuity : R → R
  yp_perpetuity i = if gt i (n.lit 0) then n.lit 1 ⊘ i else n.lit 0

  unfoldable pub yp_years : R → R → R
  yp_years years i =
      if gt i (n.lit 0)
      then (n.lit 1 ⊖ n.pow (n.lit 1 ⊕ i) (n.neg years)) ⊘ i
      else n.greatest (n.lit 0) years

  unfoldable pub pv_of_pound : R → R → R
  pv_of_pound years i =
      if gt i (n.neg (n.lit 1)) then n.pow (n.lit 1 ⊕ i) (n.neg years) else n.lit 0

  abbrev pub raw_line : IncomeLine R → RawLine R
  raw_line l =
      let total_area = l.count ⊗ l.area in
      let gross_rent = total_area ⊗ l.rent_psf in
      let gross_erv = total_area ⊗ or_default l.rent_psf l.erv_psf in
      let void_rate = or_default (n.lit 0) l.void_pct ⊘ n.lit 100 in
      record {
        line = l;
        total_area = total_area;
        gross_rent = gross_rent;
        gross_erv = gross_erv;
        void_allowance = gross_rent ⊗ void_rate;
        rent_after_void = gross_rent ⊗ (n.lit 1 ⊖ void_rate);
        erv_after_void = gross_erv ⊗ (n.lit 1 ⊖ void_rate);
      }

  -- `netOf`: net of the non-recoverables and of a share of the fixed deductions
  abbrev pub net_of : IncomeInput R → R → R → R
  net_of input after_void share =
      after_void ⊗ (n.lit 1 ⊖ input.non_recoverable_pct ⊘ n.lit 100)
      ⊖ or_default (n.lit 0) input.annual_deductions ⊗ share

  -- the term and the reversion of a line, by the method
  abbrev pub split_value : IncomeMethod → Bool → (net_passing net_erv years i j : R) → R × R
  split_value m false net_passing net_erv years i j = (net_passing ⊗ yp_perpetuity i, n.lit 0)
  split_value term_reversion true net_passing net_erv years i j =
      (net_passing ⊗ yp_years years i, net_erv ⊗ yp_perpetuity j ⊗ pv_of_pound years j)
  split_value m true net_passing net_erv years i j = (
    net_passing ⊗ yp_perpetuity i,
    (net_erv ⊖ net_passing) ⊗ yp_perpetuity j ⊗ pv_of_pound years j,
  )

  unfoldable pub line_result :
      IncomeInput R → (rent_after_void : R) → RawLine R → IncomeLineResult R
  line_result input rent_after_void r =
      let method = method_or_default input.method in
      let s =
        if gt rent_after_void (n.lit 0) then r.rent_after_void ⊘ rent_after_void else n.lit 0 in
      let net_passing = net_of input r.rent_after_void s in
      let net_erv = net_of input r.erv_after_void s in
      let yield_used = or_default input.yield_pct r.line.yield_pct in
      let reversion_yield_used = or_default yield_used input.reversion_yield_pct in
      let i = yield_used ⊘ n.lit 100 in
      let j = reversion_yield_used ⊘ n.lit 100 in
      let years = n.greatest (n.lit 0) (or_default (n.lit 0) r.line.years_to_review) in
      let uplift = net_erv ⊖ net_passing in
      let reversionary =
        not (is_perpetuity method)
        && gt years (n.lit 0)
        && gt (n.abs uplift) (n.lit 1 ⊘ n.lit 1_000_000_000) in
      let (term_value, reversion_value) =
        split_value method reversionary net_passing net_erv years i j in
      record {
        label = r.line.label;
        count = r.line.count;
        area = r.line.area;
        total_area = r.total_area;
        gross_rent = r.gross_rent;
        void_allowance = r.void_allowance;
        rent_after_void = r.rent_after_void;
        net_passing = net_passing;
        net_erv = net_erv;
        gross_erv = r.gross_erv;
        years_to_review = years;
        yield_used = yield_used;
        reversion_yield_used = reversion_yield_used;
        value = term_value ⊕ reversion_value;
        term_value = term_value;
        reversion_value = reversion_value;
        is_reversionary = reversionary;
      }

  -- a line at one rate for the term and the reversion, added to what is before it
  abbrev pub add_line : IncomeMethod → R → R → IncomeLineResult R → R
  add_line m i acc l =
      let (term_value, reversion_value) =
        split_value m l.is_reversionary l.net_passing l.net_erv l.years_to_review i i in
      if l.is_reversionary then acc ⊕ term_value ⊕ reversion_value else acc ⊕ term_value

  abbrev pub value_from : IncomeMethod → R → R → List (IncomeLineResult R) → R
  value_from m i acc [] = acc
  value_from m i acc (l ∷ ls) = value_from m i (add_line m i acc l) ls

  -- `valueAtSingleYield`
  unfoldable pub value_at_single_yield : IncomeMethod → List (IncomeLineResult R) → R → R
  value_at_single_yield m lines i = value_from m i (n.lit 0) lines

  -- the bisection, whose value falls as the yield rises
  unfoldable pub bisect_yield : ℕ → (R → R) → (target lo hi : R) → R
  bisect_yield zero value target lo hi = (lo ⊕ hi) ⊘ n.lit 2
  bisect_yield (suc k) value target lo hi =
      let mid = (lo ⊕ hi) ⊘ n.lit 2 in
      let above = gt (value mid) target in
      bisect_yield k value target (if above then mid else lo) (if above then hi else mid)

  unfoldable pub capitalise_income : IncomeInput R → IncomeResult R
  capitalise_income input =
      let method = method_or_default input.method in
      let pc = or_default default_purchaser_costs_pct input.purchaser_costs_pct in
      let raw = map raw_line input.lines in
      let total_area = sum_by (λ (r : RawLine R). r.total_area) raw in
      let gross_rent = sum_by (λ (r : RawLine R). r.gross_rent) raw in
      let gross_erv = sum_by (λ (r : RawLine R). r.gross_erv) raw in
      let void_allowance = sum_by (λ (r : RawLine R). r.void_allowance) raw in
      let rent_after_void = gross_rent ⊖ void_allowance in
      let non_recoverable = rent_after_void ⊗ input.non_recoverable_pct ⊘ n.lit 100 in
      let deductions = or_default (n.lit 0) input.annual_deductions in
      let net_rent = rent_after_void ⊖ non_recoverable ⊖ deductions in
      let lines = map (line_result input rent_after_void) raw in
      let net_erv = sum_by (λ (l : IncomeLineResult R). l.net_erv) lines in
      let gross_capital_value = sum_by (λ (l : IncomeLineResult R). l.value) lines in
      let let_up_deduction = net_rent ⊗ or_default (n.lit 0) input.let_up_months ⊘ n.lit 12 in
      let before_costs = gross_capital_value ⊖ let_up_deduction in
      let net_capital_value = before_costs ⊘ (n.lit 1 ⊕ pc ⊘ n.lit 100) in
      let equivalent_yield =
        if gt gross_capital_value (n.lit 0)
        then bisect_yield 80 (value_at_single_yield method lines) gross_capital_value
            (n.lit 1 ⊘ n.lit 1000) (n.lit 4 ⊘ n.lit 10)
        else n.lit 0 in
      record {
        lines = lines;
        total_area = total_area;
        gross_rent = gross_rent;
        void_allowance = void_allowance;
        non_recoverable = non_recoverable;
        deductions = deductions;
        net_rent = net_rent;
        years_purchase = yp_perpetuity (input.yield_pct ⊘ n.lit 100);
        gross_capital_value = gross_capital_value;
        let_up_deduction = let_up_deduction;
        capital_value_before_costs = before_costs;
        purchaser_costs = before_costs ⊖ net_capital_value;
        net_capital_value = net_capital_value;
        net_initial_yield = if gt before_costs (n.lit 0) then net_rent ⊘ before_costs else n.lit 0;
        reversionary_yield = if gt before_costs (n.lit 0) then net_erv ⊘ before_costs else n.lit 0;
        equivalent_yield = equivalent_yield;
        net_erv = net_erv;
        gross_erv = gross_erv;
        method = method;
        capital_value_psf =
            if gt total_area (n.lit 0) then net_capital_value ⊘ total_area else n.lit 0;
        blended_rent_psf = if gt total_area (n.lit 0) then gross_rent ⊘ total_area else n.lit 0;
      }
