-- ===== src/Engine/Phases.antt =====
-- packages/appraisal-engine/src/engine.ts, `computeAppraisal`: the pace of sales and the programme of
-- the phases.
use apex_appraise.Common.{
  if◌then◌else◌, Bool-cases, length, ℕ, zero, suc, ◌+◌, ◌-◌, ◌≡◌, refl, inl, inr, Bool, true, false,
  ◌&&◌, Option, none, some, List, [], ◌∷◌, arith,
}
use apex_appraise.Engine.Number.{
  Number, ◌⊕◌, ◌⊖◌, ◌⊗◌, ◌⊘◌, gt, or_else, or_default, clamp_whole, sum_by,
}
use apex_appraise.Engine.Types.{
  AppraisalUnit, BuildTrade, OtherCost, Phase, AppraisalInput, PhaseCalc,
}

module _ {R : Type 0} ⦃n : Number R⦄ where
  abbrev pub replicate : ℕ → R → List R
  replicate zero x = []
  replicate (suc k) x = x ∷ replicate k x

  -- the share of the units that sells in each month, at `per_month` until none remain
  abbrev pub sold_shares : ℕ → (per_month unit_count remaining : R) → List R
  sold_shares zero per_month unit_count remaining = []
  sold_shares (suc k) per_month unit_count remaining =
      let sold = n.least per_month remaining in
      sold ⊘ unit_count ∷ sold_shares k per_month unit_count (remaining ⊖ sold)

  abbrev pub even_shares : R → ℕ → ℕ × List R
  even_shares fallback_months cap =
      let months = clamp_whole (or_else (n.round fallback_months) (n.lit 1)) 1 cap in
      (months, replicate months (n.lit 1 ⊘ n.lit months))

  abbrev pub paced_shares : R → R → ℕ × List R
  paced_shares unit_count per_month =
      let months = clamp_whole (n.ceil (unit_count ⊘ per_month)) 1 24 in
      (months, sold_shares months per_month unit_count unit_count)

  unfoldable pub absorption_share : R → Option R → R → ℕ → ℕ × List R
  absorption_share unit_count none fallback_months cap = even_shares fallback_months cap
  absorption_share unit_count (some per_month) fallback_months cap =
      if n.truthy per_month && gt per_month (n.lit 0) && gt unit_count (n.lit 0)
      then paced_shares unit_count per_month
      else even_shares fallback_months cap

  -- `p.trades?.length ? p.trades : undefined`
  abbrev pub own_trades_of : Option (List (BuildTrade R)) → Option (List (BuildTrade R))
  own_trades_of none = none
  own_trades_of (some []) = none
  own_trades_of (some (t ∷ ts)) = some (t ∷ ts)

  abbrev pub rate_sum : List (BuildTrade R) → R
  rate_sum = sum_by (λ (t : BuildTrade R). t.rate)

  abbrev pub area_sum : List (AppraisalUnit R) → R
  area_sum = sum_by (λ (u : AppraisalUnit R). u.count ⊗ u.area)

  abbrev pub gdv_sum : List (AppraisalUnit R) → R
  gdv_sum = sum_by (λ (u : AppraisalUnit R). u.count ⊗ u.area ⊗ u.cap)

  abbrev pub unit_sum : List (AppraisalUnit R) → R
  unit_sum = sum_by (λ (u : AppraisalUnit R). u.count)

  abbrev pub costs_or_none : Option (List (OtherCost R)) → List (OtherCost R)
  costs_or_none none = []
  costs_or_none (some os) = os

  abbrev pub cost_sum : List (OtherCost R) → R
  cost_sum = sum_by (λ (o : OtherCost R). o.amount)

  abbrev pub some_trades : List (BuildTrade R) → Option (List (BuildTrade R)) → List (BuildTrade R)
  some_trades scheme none = scheme
  some_trades scheme (some ts) = ts

  abbrev pub is_own : Option (List (BuildTrade R)) → Bool
  is_own none = false
  is_own (some ts) = true

  -- `phased.map((p) => …)`
  unfoldable pub phase_calc :
      AppraisalInput R → (sales_mult build_mult eff scheme_rate : R) → Phase R → PhaseCalc R
  phase_calc input sales_mult build_mult eff scheme_rate p =
      let nia = area_sum p.units in
      let gia = if gt eff (n.lit 0) then nia ⊘ eff else nia in
      let unit_count = unit_sum p.units in
      let start = clamp_whole (or_else (n.round p.start) (n.lit 1)) 1 240 in
      let build_months = clamp_whole (or_else (n.round p.build_months) (n.lit 12)) 1 60 in
      let (sales_months, share) =
        absorption_share unit_count p.absorption_units_per_month p.sales_months 24 in
      let own = own_trades_of p.trades in
      let rate = if is_own own then rate_sum (some_trades [] own) ⊗ build_mult else scheme_rate in
      let build = rate ⊗ gia in
      let fee_pct = or_default input.prof_fee_pct p.prof_fee_pct in
      let cont_pct = or_default input.contingency_pct p.contingency_pct in
      let fees = build ⊗ fee_pct ⊘ n.lit 100 in
      let cont = build ⊗ cont_pct ⊘ n.lit 100 in
      record {
        name = p.name;
        start = start;
        build_months = build_months;
        sales_months = sales_months;
        practical_completion = start + build_months - 1;
        end = start + build_months + sales_months - 1;
        nia = nia;
        gia = gia;
        gdv = gdv_sum p.units ⊗ sales_mult;
        trades = some_trades input.trades own;
        own_trades = is_own own;
        fee_pct = fee_pct;
        cont_pct = cont_pct;
        build_rate = rate;
        build = build;
        fees = fees;
        cont = cont;
        cost = build ⊕ fees ⊕ cont;
        other_costs = costs_or_none p.other_costs;
        other_total = cost_sum (costs_or_none p.other_costs);
        unit_count = unit_count;
        share = share;
      }

  length-sold_shares :
      (k : ℕ) (per_month unit_count remaining : R)
      → length (sold_shares k per_month unit_count remaining) ≡ k
  length-sold_shares zero per_month unit_count remaining = refl
  length-sold_shares (suc k) per_month unit_count remaining =
      omega
        (arith, length-sold_shares k per_month unit_count (remaining ⊖ n.least per_month remaining))

  pub length-replicate : (k : ℕ) (x : R) → length (replicate k x) ≡ k
  length-replicate zero x = refl
  length-replicate (suc k) x = omega (arith, length-replicate k x)

  -- The shares of a sales period are as many as its months, at a pace of sales or without one.
  pub length-absorption_share :
      (unit_count : R) (per_month : Option R) (fallback : R) (cap : ℕ)
      → let (months, share) = absorption_share unit_count per_month fallback cap in
        length share ≡ months
  unfolding absorption_share
  length-absorption_share unit_count none fallback cap =
      length-replicate (even_shares fallback cap).0 (n.lit 1 ⊘ n.lit (even_shares fallback cap).0)
  length-absorption_share unit_count (some per_month) fallback cap =
      elim (Bool-cases (n.truthy per_month && gt per_month (n.lit 0) && gt unit_count (n.lit 0))) [
        | inl e ↦ rw e (
            length-sold_shares (paced_shares unit_count per_month).0 per_month unit_count
              unit_count)
        | inr e ↦ rw e (
            length-replicate (even_shares fallback cap).0
              (n.lit 1 ⊘ n.lit (even_shares fallback cap).0))
      ]
