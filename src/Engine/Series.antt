-- ===== src/Engine/Series.antt =====
-- packages/appraisal-engine/src/engine.ts, `computeAppraisal`: the monthly series of costs and of
-- revenue. A series has an entry for each month from 0 to the last.
use apex_appraise.Common.{
  leb, if◌then◌else◌, length, get_or, set, any, ℕ, zero, suc, ◌+◌, ◌-◌, ◌≡◌, refl, ◌∙◌, Bool, true,
  false, Option, none, some, List, [], ◌∷◌, arith,
}
use apex_appraise.Engine.Number.{Number, ◌⊕◌, ◌⊖◌, ◌⊗◌, ◌⊘◌, or_default, clamp_whole}
use apex_appraise.Engine.Types.{SpendProfileKey, CostTiming, BuildTrade, OtherCost, PhaseCalc}
use apex_appraise.Engine.Spend.{build_spend_profile}

abbrev pub profile_or : SpendProfileKey → Option SpendProfileKey → SpendProfileKey
profile_or d none = d
profile_or d (some p) = p

module _ {R : Type 0} ⦃n : Number R⦄ where
  -- `series[m]`
  abbrev pub entry : List R → ℕ → R
  entry s m = get_or s m (n.lit 0)

  -- `series[m] += x`
  abbrev pub add_at : List R → ℕ → R → List R
  add_at s m x = set s m (entry s m ⊕ x)

  -- `for (i = 0; i < months; i++) into[start + i] += amount * w[i]`, within the series
  unfoldable pub spread_weights : (amount : R) → List R → (start left i : ℕ) → List R → List R
  spread_weights amount w start zero i s = s
  spread_weights amount w start (suc left) i s =
      spread_weights amount w start left (i + 1) (add_at s (start + i) (amount ⊗ entry w i))

  abbrev pub timing_start : Option (CostTiming R) → R
  timing_start none = n.lit 1
  timing_start (some t) = or_default (n.lit 1) t.start

  abbrev pub timing_months : R → Option (CostTiming R) → R
  timing_months d none = d
  timing_months d (some t) = or_default d t.months

  abbrev pub timing_profile : SpendProfileKey → Option (CostTiming R) → SpendProfileKey
  timing_profile d none = d
  timing_profile d (some t) = profile_or d t.profile

  abbrev pub is_timed : Option (CostTiming R) → Bool
  is_timed none = false
  is_timed (some _) = true

  module _ (total_months : ℕ) (profile : SpendProfileKey) where
    -- `spreadFrom`, and `spread` of an unphased scheme
    unfoldable pub spread_from : R → (from months : R) → SpendProfileKey → List R → List R
    spread_from amount from months p s =
        let start = clamp_whole (n.round from) 1 total_months in
        let span = clamp_whole (n.round months) 1 (total_months - start + 1) in
        spread_weights amount (build_spend_profile (n.lit span) p) start span 0 s

    -- `spreadPhase`
    unfoldable pub spread_phase : R → (start months : ℕ) → List R → List R
    spread_phase amount start months s =
        spread_weights amount (build_spend_profile (n.lit months) profile) start months 0 s

    -- the month a cost starts in, counted from the first month of its phase
    abbrev pub phase_month : ℕ → Option (CostTiming R) → R
    phase_month start t = n.lit start ⊕ (n.round (timing_start t) ⊖ n.lit 1)

    abbrev pub spread_trades :
        (build_mult on_costs : R) → PhaseCalc R → List (BuildTrade R) → List R → List R
    spread_trades build_mult on_costs p [] s = s
    spread_trades build_mult on_costs p (t ∷ ts) s = spread_trades build_mult on_costs p ts (
        spread_from (t.rate ⊗ build_mult ⊗ p.gia ⊗ on_costs) (phase_month p.start t.timing)
          (timing_months (n.lit p.build_months) t.timing) (timing_profile profile t.timing) s)

    abbrev pub spread_phase_costs : PhaseCalc R → List (OtherCost R) → List R → List R
    spread_phase_costs p [] s = s
    spread_phase_costs p (o ∷ os) s = spread_phase_costs p os (
        spread_from o.amount (phase_month p.start o.timing)
          (timing_months (n.lit p.build_months) o.timing) (timing_profile profile o.timing) s)

    abbrev pub spread_phases : (build_mult : R) → List (PhaseCalc R) → List R → List R
    spread_phases build_mult [] s = s
    spread_phases build_mult (p ∷ ps) s =
        let on_costs = n.lit 1 ⊕ (p.fee_pct ⊕ p.cont_pct) ⊘ n.lit 100 in
        let s' =
          if any (λ (t : BuildTrade R). is_timed t.timing) p.trades
          then spread_trades build_mult on_costs p p.trades s
          else spread_phase p.cost p.start p.build_months s in
        spread_phases build_mult ps (spread_phase_costs p p.other_costs s')

    -- scheme-level costs on their own timing, over `period` months where they have none
    abbrev pub spread_others : (period : ℕ) → List (OtherCost R) → List R → List R
    spread_others period [] s = s
    spread_others period (o ∷ os) s = spread_others period os (
        spread_from o.amount (timing_start o.timing) (timing_months (n.lit period) o.timing)
          (timing_profile profile o.timing) s)

    abbrev pub spread_scheme_trades :
        (period : ℕ) → (build_mult gia : R) → List (BuildTrade R) → List R → List R
    spread_scheme_trades period build_mult gia [] s = s
    spread_scheme_trades period build_mult gia (t ∷ ts) s =
        spread_scheme_trades period build_mult gia ts (
          spread_from (t.rate ⊗ build_mult ⊗ gia) (timing_start t.timing)
            (timing_months (n.lit period) t.timing) (timing_profile profile t.timing) s)

  -- `constrSeries[i + 1] = constructionTotal * incs[i]`
  abbrev pub flat_costs : R → List R → (left i : ℕ) → List R → List R
  flat_costs total incs zero i s = s
  flat_costs total incs (suc left) i s =
      flat_costs total incs left (i + 1) (set s (i + 1) (total ⊗ entry incs i))

  -- the sales revenue of one phase, `net * share[i]` in each month of its window
  unfoldable pub phase_revenue : ℕ → R → PhaseCalc R → (left i : ℕ) → List R → List R
  phase_revenue total_months net p zero i s = s
  phase_revenue total_months net p (suc left) i s =
      let m = p.practical_completion + 1 + i in
      phase_revenue total_months net p left (i + 1)
        (if leb m total_months then add_at s m (net ⊗ entry p.share i) else s)

  abbrev pub phases_revenue : ℕ → R → List (PhaseCalc R) → List R → List R
  phases_revenue total_months disposal_rate [] s = s
  phases_revenue total_months disposal_rate (p ∷ ps) s =
      phases_revenue total_months disposal_rate ps
        (phase_revenue total_months (p.gdv ⊗ (n.lit 1 ⊖ disposal_rate)) p p.sales_months 0 s)

  -- the held element, realised evenly once everything is complete
  abbrev pub held_revenue : R → (window period left i : ℕ) → List R → List R
  held_revenue net window period zero i s = s
  held_revenue net window period (suc left) i s =
      held_revenue net window period left (i + 1) (add_at s (period + 1 + i) (net ⊘ n.lit window))

  -- `revSeries[m] = saleNet * revShare[m - P - 1]`
  abbrev pub sales_revenue : R → List R → (period left i : ℕ) → List R → List R
  sales_revenue sale_net share period zero i s = s
  sales_revenue sale_net share period (suc left) i s =
      sales_revenue sale_net share period left (i + 1)
        (set s (period + 1 + i) (sale_net ⊗ entry share i))

  pub length-set : (s : List R) (m : ℕ) (x : R) → length (set s m x) ≡ length s
  length-set [] m x = refl
  length-set (y ∷ s) zero x = refl
  length-set (y ∷ s) (suc m) x = omega (arith, length-set s m x)

  -- Spreading a cost keeps the series at its length.
  pub length-spread_weights :
      (amount : R) (w : List R) (start left i : ℕ) (s : List R)
      → length (spread_weights amount w start left i s) ≡ length s
  unfolding spread_weights
  length-spread_weights amount w start zero i s = refl
  length-spread_weights amount w start (suc left) i s =
      length-spread_weights amount w start left (i + 1) (add_at s (start + i) (amount ⊗ entry w i))
      ∙ length-set s (start + i) (entry s (start + i) ⊕ amount ⊗ entry w i)
