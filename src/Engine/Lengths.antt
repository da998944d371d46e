-- ===== src/Engine/Lengths.antt =====
-- packages/appraisal-engine/src/engine.ts, `computeAppraisal`: the two series run over the programme.
use apex_appraise.Common.{
  leb, Bool-cases, length, any, ℕ, zero, suc, ◌+◌, ◌-◌, ◌≡◌, refl, ◌∙◌, inl, inr, Option, none,
  some, List, [], ◌∷◌, arith,
}
use apex_appraise.Engine.Number.{Number, ◌⊕◌, ◌⊖◌, ◌⊗◌, ◌⊘◌, gt, clamp_whole}
use apex_appraise.Engine.Types.{
  SpendProfileKey, BuildTrade, OtherCost, AppraisalInput, PhaseCalc, scurve,
}
use apex_appraise.Engine.Spend.{build_spend_profile, length-map}
use apex_appraise.Engine.Phases.{length-replicate}
use apex_appraise.Engine.Series.{
  profile_or, is_timed, spread_from, spread_phase, spread_trades, spread_phase_costs, spread_phases,
  spread_others, spread_scheme_trades, flat_costs, phase_revenue, phases_revenue, held_revenue,
  sales_revenue, length-set, length-spread_weights,
}
use apex_appraise.Engine.Scheme.{
  Scheme, construction_total, total_months, zeros, scheme_on_costs, with_on_costs, is_scheme_timed,
  costs_by, cost_series, revenue_by, revenue_series,
}

module _ {R : Type 0} ⦃n : Number R⦄ where
  module _ (months : ℕ) (profile : SpendProfileKey) where
    length-spread_from :
        (x from span : R) (p : SpendProfileKey) (s : List R)
        → length (spread_from months profile x from span p s) ≡ length s
    unfolding spread_from
    length-spread_from x from span p s =
        let start = clamp_whole (n.round from) 1 months in
        let k = clamp_whole (n.round span) 1 (months - start + 1) in
        length-spread_weights x (build_spend_profile (n.lit k) p) start k 0 s

    length-spread_phase :
        (x : R) (start k : ℕ) (s : List R)
        → length (spread_phase months profile x start k s) ≡ length s
    unfolding spread_phase
    length-spread_phase x start k s =
        length-spread_weights x (build_spend_profile (n.lit k) profile) start k 0 s

    length-spread_trades :
        (bm oc : R) (p : PhaseCalc R) (ts : List (BuildTrade R)) (s : List R)
        → length (spread_trades months profile bm oc p ts s) ≡ length s
    length-spread_trades bm oc p [] s = refl
    length-spread_trades bm oc p (t ∷ ts) s =
        length-spread_trades bm oc p ts _ ∙ length-spread_from _ _ _ _ s

    length-spread_phase_costs :
        (p : PhaseCalc R) (os : List (OtherCost R)) (s : List R)
        → length (spread_phase_costs months profile p os s) ≡ length s
    length-spread_phase_costs p [] s = refl
    length-spread_phase_costs p (o ∷ os) s =
        length-spread_phase_costs p os _ ∙ length-spread_from _ _ _ _ s

    length-spread_phases :
        (bm : R) (ps : List (PhaseCalc R)) (s : List R)
        → length (spread_phases months profile bm ps s) ≡ length s
    length-spread_phases bm [] s = refl
    length-spread_phases bm (p ∷ ps) s =
        let oc = n.lit 1 ⊕ (p.fee_pct ⊕ p.cont_pct) ⊘ n.lit 100 in
        elim (Bool-cases (any (λ (t : BuildTrade R). is_timed t.timing) p.trades)) [
          | inl h ↦ rw h (
              length-spread_phases bm ps _
              ∙ length-spread_phase_costs p p.other_costs _
              ∙ length-spread_trades bm oc p p.trades s)
          | inr h ↦ rw h (
              length-spread_phases bm ps _
              ∙ length-spread_phase_costs p p.other_costs _
              ∙ length-spread_phase p.cost p.start p.build_months s)
        ]

    length-spread_others :
        (period : ℕ) (os : List (OtherCost R)) (s : List R)
        → length (spread_others months profile period os s) ≡ length s
    length-spread_others period [] s = refl
    length-spread_others period (o ∷ os) s =
        length-spread_others period os _ ∙ length-spread_from _ _ _ _ s

    length-spread_scheme_trades :
        (period : ℕ) (bm gia : R) (ts : List (BuildTrade R)) (s : List R)
        → length (spread_scheme_trades months profile period bm gia ts s) ≡ length s
    length-spread_scheme_trades period bm gia [] s = refl
    length-spread_scheme_trades period bm gia (t ∷ ts) s =
        length-spread_scheme_trades period bm gia ts _ ∙ length-spread_from _ _ _ _ s

  length-zeros : (k : ℕ) (z : List R) → z ≡ zeros k → length z ≡ k + 1
  length-zeros k z e = rw e (length-replicate (k + 1) (n.lit 0))

  length-with_on_costs : (oc : R) (s : List R) → length (with_on_costs oc s) ≡ length s
  length-with_on_costs oc [] = refl
  length-with_on_costs oc (x ∷ xs) = omega (arith, length-map (λ y. y ⊗ oc) xs)

  length-flat_costs :
      (total : R) (incs : List R) (left i : ℕ) (s : List R)
      → length (flat_costs total incs left i s) ≡ length s
  length-flat_costs total incs zero i s = refl
  length-flat_costs total incs (suc left) i s =
      length-flat_costs total incs left (i + 1) _ ∙ length-set s (i + 1) _

  length-phase_revenue :
      (months : ℕ) (net : R) (p : PhaseCalc R) (left i : ℕ) (s : List R)
      → length (phase_revenue months net p left i s) ≡ length s
  unfolding phase_revenue
  length-phase_revenue months net p zero i s = refl
  length-phase_revenue months net p (suc left) i s =
      elim (Bool-cases (leb (p.practical_completion + 1 + i) months)) [
        | inl h ↦ rw h (length-phase_revenue months net p left (i + 1) _ ∙ length-set s _ _)
        | inr h ↦ rw h (length-phase_revenue months net p left (i + 1) s)
      ]

  length-phases_revenue :
      (months : ℕ) (rate : R) (ps : List (PhaseCalc R)) (s : List R)
      → length (phases_revenue months rate ps s) ≡ length s
  length-phases_revenue months rate [] s = refl
  length-phases_revenue months rate (p ∷ ps) s =
      length-phases_revenue months rate ps _
      ∙ length-phase_revenue months (p.gdv ⊗ (n.lit 1 ⊖ rate)) p p.sales_months 0 s

  length-held_revenue :
      (net : R) (window period left i : ℕ) (s : List R)
      → length (held_revenue net window period left i s) ≡ length s
  length-held_revenue net window period zero i s = refl
  length-held_revenue net window period (suc left) i s =
      length-held_revenue net window period left (i + 1) _ ∙ length-set s _ _

  length-sales_revenue :
      (net : R) (share : List R) (period left i : ℕ) (s : List R)
      → length (sales_revenue net share period left i s) ≡ length s
  length-sales_revenue net share period zero i s = refl
  length-sales_revenue net share period (suc left) i s =
      length-sales_revenue net share period left (i + 1) _ ∙ length-set s _ _

  length-costs_by :
      (input : AppraisalInput R) (bm : R) (s : Scheme R) (o : Option (List (PhaseCalc R)))
      → (profile : SpendProfileKey) → length (costs_by input bm s o profile) ≡ total_months s + 1
  length-costs_by input bm s none profile =
      let months = total_months s in
      elim (Bool-cases (is_scheme_timed input)) [
        | inl h ↦ rw h (
            length-spread_others months profile s.period input.other_costs _
            ∙ length-with_on_costs (scheme_on_costs input) _
            ∙ length-spread_scheme_trades months profile s.period bm s.gia input.trades _
            ∙ length-zeros months _ refl)
        | inr h ↦ rw h (
            length-flat_costs (construction_total s) (build_spend_profile (n.lit s.period) profile)
              s.period 0 (zeros months)
            ∙ length-zeros months _ refl)
      ]
  length-costs_by input bm s (some ps) profile =
      let months = total_months s in
      let before =
        length-spread_phases months profile bm ps (zeros months) ∙ length-zeros months _ refl in
      elim (Bool-cases (gt s.unphased_gia (n.lit 1 ⊘ n.lit 10_000))) [
        | inl h ↦ rw h (
            length-spread_others months profile s.period input.other_costs _
            ∙ length-spread_phase months profile _ 1 s.period _
            ∙ before)
        | inr h ↦ rw h (length-spread_others months profile s.period input.other_costs _ ∙ before)
      ]

  length-revenue_by :
      (input : AppraisalInput R) (s : Scheme R) (o : Option (List (PhaseCalc R)))
      → length (revenue_by input s o) ≡ total_months s + 1
  length-revenue_by input s none =
      length-sales_revenue (s.gdv ⊖ s.sale_costs) s.rev_share s.period s.sales_months 0
        (zeros (total_months s))
      ∙ length-zeros (total_months s) _ refl
  length-revenue_by input s (some ps) =
      let months = total_months s in
      let rate = (input.disposal.agent_pct ⊕ input.disposal.legal_pct) ⊘ n.lit 100 in
      let before =
        length-phases_revenue months rate ps (zeros months) ∙ length-zeros months _ refl in
      elim (Bool-cases (gt s.investment_value (n.lit 0))) [
        | inl h ↦ rw h (
            length-held_revenue (s.investment_value ⊗ (n.lit 1 ⊖ rate)) s.sales_months s.period
              s.sales_months 0 _
            ∙ before)
        | inr h ↦ rw h before
      ]

  -- However the costs of a scheme are timed and however it sells, phased or not, the series of costs
  -- and that of revenue have one entry for each month of the programme and one for month 0.
  pub series_span_programme :
      (input : AppraisalInput R) (build_mult : R) (s : Scheme R)
      → (length (cost_series input build_mult s) ≡ total_months s + 1)
        × (length (revenue_series input s) ≡ total_months s + 1)
  unfolding cost_series revenue_series
  series_span_programme input bm s = (
    length-costs_by input bm s s.phase_calc (profile_or scurve input.finance.spend_profile),
    length-revenue_by input s s.phase_calc,
  )
