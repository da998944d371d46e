-- ===== src/Engine/Comparison.antt =====
-- packages/appraisal-engine/src/compare.ts: what changed between two versions of an appraisal. A path is a
-- prefix and, for a line of a list, the label of the line; the wording and the unit follow from it.
pub mod Areas
use apex_appraise.Common.{
  ltb, leb, ◌==◌, if◌then◌else◌, str_eq, str_eq_iff, str_eq_self, Bool-cases, Option-cases, length,
  get_elem?, get_or, set, keep, take, drop, any, All, length-append, length-drop, length-take,
  append-take, Result, ◌>>=◌, ◌>>◌, guard, OnOk, OnOk-bind, OnOk-guard, OnOk-any, ok, err,
  insert_by, sort_by, IsSortedBy, sort_by-IsSortedBy, insert_with, sort_with, All-sort_with, ℕ,
  zero, suc, ◌+◌, ◌-◌, ◌*◌, ◌/◌, ◌%◌, ◌^◌, ◌≤◌, ◌<◌, min, max, String, ◌≡◌, refl, sym, ap, ◌∙◌,
  subst, ◌≢◌, ◌↔◌, ◌⊎◌, inl, inr, Bool, true, false, ◌&&◌, ◌||◌, not, Option, none, some, List, [],
  ◌∷◌, ◌++◌, map, arith,
}
use apex_appraise.Table.Keyed.{
  upserted, has, row, row-key, row-update_many, row-update_key, row-upsert, row-delete_many,
}
use apex_appraise.Engine.Number.{
  Number, ◌⊕◌, ◌⊖◌, ◌⊗◌, ◌⊘◌, num, gt, or_else, or_default, clamp, clamp_whole, sum_from, sum_by,
  ◌≼◌, IsOrdered,
}
use apex_appraise.Engine.Types.{
  SpendProfileKey, SiteMode, IncomeMethod, AppraisalUnit, CostTiming, BuildTrade, OtherCost,
  FinanceInput, IncomeLine, IncomeInput, IncomeLineResult, IncomeResult, Phase, Site, Disposal,
  AppraisalInput, PhaseCalc, AppraisalResult, CashflowRow, scurve, even, linear, front, back,
  residual, perpetuity, term_reversion, hardcore,
}

pub data ChangeKind : Type 0 where
  changed added removed : ChangeKind

pub record FieldChange (R : Type 0) : Type 0 where
  pub path : String
  pub line : Option String
  pub kind : ChangeKind
  pub before : Option R
  pub after : Option R

pub record AppraisalDiff (R : Type 0) : Type 0 where
  pub changes : List (FieldChange R)
  pub identical : Bool

pub record ScalarSpec (R : Type 0) : Type 0 where
  pub path : String
  pub get : AppraisalInput R → Option R

-- An entry of a map from labels to values.
pub record Entry (R : Type 0) : Type 0 where
  pub label : String
  pub value : R

abbrev pub gather {ℓ κ} : {A : Type ℓ} {B : Type κ} → (A → List B) → List A → List B
gather f [] = []
gather f (x ∷ xs) = f x ++ gather f xs

abbrev pub is_empty {ℓ} : {A : Type ℓ} → List A → Bool
is_empty [] = true
is_empty (x ∷ xs) = false

module _ {R : Type 0} where
  abbrev pub entry_label : Entry R → String
  entry_label e = e.label

  -- `map.set`: a label that the map has keeps its place.
  abbrev pub put : String → R → List (Entry R) → List (Entry R)
  put k v [] = record { label = k; value = v } ∷ []
  put k v (e ∷ m) =
      if str_eq e.label k then record { label = e.label; value = v } ∷ m else e ∷ put k v m

  abbrev pub put_all {ℓ} :
      {A : Type ℓ} → (A → String) → (A → R) → List A → List (Entry R) → List (Entry R)
  put_all label_of value_of [] m = m
  put_all label_of value_of (x ∷ xs) m =
      put_all label_of value_of xs (put (label_of x) (value_of x) m)

  -- `SCALARS`
  abbrev pub scalars : List (ScalarSpec R)
  scalars =
      record { path = "efficiency"; get = λ i. some i.efficiency }
      ∷ record { path = "profFeePct"; get = λ i. some i.prof_fee_pct }
      ∷ record { path = "contingencyPct"; get = λ i. some i.contingency_pct }
      ∷ record { path = "finance.ltcPct"; get = λ i. some i.finance.ltc_pct }
      ∷ record { path = "finance.ratePct"; get = λ i. some i.finance.rate_pct }
      ∷ record { path = "finance.periodMonths"; get = λ i. some i.finance.period_months }
      ∷ record { path = "finance.salesMonths"; get = λ i. some i.finance.sales_months }
      ∷ record { path = "finance.arrangementFeePct"; get = λ i. some i.finance.arrangement_fee_pct }
      ∷ record {
        path = "finance.absorptionUnitsPerMonth";
        get = λ i. i.finance.absorption_units_per_month;
      }
      ∷ record { path = "site.landFixed"; get = λ i. some i.site.land_fixed }
      ∷ record { path = "site.acqPct"; get = λ i. some i.site.acq_pct }
      ∷ record { path = "disposal.agentPct"; get = λ i. some i.disposal.agent_pct }
      ∷ record { path = "disposal.legalPct"; get = λ i. some i.disposal.legal_pct }
      ∷ record { path = "targetProfitOnGdvPct"; get = λ i. some i.target_profit_on_gdv_pct }
      ∷ []

  -- `b === undefined ? 'added' : a === undefined ? 'removed' : 'changed'`
  abbrev pub kind_of : Option R → Option R → ChangeKind
  kind_of none a = added
  kind_of (some b) none = removed
  kind_of (some b) (some a) = changed

  abbrev pub income_lines : Option (IncomeInput R) → ℕ
  income_lines none = 0
  income_lines (some income) = length income.lines

  abbrev pub income_yield : Option (IncomeInput R) → Option R
  income_yield none = none
  income_yield (some income) = some income.yield_pct

  abbrev pub phase_count : Option (List (Phase R)) → ℕ
  phase_count none = 0
  phase_count (some phases) = length phases

module _ {R : Type 0} ⦃n : Number R⦄ where
  -- `near`: within 1e-9
  abbrev pub near_value : R → R → Bool
  near_value a b = n.lt (n.abs (a ⊖ b)) (n.lit 1 ⊘ n.lit 1_000_000_000)

  abbrev pub near : Option R → Option R → Bool
  near none none = true
  near none (some b) = false
  near (some a) none = false
  near (some a) (some b) = near_value a b

  abbrev pub scalar_change : (path : String) → (b a : Option R) → List (FieldChange R)
  scalar_change path b a =
      if near b a
      then []
      else record { path = path; line = none; kind = kind_of b a; before = b; after = a } ∷ []

  -- a line of the first version, against the map of the second
  abbrev pub line_change : (prefix : String) → List (Entry R) → Entry R → List (FieldChange R)
  line_change prefix a e = elim (row entry_label e.label a) [
    | none ↦
        record {
          path = prefix;
          line = some e.label;
          kind = removed;
          before = some e.value;
          after = none;
        }
        ∷ []
    | some other ↦
        if near_value e.value other.value
        then []
        else record {
          path = prefix;
          line = some e.label;
          kind = changed;
          before = some e.value;
          after = some other.value;
        }
          ∷ []
  ]

  -- a line of the second version that the first does not have
  abbrev pub line_added : (prefix : String) → List (Entry R) → Entry R → List (FieldChange R)
  line_added prefix b e = elim (row entry_label e.label b) [
    | none ↦
        record {
          path = prefix;
          line = some e.label;
          kind = added;
          before = none;
          after = some e.value;
        }
        ∷ []
    | some other ↦ []
  ]

  abbrev pub diff_maps : (prefix : String) → (b a : List (Entry R)) → List (FieldChange R)
  diff_maps prefix b a = gather (line_change prefix a) b ++ gather (line_added prefix b) a

  -- `diffByLabel`
  abbrev pub diff_by_label {ℓ} :
      {A : Type ℓ}
      → (prefix : String) → (A → String)
      → (A → R)
      → (before after : List A) → List (FieldChange R)
  diff_by_label prefix label_of value_of before after =
      diff_maps prefix (put_all label_of value_of before []) (put_all label_of value_of after [])

  abbrev pub count_change : (path : String) → (b a : ℕ) → List (FieldChange R)
  count_change path b a =
      if b == a
      then []
      else record {
        path = path;
        line = none;
        kind = changed;
        before = some (n.lit b);
        after = some (n.lit a);
      }
        ∷ []

  abbrev pub all_changes : (before after : AppraisalInput R) → List (FieldChange R)
  all_changes before after =
      gather (λ (s : ScalarSpec R). scalar_change s.path (s.get before) (s.get after)) scalars
      ++ (diff_by_label "units.cap" (λ (u : AppraisalUnit R). u.label) (λ u. u.cap) before.units
            after.units
          ++ (diff_by_label "units.count" (λ (u : AppraisalUnit R). u.label) (λ u. u.count)
                before.units after.units
              ++ (diff_by_label "trades" (λ (t : BuildTrade R). t.label) (λ t. t.rate) before.trades
                    after.trades
                  ++ (diff_by_label "otherCosts" (λ (o : OtherCost R). o.label) (λ o. o.amount)
                        before.other_costs after.other_costs
                      ++ (count_change "phases" (phase_count before.phases)
                            (phase_count after.phases)
                          ++ (count_change "income.lines" (income_lines before.income)
                                (income_lines after.income)
                              ++ scalar_change "income.yieldPct" (income_yield before.income)
                                  (income_yield after.income)))))))

  -- `compareAppraisals`
  unfoldable pub compare_appraisals : (before after : AppraisalInput R) → AppraisalDiff R
  compare_appraisals before after =
      let changes = all_changes before after in
      record { changes = changes; identical = is_empty changes }
