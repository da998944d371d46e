-- ===== src/Engine/Cash.antt =====
-- packages/appraisal-engine/src/cash.ts, lp.ts and stack.ts: cash against the ledger, an investor's
-- position and the capital stack.
use apex_appraise.Common.{
  if◌then◌else◌, keep, Bool, true, false, ◌&&◌, not, Option, none, some, List, [], ◌∷◌,
}
use apex_appraise.Engine.Number.{Number, ◌⊕◌, ◌⊖◌, ◌⊗◌, ◌⊘◌, gt, or_else, or_default, sum_by}

pub data CashClassification : Type 0 where
  unclassified drawdown equity receipt cost : CashClassification

-- The amount is in pence, with a sign.
pub record CashTransaction (R : Type 0) : Type 0 where
  pub amount : R
  pub classification : CashClassification

pub data DrawnSource : Type 0 where
  bank committed : DrawnSource

pub record CashReconciliation (R : Type 0) : Type 0 where
  pub committed : R
  pub paid : R
  pub invoiced_unpaid : R
  pub paid_unbilled : R
  pub drawn : R
  pub unclassified_in : R
  pub drawn_source : DrawnSource

pub record IrrHoldingLike (R : Type 0) : Type 0 where
  pub committed : R
  pub irr : Option R

pub record Mezzanine (R : Type 0) : Type 0 where
  pub to_pct : R
  pub rate_pct : R
  pub draw_factor_pct : R

pub record StackInputs (R : Type 0) : Type 0 where
  pub ltc_pct : R
  pub senior_rate_pct : R
  pub facility : R
  pub construction_cost : R
  pub land_gross : R
  pub months : R
  pub mezz : Option (Mezzanine R)

pub record CapitalStack (R : Type 0) : Type 0 where
  pub senior : R
  pub mezzanine : R
  pub equity : R
  pub total : R
  pub mezzanine_interest : R
  pub blended_rate_pct : R

abbrev pub is_drawdown : CashClassification → Bool
is_drawdown unclassified = false
is_drawdown drawdown = true
is_drawdown equity = false
is_drawdown receipt = false
is_drawdown cost = false

abbrev pub is_unclassified : CashClassification → Bool
is_unclassified unclassified = true
is_unclassified drawdown = false
is_unclassified equity = false
is_unclassified receipt = false
is_unclassified cost = false

abbrev pub is_feed {ℓ} : {A : Type ℓ} → List A → Bool
is_feed [] = false
is_feed (t ∷ txs) = true

module _ {R : Type 0} ⦃n : Number R⦄ where
  abbrev pub is_out : CashTransaction R → Bool
  is_out t = n.lt t.amount (n.lit 0)

  abbrev pub is_in_as : (CashClassification → Bool) → CashTransaction R → Bool
  is_in_as c t = gt t.amount (n.lit 0) && c t.classification

  -- the money in of one class, in pounds
  abbrev pub money_in : (CashClassification → Bool) → List (CashTransaction R) → R
  money_in c txs = sum_by (λ (t : CashTransaction R). t.amount) (keep (is_in_as c) txs) ⊘ n.lit 100

  -- `reconcileCash`; no transactions and no feed are one case.
  unfoldable pub reconcile_cash : R → List (CashTransaction R) → CashReconciliation R
  reconcile_cash ledger txs =
      let paid = sum_by (λ (t : CashTransaction R). n.neg t.amount) (keep is_out txs) ⊘ n.lit 100 in
      record {
        committed = ledger;
        paid = paid;
        invoiced_unpaid = n.greatest (n.lit 0) (ledger ⊖ paid);
        paid_unbilled = n.greatest (n.lit 0) (paid ⊖ ledger);
        drawn = if is_feed txs then money_in is_drawdown txs else ledger;
        unclassified_in = money_in is_unclassified txs;
        drawn_source = if is_feed txs then bank else committed;
      }

  -- `dpi`
  unfoldable pub dpi : (distributed called : R) → Option R
  dpi distributed called = if n.le called (n.lit 0) then none else some (distributed ⊘ called)

  abbrev pub is_scored : IrrHoldingLike R → Bool
  is_scored h = elim h.irr [ none ↦ false | some irr ↦ gt h.committed (n.lit 0) ]

  -- `weightedIrr`
  unfoldable pub weighted_irr : List (IrrHoldingLike R) → Option R
  weighted_irr holdings =
      let scored = keep is_scored holdings in
      let capital = sum_by (λ (h : IrrHoldingLike R). h.committed) scored in
      if not (is_feed scored)
      then none
      else if n.le capital (n.lit 0)
      then none
      else some (
          sum_by (λ (h : IrrHoldingLike R). or_default (n.lit 0) h.irr ⊗ h.committed) scored
          ⊘ capital)

  -- `mezzTo`
  abbrev pub mezz_to : R → Option (Mezzanine R) → R
  mezz_to ltc none = ltc
  mezz_to ltc (some m) = n.greatest m.to_pct ltc

  abbrev pub mezz_rate : Option (Mezzanine R) → R
  mezz_rate none = n.lit 0
  mezz_rate (some m) = m.rate_pct

  abbrev pub mezz_interest : (mezzanine years : R) → Option (Mezzanine R) → R
  mezz_interest mezzanine years none = n.lit 0
  mezz_interest mezzanine years (some m) =
      (mezzanine ⊗ m.rate_pct ⊘ n.lit 100) ⊗ years ⊗ (m.draw_factor_pct ⊘ n.lit 100)

  -- `capitalStack`
  unfoldable pub capital_stack : StackInputs R → CapitalStack R
  capital_stack inp =
      let ltc = inp.ltc_pct in
      let to = mezz_to ltc inp.mezz in
      let construction =
        if gt ltc (n.lit 0) then inp.facility ⊘ (ltc ⊘ n.lit 100) else inp.construction_cost in
      let senior = construction ⊗ ltc ⊘ n.lit 100 in
      let mezzanine = construction ⊗ (to ⊖ ltc) ⊘ n.lit 100 in
      let equity =
        n.greatest (n.lit 0) (construction ⊗ (n.lit 1 ⊖ to ⊘ n.lit 100) ⊕ inp.land_gross) in
      let debt = senior ⊕ mezzanine in
      record {
        senior = senior;
        mezzanine = mezzanine;
        equity = equity;
        total = or_else (senior ⊕ mezzanine ⊕ equity) (n.lit 1);
        mezzanine_interest = mezz_interest mezzanine (inp.months ⊘ n.lit 12) inp.mezz;
        blended_rate_pct =
            if gt debt (n.lit 0)
            then (senior ⊗ inp.senior_rate_pct ⊕ mezzanine ⊗ mezz_rate inp.mezz) ⊘ debt
            else n.lit 0;
      }
