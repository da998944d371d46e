-- ===== src/Engine/Irr.antt =====
-- packages/appraisal-engine/src/engine.ts, `irr` and `annualise`.
use apex_appraise.Common.{if◌then◌else◌, ℕ, zero, suc, ◌+◌, Option, none, some, List, [], ◌∷◌}
use apex_appraise.Engine.Number.{Number, ◌⊕◌, ◌⊖◌, ◌⊗◌, ◌⊘◌, gt, or_default}

-- Where the search for the rate stands: the bracket, the value at its low end, and the rate once found.
pub record Bracket (R : Type 0) : Type 0 where
  pub lo : R
  pub hi : R
  pub flo : R
  pub found : Option R

module _ {R : Type 0} ⦃n : Number R⦄ where
  abbrev pub npv_from : R → R → ℕ → List R → R
  npv_from r acc t [] = acc
  npv_from r acc t (c ∷ cs) = npv_from r (acc ⊕ c ⊘ n.pow (n.lit 1 ⊕ r) (n.lit t)) (t + 1) cs

  unfoldable pub npv : List R → R → R
  npv cashflows r = npv_from r (n.lit 0) 0 cashflows

  -- one halving of the bracket, unless the rate has been found
  unfoldable pub halve : List R → Bracket R → Bracket R
  halve cashflows b = elim b.found [
    | some r ↦ b
    | none ↦
        let mid = (b.lo ⊕ b.hi) ⊘ n.lit 2 in
        let f = npv cashflows mid in
        if n.lt (n.abs f) (n.lit 1)
        then record { lo = b.lo; hi = b.hi; flo = b.flo; found = some mid }
        else (if n.lt (b.flo ⊗ f) (n.lit 0)
            then record { lo = b.lo; hi = mid; flo = b.flo; found = none }
            else record { lo = mid; hi = b.hi; flo = f; found = none })
  ]

  abbrev pub halvings : ℕ → List R → Bracket R → Bracket R
  halvings zero cashflows b = b
  halvings (suc k) cashflows b = halvings k cashflows (halve cashflows b)

  -- the rate found, or the middle of the last bracket
  abbrev pub rate_of : Bracket R → R
  rate_of b = or_default ((b.lo ⊕ b.hi) ⊘ n.lit 2) b.found

  unfoldable pub irr : List R → Option R
  irr cashflows =
      let lo = n.neg (n.lit 95 ⊘ n.lit 100) in
      let flo = npv cashflows lo in
      if gt (flo ⊗ npv cashflows (n.lit 2)) (n.lit 0)
      then none
      else some (
          rate_of
            (halvings 100 cashflows (record { lo = lo; hi = n.lit 2; flo = flo; found = none })))

  abbrev pub annualise : Option R → Option R
  annualise none = none
  annualise (some r) = some (n.pow (n.lit 1 ⊕ r) (n.lit 12) ⊖ n.lit 1)
