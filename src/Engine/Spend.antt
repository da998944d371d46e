-- ===== src/Engine/Spend.antt =====
-- packages/appraisal-engine/src/engine.ts, `buildSpendProfile`: the monthly weights of a spend.
use apex_appraise.Common.{length, ℕ, zero, suc, ◌+◌, ◌-◌, ◌≡◌, refl, ◌∙◌, List, [], ◌∷◌, map, arith}
use apex_appraise.Engine.Number.{Number, ◌⊖◌, ◌⊗◌, ◌⊘◌, or_else, sum_by}
use apex_appraise.Engine.Types.{SpendProfileKey, scurve, even, linear, front, back}

module _ {R : Type 0} ⦃n : Number R⦄ where
  -- the smoothstep at month `i` of `p`
  abbrev pub smoothstep : ℕ → ℕ → R
  smoothstep p i = let t = n.lit i ⊘ n.lit p in t ⊗ t ⊗ (n.lit 3 ⊖ n.lit 2 ⊗ t)

  abbrev pub weight : SpendProfileKey → ℕ → ℕ → R
  weight scurve p i = smoothstep p (i + 1) ⊖ smoothstep p i
  weight even p i = n.lit 1
  weight linear p i = n.lit 1
  weight front p i = n.lit (p - i)
  weight back p i = n.lit (i + 1)

  abbrev pub weights : SpendProfileKey → ℕ → (left i : ℕ) → List R
  weights profile p zero i = []
  weights profile p (suc left) i = weight profile p i ∷ weights profile p left (i + 1)

  unfoldable pub build_spend_profile : R → SpendProfileKey → List R
  build_spend_profile months profile =
      let p = n.whole (n.greatest (n.lit 1) (n.round months)) in
      let w = weights profile p p 0 in
      let sum = or_else (sum_by (λ (x : R). x) w) (n.lit 1) in map (λ x. x ⊘ sum) w

length-weights :
    (R : Type 0) ⦃n : Number R⦄ (profile : SpendProfileKey) (p left i : ℕ)
    → length (weights {R = R} profile p left i) ≡ left
length-weights R profile p zero i = refl
length-weights R profile p (suc left) i = omega (arith, length-weights R profile p left (i + 1))

module _ {R : Type 0} ⦃n : Number R⦄ where
  pub length-map : (f : R → R) (xs : List R) → length (map f xs) ≡ length xs
  length-map f [] = refl
  length-map f (x ∷ xs) = omega (arith, length-map f xs)

  -- A profile has one weight for each month of the period, which is rounded and at least one month.
  pub length-build_spend_profile :
      (months : R) (profile : SpendProfileKey)
      → length (build_spend_profile months profile)
        ≡ n.whole (n.greatest (n.lit 1) (n.round months))
  unfolding build_spend_profile
  length-build_spend_profile months profile =
      let p = n.whole (n.greatest (n.lit 1) (n.round months)) in
      let w = weights profile p p 0 in
      length-map (λ x. x ⊘ or_else (sum_by (λ (x : R). x) w) (n.lit 1)) w
      ∙ length-weights R profile p p 0
