-- ===== src/Engine/Rollups/Periods.antt =====
-- The periods of a rolled up cashflow: they follow one another from the first month to the last, and each
-- has the sums of its months.
use apex_appraise.Common.{
  leb, length, keep, take, drop, All, ℕ, zero, suc, ◌+◌, ◌-◌, ◌≤◌, ◌≡◌, refl, sym, subst, Bool,
  ◌&&◌, List, [], ◌∷◌, arith,
}
use apex_appraise.Engine.Number.{Number, sum_by}
use apex_appraise.Engine.Types.{CashflowRow}
use apex_appraise.Engine.Rollups.{
  Periodicity, PeriodRow, size_of, last_of, period_of, periods_from, roll_up_cashflow,
}

module _ {R : Type 0} ⦃n : Number R⦄ where
  -- the rows are numbered from `m`
  abbrev pub IsNumbered : ℕ → List (CashflowRow R) → Type 0
  IsNumbered m [] = Unit
  IsNumbered m (r ∷ rows) = (r.m ≡ m) × IsNumbered (suc m) rows

  -- the periods follow one another from month `m`, and the month after the last is `end`
  abbrev pub IsTiling : (m end : ℕ) → List (PeriodRow R) → Type 0
  IsTiling m end [] = m ≡ end
  IsTiling m end (p ∷ periods) = (p.from ≡ m) × (p.from ≤ p.to) × IsTiling (suc p.to) end periods

  abbrev pub is_within : PeriodRow R → CashflowRow R → Bool
  is_within p r = leb p.from r.m && leb r.m p.to

  abbrev pub IsSum : List (CashflowRow R) → PeriodRow R → Type 0
  IsSum rows p =
      (p.cost ≡ sum_by (λ (r : CashflowRow R). r.cost) rows)
      × (p.intr ≡ sum_by (λ (r : CashflowRow R). r.intr) rows)
      × (p.rev ≡ sum_by (λ (r : CashflowRow R). r.rev) rows)
      × (p.net ≡ sum_by (λ (r : CashflowRow R). r.net) rows)

  -- the sums of a period are those of the months that it covers
  abbrev pub IsSumOf : List (CashflowRow R) → PeriodRow R → Type 0
  IsSumOf rows p = IsSum (keep (is_within p) rows) p

  IsNumbered-drop :
      (k m : ℕ) (rows : List (CashflowRow R))
      → IsNumbered m rows
      → IsNumbered (m + length (take k rows)) (drop k rows)
  IsNumbered-drop zero m rows c = subst (λ j. IsNumbered j rows) (omega arith) c
  IsNumbered-drop (suc k) m [] c = tt
  IsNumbered-drop (suc k) m (r ∷ rows) c =
      subst (λ j. IsNumbered j (drop k rows)) (omega arith) (IsNumbered-drop k (suc m) rows c.1)

  last_of-take :
      (k m : ℕ) (first : CashflowRow R) (rest : List (CashflowRow R))
      → first.m ≡ m
      → IsNumbered (suc m) rest
      → (last_of first (take k rest)).m ≡ m + length (take k rest)
  last_of-take zero m first rest e c = omega (arith, e)
  last_of-take (suc k) m first [] e c = omega (arith, e)
  last_of-take (suc k) m first (r ∷ rest) e c = omega (arith, last_of-take k (suc m) r rest c.0 c.1)

  length-take-drop :
      (k : ℕ) (rows : List (CashflowRow R))
      → length (take k rows) + length (drop k rows) ≡ length rows
  length-take-drop zero rows = omega arith
  length-take-drop (suc k) [] = omega arith
  length-take-drop (suc k) (r ∷ rows) = omega (arith, length-take-drop k rows)

  IsTiling-periods_from :
      (turns more m : ℕ) (rows : List (CashflowRow R))
      → length rows ≤ turns
      → IsNumbered m rows
      → IsTiling m (m + length rows) (periods_from turns more rows)
  IsTiling-periods_from zero more m [] h c = omega arith
  IsTiling-periods_from zero more m (r ∷ rows) h c = absurd (omega (arith, h))
  IsTiling-periods_from (suc turns) more m [] h c = omega arith
  IsTiling-periods_from (suc turns) more m (first ∷ rest) h c =
      let last = last_of-take more m first rest c.0 c.1 in
      let counted = length-take-drop more rest in
      (
        c.0,
        omega (arith, c.0, last),
        subst
            (λ j. IsTiling j (m + length (first ∷ rest)) (periods_from turns more (drop more rest)))
            (omega (arith, last))
            (subst
              (λ e.
                IsTiling (suc m + length (take more rest)) e
                  (periods_from turns more (drop more rest)))
              (omega (arith, counted))
              (IsTiling-periods_from turns more (suc m + length (take more rest)) (drop more rest)
                (omega (arith, counted, h)) (IsNumbered-drop more (suc m) rest c.1))),
      )

  is_between : (a b : ℕ) → CashflowRow R → Bool
  is_between a b r = leb a r.m && leb r.m b

  -- rows before the months of a period do not count
  keep-drop :
      (k m a b : ℕ) (rows : List (CashflowRow R))
      → IsNumbered m rows
      → m + length (take k rows) ≤ a
      → keep (is_between a b) (drop k rows) ≡ keep (is_between a b) rows
  unfolding is_between
  keep-drop zero m a b rows c h = refl
  keep-drop (suc k) m a b [] c h = refl
  keep-drop (suc k) m a b (r ∷ rows) c h = ground (arith, c.0, h, keep-drop k (suc m) a b rows c.1)

  -- rows after the months of a period do not count
  keep-late :
      (m a b : ℕ) (rows : List (CashflowRow R))
      → IsNumbered m rows
      → suc b ≤ m
      → keep (is_between a b) rows ≡ []
  unfolding is_between
  keep-late m a b [] c h = refl
  keep-late m a b (r ∷ rows) c h = ground (arith, c.0, h, keep-late (suc m) a b rows c.1)

  keep-take :
      (k m a b : ℕ) (rows : List (CashflowRow R))
      → IsNumbered m rows
      → a ≤ m
      → suc b ≡ m + length (take k rows)
      → keep (is_between a b) rows ≡ take k rows
  unfolding is_between
  keep-take zero m a b rows c h e = keep-late m a b rows c (omega (arith, e))
  keep-take (suc k) m a b [] c h e = refl
  keep-take (suc k) m a b (r ∷ rows) c h e =
      ground (arith, c.0, h, e, keep-take k (suc m) a b rows c.1)

  IsTiling-All :
      (m end : ℕ) (periods : List (PeriodRow R))
      → IsTiling m end periods
      → All (λ p. m ≤ p.from) periods
  IsTiling-All m end [] t = tt
  IsTiling-All m end (p ∷ periods) t = (
    omega (arith, t.0),
    All-from (suc p.to) m periods (omega (arith, t.0, t.1))
        (IsTiling-All (suc p.to) end periods t.2),
  )
    where
      All-from :
          (a b : ℕ) (ps : List (PeriodRow R))
          → b ≤ a
          → All (λ p. a ≤ p.from) ps
          → All (λ p. b ≤ p.from) ps
      All-from a b [] h x = tt
      All-from a b (q ∷ ps) h x = (omega (arith, h, x.0), All-from a b ps h x.1)

  -- What is a sum over the rows that are left is one over all of them, for later months.
  All-IsSumOf :
      (k m : ℕ) (rows : List (CashflowRow R)) (periods : List (PeriodRow R))
      → IsNumbered m rows
      → All (λ p. m + length (take k rows) ≤ p.from) periods
      → All (IsSumOf (drop k rows)) periods
      → All (IsSumOf rows) periods
  unfolding is_between
  All-IsSumOf k m rows [] c a b = tt
  All-IsSumOf k m rows (p ∷ periods) c a b = (
    subst (λ ks. IsSum ks p) (keep-drop k m p.from p.to rows c a.0) b.0,
    All-IsSumOf k m rows periods c a.1 b.1,
  )

  periods_from-IsSumOf :
      (turns more m : ℕ) (rows : List (CashflowRow R))
      → length rows ≤ turns
      → IsNumbered m rows
      → All (IsSumOf rows) (periods_from turns more rows)
  unfolding is_between
  periods_from-IsSumOf zero more m rows h c = tt
  periods_from-IsSumOf (suc turns) more m [] h c = tt
  periods_from-IsSumOf (suc turns) more m (first ∷ rest) h c =
      let last = last_of-take more m first rest c.0 c.1 in
      let counted = length-take-drop more rest in
      let later = IsNumbered-drop more (suc m) rest c.1 in
      let p = period_of first (take more rest) in
      (
        subst (λ ks. IsSum ks p)
            (sym (
              keep-take (suc more) m p.from p.to (first ∷ rest) c (omega (arith, c.0))
                (omega (arith, last))))
            (refl, refl, refl, refl),
        All-IsSumOf (suc more) m (first ∷ rest) (periods_from turns more (drop more rest)) c
            (subst (λ j. All (λ p. j ≤ p.from) (periods_from turns more (drop more rest)))
              (omega arith)
              (IsTiling-All (suc m + length (take more rest)) _
                (periods_from turns more (drop more rest))
                (IsTiling-periods_from turns more (suc m + length (take more rest)) (drop more rest)
                  (omega (arith, counted, h)) later)))
            (periods_from-IsSumOf turns more (suc m + length (take more rest)) (drop more rest)
              (omega (arith, counted, h)) later),
      )

  -- A cashflow whose rows are numbered from a month on is rolled up, by the month, the quarter or the year, into
  -- periods that follow one another without a gap from its first month to its last, and the sums of a period are
  -- those of the months that it covers.
  pub roll_up_cashflow-IsTiling :
      (m : ℕ) (rows : List (CashflowRow R)) (period : Periodicity)
      → IsNumbered m rows
      → IsTiling m (m + length rows) (roll_up_cashflow rows period)
        × All (IsSumOf rows) (roll_up_cashflow rows period)
  unfolding roll_up_cashflow
  roll_up_cashflow-IsTiling m rows period c = (
    IsTiling-periods_from (length rows) (size_of period - 1) m rows (omega arith) c,
    periods_from-IsSumOf (length rows) (size_of period - 1) m rows (omega arith) c,
  )
