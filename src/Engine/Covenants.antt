-- ===== src/Engine/Covenants.antt =====
-- packages/appraisal-engine/src/covenants.ts, less the labels of the tests.
use apex_appraise.Table.Unique.{All-append}
use apex_appraise.Common.{
  if◌then◌else◌, Bool-cases, keep, All, ◌≡◌, refl, sym, subst, inl, inr, Bool, true, false, Option,
  none, some, List, [], ◌∷◌, ◌++◌, arith,
}
use apex_appraise.Engine.Number.{Number, ◌⊖◌, ◌⊗◌, ◌⊘◌, gt, ◌≼◌, IsOrdered}

pub data CovenantKey : Type 0 where
  ltgdv ltc profit_on_cost : CovenantKey

pub data Direction : Type 0 where
  at_most at_least : Direction

pub record CovenantLimits (R : Type 0) : Type 0 where
  pub ltgdv_max_pct : Option R
  pub ltc_max_pct : Option R
  pub min_profit_on_cost_pct : Option R

pub record CovenantMetrics (R : Type 0) : Type 0 where
  pub facility : R
  pub total_cost : R
  pub gdv : R
  pub profit : R

pub record CovenantTest (R : Type 0) : Type 0 where
  pub key : CovenantKey
  pub actual_pct : R
  pub limit_pct : R
  pub direction : Direction
  pub breached : Bool
  pub headroom_pts : R

pub record CovenantResult (R : Type 0) : Type 0 where
  pub tests : List (CovenantTest R)
  pub breaches : List (CovenantTest R)
  pub untested : Bool

keep-append :
    {A : Type 0} → (p : A → Bool) (xs ys : List A) → keep p (xs ++ ys) ≡ keep p xs ++ keep p ys
keep-append p [] ys = refl
keep-append p (x ∷ xs) ys = ground (arith, keep-append p xs ys)

module _ {R : Type 0} ⦃n : Number R⦄ where
  abbrev pub headroom : Direction → (actual limit : R) → R
  headroom at_most actual limit = limit ⊖ actual
  headroom at_least actual limit = actual ⊖ limit

  -- `push`: no test without a limit
  abbrev pub pushed : CovenantKey → R → Option R → Direction → List (CovenantTest R)
  pushed key actual none direction = []
  pushed key actual (some limit) direction =
      record {
        key = key;
        actual_pct = actual;
        limit_pct = limit;
        direction = direction;
        breached = n.lt (headroom direction actual limit) (n.lit 0);
        headroom_pts = headroom direction actual limit;
      }
      ∷ []

  abbrev pub pct_of : R → R → R
  pct_of part whole = (part ⊘ whole) ⊗ n.lit 100

  abbrev pub covenant_tests : CovenantMetrics R → CovenantLimits R → List (CovenantTest R)
  covenant_tests m limits =
      (if gt m.gdv (n.lit 0)
        then pushed ltgdv (pct_of m.facility m.gdv) limits.ltgdv_max_pct at_most
        else [])
      ++ (if gt m.total_cost (n.lit 0)
          then pushed ltc (pct_of m.facility m.total_cost) limits.ltc_max_pct at_most
            ++ pushed profit_on_cost (pct_of m.profit m.total_cost) limits.min_profit_on_cost_pct
                at_least
          else [])

  -- `testCovenants`
  unfoldable pub test_covenants : CovenantMetrics R → CovenantLimits R → CovenantResult R
  test_covenants m limits =
      let tests = covenant_tests m limits in
      record {
        tests = tests;
        breaches = keep (λ (t : CovenantTest R). t.breached) tests;
        untested = elim tests [ [] ↦ true | t ∷ ts ↦ false ];
      }

  -- A ratio that is on the wrong side of its limit.
  abbrev pub IsOver : CovenantTest R → Type 0
  IsOver t = elim t.direction [
    | at_most ↦ ¬ (t.actual_pct ≼ t.limit_pct)
    | at_least ↦ ¬ (t.limit_pct ≼ t.actual_pct)
  ]

  module _ (laws : IsOrdered R) where
    negative-over : (a b : R) → n.lt (b ⊖ a) (n.lit 0) ≡ true → ¬ (a ≼ b)
    negative-over a b h le =
        let up : n.lit 0 ≼ b ⊖ a =
          subst (λ x. x ≼ b ⊖ a) (laws.sub_self a) (laws.sub_mono a b a a le (laws.le_refl a)) in
        ground (arith, up, (laws.lt_iff (b ⊖ a) (n.lit 0)).0 h)

    pushed-IsOver :
        (key : CovenantKey) (actual : R) (limit : Option R) (direction : Direction)
        → All IsOver (keep (λ (t : CovenantTest R). t.breached) (pushed key actual limit direction))
    pushed-IsOver key actual none direction = tt
    pushed-IsOver key actual (some limit) at_most =
        elim (Bool-cases (n.lt (limit ⊖ actual) (n.lit 0))) [
          | inl e ↦ rw e (negative-over actual limit e, tt)
          | inr e ↦ rw e tt
        ]
    pushed-IsOver key actual (some limit) at_least =
        elim (Bool-cases (n.lt (actual ⊖ limit) (n.lit 0))) [
          | inl e ↦ rw e (negative-over limit actual e, tt)
          | inr e ↦ rw e tt
        ]

    append-IsOver :
        (xs ys : List (CovenantTest R))
        → All IsOver (keep (λ (t : CovenantTest R). t.breached) xs)
        → All IsOver (keep (λ (t : CovenantTest R). t.breached) ys)
        → All IsOver (keep (λ (t : CovenantTest R). t.breached) (xs ++ ys))
    append-IsOver xs ys a b =
        subst (All IsOver) (sym (keep-append (λ (t : CovenantTest R). t.breached) xs ys))
          (All-append IsOver _ _ a b)

    tests_if :
        (c : Bool) (xs : List (CovenantTest R))
        → All IsOver (keep (λ (t : CovenantTest R). t.breached) xs)
        → All IsOver (keep (λ (t : CovenantTest R). t.breached) (if c then xs else []))
    tests_if true xs a = a
    tests_if false xs a = tt

    -- A breach that is reported is a ratio on the wrong side of its limit, rounding of the headroom
    -- notwithstanding, for numbers whose rounded operations keep order.
    pub test_covenants-IsOver :
        (m : CovenantMetrics R) (limits : CovenantLimits R)
        → All IsOver (test_covenants m limits).breaches
    unfolding test_covenants
    test_covenants-IsOver m limits =
        let gdv_tests = pushed ltgdv (pct_of m.facility m.gdv) limits.ltgdv_max_pct at_most in
        let cost_tests =
          pushed ltc (pct_of m.facility m.total_cost) limits.ltc_max_pct at_most
          ++ pushed profit_on_cost (pct_of m.profit m.total_cost) limits.min_profit_on_cost_pct
              at_least in
        append-IsOver (if gt m.gdv (n.lit 0) then gdv_tests else [])
          (if gt m.total_cost (n.lit 0) then cost_tests else [])
          (tests_if (gt m.gdv (n.lit 0)) gdv_tests
            (pushed-IsOver ltgdv (pct_of m.facility m.gdv) limits.ltgdv_max_pct at_most))
          (tests_if (gt m.total_cost (n.lit 0)) cost_tests (
            append-IsOver (pushed ltc (pct_of m.facility m.total_cost) limits.ltc_max_pct at_most)
              (pushed profit_on_cost (pct_of m.profit m.total_cost) limits.min_profit_on_cost_pct
                at_least)
              (pushed-IsOver ltc (pct_of m.facility m.total_cost) limits.ltc_max_pct at_most)
              (pushed-IsOver profit_on_cost (pct_of m.profit m.total_cost)
                limits.min_profit_on_cost_pct at_least)))
