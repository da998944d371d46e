-- ===== src/Engine/Monitoring/Budgets.antt =====
-- The budgets of a cost plan add up to the appraised cost, to the penny.
use apex_appraise.Common.{◌≡◌, sym, ap, ◌∙◌, List, [], ◌∷◌}
use apex_appraise.Engine.Number.{Number, sum_by}
use apex_appraise.Engine.Monitoring.{
  TradeLike, TradeBudget, share_pence, budgets_from, trade_budgets,
}
use mathlib.Core.Int.{ℤ, pos, ◌+ℤ◌, ◌-ℤ◌, -ℤ-+ℤ_cancel, +ℤ_comm, +ℤ_assoc, +ℤ_idl}

abbrev pub sum_pence : List TradeBudget → ℤ
sum_pence [] = pos 0
sum_pence (b ∷ budgets) = b.budget_pence +ℤ sum_pence budgets

-- What is left is what the last trade takes.
allocated-rest : (total allocated : ℤ) → allocated +ℤ ((total -ℤ allocated) +ℤ pos 0) ≡ total
allocated-rest total allocated =
    ap (λ x. allocated +ℤ x) (+ℤ_comm (total -ℤ allocated) (pos 0) ∙ +ℤ_idl (total -ℤ allocated))
    ∙ +ℤ_comm allocated (total -ℤ allocated)
    ∙ -ℤ-+ℤ_cancel total allocated

module _ {R : Type 0} ⦃n : Number R⦄ (big_int : R → ℤ) (number : ℤ → R) where
  budgets_from-sum :
      (total : ℤ) (rate_sum : R) (allocated : ℤ) (t : TradeLike R) (trades : List (TradeLike R))
      → allocated +ℤ sum_pence (budgets_from big_int number total rate_sum allocated (t ∷ trades))
        ≡ total
  budgets_from-sum total rate_sum allocated t [] = allocated-rest total allocated
  budgets_from-sum total rate_sum allocated t (next ∷ trades) =
      let share = share_pence big_int number total rate_sum t in
      sym (
        +ℤ_assoc allocated share (
          sum_pence
            (budgets_from big_int number total rate_sum (allocated +ℤ share) (next ∷ trades))))
      ∙ budgets_from-sum total rate_sum (allocated +ℤ share) next trades

  -- Where there is a trade, the budgets of a cost plan add up to the build cost in pence, whatever the rates are
  -- and however the shares are rounded.
  pub trade_budgets-sum :
      (t : TradeLike R) (trades : List (TradeLike R)) (build : R)
      → sum_pence (trade_budgets big_int number (t ∷ trades) build)
        ≡ big_int (n.round (n.mul build (n.lit 100)))
  unfolding trade_budgets
  trade_budgets-sum t trades build =
      let total = big_int (n.round (n.mul build (n.lit 100))) in
      let rate_sum = sum_by (λ (t : TradeLike R). t.rate) (t ∷ trades) in
      sym (+ℤ_idl (sum_pence (budgets_from big_int number total rate_sum (pos 0) (t ∷ trades))))
      ∙ budgets_from-sum total rate_sum (pos 0) t trades
