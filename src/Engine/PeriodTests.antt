-- ===== src/Engine/PeriodTests.antt =====
-- Roll-ups, cash, the capital stack and cost plans on small inputs, in thousandths.
use apex_appraise.Common.{All, ℕ, zero, suc, ◌*◌, String, ◌≡◌, refl, List, [], ◌∷◌}
use apex_appraise.Engine.Types.{CashflowRow}
use apex_appraise.Engine.Sample.{thousandths}
use apex_appraise.Engine.Rollups.{roll_up_cashflow, quarter}
use apex_appraise.Engine.Rollups.Periods.{IsTiling, IsSumOf, roll_up_cashflow-IsTiling}
use apex_appraise.Engine.Monitoring.{TradeLike, trade_budgets}
use apex_appraise.Engine.Monitoring.Budgets.{sum_pence, trade_budgets-sum}
use mathlib.Core.Int.{ℤ, pos, suc_ℤ}

abbrev ledger_row : ℕ → ℕ → CashflowRow ℕ
ledger_row m cum = record { m = m; cost = m * 1_000; intr = 100; rev = 0; net = 0; cum = cum }

abbrev ledger : List (CashflowRow ℕ)
ledger = ledger_row 1 10 ∷ ledger_row 2 20 ∷ ledger_row 3 30 ∷ ledger_row 4 40 ∷ []

quarters :
    roll_up_cashflow ledger quarter
    ≡ record { from = 1; to = 3; cost = 6_000; intr = 300; rev = 0; net = 0; cum = 30 }
      ∷ record { from = 4; to = 4; cost = 4_000; intr = 100; rev = 0; net = 0; cum = 40 }
      ∷ []
unfolding roll_up_cashflow
quarters = refl

roll_up_cashflow-IsTiling_example :
    IsTiling 1 5 (roll_up_cashflow ledger quarter)
    × All (IsSumOf ledger) (roll_up_cashflow ledger quarter)
roll_up_cashflow-IsTiling_example =
    roll_up_cashflow-IsTiling 1 ledger quarter (refl, (refl, (refl, (refl, tt))))

abbrev as_integer : ℕ → ℤ
as_integer zero = pos 0
as_integer (suc k) = suc_ℤ (as_integer k)

abbrev trade : String → ℕ → TradeLike ℕ
trade label rate = record { label = label; rate = rate * 1_000 }

-- an integer of this test, which is not negative
abbrev as_thousandths : ℤ → ℕ
as_thousandths z = 0

trade_budgets-sum_example :
    sum_pence (trade_budgets as_integer as_thousandths (trade "Shell" 2 ∷ trade "Roof" 1 ∷ []) 10)
    ≡ as_integer (thousandths.round (thousandths.mul 10 (thousandths.lit 100)))
trade_budgets-sum_example =
    trade_budgets-sum as_integer as_thousandths (trade "Shell" 2) (trade "Roof" 1 ∷ []) 10
