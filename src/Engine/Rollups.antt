-- ===== src/Engine/Rollups.antt =====
-- packages/appraisal-engine/src/rollups.ts, less the labels of the periods.
pub mod Periods
use apex_appraise.Common.{
  ltb, leb, ◌==◌, if◌then◌else◌, str_eq, str_eq_iff, str_eq_self, Bool-cases, Option-cases, length,
  get_elem?, get_or, set, keep, take, drop, any, All, length-append, length-drop, length-take,
  append-take, Result, ◌>>=◌, ◌>>◌, guard, OnOk, OnOk-bind, OnOk-guard, OnOk-any, ok, err,
  insert_by, sort_by, IsSortedBy, sort_by-IsSortedBy, insert_with, sort_with, All-sort_with, ℕ,
  zero, suc, ◌+◌, ◌-◌, ◌*◌, ◌/◌, ◌%◌, ◌^◌, ◌≤◌, ◌<◌, min, max, String, ◌≡◌, refl, sym, ap, ◌∙◌,
  subst, ◌≢◌, ◌↔◌, ◌⊎◌, inl, inr, Bool, true, false, ◌&&◌, ◌||◌, not, Option, none, some, List, [],
  ◌∷◌, ◌++◌, map, arith,
}
use apex_appraise.Engine.Number.{
  Number, ◌⊕◌, ◌⊖◌, ◌⊗◌, ◌⊘◌, num, gt, or_else, or_default, clamp, clamp_whole, sum_from, sum_by,
  ◌≼◌, IsOrdered,
}
use apex_appraise.Engine.Types.{
  SpendProfileKey, SiteMode, IncomeMethod, AppraisalUnit, CostTiming, BuildTrade, OtherCost,
  FinanceInput, IncomeLine, IncomeInput, IncomeLineResult, IncomeResult, Phase, Site, Disposal,
  AppraisalInput, PhaseCalc, AppraisalResult, CashflowRow, scurve, even, linear, front, back,
  residual, perpetuity, term_reversion, hardcore,
}

pub data SalesStatus : Type 0 where
  available reserved exchanged completed handover : SalesStatus

pub data TenancyStatus : Type 0 where
  vacant application referencing contracted occupied : TenancyStatus

pub record SalesUnitLike (R : Type 0) : Type 0 where
  pub appraised_value : R
  pub agreed_value : Option R
  pub status : SalesStatus
  pub deposit_held : Option R

pub record SalesCounts : Type 0 where
  pub of_available : ℕ
  pub of_reserved : ℕ
  pub of_exchanged : ℕ
  pub of_completed : ℕ
  pub of_handover : ℕ

pub record SalesRollup (R : Type 0) : Type 0 where
  pub gdv_realised : R
  pub gdv_appraised : R
  pub deposits_held : R
  pub sales_rate : R
  pub counts : SalesCounts
  pub total : ℕ

pub record TenancyLike (R : Type 0) : Type 0 where
  pub erv_pcm : R
  pub agreed_rent_pcm : Option R
  pub status : TenancyStatus
  pub arrears : R

pub record LettingsRollup (R : Type 0) : Type 0 where
  pub rent_roll_annual : R
  pub erv_annual : R
  pub void_rate : R
  pub arrears : R
  pub occupied : ℕ
  pub total : ℕ

pub record DealLike (R : Type 0) : Type 0 where
  pub gdv : R
  pub forecast_profit : R
  pub equity_required : R
  pub probability : R
  pub is_completed : Bool

pub record PortfolioRollup (R : Type 0) : Type 0 where
  pub pipeline_gdv : R
  pub weighted_gdv : R
  pub forecast_profit : R
  pub equity_required : R
  pub active_count : ℕ

pub data Periodicity : Type 0 where
  month quarter year : Periodicity

pub record PeriodRow (R : Type 0) : Type 0 where
  pub from : ℕ
  pub to : ℕ
  pub cost : R
  pub intr : R
  pub rev : R
  pub net : R
  pub cum : R

abbrev pub no_counts : SalesCounts
no_counts = record {
  of_available = 0;
  of_reserved = 0;
  of_exchanged = 0;
  of_completed = 0;
  of_handover = 0;
}

-- `counts[u.status]++`
abbrev pub counted : SalesStatus → SalesCounts → SalesCounts
counted available c = record c { of_available = c.of_available + 1 }
counted reserved c = record c { of_reserved = c.of_reserved + 1 }
counted exchanged c = record c { of_exchanged = c.of_exchanged + 1 }
counted completed c = record c { of_completed = c.of_completed + 1 }
counted handover c = record c { of_handover = c.of_handover + 1 }

-- `EXCHANGED_PLUS.includes`
abbrev pub is_exchanged : SalesStatus → Bool
is_exchanged available = false
is_exchanged reserved = false
is_exchanged exchanged = true
is_exchanged completed = true
is_exchanged handover = true

-- `RESERVED_PLUS.includes`
abbrev pub is_reserved : SalesStatus → Bool
is_reserved available = false
is_reserved reserved = true
is_reserved exchanged = true
is_reserved completed = true
is_reserved handover = true

abbrev pub is_occupied : TenancyStatus → Bool
is_occupied vacant = false
is_occupied application = false
is_occupied referencing = false
is_occupied contracted = false
is_occupied occupied = true

abbrev pub is_vacant : TenancyStatus → Bool
is_vacant vacant = true
is_vacant application = false
is_vacant referencing = false
is_vacant contracted = false
is_vacant occupied = false

-- `SIZE`
abbrev pub size_of : Periodicity → ℕ
size_of month = 1
size_of quarter = 3
size_of year = 12

module _ {R : Type 0} ⦃n : Number R⦄ where
  abbrev pub count_all : SalesCounts → List (SalesUnitLike R) → SalesCounts
  count_all c [] = c
  count_all c (u ∷ units) = count_all (counted u.status c) units

  abbrev pub share_of : ℕ → ℕ → R
  share_of part zero = n.lit 0
  share_of part (suc whole) = n.lit part ⊘ n.lit (suc whole)

  -- `salesRollup`
  unfoldable pub sales_rollup : List (SalesUnitLike R) → SalesRollup R
  sales_rollup units =
      let counts = count_all no_counts units in
      let sold = counts.of_exchanged + counts.of_completed + counts.of_handover in
      record {
        gdv_realised =
            sum_by (λ (u : SalesUnitLike R). or_default (n.lit 0) u.agreed_value)
              (keep (λ (u : SalesUnitLike R). is_exchanged u.status) units);
        gdv_appraised = sum_by (λ (u : SalesUnitLike R). u.appraised_value) units;
        deposits_held =
            sum_by (λ (u : SalesUnitLike R). or_default (n.lit 0) u.deposit_held)
              (keep (λ (u : SalesUnitLike R). is_reserved u.status) units);
        sales_rate = share_of sold (length units);
        counts = counts;
        total = length units;
      }

  -- `lettingsRollup`
  unfoldable pub lettings_rollup : List (TenancyLike R) → LettingsRollup R
  lettings_rollup tenancies =
      let let_out = keep (λ (t : TenancyLike R). is_occupied t.status) tenancies in
      let empty = keep (λ (t : TenancyLike R). is_vacant t.status) tenancies in
      record {
        rent_roll_annual =
            sum_by (λ (t : TenancyLike R). or_default (n.lit 0) t.agreed_rent_pcm ⊗ n.lit 12)
              let_out;
        erv_annual = sum_by (λ (t : TenancyLike R). t.erv_pcm ⊗ n.lit 12) tenancies;
        void_rate = share_of (length empty) (length tenancies);
        arrears = sum_by (λ (t : TenancyLike R). t.arrears) tenancies;
        occupied = length let_out;
        total = length tenancies;
      }

  -- `portfolioRollup`
  unfoldable pub portfolio_rollup : List (DealLike R) → PortfolioRollup R
  portfolio_rollup deals =
      let active = keep (λ (d : DealLike R). not d.is_completed) deals in
      record {
        pipeline_gdv = sum_by (λ (d : DealLike R). d.gdv) active;
        weighted_gdv = sum_by (λ (d : DealLike R). d.gdv ⊗ d.probability ⊘ n.lit 100) active;
        forecast_profit = sum_by (λ (d : DealLike R). d.forecast_profit) active;
        equity_required = sum_by (λ (d : DealLike R). d.equity_required) active;
        active_count = length active;
      }

  abbrev pub last_of : CashflowRow R → List (CashflowRow R) → CashflowRow R
  last_of r [] = r
  last_of r (next ∷ rows) = last_of next rows

  -- the row of a chunk, which has a first month
  abbrev pub period_of : CashflowRow R → List (CashflowRow R) → PeriodRow R
  period_of first rest =
      let last = last_of first rest in
      let chunk = first ∷ rest in
      record {
        from = first.m;
        to = last.m;
        cost = sum_by (λ (r : CashflowRow R). r.cost) chunk;
        intr = sum_by (λ (r : CashflowRow R). r.intr) chunk;
        rev = sum_by (λ (r : CashflowRow R). r.rev) chunk;
        net = sum_by (λ (r : CashflowRow R). r.net) chunk;
        cum = last.cum;
      }

  -- The loop in steps of `suc more` months; a turn for each row is more than enough.
  abbrev pub periods_from : (turns more : ℕ) → List (CashflowRow R) → List (PeriodRow R)
  periods_from zero more rows = []
  periods_from (suc turns) more [] = []
  periods_from (suc turns) more (first ∷ rest) =
      period_of first (take more rest) ∷ periods_from turns more (drop more rest)

  -- `rollUpCashflow`
  unfoldable pub roll_up_cashflow : List (CashflowRow R) → Periodicity → List (PeriodRow R)
  roll_up_cashflow rows period = periods_from (length rows) (size_of period - 1) rows
