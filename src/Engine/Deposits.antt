-- ===== src/Engine/Deposits.antt =====
-- packages/appraisal-engine/src/deposits.ts. The two kinds of payment stand for their names.
use apex_appraise.Common.{leb, keep, ℕ, Option, none, some, List, [], ◌∷◌}
use apex_appraise.Engine.Number.{Number, ◌⊗◌, ◌⊘◌, sum_by}

abbrev pub reserved_at : ℕ
reserved_at = 1

abbrev pub exchanged_at : ℕ
exchanged_at = 5

pub record DepositTerms (R : Type 0) : Type 0 where
  pub reservation_fee : R
  pub exchange_pct : R

pub data DepositKind : Type 0 where
  fee on_exchange : DepositKind

pub record DepositRow (R : Type 0) : Type 0 where
  pub kind : DepositKind
  pub amount : R
  pub due_at_progress : ℕ

pub record DepositUnitLike (R : Type 0) : Type 0 where
  pub agreed_value : Option R
  pub appraised_value : R

module _ {R : Type 0} ⦃n : Number R⦄ where
  abbrev pub default_deposit_terms : DepositTerms R
  default_deposit_terms = record { reservation_fee = n.lit 2_000; exchange_pct = n.lit 10 }

  abbrev pub agreed_or : Option R → R → R
  agreed_or none appraised = appraised
  agreed_or (some agreed) appraised = agreed

  -- `depositSchedule`
  abbrev pub deposit_schedule : DepositUnitLike R → DepositTerms R → List (DepositRow R)
  deposit_schedule unit terms =
      let basis = agreed_or unit.agreed_value unit.appraised_value in
      record { kind = fee; amount = terms.reservation_fee; due_at_progress = reserved_at }
      ∷ record {
        kind = on_exchange;
        amount = n.round (basis ⊗ (terms.exchange_pct ⊘ n.lit 100));
        due_at_progress = exchanged_at;
      }
      ∷ []

  -- `depositsDueBy`
  abbrev pub deposits_due_by :
      (progress : ℕ) → DepositUnitLike R → DepositTerms R → List (DepositRow R)
  deposits_due_by progress unit terms =
      keep (λ (r : DepositRow R). leb r.due_at_progress progress) (deposit_schedule unit terms)

  -- `depositsHeldAt`
  unfoldable pub deposits_held_at : (progress : ℕ) → DepositUnitLike R → DepositTerms R → R
  deposits_held_at progress unit terms =
      sum_by (λ (r : DepositRow R). r.amount) (deposits_due_by progress unit terms)
