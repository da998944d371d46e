-- ===== src/Payments/Rows.antt =====
-- The rows of Payment and every write to them. A payment in pence is a natural number; `toPence` and `P` of
-- apps/api/src/mappers.ts are parameters, since they go by the engine's numbers.
use apex_appraise.Common.{
  leb, ◌==◌, if◌then◌else◌, str_eq, keep, any, Result, ◌>>◌, guard, ok, ℕ, String, Bool, true,
  false, ◌&&◌, not, Option, none, some, List, [], ◌∷◌, ◌++◌,
}
use apex_appraise.Common.Refusals.{Refusal, bad_request}
use apex_appraise.Table.{find_first, update_many, count, delete_many}
use apex_appraise.Table.Keyed.{has, row}
use apex_appraise.Engine.Number.{Number}
use apex_appraise.Engine.Deposits.{
  DepositKind, DepositRow, DepositUnitLike, default_deposit_terms, deposit_schedule, fee,
  on_exchange,
}

pub record Payment : Type 0 where
  pub id : String
  pub unit_id : String
  pub kind : DepositKind
  pub amount : ℕ
  pub is_paid : Bool
  pub paid_at : Option ℕ

-- The payments, and the ids of those that the trail has a receipt of.
pub record Ledger : Type 0 where
  pub payments : List Payment
  pub receipts : List String

pub record Milestone : Type 0 where
  pub index : ℕ
  pub date : Option ℕ

-- What `ensurePayments` reads of a unit.
pub record Plot : Type 0 where
  pub id : String
  pub reserved_at : Option ℕ
  pub agreed_value : Option ℕ
  pub appraised_value : ℕ
  pub progress : ℕ
  pub milestones : List Milestone

abbrev pub payment_id : Payment → String
payment_id p = p.id

abbrev pub same_kind : DepositKind → DepositKind → Bool
same_kind fee fee = true
same_kind fee on_exchange = false
same_kind on_exchange fee = false
same_kind on_exchange on_exchange = true

abbrev pub is_of_unit : String → Payment → Bool
is_of_unit unit p = str_eq p.unit_id unit

-- `where: { id: paymentId, status: { not: 'PAID' } }`
abbrev pub is_unsettled : String → Payment → Bool
is_unsettled id p = has payment_id id p && not p.is_paid

abbrev pub settled_at : (now : ℕ) → Payment → Payment
settled_at now p = record p { is_paid = true; paid_at = some now }

-- `count === 1`
abbrev pub settles : String → List Payment → Bool
settles id payments = count (is_unsettled id) payments == 1

-- `settlePayment`. The receipt names the unit: `has_unit` says whether the payment and its unit are found
-- for it after the write.
unfoldable pub settle_payment : (has_unit : Bool) → (id : String) → (now : ℕ) → Ledger → Ledger
settle_payment has_unit id now l = record {
  payments = update_many (is_unsettled id) (settled_at now) l.payments;
  receipts = if settles id l.payments && has_unit then id ∷ l.receipts else l.receipts;
}

abbrev pub date_of : Option Milestone → Option ℕ
date_of none = none
date_of (some m) = m.date

abbrev pub or_else_date : Option ℕ → Option ℕ → Option ℕ
or_else_date none d = d
or_else_date (some t) d = some t

-- `reachedAt`
abbrev pub reached_at : Plot → ℕ → Option ℕ
reached_at plot index =
    or_else_date (date_of (find_first (λ (m : Milestone). m.index == index) plot.milestones))
      (if leb index 1 then plot.reserved_at else none)

-- the row that `ensurePayments` finds for a kind
abbrev pub found_for : DepositKind → List Payment → Option Payment
found_for kind = find_first (λ (p : Payment). same_kind p.kind kind)

module _ {R : Type 0} ⦃n : Number R⦄ (to_pence : R → ℕ) (pounds : ℕ → R) where
  abbrev pub unit_like : Plot → DepositUnitLike R
  unit_like plot = record {
    agreed_value = elim plot.agreed_value [ none ↦ none | some v ↦ some (pounds v) ];
    appraised_value = pounds plot.appraised_value;
  }

  abbrev pub schedule_of : Plot → List (DepositRow R)
  schedule_of plot = deposit_schedule (unit_like plot) default_deposit_terms

  abbrev pub is_due : Plot → DepositRow R → Bool
  is_due plot row = leb row.due_at_progress plot.progress

  abbrev pub date_due : Plot → DepositRow R → Option ℕ
  date_due plot row = if is_due plot row then reached_at plot row.due_at_progress else none

  abbrev pub payment_for : Plot → (new_id : DepositKind → String) → DepositRow R → Payment
  payment_for plot new_id row = record {
    id = new_id row.kind;
    unit_id = plot.id;
    kind = row.kind;
    amount = to_pence row.amount;
    is_paid = is_due plot row;
    paid_at = date_due plot row;
  }

  abbrev pub settled_due : Plot → DepositRow R → Payment → Payment
  settled_due plot row p = record p {
    amount = to_pence row.amount;
    is_paid = true;
    paid_at = reached_at plot row.due_at_progress;
  }

  abbrev pub repriced : DepositRow R → Payment → Payment
  repriced row p = record p { amount = to_pence row.amount }

  -- `P(found.amount) !== row.amount`
  abbrev pub is_repriced : DepositRow R → Payment → Bool
  is_repriced row p = not (n.le (pounds p.amount) row.amount && n.le row.amount (pounds p.amount))

  -- The write for a row of the schedule, where the payment found was read before. An update of a row that is
  -- gone throws, which leaves the table.
  abbrev pub write_for :
      Plot
      → (new_id : DepositKind → String) → DepositRow R
      → Option Payment
      → List Payment
      → List Payment
  write_for plot new_id row none payments = payments ++ (payment_for plot new_id row ∷ [])
  write_for plot new_id row (some found) payments =
      if found.is_paid
      then payments
      else if is_due plot row
      then update_many (has payment_id found.id) (settled_due plot row) payments
      else if is_repriced row found
      then update_many (has payment_id found.id) (repriced row) payments
      else payments

  -- a turn of the loop of `ensurePayments`
  abbrev pub ensure_row :
      Plot
      → (new_id : DepositKind → String) → (seen : List Payment) → DepositRow R
      → List Payment
      → List Payment
  ensure_row plot new_id seen row payments =
      write_for plot new_id row (found_for row.kind seen) payments

  abbrev pub ensure_rows :
      Plot
      → (new_id : DepositKind → String) → (seen : List Payment) → List (DepositRow R)
      → List Payment
      → List Payment
  ensure_rows plot new_id seen [] payments = payments
  ensure_rows plot new_id seen (row ∷ rows) payments =
      ensure_rows plot new_id seen rows (ensure_row plot new_id seen row payments)

  -- `ensurePayments` where nothing is written by others: it reads the payments of the unit once.
  unfoldable pub ensure_payments :
      Plot → (new_id : DepositKind → String) → List Payment → List Payment
  ensure_payments plot new_id payments =
      ensure_rows plot new_id (keep (is_of_unit plot.id) payments) (schedule_of plot) payments

-- What `deleteUnit` does to the payments: it reads the settled ones, and deletes all if there are none.
unfoldable pub delete_unit_payments :
    (unit : String) → (seen : List Payment) → Ledger → Result Refusal Ledger
delete_unit_payments unit seen l = do
  guard (not (any (λ (p : Payment). is_of_unit unit p && p.is_paid) seen)) bad_request
  ok (record l { payments = delete_many (is_of_unit unit) l.payments })
