-- ===== src/Payments/Tests.antt =====
-- The payments of a small plot, with amounts in thousandths of a pound.
use apex_appraise.Common.{
  str_eq, keep, OnOk, ok, ℕ, ◌*◌, ◌/◌, ◌≤◌, String, ◌≡◌, refl, true, false, none, some, List, [],
  ◌∷◌, map, arith,
}
use apex_appraise.Table.Keyed.{row}
use apex_appraise.Table.Unique.{Unique}
use apex_appraise.Engine.Sample.{thousandths}
use apex_appraise.Engine.Deposits.{
  DepositKind, DepositRow, default_deposit_terms, deposits_due_by, fee, on_exchange,
}
use apex_appraise.Payments.{
  Payment, Ledger, Plot, payment_id, is_of_unit, settled_at, settle_payment, unit_like, schedule_of,
  settled_due, write_for, ensure_rows, ensure_payments, delete_unit_payments,
}
use apex_appraise.Payments.Receipts.{Act, receipts_for, run, run-receipts, settling, ensuring}
use apex_appraise.Payments.Kept.{Keeps, settled_kept}
use apex_appraise.Payments.Visits.{
  paid_of, fee_of, deposit_of, first_visit, visited_twice, receipt_redated, deleted_while_settling,
}

abbrev pence : ℕ → ℕ
pence r = r / 10

abbrev in_pounds : ℕ → ℕ
in_pounds p = p * 10

-- reserved at 900, a price of 250,000 pounds agreed, not exchanged
abbrev plot_one : Plot
plot_one = record {
  id = "plot-1";
  reserved_at = some 900;
  agreed_value = some 25_000_000;
  appraised_value = 24_000_000;
  progress = 2;
  milestones = record { index = 1; date = none } ∷ [];
}

abbrev exchanged_plot : Plot
exchanged_plot = record plot_one {
  progress = 6;
  milestones = record { index = 5; date = some 4_000 } ∷ [];
}

abbrev id_of : DepositKind → String
id_of fee = "p1"
id_of on_exchange = "p2"

abbrev other_id : DepositKind → String
other_id fee = "p3"
other_id on_exchange = "p4"

abbrev paid_fee : Payment
paid_fee = record {
  id = "p1";
  unit_id = "plot-1";
  kind = fee;
  amount = 200_000;
  is_paid = true;
  paid_at = some 900;
}

abbrev owed_deposit : Payment
owed_deposit = record {
  id = "p2";
  unit_id = "plot-1";
  kind = on_exchange;
  amount = 2_500_000;
  is_paid = false;
  paid_at = none;
}

abbrev visited : List Payment
visited = paid_fee ∷ owed_deposit ∷ []

abbrev visited_ledger : Ledger
visited_ledger = record { payments = visited; receipts = [] }

abbrev empty_ledger : Ledger
empty_ledger = record { payments = []; receipts = [] }

-- an unpaid deposit and no other payment
abbrev owed_ledger : Ledger
owed_ledger = record { payments = owed_deposit ∷ []; receipts = [] }

first_visit_lem : ensure_payments pence in_pounds plot_one id_of [] ≡ visited
unfolding ensure_payments
first_visit_lem = refl

-- a second visit after the exchange settles the deposit, dated by its milestone, and keeps the fee
second_visit_lem :
    ensure_payments pence in_pounds exchanged_plot other_id visited
    ≡ paid_fee ∷ record owed_deposit { is_paid = true; paid_at = some 4_000 } ∷ []
unfolding ensure_payments str_eq
second_visit_lem = refl

abbrev writes : List (Act ℕ)
writes =
    ensuring plot_one id_of [] (fee_of pence in_pounds plot_one)
    ∷ ensuring plot_one id_of [] (deposit_of pence in_pounds plot_one)
    ∷ settling true "p2" 3_000
    ∷ settling true "p2" 3_001
    ∷ []

run-receipts_example : receipts_for "p2" (run pence in_pounds writes empty_ledger).receipts ≤ 1
unfolding settle_payment str_eq
run-receipts_example =
    run-receipts pence in_pounds "p2" writes empty_ledger (refl, (refl, (tt, (tt, tt))))
      (omega arith)

visited-Unique : Unique payment_id visited
unfolding str_eq
visited-Unique = (refl, (refl, tt))

settled_kept_example :
    ((plot : Plot) (new_id : DepositKind → String)
      → Keeps "p1" paid_fee (ensure_payments pence in_pounds plot new_id visited_ledger.payments))
    × ((unit : String)
        → OnOk
            (λ (next : Ledger). Keeps "p1" paid_fee next.payments)
            (delete_unit_payments unit visited_ledger.payments visited_ledger))
unfolding str_eq
settled_kept_example =
    settled_kept pence in_pounds "p1" paid_fee visited_ledger visited-Unique refl refl

first_visit_example :
    (map
        (λ (p : Payment). p.kind)
        (keep (is_of_unit "plot-1") (ensure_payments pence in_pounds plot_one id_of []))
      ≡ fee ∷ on_exchange ∷ [])
    × (map
          (λ (p : Payment). p.amount)
          (paid_of "plot-1" (ensure_payments pence in_pounds plot_one id_of []))
        ≡ map
            (λ (r : DepositRow ℕ). pence r.amount)
            (deposits_due_by 2 (unit_like pence in_pounds plot_one) default_deposit_terms))
first_visit_example = first_visit pence in_pounds plot_one id_of [] refl

visited_twice_example :
    map
      (λ (p : Payment). p.kind)
      (keep (is_of_unit "plot-1") (
        ensure_rows pence in_pounds plot_one other_id [] (schedule_of pence in_pounds plot_one) (
          ensure_rows pence in_pounds plot_one id_of [] (schedule_of pence in_pounds plot_one) [])))
    ≡ fee ∷ on_exchange ∷ fee ∷ on_exchange ∷ []
visited_twice_example = visited_twice pence in_pounds plot_one id_of other_id [] refl

receipt_redated_example :
    row payment_id "p2" (
      write_for pence in_pounds exchanged_plot other_id
        (deposit_of pence in_pounds exchanged_plot)
        (some owed_deposit)
        (settle_payment true "p2" 3_000 visited_ledger).payments)
    ≡ some (
        settled_due pence in_pounds exchanged_plot
          (deposit_of pence in_pounds exchanged_plot)
          (settled_at 3_000 owed_deposit))
unfolding str_eq
receipt_redated_example =
    receipt_redated pence in_pounds exchanged_plot other_id
      (deposit_of pence in_pounds exchanged_plot) owed_deposit 3_000 visited_ledger visited-Unique
      refl refl refl

deleted_while_settling_example :
    (next : Ledger) × (delete_unit_payments "plot-1"
        (owed_deposit ∷ [])
        (settle_payment true "p2" 3_000 owed_ledger)
      ≡ ok next)
    × (row payment_id "p2" next.payments ≡ none)
    × (next.receipts ≡ "p2" ∷ [])
unfolding str_eq
deleted_while_settling_example =
    deleted_while_settling owed_deposit 3_000 owed_ledger (refl, tt) refl refl refl
