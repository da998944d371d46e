-- ===== src/Payments/Kept.antt =====
-- A settled payment under the visits of the buyer and the deletion of units, one after another.
use apex_appraise.Table.{update_many, delete_many}
use apex_appraise.Common.Refusals.{bad_request}
use apex_appraise.Table.Keyed.{has, row, row-update_key}
use apex_appraise.Payments.{
  Payment, Ledger, Plot, payment_id, is_of_unit, found_for, schedule_of, is_due, payment_for,
  settled_due, repriced, is_repriced, write_for, ensure_row, ensure_rows, ensure_payments,
  delete_unit_payments,
}
use apex_appraise.Table.Unique.{Unique, row-delete_by, All-row}
use apex_appraise.Table.Counting.{any-of-row, All-row_only}
use apex_appraise.Engine.Deposits.{DepositKind, DepositRow}
use apex_appraise.Engine.Number.{Number}
use apex_appraise.Common.{
  str_eq, Bool-cases, Option-cases, keep, any, All, OnOk, OnOk-guard, ok, ℕ, String, ◌≡◌, refl, inl,
  inr, Bool, true, false, ◌&&◌, not, some, List, [], ◌∷◌, ◌++◌, arith,
}

-- The row of `k` is the payment given.
abbrev pub Keeps : String → Payment → List Payment → Type 0
Keeps k p payments = row payment_id k payments ≡ some p

append-Keeps :
    (k : String) (p : Payment) (xs ys : List Payment) → Keeps k p xs → Keeps k p (xs ++ ys)
append-Keeps k p [] ys h = ground (arith, h)
append-Keeps k p (x ∷ xs) ys h = ground (arith, h, append-Keeps k p xs ys)

-- An update by the id of another payment.
update-Keeps :
    (k j : String) (p : Payment) (f : Payment → Payment)
    → ((q : Payment) → (f q).id ≡ q.id)
    → str_eq j k ≡ false
    → (payments : List Payment) → Keeps k p payments
    → Keeps k p (update_many (has payment_id j) f payments)
update-Keeps k j p f hi e payments h = rw (row-update_key payment_id j k f hi payments, e) h

-- The rows of `k` among those that were read are the payment given.
abbrev IsOnly : String → Payment → Payment → Type 0
IsOnly k p x = has payment_id k x ≡ true → x ≡ p

All-keep {ℓ κ} :
    {A : Type ℓ} (P : A → Type κ) (q : A → Bool) (xs : List A) → All P xs → All P (keep q xs)
All-keep P q [] a = tt
All-keep P q (x ∷ xs) a = elim (Bool-cases (q x)) [
  | inl e ↦ rw (e, All) (a.0, All-keep P q xs a.1)
  | inr e ↦ rw (e, All) (All-keep P q xs a.1)
]

module _ {R : Type 0} ⦃n : Number R⦄ (to_pence : R → ℕ) (pounds : ℕ → R) (k : String) (p : Payment)
    (paid : p.is_paid ≡ true) where
  -- A payment that was read unpaid is another one.
  unpaid_other :
      (found : Payment) → IsOnly k p found → found.is_paid ≡ false → str_eq found.id k ≡ false
  unpaid_other found o e = elim (Bool-cases (str_eq found.id k)) [
    | inl q ↦ ground (arith, o q, paid, e)
    | inr q ↦ q
  ]

  write_for-Keeps :
      (plot : Plot) (new_id : DepositKind → String) (due : DepositRow R) (found : Payment)
      (payments : List Payment)
      → IsOnly k p found
      → Keeps k p payments
      → Keeps k p (write_for to_pence pounds plot new_id due (some found) payments)
  write_for-Keeps plot new_id due found payments o h = elim (Bool-cases found.is_paid) [
    | inl e ↦ rw e h
    | inr e ↦
        let other = unpaid_other found o e in
        elim (Bool-cases (is_due to_pence pounds plot due)) [
          | inl d ↦
              rw (e, d)
                (update-Keeps k found.id p (settled_due to_pence pounds plot due) (λ q. refl) other
                  payments h)
          | inr d ↦ elim (Bool-cases (is_repriced to_pence pounds due found)) [
            | inl r ↦
                rw (e, d, r)
                  (update-Keeps k found.id p (repriced to_pence pounds due) (λ q. refl) other
                    payments h)
            | inr r ↦ rw (e, d, r) h
          ]
        ]
  ]

  ensure_row-Keeps :
      (plot : Plot) (new_id : DepositKind → String) (seen : List Payment) (due : DepositRow R)
      (payments : List Payment)
      → All (IsOnly k p) seen
      → Keeps k p payments
      → Keeps k p (ensure_row to_pence pounds plot new_id seen due payments)
  ensure_row-Keeps plot new_id seen due payments o h =
      elim (Option-cases (found_for due.kind seen)) [
        | inl e ↦
            rw e (append-Keeps k p payments (payment_for to_pence pounds plot new_id due ∷ []) h)
        | inr (found, e) ↦ rw e (
            write_for-Keeps plot new_id due found payments (All-row (IsOnly k p) _ seen found o e)
              h)
      ]

  ensure_rows-Keeps :
      (plot : Plot) (new_id : DepositKind → String) (seen : List Payment)
      (rows : List (DepositRow R)) (payments : List Payment)
      → All (IsOnly k p) seen
      → Keeps k p payments
      → Keeps k p (ensure_rows to_pence pounds plot new_id seen rows payments)
  ensure_rows-Keeps plot new_id seen [] payments o h = h
  ensure_rows-Keeps plot new_id seen (due ∷ rows) payments o h =
      ensure_rows-Keeps plot new_id seen rows
        (ensure_row to_pence pounds plot new_id seen due payments) o
        (ensure_row-Keeps plot new_id seen due payments o h)

delete-Keeps :
    (k : String) (p : Payment) (unit : String) (l : Ledger)
    → Unique payment_id l.payments
    → Keeps k p l.payments
    → p.is_paid ≡ true
    → OnOk (λ (next : Ledger). Keeps k p next.payments) (delete_unit_payments unit l.payments l)
unfolding delete_unit_payments
delete-Keeps k p unit l u h paid = elim (Bool-cases (is_of_unit unit p)) [
  | inl e ↦
      rw
        (
          any-of-row (λ (q : Payment). is_of_unit unit q && q.is_paid) (has payment_id k) l.payments
              p h (rw (e, paid) refl),
          OnOk,
        )
        tt
  | inr e ↦
      OnOk-guard (λ (next : Ledger). Keeps k p next.payments)
        (not (any (λ (q : Payment). is_of_unit unit q && q.is_paid) l.payments)) bad_request
        (ok (record l { payments = delete_many (is_of_unit unit) l.payments }))
        λ _. rw (row-delete_by payment_id k (is_of_unit unit) l.payments u, h, e) refl
]

-- Where nothing else is written meanwhile and no two payments share an id, a settled payment keeps its amount
-- and its date through a visit of the buyer, whatever has become of the plot and its price; and a deletion of
-- any unit that is let through leaves it.
pub settled_kept :
    {R : Type 0} ⦃n : Number R⦄ (to_pence : R → ℕ) (pounds : ℕ → R) (k : String) (p : Payment)
    (l : Ledger)
    → Unique payment_id l.payments
    → Keeps k p l.payments
    → p.is_paid ≡ true
    → ((plot : Plot) (new_id : DepositKind → String)
        → Keeps k p (ensure_payments to_pence pounds plot new_id l.payments))
      × ((unit : String)
          → OnOk
              (λ (next : Ledger). Keeps k p next.payments)
              (delete_unit_payments unit l.payments l))
unfolding ensure_payments delete_unit_payments
settled_kept to_pence pounds k p l u h paid =
    let only = All-row_only payment_id k l.payments p u h in
    (
      λ plot new_id.
          ensure_rows-Keeps to_pence pounds k p paid plot new_id
            (keep (is_of_unit plot.id) l.payments) (schedule_of to_pence pounds plot) l.payments
            (All-keep (IsOnly k p) (is_of_unit plot.id) l.payments only) h,
      λ unit. delete-Keeps k p unit l u h paid,
    )
