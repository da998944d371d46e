-- ===== src/Payments/Visits.antt =====
-- The first visit of a buyer, and what writes that cross one another do to payments.
use apex_appraise.Common.{
  str_eq_self, keep, any, ok, ℕ, String, ◌≡◌, refl, sym, ap, ◌∙◌, Bool, true, false, ◌&&◌, not,
  none, some, List, [], ◌∷◌, ◌++◌, map, arith,
}
use apex_appraise.Table.{update_many, delete_many}
use apex_appraise.Table.Keyed.{row, row-update_many, row-update_key}
use apex_appraise.Table.Unique.{Unique, Unique-update_many, row-delete_by, count-row}
use apex_appraise.Engine.Number.{Number}
use apex_appraise.Engine.Deposits.{
  reserved_at, exchanged_at, DepositKind, DepositRow, default_deposit_terms, agreed_or,
  deposits_due_by, fee, on_exchange,
}
use apex_appraise.Payments.{
  Payment, Ledger, Plot, payment_id, is_of_unit, is_unsettled, settled_at, settle_payment,
  unit_like, schedule_of, is_due, payment_for, settled_due, write_for, ensure_rows, ensure_payments,
  delete_unit_payments,
}

abbrev pub paid_of : String → List Payment → List Payment
paid_of unit = keep (λ (p : Payment). is_of_unit unit p && p.is_paid)

keep-append {ℓ} :
    {A : Type ℓ} (q : A → Bool) (xs ys : List A) → keep q (xs ++ ys) ≡ keep q xs ++ keep q ys
keep-append q [] ys = refl
keep-append q (x ∷ xs) ys = ground (arith, keep-append q xs ys)

-- The two payments of a visit stand after the others.
keep-visit :
    (q : Payment → Bool) (ps : List Payment) (a b : Payment)
    → keep q ((ps ++ (a ∷ [])) ++ (b ∷ [])) ≡ keep q ps ++ keep q (a ∷ b ∷ [])
keep-visit q [] a b = keep-append q (a ∷ []) (b ∷ []) ∙ sym (keep-append q (a ∷ []) (b ∷ []))
keep-visit q (p ∷ ps) a b = ground (arith, keep-visit q ps a b)

settled-row :
    (p : Payment) (now : ℕ) (payments : List Payment)
    → row payment_id p.id payments ≡ some p
    → p.is_paid ≡ false
    → row payment_id p.id (update_many (is_unsettled p.id) (settled_at now) payments)
      ≡ some (settled_at now p)
settled-row p now payments r e =
    rw
      (
        row-update_many payment_id p.id p.id (λ (q : Payment). not q.is_paid) (settled_at now)
            (λ q. refl) payments,
        str_eq_self p.id,
        r,
        e,
      )
      refl

-- What no payment of the unit can be, none is.
keep-none :
    (unit : String) (q : Payment → Bool) (payments : List Payment)
    → keep (is_of_unit unit) payments ≡ []
    → keep (λ (p : Payment). is_of_unit unit p && q p) payments ≡ []
keep-none unit q [] h = refl
keep-none unit q (p ∷ payments) h = ground (arith, h, keep-none unit q payments)

module _ {R : Type 0} ⦃n : Number R⦄ (to_pence : R → ℕ) (pounds : ℕ → R) where
  abbrev pub fee_of : Plot → DepositRow R
  fee_of plot = record {
    kind = fee;
    amount = default_deposit_terms.reservation_fee;
    due_at_progress = reserved_at;
  }

  abbrev pub deposit_of : Plot → DepositRow R
  deposit_of plot = record {
    kind = on_exchange;
    amount = n.round (
        n.mul
          (agreed_or (unit_like to_pence pounds plot).agreed_value
            (unit_like to_pence pounds plot).appraised_value)
          (n.div default_deposit_terms.exchange_pct (n.lit 100)));
    due_at_progress = exchanged_at;
  }

  -- the payments of a first visit
  abbrev pair_of : Plot → (DepositKind → String) → List Payment
  pair_of plot new_id =
      payment_for to_pence pounds plot new_id (fee_of plot)
      ∷ payment_for to_pence pounds plot new_id (deposit_of plot)
      ∷ []

  keep-first :
      (q : Payment → Bool) (plot : Plot) (new_id : DepositKind → String) (payments : List Payment)
      → keep q
          (ensure_rows to_pence pounds plot new_id [] (schedule_of to_pence pounds plot) payments)
        ≡ keep q payments ++ keep q (pair_of plot new_id)
  keep-first q plot new_id payments =
      keep-visit q payments (payment_for to_pence pounds plot new_id (fee_of plot))
        (payment_for to_pence pounds plot new_id (deposit_of plot))

  pair-of-unit :
      (plot : Plot) (new_id : DepositKind → String)
      → keep (is_of_unit plot.id) (pair_of plot new_id) ≡ pair_of plot new_id
  pair-of-unit plot new_id = ground (arith, str_eq_self plot.id)

  paid_of-pair :
      (plot : Plot) (new_id : DepositKind → String)
      → map (λ (p : Payment). p.amount) (paid_of plot.id (pair_of plot new_id))
        ≡ map
            (λ (r : DepositRow R). to_pence r.amount)
            (deposits_due_by plot.progress (unit_like to_pence pounds plot) default_deposit_terms)
  paid_of-pair plot new_id = ground (arith, str_eq_self plot.id)

  unit-of-first :
      (plot : Plot) (new_id : DepositKind → String) (payments : List Payment)
      → keep
          (is_of_unit plot.id)
          (ensure_rows to_pence pounds plot new_id [] (schedule_of to_pence pounds plot) payments)
        ≡ keep (is_of_unit plot.id) payments ++ pair_of plot new_id
  unit-of-first plot new_id payments =
      keep-first (is_of_unit plot.id) plot new_id payments
      ∙ ap (λ xs. keep (is_of_unit plot.id) payments ++ xs) (pair-of-unit plot new_id)

  paid-of-first :
      (plot : Plot) (new_id : DepositKind → String) (payments : List Payment)
      → keep (is_of_unit plot.id) payments ≡ []
      → paid_of plot.id
          (ensure_rows to_pence pounds plot new_id [] (schedule_of to_pence pounds plot) payments)
        ≡ paid_of plot.id (pair_of plot new_id)
  paid-of-first plot new_id payments h =
      keep-first (λ (p : Payment). is_of_unit plot.id p && p.is_paid) plot new_id payments
      ∙ ap (λ xs. xs ++ paid_of plot.id (pair_of plot new_id))
          (keep-none plot.id (λ p. p.is_paid) payments h)

  -- A first visit leaves one payment for each deposit of the schedule, and those that are settled are the
  -- deposits that the engine holds due at the progress of the plot.
  pub first_visit :
      (plot : Plot) (new_id : DepositKind → String) (payments : List Payment)
      → keep (is_of_unit plot.id) payments ≡ []
      → (map
            (λ (p : Payment). p.kind)
            (keep (is_of_unit plot.id) (ensure_payments to_pence pounds plot new_id payments))
          ≡ fee ∷ on_exchange ∷ [])
        × (map
              (λ (p : Payment). p.amount)
              (paid_of plot.id (ensure_payments to_pence pounds plot new_id payments))
            ≡ map
                (λ (r : DepositRow R). to_pence r.amount)
                (deposits_due_by plot.progress
                  (unit_like to_pence pounds plot)
                  default_deposit_terms))
  unfolding ensure_payments
  first_visit plot new_id payments h = rw h (
    ap (map (λ (p : Payment). p.kind))
        (unit-of-first plot new_id payments ∙ ap (λ xs. xs ++ pair_of plot new_id) h),
    ap (map (λ (p : Payment). p.amount)) (paid-of-first plot new_id payments h)
        ∙ paid_of-pair plot new_id,
  )

  -- Two visits that have both read the payments before either wrote, as a first visit that is made twice:
  -- the unit has every deposit twice.
  pub visited_twice :
      (plot : Plot) (first second : DepositKind → String) (payments : List Payment)
      → keep (is_of_unit plot.id) payments ≡ []
      → map
          (λ (p : Payment). p.kind)
          (keep (is_of_unit plot.id) (
            ensure_rows to_pence pounds plot second [] (schedule_of to_pence pounds plot) (
              ensure_rows to_pence pounds plot first []
                (schedule_of to_pence pounds plot)
                payments)))
        ≡ fee ∷ on_exchange ∷ fee ∷ on_exchange ∷ []
  visited_twice plot first second payments h = ap (map (λ (p : Payment). p.kind)) (
      unit-of-first plot second
        (ensure_rows to_pence pounds plot first [] (schedule_of to_pence pounds plot) payments)
      ∙ ap (λ xs. xs ++ pair_of plot second)
          (unit-of-first plot first payments ∙ ap (λ xs. xs ++ pair_of plot first) h))

  -- A payment that a visit has read unpaid, and that is settled before the visit writes: the visit replaces the
  -- amount and the date of the receipt.
  pub receipt_redated :
      (plot : Plot) (new_id : DepositKind → String) (due : DepositRow R) (p : Payment) (now : ℕ)
      (l : Ledger)
      → Unique payment_id l.payments
      → row payment_id p.id l.payments ≡ some p
      → p.is_paid ≡ false
      → is_due to_pence pounds plot due ≡ true
      → row payment_id p.id (
          write_for to_pence pounds plot new_id due
            (some p)
            (settle_payment true p.id now l).payments)
        ≡ some (settled_due to_pence pounds plot due (settled_at now p))
  unfolding settle_payment
  receipt_redated plot new_id due p now l u r e d =
      rw
        (
          e,
          d,
          row-update_key payment_id p.id p.id (settled_due to_pence pounds plot due) (λ q. refl)
              (update_many (is_unsettled p.id) (settled_at now) l.payments),
          str_eq_self p.id,
          settled-row p now l.payments r e,
        )
        refl

-- A payment that is settled between the read and the write of a deletion of its unit: the deletion is let
-- through, the payment is gone and its receipt stays.
pub deleted_while_settling :
    (p : Payment) (now : ℕ) (l : Ledger)
    → Unique payment_id l.payments
    → row payment_id p.id l.payments ≡ some p
    → p.is_paid ≡ false
    → any (λ (q : Payment). is_of_unit p.unit_id q && q.is_paid) l.payments ≡ false
    → (next : Ledger) × (delete_unit_payments p.unit_id l.payments (settle_payment true p.id now l)
        ≡ ok next)
      × (row payment_id p.id next.payments ≡ none)
      × (next.receipts ≡ p.id ∷ l.receipts)
unfolding settle_payment delete_unit_payments
deleted_while_settling p now l u r e a =
    let settled = update_many (is_unsettled p.id) (settled_at now) l.payments in
    (
      record {
        payments = delete_many (is_of_unit p.unit_id) settled;
        receipts = p.id ∷ l.receipts;
      },
      rw (a, count-row payment_id p.id (λ (q : Payment). not q.is_paid) l.payments u, r, e) refl,
      rw
          (
            row-delete_by payment_id p.id (is_of_unit p.unit_id) settled (
                Unique-update_many payment_id (is_unsettled p.id) (settled_at now) (λ q. refl)
                  l.payments u),
            settled-row p now l.payments r e,
            str_eq_self p.unit_id,
          )
          refl,
      refl,
    )
