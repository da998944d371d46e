-- ===== src/Payments/Receipts.antt =====
-- Over any interleaving of the writes to payments, a payment has one receipt at most.
use apex_appraise.Common.{
  if◌then◌else◌, str_eq, str_eq_iff, Bool-cases, any, Result, ok, err, ℕ, ◌+◌, ◌≤◌, String, ◌≡◌,
  refl, inl, inr, Bool, true, ◌&&◌, Option, none, some, List, [], ◌∷◌, ◌++◌, arith,
}
use apex_appraise.Common.Refusals.{Refusal}
use apex_appraise.Table.{update_many, count, delete_many}
use apex_appraise.Table.Keyed.{has, row}
use apex_appraise.Engine.Number.{Number}
use apex_appraise.Engine.Deposits.{DepositKind, DepositRow}
use apex_appraise.Payments.{
  Payment, Ledger, Plot, payment_id, is_of_unit, is_unsettled, settled_at, settle_payment,
  found_for, payment_for, settled_due, repriced, write_for, ensure_row, delete_unit_payments,
}

-- One write of a request, with what the request read before it, whatever that was.
pub data Act (R : Type 0) : Type 0 where
  settling : (has_unit : Bool) (id : String) (now : ℕ) → Act R
  ensuring :
      (plot : Plot) (new_id : DepositKind → String) (seen : List Payment) (row : DepositRow R)
      → Act R
  deleting : (unit : String) (seen : List Payment) → Act R

abbrev pub unsettled : String → List Payment → ℕ
unsettled k payments = count (is_unsettled k) payments

abbrev pub receipts_for : String → List String → ℕ
receipts_for k receipts = count (λ (r : String). str_eq r k) receipts

-- what the receipt of `k` and its unsettled rows come to
abbrev pub claims_on : String → Ledger → ℕ
claims_on k l = receipts_for k l.receipts + unsettled k l.payments

abbrev pub after : Ledger → Result Refusal Ledger → Ledger
after l (err e) = l
after l (ok next) = next

module _ {R : Type 0} ⦃n : Number R⦄ (to_pence : R → ℕ) (pounds : ℕ → R) where
  abbrev pub act : Act R → Ledger → Ledger
  act (settling has_unit id now) l = settle_payment has_unit id now l
  act (ensuring plot new_id seen row) l = record l {
    payments = ensure_row to_pence pounds plot new_id seen row l.payments;
  }
  act (deleting unit seen) l = after l (delete_unit_payments unit seen l)

  abbrev pub run : List (Act R) → Ledger → Ledger
  run [] l = l
  run (a ∷ acts) l = run acts (act a l)

  -- An id that the database gives to a payment has no row and no receipt yet.
  abbrev pub IsFresh : Act R → Ledger → Type 0
  IsFresh (settling has_unit id now) l = Unit
  IsFresh (ensuring plot new_id seen row) l = claims_on (new_id row.kind) l ≡ 0
  IsFresh (deleting unit seen) l = Unit

  abbrev pub AreFresh : List (Act R) → Ledger → Type 0
  AreFresh [] l = Unit
  AreFresh (a ∷ acts) l = IsFresh a l × AreFresh acts (act a l)

unsettled-settle :
    (k id : String) (now : ℕ) (payments : List Payment)
    → unsettled k (update_many (is_unsettled id) (settled_at now) payments)
      ≡ (if str_eq id k then 0 else unsettled k payments)
unsettled-settle k id now [] = ground arith
unsettled-settle k id now (p ∷ payments) = ground (
  arith,
  str_eq_iff p.id id,
  str_eq_iff p.id k,
  str_eq_iff id k,
  unsettled-settle k id now payments,
)

unsettled-delete_many :
    (k : String) (q : Payment → Bool) (payments : List Payment)
    → unsettled k (delete_many q payments) ≤ unsettled k payments
unsettled-delete_many k q [] = omega arith
unsettled-delete_many k q (p ∷ payments) = ground (arith, unsettled-delete_many k q payments)

unsettled-append :
    (k : String) (xs : List Payment) (p : Payment)
    → unsettled k (xs ++ (p ∷ [])) ≡ unsettled k xs + (if is_unsettled k p then 1 else 0)
unsettled-append k [] p = ground arith
unsettled-append k (x ∷ xs) p = ground (arith, unsettled-append k xs p)

-- An update that keeps the ids and takes no payment back does not add to what is unsettled.
unsettled-update :
    (k : String) (q : Payment → Bool) (f : Payment → Payment)
    → ((p : Payment) → (f p).id ≡ p.id)
    → ((p : Payment) → p.is_paid ≡ true → (f p).is_paid ≡ true)
    → (payments : List Payment) → unsettled k (update_many q f payments) ≤ unsettled k payments
unsettled-update k q f hi hp [] = omega arith
unsettled-update k q f hi hp (p ∷ payments) =
    ground (arith, hi p, hp p, unsettled-update k q f hi hp payments)

settle-claims_on :
    (k : String) (has_unit : Bool) (id : String) (now : ℕ) (l : Ledger)
    → claims_on k l ≤ 1
    → claims_on k (settle_payment has_unit id now l) ≤ 1
unfolding settle_payment
settle-claims_on k has_unit id now l h = elim (Bool-cases (str_eq id k)) [
  | inl e ↦ ground (arith, h, e, str_eq_iff id k, unsettled-settle k id now l.payments)
  | inr e ↦ ground (arith, h, e, unsettled-settle k id now l.payments)
]

delete-claims_on :
    (k : String) (unit : String) (seen : List Payment) (l : Ledger)
    → claims_on k l ≤ 1
    → claims_on k (after l (delete_unit_payments unit seen l)) ≤ 1
unfolding delete_unit_payments
delete-claims_on k unit seen l h =
    elim (Bool-cases (any (λ (p : Payment). is_of_unit unit p && p.is_paid) seen)) [
      | inl e ↦ rw (e, after) h
      | inr e ↦
          rw (e, after) (omega (arith, h, unsettled-delete_many k (is_of_unit unit) l.payments))
    ]

module _ {R : Type 0} ⦃n : Number R⦄ (to_pence : R → ℕ) (pounds : ℕ → R) where
  write_for-unsettled :
      (k : String) (plot : Plot) (new_id : DepositKind → String) (row : DepositRow R)
      (found : Option Payment) (payments : List Payment)
      → unsettled k (write_for to_pence pounds plot new_id row found payments)
        ≤ unsettled k payments + (if str_eq (new_id row.kind) k then 1 else 0)
  write_for-unsettled k plot new_id row none payments =
      ground (arith, unsettled-append k payments (payment_for to_pence pounds plot new_id row))
  write_for-unsettled k plot new_id row (some found) payments = ground (
    arith,
    unsettled-update k (has payment_id found.id) (settled_due to_pence pounds plot row) (λ p. refl)
        (λ p h. refl) payments,
    unsettled-update k (has payment_id found.id) (repriced to_pence pounds row) (λ p. refl)
        (λ p h. h) payments,
  )

  act-claims_on :
      (k : String) (a : Act R) (l : Ledger)
      → IsFresh to_pence pounds a l
      → claims_on k l ≤ 1
      → claims_on k (act to_pence pounds a l) ≤ 1
  act-claims_on k (settling has_unit id now) l f h = settle-claims_on k has_unit id now l h
  act-claims_on k (ensuring plot new_id seen row) l f h =
      elim (Bool-cases (str_eq (new_id row.kind) k)) [
        | inl e ↦
            let same : new_id row.kind ≡ k = (str_eq_iff (new_id row.kind) k).0 e in
            ground (
              arith,
              e,
              (rw same at f),
              write_for-unsettled k plot new_id row (found_for row.kind seen) l.payments,
            )
        | inr e ↦ ground (
          arith,
          e,
          h,
          write_for-unsettled k plot new_id row (found_for row.kind seen) l.payments,
        )
      ]
  act-claims_on k (deleting unit seen) l f h = delete-claims_on k unit seen l h

  -- However the settlements of payments, the writes of a buyer's visits and the deletions of units interleave,
  -- and whatever each has read before, a payment has one receipt at most, where the database gives new ids.
  pub run-receipts :
      (k : String) (acts : List (Act R)) (l : Ledger)
      → AreFresh to_pence pounds acts l
      → claims_on k l ≤ 1
      → receipts_for k (run to_pence pounds acts l).receipts ≤ 1
  run-receipts k [] l f h = omega (arith, h)
  run-receipts k (a ∷ acts) l f h =
      run-receipts k acts (act to_pence pounds a l) f.1 (act-claims_on k a l f.0 h)
