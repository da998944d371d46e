-- ===== src/Webhooks/Parking.antt =====
-- apps/api/src/webhook-delivery.ts, `recordAttempt`: when an endpoint is parked.
use apex_appraise.Common.{
  leb, if◌then◌else◌, str_eq_iff, Option-cases, ℕ, ◌+◌, String, ◌≡◌, refl, sym, ap, ◌∙◌, subst, inl,
  inr, Bool, true, false, ◌&&◌, ◌||◌, not, Option, none, some, List, [], ◌∷◌, arith,
}
use apex_appraise.Table.Keyed.{row, row-key, row-update_key}
use apex_appraise.Webhooks.Delivery.{
  endpoint_id, Endpoint, failure_limit, attempted, record_attempt,
}

-- Attempts at one endpoint in a row, each with its success and its time; every worker reads the row
-- afresh before it records.
abbrev pub record_attempts : String → List (Bool × ℕ) → List Endpoint → List Endpoint
record_attempts k [] rows = rows
record_attempts k ((ok, at) ∷ xs) rows = elim (row endpoint_id k rows) [
  | none ↦ record_attempts k xs rows
  | some e ↦ record_attempts k xs (record_attempt e ok at rows)
]

-- Whether a run of attempts has twenty failures in a row, after `n` failures.
abbrev pub has_streak : ℕ → List (Bool × ℕ) → Bool
has_streak n [] = false
has_streak n ((true, at) ∷ xs) = has_streak 0 xs
has_streak n ((false, at) ∷ xs) = leb failure_limit (n + 1) || has_streak (n + 1) xs

abbrev pub Shows : Bool → ℕ → Option Endpoint → Type 0
Shows a n none = ⊥
Shows a n (some e) = (e.active ≡ a) × (e.failure_count ≡ n)

abbrev pub active_of : Option Endpoint → Bool
active_of none = false
active_of (some e) = e.active

row-record_attempt :
    (k : String) (e : Endpoint) (ok : Bool) (at : ℕ) (rows : List Endpoint)
    → row endpoint_id k rows ≡ some e
    → row endpoint_id k (record_attempt e ok at rows) ≡ some (attempted e.failure_count ok at e)
unfolding record_attempt
row-record_attempt k e ok at rows h =
    let same = row-key endpoint_id k rows e h in
    ground (
      arith,
      same,
      str_eq_iff e.id k,
      row-update_key endpoint_id e.id k (attempted e.failure_count ok at) (λ r. refl) rows,
      ap (λ j. row endpoint_id j rows) same,
    )

record_attempts-cons :
    (k : String) (ok : Bool) (at : ℕ) (xs : List (Bool × ℕ)) (rows : List Endpoint) (e : Endpoint)
    → row endpoint_id k rows ≡ some e
    → record_attempts k ((ok, at) ∷ xs) rows ≡ record_attempts k xs (record_attempt e ok at rows)
record_attempts-cons k ok at xs rows e h = rw (h, record_attempts)

record_attempts-active :
    (k : String) (xs : List (Bool × ℕ)) (a : Bool) (n : ℕ) (rows : List Endpoint)
    → Shows a n (row endpoint_id k rows)
    → active_of (row endpoint_id k (record_attempts k xs rows)) ≡ (a && not (has_streak n xs))
record_attempts-active k [] a n rows s = elim (Option-cases (row endpoint_id k rows)) [
  | inl e ↦ ground arith
  | inr (e, h) ↦ ground arith
]
record_attempts-active k ((true, at) ∷ xs) a n rows s =
    elim (Option-cases (row endpoint_id k rows)) [
      | inl e ↦ ground arith
      | inr (e, h) ↦
          let next = row-record_attempt k e true at rows h in
          rw (record_attempts-cons k true at xs rows e h) (
            record_attempts-active k xs a 0 (record_attempt e true at rows)
              (subst (Shows a 0) (sym next) (ground arith)))
    ]
record_attempts-active k ((false, at) ∷ xs) a n rows s =
    elim (Option-cases (row endpoint_id k rows)) [
      | inl e ↦ ground arith
      | inr (e, h) ↦
          let next = row-record_attempt k e false at rows h in
          let a' = if leb failure_limit (n + 1) then false else a in
          let rest =
            record_attempts-active k xs a' (n + 1) (record_attempt e false at rows)
              (subst (Shows a' (n + 1)) (sym next) (ground arith)) in
          rw (record_attempts-cons k false at xs rows e h) (rest ∙ ground arith)
    ]

-- An active endpoint with no failures is still active after a run of attempts exactly when the run has
-- no twenty failures in a row.
pub active_iff_no_streak :
    (k : String) (xs : List (Bool × ℕ)) (rows : List Endpoint)
    → Shows true 0 (row endpoint_id k rows)
    → active_of (row endpoint_id k (record_attempts k xs rows)) ≡ not (has_streak 0 xs)
active_iff_no_streak k xs rows s = record_attempts-active k xs true 0 rows s
