-- ===== src/Webhooks/Claims/Attempts.antt =====
-- apps/api/src/webhook-delivery.ts: how often a delivery is tried, and how it ends.
use apex_appraise.Common.{
  if◌then◌else◌, str_eq, str_eq_iff, Option-cases, ℕ, ◌+◌, ◌-◌, ◌≤◌, String, ◌≡◌, refl, sym, ap,
  subst, ◌≢◌, ◌⊎◌, inl, inr, Bool, true, false, ◌&&◌, Option, none, some, List, [], ◌∷◌, arith,
}
use apex_appraise.Table.Keyed.{has, row}
use apex_appraise.Table.Unique.{
  Unique, Unique-update_many, Unique-delete_many, met, All-update_many, All-delete_many, All-row,
}
use apex_appraise.Webhooks.Delivery.{
  Delivery, delivery_id, max_attempts, claim_lease_ms, is_pending, leased, claim, Outcome, is_ok,
  owns, outcome_row, complete, prune_webhook_deliveries, pending,
}
use apex_appraise.Webhooks.Claims.Rows.{
  Action, act, acts, act_row, act-Unique, row-act, acts-keep, count-complete, IsValid, IsValidTable,
  claiming, completing, pruning,
}

module _ (http_error : ℕ → String) (cut : String → String) where
  outcome_row-IsValid :
      (d r : Delivery) (until : ℕ) (o : Outcome) (at : ℕ)
      → IsValid r
      → (has delivery_id d.id r && owns d until r) ≡ true
      → IsValid (outcome_row http_error cut d o at r)
  outcome_row-IsValid d r until o at v mine = ground arith

  leased-IsValid : (until : ℕ) (r : Delivery) → IsValid r → IsValid (leased until r)
  leased-IsValid until r v = ground arith

  -- Every query of every worker keeps the table valid: no delivery is tried more than four times, one
  -- that failed has been tried four times, and one that was delivered has its time.
  pub act-IsValidTable :
      (x : Action) (rows : List Delivery)
      → IsValidTable rows
      → IsValidTable (act http_error cut x rows)
  unfolding act claim complete prune_webhook_deliveries
  act-IsValidTable (claiming now d) rows v = record {
    unique =
        Unique-update_many delivery_id _ (leased (now + claim_lease_ms)) (λ r. refl) rows v.unique;
    valid =
        All-update_many IsValid _ (leased (now + claim_lease_ms)) (λ r w _. leased-IsValid _ r w)
          rows v.valid;
  }
  act-IsValidTable (completing d until o at) rows v = record {
    unique =
        Unique-update_many delivery_id _ (outcome_row http_error cut d o at) (λ r. refl) rows
          v.unique;
    valid =
        All-update_many IsValid _ (outcome_row http_error cut d o at)
          (λ r w mine. outcome_row-IsValid d r until o at w mine) rows v.valid;
  }
  act-IsValidTable (pruning now older_than) rows v = record {
    unique = Unique-delete_many delivery_id _ rows v.unique;
    valid = All-delete_many IsValid _ rows v.valid;
  }

  pub acts-IsValidTable :
      (xs : List Action) (rows : List Delivery)
      → IsValidTable rows
      → IsValidTable (acts http_error cut xs rows)
  acts-IsValidTable [] rows v = v
  acts-IsValidTable (x ∷ xs) rows v =
      acts-IsValidTable xs (act http_error cut x rows) (act-IsValidTable x rows v)

  -- How many outcomes a run of queries records for a delivery, counting those that `wanted` picks.
  abbrev pub recorded_by : (Outcome → Bool) → String → Action → List Delivery → ℕ
  recorded_by wanted k (completing d until o at) rows =
      if str_eq d.id k && wanted o then (complete http_error cut d until o at rows).0 else 0
  recorded_by wanted k _ rows = 0

  abbrev pub recorded : (Outcome → Bool) → String → List Action → List Delivery → ℕ
  recorded wanted k [] rows = 0
  recorded wanted k (x ∷ xs) rows =
      recorded_by wanted k x rows + recorded wanted k xs (act http_error cut x rows)

  -- The same, read off the row of the delivery.
  abbrev recorded_row : (Outcome → Bool) → String → Action → Option Delivery → ℕ
  recorded_row wanted k (completing d until o at) row =
      if str_eq d.id k && wanted o then met delivery_id (owns d until) row else 0
  recorded_row wanted k _ row = 0

  recorded_by-row :
      (wanted : Outcome → Bool) (k : String) (x : Action) (rows : List Delivery)
      → Unique delivery_id rows
      → recorded_by wanted k x rows ≡ recorded_row wanted k x (row delivery_id k rows)
  recorded_by-row wanted k (completing d until o at) rows u =
      ground (arith, str_eq_iff d.id k, count-complete http_error cut d until o at rows u)
  recorded_by-row wanted k _ rows u = refl

  -- A budget that every recorded outcome draws on bounds their number.
  recorded-le :
      (wanted : Outcome → Bool) (k : String) (P : Option Delivery → Type 0)
      (budget : Option Delivery → ℕ)
      → ((x : Action) (o : Option Delivery)
          → P o
          → P (act_row http_error cut x k o)
            × (recorded_row wanted k x o + budget (act_row http_error cut x k o) ≤ budget o))
      → (xs : List Action) (rows : List Delivery) → Unique delivery_id rows
      → P (row delivery_id k rows)
      → recorded wanted k xs rows ≤ budget (row delivery_id k rows)
  recorded-le wanted k P budget step [] rows u p = omega arith
  recorded-le wanted k P budget step (x ∷ xs) rows u p =
      let next = act http_error cut x rows in
      let (p', paid) = step x (row delivery_id k rows) p in
      let same = row-act http_error cut x k rows u in
      omega (
        arith,
        recorded_by-row wanted k x rows u,
        ap budget same,
        paid,
        recorded-le wanted k P budget step xs next (act-Unique http_error cut x rows u)
            (subst P (sym same) p'),
      )

  abbrev tries_left : Option Delivery → ℕ
  tries_left none = 0
  tries_left (some r) = max_attempts - r.attempts

  abbrev deliveries_left : Option Delivery → ℕ
  deliveries_left none = 0
  deliveries_left (some r) = if is_pending r.status then 1 else 0

  abbrev IsValidRow : Option Delivery → Type 0
  IsValidRow none = Unit
  IsValidRow (some r) = IsValid r

  step_tries :
      (k : String) (x : Action) (o : Option Delivery)
      → IsValidRow o
      → IsValidRow (act_row http_error cut x k o)
        × (recorded_row (λ _. true) k x o + tries_left (act_row http_error cut x k o)
            ≤ tries_left o)
  step_tries k (claiming now d) none v = (tt, omega arith)
  step_tries k (completing d until o at) none v = (tt, ground arith)
  step_tries k (pruning now older_than) none v = (tt, omega arith)
  step_tries k (claiming now d) (some r) v = (ground arith, ground arith)
  step_tries k (completing d until o at) (some r) v = (ground arith, ground arith)
  step_tries k (pruning now older_than) (some r) v = (ground arith, ground arith)

  step_deliveries :
      (k : String) (x : Action) (o : Option Delivery)
      → Unit {0}
      → Unit {0}
        × (recorded_row is_ok k x o + deliveries_left (act_row http_error cut x k o)
            ≤ deliveries_left o)
  step_deliveries k (claiming now d) none v = (tt, omega arith)
  step_deliveries k (completing d until o at) none v = (tt, ground arith)
  step_deliveries k (pruning now older_than) none v = (tt, omega arith)
  step_deliveries k (claiming now d) (some r) v = (tt, ground arith)
  step_deliveries k (completing d until o at) (some r) v = (tt, ground arith)
  step_deliveries k (pruning now older_than) (some r) v = (tt, ground arith)

  row-IsValid :
      (k : String) (rows : List Delivery) → IsValidTable rows → IsValidRow (row delivery_id k rows)
  row-IsValid k rows v = elim (Option-cases (row delivery_id k rows)) [
    | inl e ↦ subst IsValidRow (sym e) tt
    | inr (r, e) ↦ subst IsValidRow (sym e) (All-row IsValid (has delivery_id k) rows r v.valid e)
  ]

  -- Over any interleaving of queries, at most four outcomes are recorded for a delivery, and of those
  -- at most one is a success.
  pub recorded_bounds :
      (k : String) (xs : List Action) (rows : List Delivery)
      → IsValidTable rows
      → (recorded (λ _. true) k xs rows ≤ max_attempts) × (recorded is_ok k xs rows ≤ 1)
  recorded_bounds k xs rows v =
      let tries =
        recorded-le (λ _. true) k IsValidRow tries_left (step_tries k) xs rows v.unique
          (row-IsValid k rows v) in
      let oks =
        recorded-le is_ok k (λ _. Unit {0}) deliveries_left (step_deliveries k) xs rows v.unique
          tt in
      (ground (arith, tries), ground (arith, oks))

  abbrev IsFinal : Delivery → Option Delivery → Type 0
  IsFinal r o = (o ≡ none) ⊎ (o ≡ some r)

  act_row-IsFinal :
      (r : Delivery) (k : String) (x : Action) (o : Option Delivery)
      → is_pending r.status ≡ false
      → IsFinal r o
      → IsFinal r (act_row http_error cut x k o)
  act_row-IsFinal r k x none e f = inl refl
  act_row-IsFinal r k (claiming now d) (some r') e f = ground arith
  act_row-IsFinal r k (completing d until o at) (some r') e f = ground arith
  act_row-IsFinal r k (pruning now older_than) (some r') e f = ground arith

  -- A delivery that was delivered or has failed keeps its record as it is, until it is dropped.
  pub terminal_final :
      (k : String) (r : Delivery) (xs : List Action) (rows : List Delivery)
      → Unique delivery_id rows
      → row delivery_id k rows ≡ some r
      → r.status ≢ pending
      → (row delivery_id k (acts http_error cut xs rows) ≡ none)
        ⊎ (row delivery_id k (acts http_error cut xs rows) ≡ some r)
  terminal_final k r xs rows u e over =
      acts-keep http_error cut (IsFinal r) k (λ x o. act_row-IsFinal r k x o (ground arith)) xs rows
        u (inr e)
