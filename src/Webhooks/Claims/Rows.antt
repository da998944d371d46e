-- ===== src/Webhooks/Claims/Rows.antt =====
-- apps/api/src/webhook-delivery.ts: the queries of the workers as actions on the table, and their
-- effect on the row of one delivery.
use apex_appraise.Table.{update_many-none}
use apex_appraise.Common.{
  if◌then◌else◌, str_eq, str_eq_iff, All, ℕ, ◌+◌, ◌≤◌, ◌<◌, String, ◌≡◌, refl, sym, subst, ◌≢◌,
  ◌&&◌, Option, none, some, List, [], ◌∷◌, arith,
}
use apex_appraise.Table.Keyed.{has, row, row-update_many}
use apex_appraise.Table.Unique.{
  Unique, Unique-update_many, Unique-delete_many, row-delete_by, met, count-row,
}
use apex_appraise.Webhooks.Delivery.{
  Delivery, delivery_id, max_attempts, claim_lease_ms, may_claim, leased, claim, Outcome, owns,
  outcome_row, complete, is_finished, prune_webhook_deliveries, pending, delivered, failed,
}

pub data Action : Type 0 where
  claiming : (now : ℕ) → Delivery → Action
  completing : Delivery → (claim_until : ℕ) → Outcome → (finished_at : ℕ) → Action
  pruning : (now older_than : ℕ) → Action

module _ (http_error : ℕ → String) (cut : String → String) where
  unfoldable pub act : Action → List Delivery → List Delivery
  act (claiming now d) rows = (claim now d rows).1
  act (completing d until o at) rows = (complete http_error cut d until o at rows).1
  act (pruning now older_than) rows = (prune_webhook_deliveries now older_than rows).1

  abbrev pub acts : List Action → List Delivery → List Delivery
  acts [] rows = rows
  acts (a ∷ xs) rows = acts xs (act a rows)

  abbrev pub act_row : Action → String → Option Delivery → Option Delivery
  act_row a k none = none
  act_row (claiming now d) k (some r) =
      if str_eq d.id k && may_claim now d r then some (leased (now + claim_lease_ms) r) else some r
  act_row (completing d until o at) k (some r) =
      if str_eq d.id k && owns d until r then some (outcome_row http_error cut d o at r) else some r
  act_row (pruning now older_than) k (some r) =
      if is_finished now older_than r then none else some r

  pub act-Unique :
      (a : Action) (rows : List Delivery)
      → Unique delivery_id rows
      → Unique delivery_id (act a rows)
  unfolding act claim complete prune_webhook_deliveries
  act-Unique (claiming now d) rows u =
      Unique-update_many delivery_id _ (leased (now + claim_lease_ms)) (λ r. refl) rows u
  act-Unique (completing d until o at) rows u =
      Unique-update_many delivery_id _ (outcome_row http_error cut d o at) (λ r. refl) rows u
  act-Unique (pruning now older_than) rows u = Unique-delete_many delivery_id _ rows u

  pub row-act :
      (a : Action) (k : String) (rows : List Delivery)
      → Unique delivery_id rows
      → row delivery_id k (act a rows) ≡ act_row a k (row delivery_id k rows)
  unfolding act claim complete prune_webhook_deliveries
  row-act (claiming now d) k rows u = ground (
    arith,
    str_eq_iff d.id k,
    row-update_many delivery_id d.id k (may_claim now d) (leased (now + claim_lease_ms)) (λ r. refl)
        rows,
  )
  row-act (completing d until o at) k rows u = ground (
    arith,
    str_eq_iff d.id k,
    row-update_many delivery_id d.id k (owns d until) (outcome_row http_error cut d o at)
        (λ r. refl) rows,
  )
  row-act (pruning now older_than) k rows u =
      row-delete_by delivery_id k (is_finished now older_than) rows u

  -- A property of the row of a delivery that every action keeps, all sequences of actions keep.
  pub acts-keep :
      (P : Option Delivery → Type 0) (k : String)
      → ((a : Action) (o : Option Delivery) → P o → P (act_row a k o))
      → (xs : List Action) (rows : List Delivery) → Unique delivery_id rows
      → P (row delivery_id k rows)
      → P (row delivery_id k (acts xs rows))
  acts-keep P k step [] rows u p = p
  acts-keep P k step (a ∷ xs) rows u p =
      acts-keep P k step xs (act a rows) (act-Unique a rows u)
        (subst P (sym (row-act a k rows u)) (step a (row delivery_id k rows) p))

  pub acts-Unique :
      (xs : List Action) (rows : List Delivery)
      → Unique delivery_id rows
      → Unique delivery_id (acts xs rows)
  acts-Unique [] rows u = u
  acts-Unique (a ∷ xs) rows u = acts-Unique xs (act a rows) (act-Unique a rows u)

  pub count-claim :
      (now : ℕ) (d : Delivery) (rows : List Delivery)
      → Unique delivery_id rows
      → (claim now d rows).0 ≡ met delivery_id (may_claim now d) (row delivery_id d.id rows)
  unfolding claim
  count-claim now d rows u = count-row delivery_id d.id (may_claim now d) rows u

  pub count-complete :
      (d : Delivery) (until : ℕ) (o : Outcome) (at : ℕ) (rows : List Delivery)
      → Unique delivery_id rows
      → (complete http_error cut d until o at rows).0
        ≡ met delivery_id (owns d until) (row delivery_id d.id rows)
  unfolding complete
  count-complete d until o at rows u = count-row delivery_id d.id (owns d until) rows u

  pub complete_none :
      (d : Delivery) (until : ℕ) (o : Outcome) (at : ℕ) (rows : List Delivery)
      → (complete http_error cut d until o at rows).0 ≡ 0
      → complete http_error cut d until o at rows ≡ (0, rows)
  unfolding complete
  complete_none d until o at rows e =
      let mine = λ (r : Delivery). has delivery_id d.id r && owns d until r in
      ground (arith, update_many-none mine (outcome_row http_error cut d o at) rows e)

-- What holds of every delivery between two queries.
pub record IsValid (d : Delivery) : Type 0 where
  pub capped : d.attempts ≤ max_attempts
  pub pending_may_try : d.status ≡ pending → d.attempts < max_attempts
  pub failed_tried_all : d.status ≡ failed → d.attempts ≡ max_attempts
  pub delivered_once : d.status ≡ delivered → (0 < d.attempts) × (d.delivered_at ≢ none)

pub record IsValidTable (rows : List Delivery) : Type 0 where
  pub unique : Unique delivery_id rows
  pub valid : All IsValid rows
