-- ===== src/Webhooks/Draining.antt =====
-- apps/api/src/webhook-delivery.ts: a pass of the worker and an emission keep the tables valid, and
-- their counts are what they say.
use apex_appraise.Common.Text.{codes}
use apex_appraise.Plans.Catalogue.{plan_has_feature, public_api}
use apex_appraise.Table.Unique.{Unique, Unique-append, All-append}
use apex_appraise.Table.Keyed.{has}
use apex_appraise.Common.{
  ◌==◌, if◌then◌else◌, str_eq, str_eq_iff, Bool-cases, length, keep, take, any, All, length-append,
  sort_by, ℕ, zero, suc, ◌+◌, ◌≤◌, ◌<◌, String, ◌≡◌, refl, inl, inr, false, List, [], ◌∷◌, ◌++◌,
  arith,
}
use apex_appraise.Webhooks.Delivery.{
  Delivery, Endpoint, delivery_id, claim_lease_ms, is_due, candidates, claim, is_ok, complete,
}
use apex_appraise.Webhooks.Drain.{
  Db, Visit, Tally, with_endpoints, attempt, visit, drain_loop, drain_webhooks, wanted, queue_all,
  emit_webhook,
}
use apex_appraise.Webhooks.Claims.Rows.{act, acts, IsValid, IsValidTable, claiming, completing}
use apex_appraise.Webhooks.Claims.Attempts.{act-IsValidTable, acts-IsValidTable}

abbrev pub outcomes : Tally → ℕ
outcomes t = t.sent + t.failed

module _ (http_error : ℕ → String) (cut : String → String) where
  attempt_lem :
      (v : Visit) (d : Delivery) (e : Endpoint) (db : Db) (t : Tally)
      → IsValidTable db.deliveries
      → let (db', t') = attempt http_error cut v d e db t in
        IsValidTable db'.deliveries
        × (t.sent + t.failed ≤ t'.sent + t'.failed)
        × (t'.sent + t'.failed ≤ t.sent + t.failed + 1)
  unfolding attempt act
  attempt_lem v d e db t w =
      let mid = acts-IsValidTable http_error cut v.meanwhile db.deliveries w in
      let n = v.claim_at + claim_lease_ms in
      let done = act-IsValidTable http_error cut (completing d n v.outcome v.finished_at) _ mid in
      let rows = acts http_error cut v.meanwhile db.deliveries in
      let c = complete http_error cut d n v.outcome v.finished_at rows in
      elim (Bool-cases (c.0 == 1)) [
        | inl q ↦ rw q (elim (Bool-cases (is_ok v.outcome)) [
          | inl o ↦ rw o (done, omega arith, omega arith)
          | inr o ↦ rw o (done, omega arith, omega arith)
        ])
        | inr q ↦ rw q (done, omega arith, omega arith)
      ]

  visit_lem :
      (v : Visit) (d : Delivery) (e : Endpoint) (db : Db) (t : Tally)
      → IsValidTable db.deliveries
      → let (db', t') = visit http_error cut v d e db t in
        IsValidTable db'.deliveries × (outcomes t' ≤ outcomes t + 1)
  unfolding visit act
  visit_lem v d e db t w =
      let before = acts-IsValidTable http_error cut v.before db.deliveries w in
      let claimed = act-IsValidTable http_error cut (claiming v.claim_at d) _ before in
      let c = claim v.claim_at d (acts http_error cut v.before db.deliveries) in
      let (good, low, high) =
        attempt_lem v d e (record { deliveries = c.1; endpoints = db.endpoints }) t claimed in
      elim (Bool-cases (c.0 == 1)) [
        | inl q ↦ rw q (good, high)
        | inr q ↦ rw q (claimed, omega arith)
      ]

  drain_loop_lem :
      (vs : String → Visit) (ds : List (Delivery × Endpoint)) (db : Db) (t : Tally)
      → IsValidTable db.deliveries
      → let (db', t') = drain_loop http_error cut vs ds db t in
        IsValidTable db'.deliveries × (outcomes t' ≤ outcomes t + length ds)
  unfolding drain_loop
  drain_loop_lem vs [] db t w = (w, omega arith)
  drain_loop_lem vs ((d, e) ∷ ds) db t w =
      let next = visit http_error cut (vs d.id) d e db t in
      let (good, few) = visit_lem (vs d.id) d e db t w in
      let (good', few') = drain_loop_lem vs ds next.0 next.1 good in
      (good', omega (arith, few, few'))

  length-with_endpoints :
      (es : List Endpoint) (ds : List Delivery) → length (with_endpoints es ds) ≤ length ds
  length-with_endpoints es [] = omega arith
  length-with_endpoints es (d ∷ ds) = ground (arith, length-with_endpoints es ds)

  length-take : (n : ℕ) (ds : List Delivery) → length (take n ds) ≤ n
  length-take zero ds = omega arith
  length-take (suc n) [] = omega arith
  length-take (suc n) (d ∷ ds) = omega (arith, length-take n ds)

  -- A pass of the worker, whatever the receivers answer and whatever other workers do meanwhile, keeps
  -- the table valid and records at most fifty outcomes.
  pub drain_webhooks-IsValidTable :
      (now : ℕ) (vs : String → Visit) (db : Db)
      → IsValidTable db.deliveries
      → let (db', t) = drain_webhooks http_error cut now vs db in
        IsValidTable db'.deliveries × (t.sent + t.failed ≤ 50)
  unfolding drain_webhooks candidates
  drain_webhooks-IsValidTable now vs db w =
      let ds = take 50 (sort_by (λ d. d.created_at) (keep (is_due now) db.deliveries)) in
      let (good, few) =
        drain_loop_lem vs (with_endpoints db.endpoints ds) db (record { sent = 0; failed = 0 }) w in
      (
        good,
        omega (
          arith,
          few,
          length-with_endpoints db.endpoints ds,
          length-take 50 (sort_by (λ d. d.created_at) (keep (is_due now) db.deliveries)),
        ),
      )

-- The ids that the database gives to new rows are distinct.
abbrev pub IsDistinct : (ℕ → String) → Type 0
IsDistinct ids = (i j : ℕ) → i < j → str_eq (ids i) (ids j) ≡ false

-- No row of the table has such an id yet.
abbrev pub IsNew : (ℕ → String) → List Delivery → Type 0
IsNew ids = All (λ r. (i : ℕ) → str_eq (ids i) r.id ≡ false)

module _ (now : ℕ) (org_id event body : String) (ids : ℕ → String) where
  any-queue_all :
      (k : String) (n : ℕ) (es : List Endpoint)
      → ((i : ℕ) → n ≤ i → str_eq (ids i) k ≡ false)
      → any (has delivery_id k) (queue_all now org_id event body ids n es) ≡ false
  any-queue_all k n [] h = refl
  any-queue_all k n (e ∷ es) h =
      ground (arith, h n (omega arith), any-queue_all k (n + 1) es (λ i le. h i (omega arith)))

  queue_all-Unique :
      (n : ℕ) (es : List Endpoint)
      → IsDistinct ids
      → Unique delivery_id (queue_all now org_id event body ids n es)
  queue_all-Unique n [] d = tt
  queue_all-Unique n (e ∷ es) d = (
    any-queue_all (ids n) (n + 1) es (λ i le.
        ground
          (arith, d n i (omega arith), str_eq_iff (ids i) (ids n), str_eq_iff (ids n) (ids i))),
    queue_all-Unique (n + 1) es d,
  )

  queue_all-IsValid :
      (n : ℕ) (es : List Endpoint) → All IsValid (queue_all now org_id event body ids n es)
  queue_all-IsValid n [] = tt
  queue_all-IsValid n (e ∷ es) = (ground arith, queue_all-IsValid (n + 1) es)

  length-queue_all :
      (n : ℕ) (es : List Endpoint) → length (queue_all now org_id event body ids n es) ≡ length es
  length-queue_all n [] = refl
  length-queue_all n (e ∷ es) = omega (arith, length-queue_all (n + 1) es)

  new_absent :
      (rows : List Delivery) (es : List Endpoint)
      → IsNew ids rows
      → All
          (λ r. any (has delivery_id r.id) (queue_all now org_id event body ids 0 es) ≡ false)
          rows
  new_absent [] es f = tt
  new_absent (r ∷ rows) es f = (any-queue_all r.id 0 es (λ i _. f.0 i), new_absent rows es f.1)

  -- An emission queues one row for each endpoint of the workspace that is active and asked for the
  -- event, keeps every row there was and the table valid; it queues nothing for a plan without the
  -- public API.
  pub emit_webhook_lem :
      (plan : String) (db : Db)
      → IsValidTable db.deliveries
      → IsDistinct ids
      → IsNew ids db.deliveries
      → let (n, db') = emit_webhook now plan org_id event body ids db in
        IsValidTable db'.deliveries
        × (length db'.deliveries ≡ length db.deliveries + n)
        × (db'.endpoints ≡ db.endpoints)
        × (n ≡ (
            if plan_has_feature plan public_api
            then length (wanted org_id (codes event) db.endpoints)
            else 0))
  unfolding emit_webhook
  emit_webhook_lem plan db v d f =
      let es = wanted org_id (codes event) db.endpoints in
      let rows = db.deliveries in
      let new = queue_all now org_id event body ids 0 es in
      let good : IsValidTable (rows ++ new) = record {
        unique =
            Unique-append delivery_id rows new v.unique (queue_all-Unique 0 es d)
              (new_absent rows es f);
        valid = All-append IsValid rows new v.valid (queue_all-IsValid 0 es);
      } in
      elim (Bool-cases (plan_has_feature plan public_api)) [
        | inl q ↦
            rw q (good, omega (arith, length-append rows new, length-queue_all 0 es), refl, refl)
        | inr q ↦ rw q (v, omega arith, refl, refl)
      ]
