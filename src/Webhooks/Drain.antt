-- ===== src/Webhooks/Drain.antt =====
-- apps/api/src/webhook-delivery.ts: `drainWebhooks`, the loop of one worker, and `emitWebhook`, which
-- queues an event. What other workers do while this one loads, claims and posts is a list of their
-- queries, and the answers of the receivers are given.
use apex_appraise.Common.{
  ◌==◌, if◌then◌else◌, str_eq, length, keep, any, ℕ, ◌+◌, String, Bool, ◌&&◌, none, some, List, [],
  ◌∷◌, ◌++◌,
}
use apex_appraise.Common.Text.{codes, codes_eq, trim, split_on}
use apex_appraise.Table.Keyed.{row}
use apex_appraise.Plans.Catalogue.{plan_has_feature, public_api}
use apex_appraise.Webhooks.Delivery.{
  Delivery, endpoint_id, Endpoint, claim_lease_ms, candidates, claim, Outcome, is_ok, complete,
  record_attempt, pending,
}
use apex_appraise.Webhooks.Claims.Rows.{Action, acts}

pub record Db : Type 0 where
  pub deliveries : List Delivery
  pub endpoints : List Endpoint

-- What happens around the attempt at one candidate: the queries of others before its claim, the two
-- readings of the clock, the outcome of the POST, and the queries of others while it is in flight.
pub record Visit : Type 0 where
  pub before : List Action
  pub claim_at : ℕ
  pub outcome : Outcome
  pub meanwhile : List Action
  pub finished_at : ℕ

pub record Tally : Type 0 where
  pub sent : ℕ
  pub failed : ℕ

-- `include: { endpoint: true }`: a delivery with its endpoint as it stood when the batch was read
abbrev pub with_endpoints : List Endpoint → List Delivery → List (Delivery × Endpoint)
with_endpoints es [] = []
with_endpoints es (d ∷ ds) = elim (row endpoint_id d.endpoint_id es) [
  | none ↦ with_endpoints es ds
  | some e ↦ (d, e) ∷ with_endpoints es ds
]

module _ (http_error : ℕ → String) (cut : String → String) where
  -- The part of an iteration that follows a won claim.
  unfoldable pub attempt : Visit → Delivery → Endpoint → Db → Tally → Db × Tally
  attempt v d e db t =
      let rows = acts http_error cut v.meanwhile db.deliveries in
      let (done, rows') =
        complete http_error cut d (v.claim_at + claim_lease_ms) v.outcome v.finished_at rows in
      let ok = is_ok v.outcome in
      if done == 1
      then (
        record { deliveries = rows'; endpoints = record_attempt e ok v.finished_at db.endpoints },
        if ok then record t { sent = t.sent + 1 } else record t { failed = t.failed + 1 },
      )
      else (record db { deliveries = rows' }, t)

  -- One iteration of the loop over the candidates.
  unfoldable pub visit : Visit → Delivery → Endpoint → Db → Tally → Db × Tally
  visit v d e db t =
      let rows = acts http_error cut v.before db.deliveries in
      let (claimed, rows') = claim v.claim_at d rows in
      let db' = record db { deliveries = rows' } in
      if claimed == 1 then attempt v d e db' t else (db', t)

  -- The loop, with the visit of each candidate by its id.
  unfoldable pub drain_loop :
      (String → Visit) → List (Delivery × Endpoint) → Db → Tally → Db × Tally
  drain_loop vs [] db t = (db, t)
  drain_loop vs ((d, e) ∷ rest) db t =
      let (db', t') = visit (vs d.id) d e db t in drain_loop vs rest db' t'

  unfoldable pub drain_webhooks : ℕ → (String → Visit) → Db → Db × Tally
  drain_webhooks now vs db =
      drain_loop vs (with_endpoints db.endpoints (candidates now db.deliveries)) db
        (record { sent = 0; failed = 0 })

-- An endpoint's comma-separated list of events names the event.
unfoldable pub wants : List ℕ → Endpoint → Bool
wants event e = any (λ w. codes_eq (trim w) event) (split_on b',' (codes e.events))

abbrev pub wanted : String → List ℕ → List Endpoint → List Endpoint
wanted org_id event es = keep (λ e. str_eq e.org_id org_id && e.active && wants event e) es

abbrev pub queued : (now : ℕ) → (org_id event body id : String) → Endpoint → Delivery
queued now org_id event body id e = record {
  id = id;
  org_id = org_id;
  endpoint_id = e.id;
  event = event;
  payload = body;
  status = pending;
  attempts = 0;
  response_code = none;
  error = none;
  created_at = now;
  delivered_at = none;
  next_attempt_at = now;
}

-- `createMany`, with the ids that the database gives to the rows
abbrev pub queue_all :
    (now : ℕ)
    → (org_id event body : String) → (ids : ℕ → String) → ℕ
    → List Endpoint
    → List Delivery
queue_all now org_id event body ids n [] = []
queue_all now org_id event body ids n (e ∷ es) =
    queued now org_id event body (ids n) e ∷ queue_all now org_id event body ids (n + 1) es

-- The count of rows queued, and the table with them. `plan` is the plan of the workspace as the row
-- read has it, the empty text if there is none.
unfoldable pub emit_webhook :
    (now : ℕ) → (plan org_id event body : String) → (ids : ℕ → String) → Db → ℕ × Db
emit_webhook now plan org_id event body ids db =
    let es = wanted org_id (codes event) db.endpoints in
    if plan_has_feature plan public_api
    then (
      length es,
      record db { deliveries = db.deliveries ++ queue_all now org_id event body ids 0 es },
    )
    else (0, db)
