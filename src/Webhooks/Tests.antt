-- ===== src/Webhooks/Tests.antt =====
-- Runs of the delivery queue, and its theorems at concrete tables.
use apex_appraise.Common.{
  str_eq, str_eq_iff, Bool-cases, length, ℕ, zero, suc, ◌+◌, ◌≤◌, String, ◌≡◌, refl, ap, inl, inr,
  true, none, some, List, [], ◌∷◌, map, arith,
}
use apex_appraise.Common.Text.{codes}
use apex_appraise.Plans.Catalogue.{plan_key, plan_has_feature}
use apex_appraise.Webhooks.Delivery.{
  Delivery, Endpoint, max_attempts, claim_lease_ms, retry_delay_ms, candidates, claim, is_ok,
  complete, record_attempt, pending, delivered, responded,
}
use apex_appraise.Webhooks.Drain.{
  Db, Visit, attempt, visit, drain_loop, drain_webhooks, wants, emit_webhook,
}
use apex_appraise.Webhooks.Draining.{IsDistinct}
use apex_appraise.Webhooks.Claims.Rows.{act, acts, IsValidTable, claiming, completing}
use apex_appraise.Webhooks.Claims.Exclusive.{claim_exclusive, stale_completion}
use apex_appraise.Webhooks.Claims.Attempts.{recorded, recorded_bounds}

abbrev http_error : ℕ → String
http_error code = "HTTP"

abbrev cut : String → String
cut s = s

abbrev waiting : Delivery
waiting = record {
  id = "d1";
  org_id = "o";
  endpoint_id = "e1";
  event = "appraisal.approved";
  payload = "{}";
  status = pending;
  attempts = 0;
  response_code = none;
  error = none;
  created_at = 50;
  delivered_at = none;
  next_attempt_at = 100;
}

abbrev sent_before : Delivery
sent_before = record {
  id = "d0";
  org_id = "o";
  endpoint_id = "e1";
  event = "appraisal.approved";
  payload = "{}";
  status = delivered;
  attempts = 1;
  response_code = some 200;
  error = none;
  created_at = 10;
  delivered_at = some 20;
  next_attempt_at = 60_010;
}

abbrev rows : List Delivery
rows = waiting ∷ sent_before ∷ []

abbrev endpoint : Endpoint
endpoint = record {
  id = "e1";
  org_id = "o";
  url = "https://hooks.example/x";
  events = "deal.created, appraisal.approved";
  active = true;
  last_attempt_at = none;
  failure_count = 0;
}

rows-IsValidTable : IsValidTable rows
unfolding str_eq
rows-IsValidTable = record {
  unique = (refl, (refl, tt));
  valid = (ground arith, (ground arith, tt));
}

abbrev db : Db
db = record { deliveries = rows; endpoints = endpoint ∷ [] }

abbrev refused : Visit
refused = record {
  before = [];
  claim_at = 200;
  outcome = responded 503;
  meanwhile = claiming 300 waiting ∷ [];
  finished_at = 900;
}

-- The receiver is down: the delivery waits thirty seconds more, and the endpoint has one failure.
drain_refused :
    let (db', t) = drain_webhooks http_error cut 150 (λ _. refused) db in
    (map (λ d. d.next_attempt_at) db'.deliveries ≡ 30_900 ∷ 60_010 ∷ [])
    × (map (λ e. e.failure_count) db'.endpoints ≡ 1 ∷ [])
    × (t.failed ≡ 1)
unfolding drain_webhooks drain_loop visit attempt claim complete act record_attempt candidates
    retry_delay_ms str_eq
drain_refused = (refl, refl, refl)

claim_exclusive_example :
    (claim 60_100 waiting (acts http_error cut (claiming 150 waiting ∷ []) rows)).0 ≡ 0
claim_exclusive_example =
    claim_exclusive http_error cut 150 60_100 waiting waiting [] rows rows-IsValidTable.unique
      (unfold claim str_eq in refl) refl refl (omega arith)

stale_completion_example :
    let last =
      acts http_error cut
        (claiming 70_000 waiting ∷ completing waiting 130_000 (responded 200) 70_100 ∷ [])
        (acts http_error cut (claiming 150 waiting ∷ []) rows) in
    complete http_error cut waiting (150 + claim_lease_ms) (responded 500) 71_000 last ≡ (0, last)
stale_completion_example =
    stale_completion http_error cut 150 70_000 71_000 waiting waiting (responded 500) []
      (completing waiting 130_000 (responded 200) 70_100 ∷ []) rows rows-IsValidTable.unique
      (unfold claim str_eq in refl) refl (unfold act claim str_eq in refl)

recorded_bounds_example :
    let xs = claiming 150 waiting ∷ completing waiting 60_150 (responded 200) 400 ∷ [] in
    (recorded http_error cut (λ _. true) "d1" xs rows ≤ max_attempts)
    × (recorded http_error cut is_ok "d1" xs rows ≤ 1)
recorded_bounds_example =
    recorded_bounds http_error cut "d1"
      (claiming 150 waiting ∷ completing waiting 60_150 (responded 200) 400 ∷ []) rows
      rows-IsValidTable

abbrev claimed_rows : List Delivery
claimed_rows = record waiting { next_attempt_at = 60_150 } ∷ sent_before ∷ []

-- Ids of any length.
abbrev ids : ℕ → String
ids zero = ""
ids (suc n) = String.◌∷◌ "a" (ids n)

length-codes-ids : (n : ℕ) → length (codes (ids n)) ≡ n
length-codes-ids zero = refl
length-codes-ids (suc n) = ap suc (length-codes-ids n)

ids-IsDistinct : IsDistinct ids
ids-IsDistinct i j lt = elim (Bool-cases (str_eq (ids i) (ids j))) [
  | inl e ↦
      let same : length (codes (ids i)) ≡ length (codes (ids j)) =
        ap (λ s. length (codes s)) ((str_eq_iff (ids i) (ids j)).0 e) in
      absurd (omega (arith, same, length-codes-ids i, length-codes-ids j))
  | inr e ↦ e
]

emits_once : (emit_webhook 5 "ENTERPRISE" "o" "appraisal.approved" "{}" ids db).0 ≡ 1
unfolding emit_webhook wants plan_has_feature plan_key str_eq
emits_once = refl
