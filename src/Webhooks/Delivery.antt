-- ===== src/Webhooks/Delivery.antt =====
-- apps/api/src/webhook-delivery.ts: the rows of WebhookDelivery and WebhookEndpoint, and the queries
-- that claim a delivery, record the outcome of an attempt, and drop what has aged out.
-- Times are milliseconds since the epoch.
use apex_appraise.Common.{
  ltb, leb, ◌==◌, if◌then◌else◌, length, get_or, keep, take, sort_by, ℕ, ◌+◌, ◌*◌, String, Bool,
  true, false, ◌&&◌, not, Option, none, some, List, [], ◌∷◌,
}
use apex_appraise.Table.{update_many, count, delete_many}
use apex_appraise.Table.Keyed.{has}

pub data Status : Type 0 where
  pending delivered failed : Status

-- `model WebhookDelivery`
pub record Delivery : Type 0 where
  pub id : String
  pub org_id : String
  pub endpoint_id : String
  pub event : String
  pub payload : String
  pub status : Status
  pub attempts : ℕ
  pub response_code : Option ℕ
  pub error : Option String
  pub created_at : ℕ
  pub delivered_at : Option ℕ
  pub next_attempt_at : ℕ

-- `model WebhookEndpoint`, less the secret, its author and its creation date
pub record Endpoint : Type 0 where
  pub id : String
  pub org_id : String
  pub url : String
  pub events : String
  pub active : Bool
  pub last_attempt_at : Option ℕ
  pub failure_count : ℕ

abbrev pub delivery_id : Delivery → String
delivery_id d = d.id

abbrev pub endpoint_id : Endpoint → String
endpoint_id e = e.id

abbrev pub retry_delays : List ℕ
retry_delays = 0 ∷ 30 ∷ 300 ∷ 1800 ∷ []

abbrev pub max_attempts : ℕ
max_attempts = length retry_delays

abbrev pub failure_limit : ℕ
failure_limit = 20

abbrev pub claim_lease_ms : ℕ
claim_lease_ms = 60_000

abbrev pub delivery_retention_ms : ℕ
delivery_retention_ms = 30 * 24 * 60 * 60 * 1000

-- past the end of the schedule its last entry applies
unfoldable pub retry_delay_ms : ℕ → ℕ
retry_delay_ms attempt = get_or retry_delays attempt 1800 * 1000

abbrev pub is_pending : Status → Bool
is_pending pending = true
is_pending _ = false

abbrev pub is_due : ℕ → Delivery → Bool
is_due now d = is_pending d.status && (ltb d.attempts max_attempts && leb d.next_attempt_at now)

-- The first fifty rows that are due, oldest first.
unfoldable pub candidates : ℕ → List Delivery → List Delivery
candidates now rows = take 50 (sort_by (λ d. d.created_at) (keep (is_due now) rows))

-- the row still stands as the worker read it, and is due
abbrev pub may_claim : ℕ → Delivery → Delivery → Bool
may_claim now d r = is_pending r.status && (r.attempts == d.attempts && leb r.next_attempt_at now)

abbrev pub leased : ℕ → Delivery → Delivery
leased until r = record r { next_attempt_at = until }

-- The count of rows claimed, and the table after the claim. `d` is the row as the worker read it.
unfoldable pub claim : ℕ → Delivery → List Delivery → ℕ × List Delivery
claim now d rows =
    let mine = λ (r : Delivery). has delivery_id d.id r && may_claim now d r in
    (count mine rows, update_many mine (leased (now + claim_lease_ms)) rows)

-- What the POST came back with: a status code, or the message of what was thrown, of which the first
-- 300 characters are kept.
pub data Outcome : Type 0 where
  responded : ℕ → Outcome
  threw : String → Outcome

abbrev pub is_ok : Outcome → Bool
is_ok (responded code) = leb 200 code && ltb code 300
is_ok (threw message) = false

abbrev pub code_of : Outcome → Option ℕ
code_of (responded code) = some code
code_of (threw message) = none

abbrev pub status_after : Bool → ℕ → Status
status_after ok next = if ok then delivered else if leb max_attempts next then failed else pending

-- only the owner of this exact claim
abbrev pub owns : Delivery → ℕ → Delivery → Bool
owns d claim_until r =
    is_pending r.status && (r.attempts == d.attempts && r.next_attempt_at == claim_until)

-- `http_error` prints a code as `HTTP <code>`, and `cut` is `slice(0, 300)`.
module _ (http_error : ℕ → String) (cut : String → String) where
  abbrev pub error_of : Outcome → Option String
  error_of (responded code) = if leb 200 code && ltb code 300 then none else some (http_error code)
  error_of (threw message) = some (cut message)

  abbrev pub outcome_row : Delivery → Outcome → ℕ → Delivery → Delivery
  outcome_row d o finished_at r =
      let next = d.attempts + 1 in
      record r {
        attempts = r.attempts + 1;
        response_code = code_of o;
        status = status_after (is_ok o) next;
        delivered_at = if is_ok o then some finished_at else none;
        error = error_of o;
        next_attempt_at = if is_ok o then r.next_attempt_at else finished_at + retry_delay_ms next;
      }

  unfoldable pub complete : Delivery → ℕ → Outcome → ℕ → List Delivery → ℕ × List Delivery
  complete d claim_until o finished_at rows =
      let mine = λ (r : Delivery). has delivery_id d.id r && owns d claim_until r in
      (count mine rows, update_many mine (outcome_row d o finished_at) rows)

-- `recordAttempt`. `loaded` is the failure count as the worker read it; the increment is the
-- database's own.
abbrev pub attempted : (loaded : ℕ) → Bool → ℕ → Endpoint → Endpoint
attempted loaded ok at e = record e {
  last_attempt_at = some at;
  failure_count = if ok then 0 else e.failure_count + 1;
  active = if not ok && leb failure_limit (loaded + 1) then false else e.active;
}

unfoldable pub record_attempt : Endpoint → Bool → ℕ → List Endpoint → List Endpoint
record_attempt loaded ok at =
    update_many (has endpoint_id loaded.id) (attempted loaded.failure_count ok at)

-- terminal rows that were created before the cutoff `now - olderThanMs`
abbrev pub is_finished : (now older_than : ℕ) → Delivery → Bool
is_finished now older_than d = not (is_pending d.status) && ltb (d.created_at + older_than) now

unfoldable pub prune_webhook_deliveries : (now older_than : ℕ) → List Delivery → ℕ × List Delivery
prune_webhook_deliveries now older_than rows =
    (count (is_finished now older_than) rows, delete_many (is_finished now older_than) rows)
