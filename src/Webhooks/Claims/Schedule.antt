-- ===== src/Webhooks/Claims/Schedule.antt =====
-- apps/api/src/webhook-delivery.ts: the retry schedule holds whatever the workers do.
use apex_appraise.Common.{
  str_eq_self, ℕ, zero, suc, ◌+◌, ◌*◌, ◌≤◌, ◌<◌, String, ◌≡◌, refl, false, Option, none, some, List,
  ◌∷◌, arith,
}
use apex_appraise.Table.Keyed.{row}
use apex_appraise.Table.Unique.{Unique, met}
use apex_appraise.Webhooks.Delivery.{
  Delivery, delivery_id, retry_delay_ms, may_claim, claim, Outcome, is_ok, owns, complete,
}
use apex_appraise.Webhooks.Claims.Rows.{
  Action, act, acts, act_row, act-Unique, row-act, acts-Unique, count-claim, count-complete,
  completing,
}
use apex_appraise.Webhooks.Claims.Exclusive.{Held, acts-Held}

module _ (http_error : ℕ → String) (cut : String → String) where
  failed-Held :
      (d : Delivery) (until : ℕ) (o : Outcome) (at : ℕ) (row : Option Delivery)
      → is_ok o ≡ false
      → met delivery_id (owns d until) row ≡ 1
      → Held
          (d.attempts + 1)
          (at + retry_delay_ms (d.attempts + 1))
          (act_row http_error cut (completing d until o at) d.id row)
  failed-Held d until o at none bad c = tt
  failed-Held d until o at (some r) bad c = ground (arith, str_eq_self d.id)

  -- After a failure recorded at `at`, nobody claims the next attempt before the delay of the schedule
  -- has passed, whatever queries run in between.
  pub retry_not_before :
      (d d' : Delivery) (until at now : ℕ) (o : Outcome) (xs : List Action) (rows : List Delivery)
      → Unique delivery_id rows
      → is_ok o ≡ false
      → (complete http_error cut d until o at rows).0 ≡ 1
      → d'.id ≡ d.id
      → d'.attempts ≡ d.attempts + 1
      → now < at + retry_delay_ms (d.attempts + 1)
      → (claim now d' (acts http_error cut (completing d until o at ∷ xs) rows)).0 ≡ 0
  retry_not_before d d' until at now o xs rows u bad done same version early =
      let n = at + retry_delay_ms (d.attempts + 1) in
      let mid = act http_error cut (completing d until o at) rows in
      let umid = act-Unique http_error cut (completing d until o at) rows u in
      let held : Held (d.attempts + 1) n (row delivery_id d.id mid) =
        rw (row-act http_error cut (completing d until o at) d.id rows u) (
          failed-Held d until o at (row delivery_id d.id rows) bad
            (rw (count-complete http_error cut d until o at rows u) at done)) in
      let later = acts-Held http_error cut (d.attempts + 1) n d.id xs mid umid held in
      rw (count-claim http_error cut now d' _ (acts-Unique http_error cut xs mid umid))
        (rw same (go (row delivery_id d.id (acts http_error cut xs mid)) later))
    where
      go :
          (row : Option Delivery)
          → Held (d.attempts + 1) (at + retry_delay_ms (d.attempts + 1)) row
          → met delivery_id (may_claim now d') row ≡ 0
      go none h = refl
      go (some r) h = ground arith

-- The waits before the four attempts, and no longer wait past them.
pub retry_delay_ms-le : (attempt : ℕ) → retry_delay_ms attempt ≤ 30 * 60 * 1000
unfolding retry_delay_ms
retry_delay_ms-le zero = omega arith
retry_delay_ms-le (suc zero) = omega arith
retry_delay_ms-le (suc (suc zero)) = omega arith
retry_delay_ms-le (suc (suc (suc zero))) = omega arith
retry_delay_ms-le (suc (suc (suc (suc n)))) = omega arith
