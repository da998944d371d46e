-- ===== src/Webhooks/Claims/Exclusive.antt =====
-- apps/api/src/webhook-delivery.ts: a claim excludes every other worker until its lease ends, and a
-- worker whose lease was taken over records nothing.
use apex_appraise.Common.{
  str_eq_iff, str_eq_self, ℕ, ◌+◌, ◌≤◌, ◌<◌, String, ◌≡◌, refl, ◌∙◌, subst, true, Option, none,
  some, List, ◌∷◌, arith,
}
use apex_appraise.Table.Keyed.{row}
use apex_appraise.Table.Unique.{Unique, met}
use apex_appraise.Webhooks.Delivery.{
  Delivery, delivery_id, claim_lease_ms, is_pending, may_claim, claim, Outcome, owns, complete,
}
use apex_appraise.Webhooks.Claims.Rows.{
  Action, act, acts, act_row, act-Unique, row-act, acts-keep, acts-Unique, count-claim,
  count-complete, complete_none, claiming, completing, pruning,
}

-- The delivery stands at `n` at least, or has been tried again since attempt `a`, or is over.
abbrev pub Held : (a n : ℕ) → Option Delivery → Type 0
Held a n none = Unit
Held a n (some r) =
    (a ≤ r.attempts) × (is_pending r.status ≡ true → r.attempts ≡ a → n ≤ r.next_attempt_at)

module _ (http_error : ℕ → String) (cut : String → String) where
  act_row-Held :
      (a n : ℕ) (k : String) (x : Action) (o : Option Delivery)
      → Held a n o
      → Held a n (act_row http_error cut x k o)
  act_row-Held a n k x none h = tt
  act_row-Held a n k (claiming now d) (some r) h = ground arith
  act_row-Held a n k (completing d until o at) (some r) h = ground arith
  act_row-Held a n k (pruning now older_than) (some r) h = ground arith

  pub acts-Held :
      (a n : ℕ) (k : String) (xs : List Action) (rows : List Delivery)
      → Unique delivery_id rows
      → Held a n (row delivery_id k rows)
      → Held a n (row delivery_id k (acts http_error cut xs rows))
  acts-Held a n k = acts-keep http_error cut (Held a n) k (act_row-Held a n k)

  claimed-Held :
      (now : ℕ) (d : Delivery) (o : Option Delivery)
      → met delivery_id (may_claim now d) o ≡ 1
      → Held d.attempts (now + claim_lease_ms) (act_row http_error cut (claiming now d) d.id o)
  claimed-Held now d none h = tt
  claimed-Held now d (some r) h = ground (arith, str_eq_self d.id)

  -- Once a worker has claimed a delivery at `now`, no other worker that read the same attempt can claim
  -- it before the lease ends, whatever queries run in between.
  pub claim_exclusive :
      (now now' : ℕ) (d d' : Delivery) (xs : List Action) (rows : List Delivery)
      → Unique delivery_id rows
      → (claim now d rows).0 ≡ 1
      → d'.id ≡ d.id
      → d'.attempts ≡ d.attempts
      → now' < now + claim_lease_ms
      → (claim now' d' (acts http_error cut (claiming now d ∷ xs) rows)).0 ≡ 0
  claim_exclusive now now' d d' xs rows u won same version early =
      let mid = act http_error cut (claiming now d) rows in
      let umid = act-Unique http_error cut (claiming now d) rows u in
      let held : Held d.attempts (now + claim_lease_ms) (row delivery_id d.id mid) =
        rw (row-act http_error cut (claiming now d) d.id rows u) (
          claimed-Held now d (row delivery_id d.id rows)
            (rw (count-claim http_error cut now d rows u) at won)) in
      let later = acts-Held d.attempts (now + claim_lease_ms) d.id xs mid umid held in
      rw (count-claim http_error cut now' d' _ (acts-Unique http_error cut xs mid umid))
        (rw same (go (row delivery_id d.id (acts http_error cut xs mid)) later))
    where
      go :
          (o : Option Delivery)
          → Held d.attempts (now + claim_lease_ms) o
          → met delivery_id (may_claim now' d') o ≡ 0
      go none h = refl
      go (some r) h = ground arith

  superseded-Held :
      (a n now : ℕ) (k : String) (d : Delivery) (o : Option Delivery)
      → d.id ≡ k
      → Held a n o
      → met delivery_id (may_claim now d) o ≡ 1
      → Held a (n + 1) (act_row http_error cut (claiming now d) k o)
  superseded-Held a n now k d none same h c = tt
  superseded-Held a n now k d (some r) same h c = ground (arith, str_eq_iff d.id k)

  not_owned :
      (d : Delivery) (until : ℕ) (o : Option Delivery)
      → Held d.attempts (until + 1) o
      → met delivery_id (owns d until) o ≡ 0
  not_owned d until none h = refl
  not_owned d until (some r) h = ground arith

  -- A worker that claimed a delivery at `now` and whose lease another worker took over at `now'`
  -- changes nothing when it comes back with its outcome, whatever queries run around the takeover.
  pub stale_completion :
      (now now' at : ℕ) (d d' : Delivery) (o : Outcome) (xs ys : List Action) (rows : List Delivery)
      → Unique delivery_id rows
      → (claim now d rows).0 ≡ 1
      → d'.id ≡ d.id
      → (claim now' d' (acts http_error cut (claiming now d ∷ xs) rows)).0 ≡ 1
      → let last =
          acts http_error cut
            (claiming now' d' ∷ ys)
            (acts http_error cut (claiming now d ∷ xs) rows) in
        complete http_error cut d (now + claim_lease_ms) o at last ≡ (0, last)
  stale_completion now now' at d d' o xs ys rows u won same taken =
      let n = now + claim_lease_ms in
      let first = act http_error cut (claiming now d) rows in
      let ufirst = act-Unique http_error cut (claiming now d) rows u in
      let held : Held d.attempts n (row delivery_id d.id first) =
        rw (row-act http_error cut (claiming now d) d.id rows u) (
          claimed-Held now d (row delivery_id d.id rows)
            (rw (count-claim http_error cut now d rows u) at won)) in
      let mid = acts http_error cut xs first in
      let umid = acts-Unique http_error cut xs first ufirst in
      let later = acts-Held d.attempts n d.id xs first ufirst held in
      let second = act http_error cut (claiming now' d') mid in
      let usecond = act-Unique http_error cut (claiming now' d') mid umid in
      let past : Held d.attempts (n + 1) (row delivery_id d.id second) =
        rw (row-act http_error cut (claiming now' d') d.id mid umid) (
          superseded-Held d.attempts n now' d.id d' (row delivery_id d.id mid) same later (
            subst (λ k. met delivery_id (may_claim now' d') (row delivery_id k mid) ≡ 1) same
              (rw (count-claim http_error cut now' d' mid umid) at taken))) in
      let last = acts http_error cut ys second in
      let ulast = acts-Unique http_error cut ys second usecond in
      let over = acts-Held d.attempts (n + 1) d.id ys second usecond past in
      complete_none http_error cut d n o at last
        (count-complete http_error cut d n o at last ulast ∙ not_owned d n _ over)
