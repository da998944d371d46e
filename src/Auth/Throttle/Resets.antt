-- ===== src/Auth/Throttle/Resets.antt =====
-- apps/api/src/auth/password.ts: how many password resets a window lets through.
use apex_appraise.Common.{
  ltb, if◌then◌else◌, str_eq, str_eq_self, length, All, ℕ, ◌+◌, ◌-◌, ◌≤◌, ◌<◌, min, String, ◌≡◌,
  refl, ◌&&◌, Option, none, some, List, [], ◌∷◌, arith,
}
use apex_appraise.Table.{update_many}
use apex_appraise.Table.Keyed.{row-update_many, row-upsert}
use apex_appraise.Auth.Throttle.Row.{
  Throttle, reset_max, reset_window_ms, reset_key, has_key, row_of, reopen, bump, fresh,
  window_lapsed, too_many_reset_requests,
}

-- The row of an address after a request, from the row before it.
abbrev pub request_row : (now stamp : ℕ) → String → Option Throttle → Throttle
request_row now stamp k none = fresh k now stamp
request_row now stamp k (some r) =
    bump stamp (if window_lapsed now r then reopen now stamp r else r)

pub row-too_many_reset_requests :
    (now stamp : ℕ) (email j : String) (rows : List Throttle)
    → row_of j (too_many_reset_requests now stamp email rows).1 ≡ (
        if str_eq (reset_key email) j
        then some (request_row now stamp (reset_key email) (row_of (reset_key email) rows))
        else row_of j rows)
unfolding too_many_reset_requests
row-too_many_reset_requests now stamp email j rows =
    let k = reset_key email in
    let reset = update_many (λ r. has_key k r && window_lapsed now r) (reopen now stamp) rows in
    ground (
      arith,
      str_eq_self k,
      row-update_many (λ r. r.key) k k (window_lapsed now) (reopen now stamp) (λ r. refl) rows,
      row-update_many (λ r. r.key) k j (window_lapsed now) (reopen now stamp) (λ r. refl) rows,
      row-upsert (λ r. r.key) k j (bump stamp) (fresh k now stamp) (λ r. refl) refl reset,
    )

-- The answer is read off the row that the call leaves.
answer-too_many_reset_requests :
    (now stamp : ℕ) (email : String) (rows : List Throttle)
    → (too_many_reset_requests now stamp email rows).0
      ≡ ltb reset_max
          (request_row now stamp (reset_key email) (row_of (reset_key email) rows)).count
unfolding too_many_reset_requests
answer-too_many_reset_requests now stamp email rows = ground (
  arith,
  str_eq_self (reset_key email),
  row-too_many_reset_requests now stamp email (reset_key email) rows,
)

-- Requests in a row, and how many of them are let through.
abbrev pub granted : List (ℕ × ℕ) → String → List Throttle → ℕ
granted [] email rows = 0
granted ((now, stamp) ∷ ts) email rows =
    let (refused, rows') = too_many_reset_requests now stamp email rows in
    (if refused then 0 else 1) + granted ts email rows'

-- The window that the row of an address stands in, if a request at `now` does not reopen it.
abbrev pub IsOpen : (start n : ℕ) → Option Throttle → Type 0
IsOpen start n none = ⊥
IsOpen start n (some r) = (r.window_start ≡ start) × (r.count ≡ n)

abbrev pub Reopens : ℕ → Option Throttle → Type 0
Reopens now none = Unit
Reopens now (some r) = r.window_start + reset_window_ms ≤ now

granted_in_window :
    (ts : List (ℕ × ℕ)) (start n : ℕ) (email : String) (rows : List Throttle)
    → IsOpen start n (row_of (reset_key email) rows)
    → All (λ x. x.0 < start + reset_window_ms) ts
    → granted ts email rows ≡ min (length ts) (reset_max - n)
granted_in_window [] start n email rows o a = omega arith
granted_in_window ((now, stamp) ∷ ts) start n email rows o (soon, a) =
    let next = (too_many_reset_requests now stamp email rows).1 in
    ground (
      arith,
      str_eq_self (reset_key email),
      answer-too_many_reset_requests now stamp email rows,
      row-too_many_reset_requests now stamp email (reset_key email) rows,
      granted_in_window ts start (n + 1) email next,
    )

-- Of the request that opens a window, at time `t`, and the requests of that window after it, exactly
-- the first three are let through.
pub granted-eq-min :
    (t stamp : ℕ) (ts : List (ℕ × ℕ)) (email : String) (rows : List Throttle)
    → Reopens t (row_of (reset_key email) rows)
    → All (λ x. x.0 < t + reset_window_ms) ts
    → granted ((t, stamp) ∷ ts) email rows ≡ min (length ts + 1) reset_max
granted-eq-min t stamp ts email rows o a =
    let next = (too_many_reset_requests t stamp email rows).1 in
    ground (
      arith,
      str_eq_self (reset_key email),
      answer-too_many_reset_requests t stamp email rows,
      row-too_many_reset_requests t stamp email (reset_key email) rows,
      granted_in_window ts t 1 email next,
    )
