-- ===== src/Auth/Throttle/Row.antt =====
-- apps/api/src/auth/password.ts: rows of AuthThrottle and the functions that read and write them.
use Prim.Native.String.{◌++◌ as concat}
use apex_appraise.Common.{
  ℕ, ◌+◌, ◌-◌, ◌*◌, ◌/◌, String, Bool, true, false, ◌&&◌, Option, none, some, List, [], ◌∷◌, ltb,
  leb, if◌then◌else◌,
}
use apex_appraise.Table.Keyed.{has, row}
use apex_appraise.Table.{update_many, upsert, delete_many, count}

-- `model AuthThrottle`
pub record Throttle : Type 0 where
  pub key : String
  pub count : ℕ
  pub window_start : ℕ
  pub locked_until : Option ℕ
  pub updated_at : ℕ

abbrev pub max_failures : ℕ
max_failures = 5

abbrev pub lock_ms : ℕ
lock_ms = 15 * 60 * 1000

abbrev pub reset_max : ℕ
reset_max = 3

abbrev pub reset_window_ms : ℕ
reset_window_ms = 15 * 60 * 1000

abbrev pub prune_after_ms : ℕ
prune_after_ms = 24 * 60 * 60 * 1000

unfoldable pub login_key : String → String
login_key email = concat "login:" email

unfoldable pub reset_key : String → String
reset_key email = concat "reset:" email

unfoldable pub throttle_keys_for : String → List String
unfolding login_key reset_key
throttle_keys_for email =
    login_key email
    ∷ reset_key email
    ∷ login_key (concat "register:" email)
    ∷ reset_key (concat "verify:" email)
    ∷ []

abbrev pub has_key : String → Throttle → Bool
has_key = has (λ r. r.key)

abbrev pub row_of : String → List Throttle → Option Throttle
row_of = row (λ r. r.key)

-- The result of `checkLockout`.
pub record LockCheck : Type 0 where
  pub locked : Bool
  pub retry_after_mins : Option ℕ

abbrev pub check_row : ℕ → Option ℕ → LockCheck
check_row now none = record { locked = false; retry_after_mins = none }
check_row now (some until) =
    if ltb now until
    then record { locked = true; retry_after_mins = some ((until - now + 59_999) / 60_000) }
    else record { locked = false; retry_after_mins = none }

abbrev pub locked_until_of : Option Throttle → Option ℕ
locked_until_of none = none
locked_until_of (some r) = r.locked_until

unfoldable pub check_lockout : ℕ → String → List Throttle → LockCheck
check_lockout now email rows = check_row now (locked_until_of (row_of (login_key email) rows))

-- `lockedUntil: { lte: now }`, which no null satisfies
abbrev pub has_lapsed : ℕ → Option ℕ → Bool
has_lapsed now none = false
has_lapsed now (some until) = leb until now

abbrev pub is_unlocked : Option ℕ → Bool
is_unlocked none = true
is_unlocked (some _) = false

abbrev pub reopen : (now stamp : ℕ) → Throttle → Throttle
reopen now stamp r = record r {
  count = 0;
  locked_until = none;
  window_start = now;
  updated_at = stamp;
}

abbrev pub bump : (stamp : ℕ) → Throttle → Throttle
bump stamp r = record r { count = r.count + 1; updated_at = stamp }

abbrev pub fresh : String → (now stamp : ℕ) → Throttle
fresh k now stamp = record {
  key = k;
  count = 1;
  window_start = now;
  locked_until = none;
  updated_at = stamp;
}

abbrev pub lock : (now stamp : ℕ) → Throttle → Throttle
lock now stamp r = record r { locked_until = some (now + lock_ms); updated_at = stamp }

-- the three statements of the batch transaction, in their order
unfoldable pub record_failure : (now stamp : ℕ) → String → List Throttle → List Throttle
record_failure now stamp email rows =
    let k = login_key email in
    let reset =
      update_many (λ r. has_key k r && has_lapsed now r.locked_until) (reopen now stamp) rows in
    let counted = upsert (has_key k) (bump stamp) (fresh k now stamp) reset in
    update_many (λ r. has_key k r && (leb max_failures r.count && is_unlocked r.locked_until))
      (lock now stamp) counted

-- a missing row is an error that the source swallows
unfoldable pub record_success : String → List Throttle → List Throttle
record_success email = delete_many (has_key (login_key email))

abbrev pub window_lapsed : ℕ → Throttle → Bool
window_lapsed now r = leb (r.window_start + reset_window_ms) now

abbrev pub count_of : Option Throttle → ℕ
count_of none = 0
count_of (some r) = r.count

-- the answer, and the rows with the request counted
unfoldable pub too_many_reset_requests :
    (now stamp : ℕ) → String → List Throttle → Bool × List Throttle
too_many_reset_requests now stamp email rows =
    let k = reset_key email in
    let reset = update_many (λ r. has_key k r && window_lapsed now r) (reopen now stamp) rows in
    let counted = upsert (has_key k) (bump stamp) (fresh k now stamp) reset in
    (ltb reset_max (count_of (row_of k counted)), counted)

-- `updatedAt: { lt: cutoff }` for the cutoff `now - olderThanMs`
abbrev pub is_stale : (now older_than : ℕ) → Throttle → Bool
is_stale now older_than r = ltb (r.updated_at + older_than) now

unfoldable pub prune_auth_throttles : (now older_than : ℕ) → List Throttle → ℕ × List Throttle
prune_auth_throttles now older_than rows =
    (count (is_stale now older_than) rows, delete_many (is_stale now older_than) rows)
