-- ===== src/Auth/Throttle/Pruning.antt =====
-- apps/api/src/auth/password.ts: the rows that `pruneAuthThrottles` drops decide nothing any more.
use apex_appraise.Common.{
  All, ℕ, ◌+◌, ◌≤◌, String, ◌≡◌, refl, Bool, ◌&&◌, Option, none, some, List, [], ◌∷◌, arith,
}
use apex_appraise.Table.{update_many, upsert, delete_many}
use apex_appraise.Table.Unique.{
  Unique, Unique-update_many, Unique-upsert, Unique-delete_many, spared, row-delete_by,
  All-update_many, All-upsert, All-delete_many, All-row,
}
use apex_appraise.Auth.Throttle.Row.{
  Throttle, lock_ms, login_key, reset_key, has_key, row_of, check_row, locked_until_of,
  check_lockout, has_lapsed, reopen, bump, fresh, lock, record_failure, record_success,
  window_lapsed, too_many_reset_requests, is_stale, prune_auth_throttles,
}

abbrev pub key_of : Throttle → String
key_of r = r.key

abbrev pub EndsBy : ℕ → Option ℕ → Type 0
EndsBy t none = Unit
EndsBy t (some until) = until ≤ t

-- No lock outlasts the last write of its row by more than the length of a lock, and no row was
-- written after `latest`.
pub record IsSound (latest : ℕ) (r : Throttle) : Type 0 where
  pub lock_ends : EndsBy (r.updated_at + lock_ms) r.locked_until
  pub written : r.updated_at ≤ latest

pub record IsWellFormed (latest : ℕ) (rows : List Throttle) : Type 0 where
  pub unique : Unique key_of rows
  pub sound : All (IsSound latest) rows

module _ {latest now stamp : ℕ} (on_time : latest ≤ stamp) (before : now ≤ stamp) where
  IsSound-later : (r : Throttle) → IsSound latest r → IsSound stamp r
  IsSound-later r s = record { lock_ends = s.lock_ends; written = omega arith }

  All-later : (rows : List Throttle) → All (IsSound latest) rows → All (IsSound stamp) rows
  All-later [] a = tt
  All-later (r ∷ rows) (s, a) = (IsSound-later r s, All-later rows a)

  bump-IsSound : (r : Throttle) → IsSound stamp r → IsSound stamp (bump stamp r)
  bump-IsSound r s = ground arith

  lock-IsSound : (r : Throttle) → IsSound stamp (lock now stamp r)
  lock-IsSound r = record { lock_ends = omega arith; written = omega arith }

  reopen-IsSound : (r : Throttle) → IsSound stamp (reopen now stamp r)
  reopen-IsSound r = record { lock_ends = tt; written = omega arith }

  fresh-IsSound : (k : String) → IsSound stamp (fresh k now stamp)
  fresh-IsSound k = record { lock_ends = tt; written = omega arith }

  -- The reset of a lapsed row and the count, which both throttles begin with.
  counted-IsWellFormed :
      (k : String) (p : Throttle → Bool) (rows : List Throttle)
      → IsWellFormed latest rows
      → IsWellFormed stamp (
          upsert
            (has_key k)
            (bump stamp)
            (fresh k now stamp)
            (update_many p (reopen now stamp) rows))
  counted-IsWellFormed k p rows w = record {
    unique =
        Unique-upsert key_of k (bump stamp) (fresh k now stamp) (λ r. refl) refl _
          (Unique-update_many key_of p (reopen now stamp) (λ r. refl) rows w.unique);
    sound =
        All-upsert (IsSound stamp) (has_key k) (bump stamp) (fresh k now stamp) bump-IsSound
          (fresh-IsSound k) _
          (All-update_many (IsSound stamp) p (reopen now stamp) (λ r _ _. reopen-IsSound r) rows
            (All-later rows w.sound));
  }

  -- A recorded failure keeps the table well formed.
  pub record_failure-IsWellFormed :
      (email : String) (rows : List Throttle)
      → IsWellFormed latest rows
      → IsWellFormed stamp (record_failure now stamp email rows)
  unfolding record_failure
  record_failure-IsWellFormed email rows w =
      let k = login_key email in
      let c = counted-IsWellFormed k (λ r. has_key k r && has_lapsed now r.locked_until) rows w in
      record {
        unique = Unique-update_many key_of _ (lock now stamp) (λ r. refl) _ c.unique;
        sound =
            All-update_many (IsSound stamp) _ (lock now stamp) (λ r _ _. lock-IsSound r) _ c.sound;
      }

  -- A counted reset request keeps the table well formed.
  pub too_many_reset_requests-IsWellFormed :
      (email : String) (rows : List Throttle)
      → IsWellFormed latest rows
      → IsWellFormed stamp (too_many_reset_requests now stamp email rows).1
  unfolding too_many_reset_requests
  too_many_reset_requests-IsWellFormed email rows w =
      let k = reset_key email in
      counted-IsWellFormed k (λ r. has_key k r && window_lapsed now r) rows w

pub delete_many-IsWellFormed :
    (latest : ℕ) (p : Throttle → Bool) (rows : List Throttle)
    → IsWellFormed latest rows
    → IsWellFormed latest (delete_many p rows)
delete_many-IsWellFormed latest p rows w = record {
  unique = Unique-delete_many key_of p rows w.unique;
  sound = All-delete_many (IsSound latest) p rows w.sound;
}

-- A cleared or pruned table is well formed.
pub record_success-IsWellFormed :
    (latest : ℕ) (email : String) (rows : List Throttle)
    → IsWellFormed latest rows
    → IsWellFormed latest (record_success email rows)
unfolding record_success
record_success-IsWellFormed latest email rows w = delete_many-IsWellFormed latest _ rows w

pub prune-IsWellFormed :
    (latest now older_than : ℕ) (rows : List Throttle)
    → IsWellFormed latest rows
    → IsWellFormed latest (prune_auth_throttles now older_than rows).1
unfolding prune_auth_throttles
prune-IsWellFormed latest now older_than rows w = delete_many-IsWellFormed latest _ rows w

check_row-spared :
    (latest now now' older_than : ℕ) (o : Option Throttle)
    → ((r : Throttle) → o ≡ some r → IsSound latest r)
    → lock_ms ≤ older_than
    → now ≤ now'
    → check_row now' (locked_until_of (spared key_of (is_stale now older_than) o))
      ≡ check_row now' (locked_until_of o)
check_row-spared latest now now' older_than none s long later = refl
check_row-spared latest now now' older_than (some r) s long later =
    let ok : IsSound latest r = s r refl in ground arith

-- Whoever asks after a pruning whether an address is locked has the answer that the table gave
-- before it, if rows are kept for at least the length of a lock.
pub check_lockout-prune :
    (latest now now' older_than : ℕ) (email : String) (rows : List Throttle)
    → IsWellFormed latest rows
    → lock_ms ≤ older_than
    → now ≤ now'
    → check_lockout now' email (prune_auth_throttles now older_than rows).1
      ≡ check_lockout now' email rows
unfolding check_lockout prune_auth_throttles
check_lockout-prune latest now now' older_than email rows w long later =
    let k = login_key email in
    rw (row-delete_by key_of k (is_stale now older_than) rows w.unique) (
      check_row-spared latest now now' older_than (row_of k rows)
        (λ r e. All-row (IsSound latest) (has_key k) rows r w.sound e) long later)
