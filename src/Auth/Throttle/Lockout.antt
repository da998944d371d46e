-- ===== src/Auth/Throttle/Lockout.antt =====
-- apps/api/src/auth/password.ts: what failed sign-ins do to the lockout of an address.
use apex_appraise.Common.{
  ltb, leb, if◌then◌else◌, str_eq, str_eq_iff, str_eq_self, Bool-cases, length, All, ℕ, ◌+◌, ◌<◌,
  String, ◌≡◌, refl, sym, ap, ◌∙◌, inl, inr, Bool, false, ◌&&◌, Option, none, some, List, [], ◌∷◌,
  ◌++◌, arith,
}
use apex_appraise.Common.Text.{codes, concat_inj, codes-concat}
use apex_appraise.Common.{
  ltb, leb, if◌then◌else◌, str_eq, str_eq_iff, str_eq_self, Bool-cases, length, All, ℕ, ◌+◌, ◌<◌,
  String, ◌≡◌, refl, sym, ap, ◌∙◌, inl, inr, Bool, false, ◌&&◌, Option, none, some, List, [], ◌∷◌,
  ◌++◌, arith,
}
use apex_appraise.Common.Text.{codes, concat_inj}
use apex_appraise.Auth.Throttle.Row.{
  Throttle, max_failures, lock_ms, login_key, reset_key, has_key, row_of, check_lockout, has_lapsed,
  is_unlocked, reopen, bump, fresh, lock, record_failure, record_success,
}
use apex_appraise.Common.{
  ltb, leb, if◌then◌else◌, str_eq, str_eq_iff, str_eq_self, length, All, ℕ, ◌+◌, ◌<◌, String, ◌≡◌,
  refl, Bool, false, ◌&&◌, Option, none, some, List, [], ◌∷◌, ◌++◌, arith,
}
use apex_appraise.Table.{update_many, upsert}
use apex_appraise.Table.Keyed.{row-update_many, row-upsert, row-delete_many}
use apex_appraise.Auth.Throttle.Row.{
  Throttle, max_failures, lock_ms, login_key, has_key, row_of, check_lockout, has_lapsed,
  is_unlocked, reopen, bump, fresh, lock, record_failure, record_success,
}

-- The row of an address after a failure, from the row before it.
abbrev pub reopened : (now stamp : ℕ) → Throttle → Throttle
reopened now stamp r = if has_lapsed now r.locked_until then reopen now stamp r else r

abbrev pub lock_full : (now stamp : ℕ) → Throttle → Throttle
lock_full now stamp r =
    if leb max_failures r.count && is_unlocked r.locked_until then lock now stamp r else r

abbrev pub fail_row : (now stamp : ℕ) → String → Option Throttle → Throttle
fail_row now stamp k none = lock_full now stamp (fresh k now stamp)
fail_row now stamp k (some r) = lock_full now stamp (bump stamp (reopened now stamp r))

-- The three statements of a failure change the row of the address to `fail_row`, and no other row.
pub row-record_failure :
    (now stamp : ℕ) (email j : String) (rows : List Throttle)
    → row_of j (record_failure now stamp email rows) ≡ (
        if str_eq (login_key email) j
        then some (fail_row now stamp (login_key email) (row_of (login_key email) rows))
        else row_of j rows)
unfolding record_failure
row-record_failure now stamp email j rows =
    let k = login_key email in
    let reset =
      update_many (λ r. has_key k r && has_lapsed now r.locked_until) (reopen now stamp) rows in
    let counted = upsert (has_key k) (bump stamp) (fresh k now stamp) reset in
    ground (
      arith,
      str_eq_self k,
      row-update_many (λ r. r.key) k k (λ r. has_lapsed now r.locked_until) (reopen now stamp)
          (λ r. refl) rows,
      row-update_many (λ r. r.key) k j (λ r. has_lapsed now r.locked_until) (reopen now stamp)
          (λ r. refl) rows,
      row-upsert (λ r. r.key) k k (bump stamp) (fresh k now stamp) (λ r. refl) refl reset,
      row-upsert (λ r. r.key) k j (bump stamp) (fresh k now stamp) (λ r. refl) refl reset,
      row-update_many (λ r. r.key) k j (λ r. leb max_failures r.count && is_unlocked r.locked_until)
          (lock now stamp) (λ r. refl) counted,
    )

-- The lockout of one address as a counter that locks.
pub data Lockout : Type 0 where
  counting : ℕ → Lockout
  locked : ℕ → Lockout

abbrev pub view_row : ℕ → Option ℕ → Lockout
view_row n none = counting n
view_row n (some until) = locked until

abbrev pub view : Option Throttle → Lockout
view none = counting 0
view (some r) = view_row r.count r.locked_until

abbrev pub fail : ℕ → Lockout → Lockout
fail now (counting n) =
    if leb max_failures (n + 1) then locked (now + lock_ms) else counting (n + 1)
fail now (locked until) = if leb until now then counting 1 else locked until

abbrev pub is_locked : ℕ → Lockout → Bool
is_locked now (counting n) = false
is_locked now (locked until) = ltb now until

view-fail_row :
    (now stamp : ℕ) (k : String) (o : Option Throttle)
    → view (some (fail_row now stamp k o)) ≡ fail now (view o)
view-fail_row now stamp k none = ground arith
view-fail_row now stamp k (some r) = ground arith

abbrev pub view_of : String → List Throttle → Lockout
view_of email rows = view (row_of (login_key email) rows)

login_key-eq : (a b : String) → str_eq (login_key a) (login_key b) ≡ str_eq a b
unfolding login_key
login_key-eq a b = elim (Bool-cases (str_eq a b)) [
  | inl e ↦ rw ((str_eq_iff a b).0 e, str_eq_self (login_key b), str_eq_self b) refl
  | inr e ↦ elim (Bool-cases (str_eq (login_key a) (login_key b))) [
    | inl k ↦ ground (
      arith,
      e,
      (str_eq_iff a b).1 (concat_inj "login:" a b ((str_eq_iff (login_key a) (login_key b)).0 k)),
    )
    | inr k ↦ rw (e, k) refl
  ]
]

reset-login : (a b : String) → str_eq (login_key a) (reset_key b) ≡ false
unfolding login_key reset_key
reset-login a b = elim (Bool-cases (str_eq (login_key a) (reset_key b))) [
  | inl k ↦
      let same : codes (login_key a) ≡ codes (reset_key b) =
        ap codes ((str_eq_iff (login_key a) (reset_key b)).0 k) in
      let apart : codes "login:" ++ codes a ≡ codes "reset:" ++ codes b =
        sym (codes-concat "login:" a) ∙ same ∙ codes-concat "reset:" b in
      ground (arith, apart)
  | inr k ↦ k
]

-- A failure moves the counter of its own address by `fail`, leaves that of every other address as it was, and
-- leaves the count of password resets of every address, its own included.
pub view-record_failure :
    (now stamp : ℕ) (email other : String) (rows : List Throttle)
    → (view_of other (record_failure now stamp email rows)
        ≡ (if str_eq email other then fail now (view_of other rows) else view_of other rows))
      × (row_of (reset_key other) (record_failure now stamp email rows)
          ≡ row_of (reset_key other) rows)
view-record_failure now stamp email other rows = (
  ground (
    arith,
    str_eq_iff (login_key email) (login_key other),
    login_key-eq email other,
    row-record_failure now stamp email (login_key other) rows,
    view-fail_row now stamp (login_key email) (row_of (login_key email) rows),
  ),
  ground
      (arith, reset-login email other, row-record_failure now stamp email (reset_key other) rows),
)

pub check-view :
    (now : ℕ) (email : String) (rows : List Throttle)
    → (check_lockout now email rows).locked ≡ is_locked now (view_of email rows)
unfolding check_lockout
check-view now email rows = ground arith

-- Failures in a row, each with its time and the time that Prisma stamps.
abbrev pub record_failures : List (ℕ × ℕ) → String → List Throttle → List Throttle
record_failures [] email rows = rows
record_failures ((now, stamp) ∷ ts) email rows =
    record_failures ts email (record_failure now stamp email rows)

abbrev pub fails : List (ℕ × ℕ) → Lockout → Lockout
fails [] l = l
fails ((now, stamp) ∷ ts) l = fails ts (fail now l)

view-record_failures :
    (ts : List (ℕ × ℕ)) (email : String) (rows : List Throttle)
    → view_of email (record_failures ts email rows) ≡ fails ts (view_of email rows)
view-record_failures [] email rows = refl
view-record_failures ((now, stamp) ∷ ts) email rows = ground (
  arith,
  str_eq_self email,
  (view-record_failure now stamp email email rows).0,
  view-record_failures ts email (record_failure now stamp email rows),
)

view-record_success :
    (email : String) (rows : List Throttle) → view_of email (record_success email rows) ≡ counting 0
unfolding record_success
view-record_success email rows = ground (
  arith,
  str_eq_self (login_key email),
  row-delete_many (λ r. r.key) (login_key email) (login_key email) rows,
)

fails_below :
    (ts : List (ℕ × ℕ)) (n : ℕ)
    → length ts + n < max_failures
    → fails ts (counting n) ≡ counting (length ts + n)
fails_below [] n h = ground arith
fails_below ((now, stamp) ∷ ts) n h = ground (arith, fails_below ts (n + 1))

fails_locked :
    (ts : List (ℕ × ℕ)) (until : ℕ)
    → All (λ x. x.0 < until) ts
    → fails ts (locked until) ≡ locked until
fails_locked [] until h = refl
fails_locked ((now, stamp) ∷ ts) until h = ground (arith, fails_locked ts until h.1)

fails-append : (ts us : List (ℕ × ℕ)) (l : Lockout) → fails (ts ++ us) l ≡ fails us (fails ts l)
fails-append [] us l = refl
fails-append ((now, stamp) ∷ ts) us l = fails-append ts us (fail now l)

-- After a successful sign-in, fewer than five failures never lock the address.
pub under_limit_unlocked :
    (ts : List (ℕ × ℕ)) (now : ℕ) (email : String) (rows : List Throttle)
    → length ts < max_failures
    → (check_lockout now email (record_failures ts email (record_success email rows))).locked
      ≡ false
under_limit_unlocked ts now email rows h =
    let after = record_success email rows in
    ground (
      arith,
      check-view now email (record_failures ts email after),
      view-record_failures ts email after,
      view-record_success email rows,
      fails_below ts 0,
    )

-- The fifth failure after a success, at time `t`, locks the address until `t` plus fifteen minutes,
-- and failures that arrive before then do not move the end of the lock.
pub fifth_failure_locks :
    (before after : List (ℕ × ℕ)) (t stamp now : ℕ) (email : String) (rows : List Throttle)
    → length before ≡ 4
    → All (λ x. x.0 < t + lock_ms) after
    → (check_lockout now email
        (record_failures (before ++ ((t, stamp) ∷ after)) email (record_success email rows))).locked
      ≡ ltb now (t + lock_ms)
fifth_failure_locks before after t stamp now email rows four early =
    let ts = before ++ ((t, stamp) ∷ after) in
    let cleared = record_success email rows in
    ground (
      arith,
      check-view now email (record_failures ts email cleared),
      view-record_failures ts email cleared,
      view-record_success email rows,
      fails-append before ((t, stamp) ∷ after) (counting 0),
      fails_below before 0,
      fails_locked after (t + lock_ms) early,
    )
