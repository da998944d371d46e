-- ===== src/Photos/Due.antt =====
-- When the records of the queue are due.
use apex_appraise.Table.Keyed.{has}
use apex_appraise.Table.{update_many}
use apex_appraise.Common.{
  str_eq, str_eq_iff, str_eq_self, Bool-cases, keep, any, All, insert_by, sort_by, ℕ, zero, suc,
  ◌+◌, ◌≤◌, String, ◌≡◌, refl, ◌∙◌, subst, inl, inr, Bool, true, false, ◌||◌, not, List, [], ◌∷◌,
  arith,
}
use apex_appraise.Photos.{
  QueuedPhoto, local_key, backoff_index, backoff_for, is_filed, is_due, due_for_upload,
  UploadOutcome, DrainResult, patch, answered, recorded, drain_from, drain_once, brought,
  bring_forward, uploaded, failed,
}

backoff_index-large : (a : ℕ) → 5 ≤ a → backoff_index a ≡ 5
backoff_index-large a h = ground (arith, h)

backoff_for-large : (a : ℕ) → 5 ≤ a → backoff_for a ≡ 900_000
unfolding backoff_for
backoff_for-large a h = rw (backoff_index-large a h) refl

-- Every wait is at most fifteen minutes, and after a failure at least five seconds.
backoff_for-bounds :
    (attempts : ℕ) → (backoff_for attempts ≤ 900_000) × (5_000 ≤ backoff_for (suc attempts))
unfolding backoff_for
backoff_for-bounds zero = (omega arith, omega arith)
backoff_for-bounds (suc zero) = (omega arith, omega arith)
backoff_for-bounds (suc (suc zero)) = (omega arith, omega arith)
backoff_for-bounds (suc (suc (suc zero))) = (omega arith, omega arith)
backoff_for-bounds (suc (suc (suc (suc zero)))) = (omega arith, omega arith)
backoff_for-bounds (suc (suc (suc (suc (suc a))))) =
    rw
      (
        backoff_for-large (suc (suc (suc (suc (suc a))))) (omega arith),
        backoff_for-large (suc (suc (suc (suc (suc (suc a)))))) (omega arith),
      )
      (omega arith, omega arith)

-- A record that waits is due fifteen minutes after it was queued.
due_after :
    (now : ℕ) (p : QueuedPhoto)
    → is_filed p ≡ false
    → p.queued_at + 900_000 ≤ now
    → is_due now p ≡ true
due_after now p f h = ground (arith, f, h, (backoff_for-bounds p.attempts).0)

brought-due :
    (now later : ℕ) (p : QueuedPhoto)
    → 900_000 ≤ now
    → now ≤ later
    → is_filed p ≡ false
    → is_due later (brought now p) ≡ true
brought-due now later p c h f = ground (arith, f, h, c, (backoff_for-bounds p.attempts).0)

-- What is asked of a record that waits: it is due.
abbrev pub IsDueAt : ℕ → QueuedPhoto → Type 0
IsDueAt now p = is_filed p ≡ false → is_due now p ≡ true

All-brought :
    (now later : ℕ) (store : List QueuedPhoto)
    → 900_000 ≤ now
    → now ≤ later
    → All (IsDueAt later) (update_many (λ p. not (is_filed p)) (brought now) store)
All-brought now later [] c h = tt
All-brought now later (p ∷ store) c h = elim (Bool-cases (is_filed p)) [
  | inl f ↦ rw (f, All) (λ g. ground (arith, f, g), All-brought now later store c h)
  | inr f ↦ rw (f, All) (λ g. brought-due now later p c h f, All-brought now later store c h)
]

-- Once the browser is online again every record that waits is due from then on, however often it has failed;
-- and without that it is due fifteen minutes after it was queued.
pub bring_forward-IsDueAt :
    (now later : ℕ) (store : List QueuedPhoto)
    → 900_000 ≤ now
    → now ≤ later
    → All (IsDueAt later) (bring_forward now store)
      × All (λ p. p.queued_at + 900_000 ≤ later → IsDueAt later p) store
unfolding bring_forward
bring_forward-IsDueAt now later store c h = (All-brought now later store c h, waits later store)
  where
    waits :
        (later : ℕ) (store : List QueuedPhoto)
        → All (λ p. p.queued_at + 900_000 ≤ later → IsDueAt later p) store
    waits later [] = tt
    waits later (p ∷ store) = (λ w f. due_after later p f w, waits later store)

-- The record is due only while an answer for it is awaited.
abbrev IsAwaited : (now : ℕ) → List QueuedPhoto → QueuedPhoto → Type 0
IsAwaited now due p = is_due now p ≡ true → any (has local_key p.local_id) due ≡ true

-- An upload that succeeds gives an id.
abbrev pub GivesIds : (QueuedPhoto → UploadOutcome) → Type 0
GivesIds upload = (p : QueuedPhoto) (id : String) → upload p ≡ uploaded id → str_eq id "" ≡ false

answered-rests :
    (now : ℕ) (sent : QueuedPhoto) (u : UploadOutcome)
    → ((id : String) → u ≡ uploaded id → str_eq id "" ≡ false)
    → (p : QueuedPhoto) → is_due now (answered now sent u p) ≡ false
answered-rests now sent (uploaded id) g p = ground (arith, g id refl)
answered-rests now sent (failed error) g p =
    let wait : 5_000 ≤ backoff_for (sent.attempts + 1) =
      subst (λ a. 5_000 ≤ backoff_for a) (omega arith) (backoff_for-bounds sent.attempts).1 in
    ground (arith, wait)

any-insert_by :
    (q : QueuedPhoto → Bool) (key : QueuedPhoto → ℕ) (x : QueuedPhoto) (ys : List QueuedPhoto)
    → any q (insert_by key x ys) ≡ (q x || any q ys)
any-insert_by q key x [] = ground arith
any-insert_by q key x (y ∷ ys) = ground (arith, any-insert_by q key x ys)

any-sort_by :
    (q : QueuedPhoto → Bool) (key : QueuedPhoto → ℕ) (xs : List QueuedPhoto)
    → any q (sort_by key xs) ≡ any q xs
any-sort_by q key [] = refl
any-sort_by q key (x ∷ xs) =
    ground (arith, any-insert_by q key x (sort_by key xs), any-sort_by q key xs)

-- What an answer leaves to be awaited.
All-answered :
    (upload : QueuedPhoto → UploadOutcome) (now : ℕ) (sent : QueuedPhoto) (due : List QueuedPhoto)
    (store : List QueuedPhoto)
    → GivesIds upload
    → All (IsAwaited now (sent ∷ due)) store
    → All (IsAwaited now due) (patch sent.local_id (answered now sent (upload sent)) store)
All-answered upload now sent due [] g a = tt
All-answered upload now sent due (p ∷ store) g a =
    elim (Bool-cases (str_eq p.local_id sent.local_id)) [
      | inl e ↦
          rw (e, All)
            (
              λ d. ground (arith, d, answered-rests now sent (upload sent) (g sent) p),
              All-answered upload now sent due store g a.1,
            )
      | inr e ↦
          rw (e, All)
            (
              λ d. ground (
                arith,
                a.0 d,
                e,
                str_eq_iff sent.local_id p.local_id,
                str_eq_iff p.local_id sent.local_id,
              ),
              All-answered upload now sent due store g a.1,
            )
    ]

store-recorded :
    (sent : QueuedPhoto) (u : UploadOutcome) (out : DrainResult)
    → (recorded sent u out).store ≡ out.store
store-recorded sent (uploaded id) out = refl
store-recorded sent (failed error) out = refl

All-rests :
    (now : ℕ) (store : List QueuedPhoto)
    → All (IsAwaited now []) store
    → All (λ p. is_due now p ≡ false) store
All-rests now [] a = tt
All-rests now (p ∷ store) a = (
  elim (Bool-cases (is_due now p)) [ inl d ↦ ground (arith, a.0 d) | inr d ↦ d ],
  All-rests now store a.1,
)

drain_from-rests :
    (upload : QueuedPhoto → UploadOutcome) (now : ℕ) (due store : List QueuedPhoto)
    → GivesIds upload
    → All (IsAwaited now due) store
    → All (λ p. is_due now p ≡ false) (drain_from upload now due store).store
drain_from-rests upload now [] store g a = All-rests now store a
drain_from-rests upload now (sent ∷ due) store g a =
    let next = patch sent.local_id (answered now sent (upload sent)) store in
    rw (store-recorded sent (upload sent) (drain_from upload now due next))
      (drain_from-rests upload now due next g (All-answered upload now sent due store g a))

any-keep_due :
    (now : ℕ) (store rest : List QueuedPhoto)
    → ((p : QueuedPhoto)
        → any (has local_key p.local_id) (keep (is_due now) rest) ≡ true
        → any (has local_key p.local_id) (keep (is_due now) store) ≡ true)
    → All (IsAwaited now (keep (is_due now) store)) rest
any-keep_due now store [] h = tt
any-keep_due now store (p ∷ rest) h = (
  λ d. h p (ground (arith, d, str_eq_self p.local_id)),
  any-keep_due now store rest (λ q e. h q (ground (arith, e))),
)

All-IsAwaited :
    (now : ℕ) (due sorted store : List QueuedPhoto)
    → ((q : QueuedPhoto → Bool) → any q sorted ≡ any q due)
    → All (IsAwaited now due) store
    → All (IsAwaited now sorted) store
All-IsAwaited now due sorted [] h a = tt
All-IsAwaited now due sorted (p ∷ store) h a =
    (λ d. h (has local_key p.local_id) ∙ a.0 d, All-IsAwaited now due sorted store h a.1)

-- One pass leaves no record due at its time, whether the uploads succeed or fail, where an upload that
-- succeeds gives an id.
pub drain_once-rests :
    (upload : QueuedPhoto → UploadOutcome) (now : ℕ) (store : List QueuedPhoto)
    → GivesIds upload
    → All (λ p. is_due now p ≡ false) (drain_once upload now store).store
unfolding drain_once
drain_once-rests upload now store g =
    drain_from-rests upload now (due_for_upload store now) store g (
      All-IsAwaited now (keep (is_due now) store) (due_for_upload store now) store
        (λ q. any-sort_by q (λ p. p.queued_at) (keep (is_due now) store))
        (any-keep_due now store store (λ p e. e)))
