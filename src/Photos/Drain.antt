-- ===== src/Photos/Drain.antt =====
-- apps/web/src/lib/photo-drain.ts. The store is the list of its records, each under its local id.
use apex_appraise.Common.{
  str_eq, any, ℕ, ◌+◌, ◌-◌, String, Bool, false, ◌&&◌, not, Option, none, some, List, [], ◌∷◌,
}
use apex_appraise.Table.{update_many, delete_many}
use apex_appraise.Table.Keyed.{has}
use apex_appraise.Photos.Queue.{QueuedPhoto, local_key, backoff_for, is_filed, due_for_upload}

pub data UploadOutcome : Type 0 where
  uploaded : (photo_id : String) → UploadOutcome
  failed : (error : String) → UploadOutcome

pub record DrainResult : Type 0 where
  pub store : List QueuedPhoto
  pub uploads : List String
  pub failures : List (String × String)

-- `patch`, which does nothing where the record has gone
abbrev pub patch : String → (QueuedPhoto → QueuedPhoto) → List QueuedPhoto → List QueuedPhoto
patch local_id f store = update_many (has local_key local_id) f store

abbrev pub as_uploaded : (photo_id : String) → QueuedPhoto → QueuedPhoto
as_uploaded photo_id p = record p { photo_id = some photo_id; last_error = none }

-- `tried` is how many attempts the record had when it was read.
abbrev pub as_failed : (tried now : ℕ) → (error : String) → QueuedPhoto → QueuedPhoto
as_failed tried now error p = record p {
  attempts = tried + 1;
  queued_at = now;
  last_error = some error;
}

-- what an answer does to the record that was sent
abbrev pub answered : (now : ℕ) → QueuedPhoto → UploadOutcome → QueuedPhoto → QueuedPhoto
answered now sent (uploaded photo_id) = as_uploaded photo_id
answered now sent (failed error) = as_failed sent.attempts now error

abbrev pub recorded : QueuedPhoto → UploadOutcome → DrainResult → DrainResult
recorded sent (uploaded photo_id) out = record out { uploads = sent.local_id ∷ out.uploads }
recorded sent (failed error) out = record out { failures = (sent.local_id, error) ∷ out.failures }

-- `upload` is what the server answers. The clock stands still through a pass.
abbrev pub drain_from :
    (upload : QueuedPhoto → UploadOutcome)
    → (now : ℕ) → (due : List QueuedPhoto) → (store : List QueuedPhoto) → DrainResult
drain_from upload now [] store = record { store = store; uploads = []; failures = [] }
drain_from upload now (sent ∷ due) store =
    recorded sent (upload sent)
      (drain_from upload now due (patch sent.local_id (answered now sent (upload sent)) store))

-- `drainOnce`
unfoldable pub drain_once :
    (upload : QueuedPhoto → UploadOutcome) → (now : ℕ) → List QueuedPhoto → DrainResult
drain_once upload now store = drain_from upload now (due_for_upload store now) store

abbrev pub is_named : List String → Option String → Bool
is_named named none = false
is_named named (some id) = any (λ name. str_eq name id) named

-- `record.photoId && named.has(record.photoId)`
abbrev pub is_attributed : List String → QueuedPhoto → Bool
is_attributed named p = is_filed p && is_named named p.photo_id

-- `forgetAttributed`
unfoldable pub forget_attributed : (named : List String) → List QueuedPhoto → List QueuedPhoto
forget_attributed named store = delete_many (is_attributed named) store

abbrev pub brought : (now : ℕ) → QueuedPhoto → QueuedPhoto
brought now p = record p { queued_at = now - backoff_for p.attempts }

-- `bringForward`
unfoldable pub bring_forward : (now : ℕ) → List QueuedPhoto → List QueuedPhoto
bring_forward now store = update_many (λ p. not (is_filed p)) (brought now) store
