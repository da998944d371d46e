-- ===== src/Photos/Queue.antt =====
-- apps/web/src/lib/photo-queue.ts. Times are milliseconds; a wait is compared with the time on the other side.
use apex_appraise.Common.{
  ltb, leb, ◌==◌, if◌then◌else◌, str_eq, length, get_or, keep, sort_by, ℕ, suc, ◌+◌, String, Bool,
  false, ◌&&◌, not, Option, none, some, List, [], ◌∷◌,
}

pub record QueuedPhoto : Type 0 where
  pub local_id : String
  pub deal_id : String
  pub room_name : String
  pub room_index : ℕ
  pub taken_at : String
  pub queued_at : ℕ
  pub attempts : ℕ
  pub photo_id : Option String
  pub last_error : Option String

pub data Room : Type 0 where
  room : (name : String) → Room

-- What the screen says, with how many photographs.
pub data QueueSentence : Type 0 where
  uploading still_to_upload waiting_for_connection : ℕ → QueueSentence

abbrev pub local_key : QueuedPhoto → String
local_key p = p.local_id

-- `BACKOFF_MS`
abbrev pub backoff_ms : List ℕ
backoff_ms = 0 ∷ 5_000 ∷ 15_000 ∷ 60_000 ∷ 300_000 ∷ 900_000 ∷ []

-- `Math.min(attempts, BACKOFF_MS.length - 1)`
abbrev pub backoff_index : ℕ → ℕ
backoff_index attempts = if leb attempts 5 then attempts else 5

unfoldable pub backoff_for : ℕ → ℕ
backoff_for attempts = get_or backoff_ms (backoff_index attempts) 0

-- `!!p.photoId`
abbrev pub is_id : Option String → Bool
is_id none = false
is_id (some id) = not (str_eq id "")

abbrev pub is_filed : QueuedPhoto → Bool
is_filed p = is_id p.photo_id

-- `isDue`
abbrev pub is_due : (now : ℕ) → QueuedPhoto → Bool
is_due now p = not (is_filed p) && leb (p.queued_at + backoff_for p.attempts) now

-- `dueForUpload`
abbrev pub due_for_upload : List QueuedPhoto → (now : ℕ) → List QueuedPhoto
due_for_upload photos now = sort_by (λ (p : QueuedPhoto). p.queued_at) (keep (is_due now) photos)

-- `awaitingAttribution`
abbrev pub awaiting_attribution : List QueuedPhoto → (deal_id : String) → List QueuedPhoto
awaiting_attribution photos deal_id =
    keep (λ (p : QueuedPhoto). str_eq p.deal_id deal_id && is_filed p) photos

abbrev pub index_from : ℕ → String → List Room → Option ℕ
index_from i name [] = none
index_from i name (room other ∷ rooms) =
    if str_eq other name then some i else index_from (suc i) name rooms

-- `roomIndexFor`
abbrev pub room_index_for : QueuedPhoto → List Room → Option ℕ
room_index_for p rooms = index_from 0 p.room_name rooms

-- `canSend`
abbrev pub can_send : (in_flight : ℕ) → Bool
can_send in_flight = in_flight == 0

-- `queueSentence`
abbrev pub queue_sentence :
    List QueuedPhoto → (online : Bool) → (in_flight : ℕ) → Option QueueSentence
queue_sentence photos online in_flight =
    if ltb 0 in_flight
    then some (uploading in_flight)
    else let waiting = length (keep (λ p. not (is_filed p)) photos) in
      if waiting == 0
      then none
      else some (if online then still_to_upload waiting else waiting_for_connection waiting)
