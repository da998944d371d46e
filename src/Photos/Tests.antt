-- ===== src/Photos/Tests.antt =====
-- A queue of two photographs.
use apex_appraise.Common.{
  if◌then◌else◌, str_eq, All, ℕ, ◌+◌, ◌≤◌, String, ◌≡◌, refl, false, none, some, List, [], ◌∷◌,
  arith,
}
use apex_appraise.Photos.{
  QueuedPhoto, backoff_for, is_due, due_for_upload, room_index_for, queue_sentence, room,
  waiting_for_connection, UploadOutcome, drain_once, bring_forward, uploaded, failed,
}
use apex_appraise.Photos.Due.{IsDueAt, bring_forward-IsDueAt, GivesIds, drain_once-rests}
use apex_appraise.Photos.Kept.{Act, run, Keeps, run-Keeps, answering, bringing, forgetting}

abbrev photo : (local_id place : String) → (queued_at attempts : ℕ) → QueuedPhoto
photo local_id place queued_at attempts = record {
  local_id = local_id;
  deal_id = "d1";
  room_name = place;
  room_index = 0;
  taken_at = "2026-01-12";
  queued_at = queued_at;
  attempts = attempts;
  photo_id = none;
  last_error = none;
}

abbrev kitchen : QueuedPhoto
kitchen = photo "k" "Kitchen" 2_000_000 0

abbrev cellar : QueuedPhoto
cellar = photo "c" "Cellar" 1_990_000 2

abbrev both : List QueuedPhoto
both = kitchen ∷ cellar ∷ []

-- the server takes the kitchen and refuses the cellar
abbrev server : QueuedPhoto → UploadOutcome
server p = if str_eq p.local_id "k" then uploaded "s1" else failed "no signal"

oldest_first : due_for_upload both 2_010_000 ≡ cellar ∷ kitchen ∷ []
unfolding backoff_for
oldest_first = refl

drained : drain_once server 2_010_000 both ≡ record {
  store =
      record kitchen { photo_id = some "s1" }
      ∷ record cellar { attempts = 3; queued_at = 2_010_000; last_error = some "no signal" }
      ∷ [];
  uploads = "k" ∷ [];
  failures = ("c", "no signal") ∷ [];
}
unfolding drain_once backoff_for str_eq
drained = refl

one_waits :
    queue_sentence (drain_once server 2_010_000 both).store false 0
    ≡ some (waiting_for_connection 1)
unfolding drain_once backoff_for str_eq
one_waits = refl

moved_room : room_index_for cellar (room "Kitchen" ∷ room "Cellar" ∷ []) ≡ some 1
unfolding str_eq
moved_room = refl

not_blank : str_eq "s1" "" ≡ false
unfolding str_eq
not_blank = refl

server-GivesIds : GivesIds server
server-GivesIds p id h = ground (arith, h, not_blank)

drain_once-rests_example :
    All (λ p. is_due 2_010_000 p ≡ false) (drain_once server 2_010_000 both).store
drain_once-rests_example = drain_once-rests server 2_010_000 both server-GivesIds

bring_forward-IsDueAt_example :
    All (IsDueAt 2_020_000) (bring_forward 2_015_000 both)
    × All (λ p. p.queued_at + 900_000 ≤ 2_020_000 → IsDueAt 2_020_000 p) both
bring_forward-IsDueAt_example =
    bring_forward-IsDueAt 2_015_000 2_020_000 both (omega arith) (omega arith)

-- two tabs send the cellar at the same time, one fails, and another photograph is named
abbrev acts : List Act
acts =
    answering cellar (uploaded "s2") 2_010_000
    ∷ answering cellar (failed "no signal") 2_010_001
    ∷ bringing 2_011_000
    ∷ forgetting ("s1" ∷ [])
    ∷ []

run-Keeps_example : Keeps "c" cellar (run acts both)
unfolding bring_forward str_eq
run-Keeps_example =
    run-Keeps "c" acts both cellar (refl, (refl, tt)) (refl, (tt, (tt, (refl, tt)))) refl
