-- ===== src/Engagement/Schedule.antt =====
-- Requests on the terms of a deal: one at a time, or at the same time, where the row that a request has
-- read may be any earlier one, and the entries in the trail come after the writes to the row in any order,
-- or not at all.
use apex_appraise.Common.{Result, ok, err, ℕ, String, Bool, Option, none, List, [], ◌∷◌}
use apex_appraise.Common.Refusals.{Refusal}
use apex_appraise.Engagement.{
  TermsText, EngagementTerms, Deal, tell, save, issue, revoke_link, accept, withdraw, Signature,
  sign,
}

pub data Request : Type 0 where
  saves : (has_deal : Bool) (terms : TermsText) (expected : Option ℕ) → Request
  issues : (has_deal : Bool) (token : String) (expiry_days : Option ℕ) → Request
  revokes withdraws : (has_deal : Bool) → Request
  accepts : (has_deal : Bool) (by : String) → Request
  signs : (token : String) (signature : Signature) → Request

unfoldable pub handle :
    Request → (now : ℕ) → (seen : Option EngagementTerms) → Deal → Result Refusal Deal
unfolding save issue revoke_link accept withdraw sign
handle (saves has_deal terms expected) now seen d = save has_deal terms expected now seen d
handle (issues has_deal token expiry_days) now seen d = issue has_deal token expiry_days now seen d
handle (revokes has_deal) now seen d = revoke_link has_deal now seen d
handle (withdraws has_deal) now seen d = withdraw has_deal now seen d
handle (accepts has_deal by) now seen d = accept has_deal by now seen d
handle (signs token signature) now seen d = sign token signature now seen d

-- A request that is refused leaves the deal as it was.
abbrev pub settled : Deal → Result Refusal Deal → Deal
settled d (err e) = d
settled d (ok after) = after

-- A request at the time `now` that has read `seen`.
pub record Act : Type 0 where
  pub request : Request
  pub now : ℕ
  pub seen : Option EngagementTerms

abbrev pub act : Act → Deal → Deal
act a d = settled d (handle a.request a.now a.seen d)

-- A request writes the row, or some request writes an entry that it owes.
pub data Step : Type 0 where
  writes : (a : Act) → Step
  tells : (n : ℕ) → Step

abbrev pub step : Step → Deal → Deal
step (writes a) d = act a d
step (tells n) d = tell n d

-- Whatever each request has read.
abbrev pub run : List Step → Deal → Deal
run [] d = d
run (s ∷ steps) d = run steps (step s d)

-- A request that is accepted writes its entry before the next one comes.
abbrev pub finished : Deal → Result Refusal Deal → Deal
finished d (err e) = d
finished d (ok after) = tell 0 after

-- One request after another: each reads the row that stands.
abbrev pub serve : List (ℕ × Request) → Deal → Deal
serve [] d = d
serve ((now, q) ∷ requests) d = serve requests (finished d (handle q now d.row d))

abbrev pub new_deal : Deal
new_deal = record { row = none; written = []; owed = []; trail = [] }
