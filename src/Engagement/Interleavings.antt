-- ===== src/Engagement/Interleavings.antt =====
-- The handlers of engagement.ts at the same time: each keeps the deal sound, whatever row it has read.
use apex_appraise.Common.{
  Bool-cases, Option-cases, Result, OnOk, OnOk-bind, OnOk-guard, OnOk-any, ok, err, ℕ, ◌+◌, String,
  ◌≡◌, refl, inl, inr, Bool, not, Option, none, some, List, [], ◌∷◌, arith,
}
use apex_appraise.Engagement.{
  TermsText, EngagementTerms, TrailEntry, Deal, is_draft, is_accepted, is_some, link_expired,
  drafted, edited, issued_terms, revoked_link, withdrew, recorded_acceptance, signed, new_terms,
  with_terms, save, is_unnamed, as_issued, link_days, issue, has_link, as_revoked, revoke_link,
  as_accepted, accept, as_withdrawn, withdraw, Signature, row_of_link, as_signed, sign_unaccepted,
  sign_seen, sign,
}
use apex_appraise.Engagement.Sound.{
  is_taken, IsExclusive, IsSoundRow, IsSoundFor, IsSound, wrote-AreTold, tell-IsSound,
  new_terms-IsSoundRow, with_terms-IsSoundRow, as_issued-IsSoundRow, as_revoked-IsSoundRow,
  as_accepted-IsSoundRow, as_signed-IsSoundRow, as_withdrawn-IsSoundRow, update-IsSound,
}
use apex_appraise.Engagement.Schedule.{
  Request, handle, settled, Step, step, run, new_deal, saves, issues, revokes, withdraws, accepts,
  signs, writes, tells,
}
use apex_appraise.Table.{count}
use apex_appraise.Common.{
  Bool-cases, Option-cases, Result, OnOk, OnOk-bind, OnOk-guard, OnOk-any, ok, err, ℕ, String, ◌≡◌,
  refl, inl, inr, Bool, not, Option, none, some, List, [], ◌∷◌, arith,
}
use apex_appraise.Common.Refusals.{Refusal, assert_unchanged, not_found, conflict, bad_request}
use apex_appraise.Engagement.{
  TermsText, EngagementTerms, Deal, is_draft, is_accepted, is_some, link_expired, edited,
  issued_terms, revoked_link, withdrew, recorded_acceptance, with_terms, save, is_unnamed,
  as_issued, link_days, issue, has_link, as_revoked, revoke_link, as_accepted, accept, as_withdrawn,
  withdraw, Signature, row_of_link, sign_unaccepted, sign_seen, sign,
}
use apex_appraise.Engagement.Schedule.{
  Request, handle, settled, run, new_deal, saves, issues, revokes, withdraws, accepts, signs,
}
use apex_appraise.Engagement.Sound.{
  is_taken, IsExclusive, IsSoundRow, IsSoundFor, IsSound, new_terms-IsSoundRow,
  with_terms-IsSoundRow, as_issued-IsSoundRow, as_revoked-IsSoundRow, as_accepted-IsSoundRow,
  as_signed-IsSoundRow, as_withdrawn-IsSoundRow, update-IsSound,
}

save-IsSound :
    (has_deal : Bool) (terms : TermsText) (expected : Option ℕ) (now : ℕ)
    (seen : Option EngagementTerms) (d : Deal)
    → IsSound d
    → OnOk IsSound (save has_deal terms expected now seen d)
unfolding save
save-IsSound has_deal terms expected now none d s = OnOk-guard IsSound has_deal not_found _ λ _.
    elim (Option-cases d.row) [
      | inl q ↦
          rw (q, OnOk)
            (
              s.0,
              (new_terms-IsSoundRow terms now, λ t. ground (arith, t, (rw q at s.1))),
              wrote-AreTold (new_terms terms now) drafted d s.2,
            )
      | inr (r, q) ↦ rw (q, OnOk) tt
    ]
save-IsSound has_deal terms expected now (some r) d s = OnOk-guard IsSound has_deal not_found _ λ _.
    OnOk-guard IsSound (not (is_accepted r.status)) bad_request _ λ _.
      OnOk-bind (λ _. Unit {0}) IsSound (assert_unchanged r.updated_at expected) _ (OnOk-any _)
        λ _ _.
          update-IsSound (with_terms terms now) edited d
            (λ r s. (with_terms-IsSoundRow terms now r s.0, s.1)) (λ x. x) s

issue-IsSound :
    (has_deal : Bool) (token : String) (expiry_days : Option ℕ) (now : ℕ)
    (seen : Option EngagementTerms) (d : Deal)
    → IsSound d
    → OnOk IsSound (issue has_deal token expiry_days now seen d)
unfolding issue
issue-IsSound has_deal token expiry_days now none d s =
    OnOk-guard IsSound has_deal not_found (err bad_request) λ _. tt
issue-IsSound has_deal token expiry_days now (some r) d s =
    OnOk-guard IsSound has_deal not_found _ λ _.
      OnOk-guard IsSound (not (is_unnamed r.terms)) bad_request _ λ _.
        update-IsSound (as_issued token (link_days expiry_days) now) issued_terms d
          (λ r s.
            (as_issued-IsSoundRow token (link_days expiry_days) now r, λ t. ground (arith, t)))
          (λ x. x) s

revoke_link-IsSound :
    (has_deal : Bool) (now : ℕ) (seen : Option EngagementTerms) (d : Deal)
    → IsSound d
    → OnOk IsSound (revoke_link has_deal now seen d)
unfolding revoke_link
revoke_link-IsSound has_deal now seen d s = OnOk-guard IsSound has_deal not_found _ λ _.
    OnOk-guard IsSound (has_link seen) bad_request _ λ _.
      update-IsSound (as_revoked now) revoked_link d (λ r s. (as_revoked-IsSoundRow now r s.0, s.1))
        (λ x. x) s

accept-IsSound :
    (has_deal : Bool) (by : String) (now : ℕ) (seen : Option EngagementTerms) (d : Deal)
    → IsSound d
    → OnOk IsSound (accept has_deal by now seen d)
unfolding accept
accept-IsSound has_deal by now none d s =
    OnOk-guard IsSound has_deal not_found (err bad_request) λ _. tt
accept-IsSound has_deal by now (some r) d s = OnOk-guard IsSound has_deal not_found _ λ _.
    OnOk-guard IsSound (not (is_draft r.status)) bad_request _ λ _.
      OnOk-guard IsSound (not (is_some r.signed_at)) conflict _ λ _.
        update-IsSound (as_accepted by now) (recorded_acceptance by) d
          (λ r s. (as_accepted-IsSoundRow by now r s.0, λ _. refl)) (λ x. x) s

withdraw-IsSound :
    (has_deal : Bool) (now : ℕ) (seen : Option EngagementTerms) (d : Deal)
    → IsSound d
    → OnOk IsSound (withdraw has_deal now seen d)
unfolding withdraw
withdraw-IsSound has_deal now seen d s = OnOk-guard IsSound has_deal not_found _ λ _.
    OnOk-guard IsSound (is_some seen) bad_request _ λ _.
      update-IsSound (as_withdrawn now) withdrew d
        (λ r s. (as_withdrawn-IsSoundRow now r, λ t. ground (arith, t))) (λ x. x) s

-- The write of a signature meets terms that are not accepted, so nobody has signed them.
sign_unaccepted-IsSound :
    (g : Signature) (now : ℕ) (d : Deal) → IsSound d → OnOk IsSound (sign_unaccepted g now d)
sign_unaccepted-IsSound g now d s = elim (Option-cases d.row) [
  | inl q ↦ rw (q, OnOk) tt
  | inr (r, q) ↦
      let sound : IsSoundFor (is_taken d.written) (some r) = rw q at s.1 in
      elim (Bool-cases (is_accepted r.status)) [
        | inl a ↦ rw (q, a, OnOk) tt
        | inr a ↦
            rw (q, a, OnOk)
              (
                (
                  elim (Bool-cases (is_taken d.written)) [
                    | inl t ↦ ground (arith, sound.1 t, a)
                    | inr t ↦ t
                  ],
                  s.0,
                ),
                (as_signed-IsSoundRow g now r sound.0, λ _. refl),
                wrote-AreTold (as_signed g now r) (signed g.name) d s.2,
              )
      ]
]

sign_seen-IsSound :
    (g : Signature) (now : ℕ) (seen : Option EngagementTerms) (d : Deal)
    → IsSound d
    → OnOk IsSound (sign_seen g now seen d)
sign_seen-IsSound g now none d s = tt
sign_seen-IsSound g now (some r) d s = OnOk-guard IsSound (not (is_draft r.status)) not_found _ λ _.
    OnOk-guard IsSound (not (link_expired now r)) bad_request _ λ _.
      OnOk-guard IsSound (not (is_accepted r.status)) bad_request _
        λ _. sign_unaccepted-IsSound g now d s

handle-IsSound :
    (q : Request) (now : ℕ) (seen : Option EngagementTerms) (d : Deal)
    → IsSound d
    → OnOk IsSound (handle q now seen d)
unfolding handle sign
handle-IsSound (saves has_deal terms expected) now seen d s =
    save-IsSound has_deal terms expected now seen d s
handle-IsSound (issues has_deal token days) now seen d s =
    issue-IsSound has_deal token days now seen d s
handle-IsSound (revokes has_deal) now seen d s = revoke_link-IsSound has_deal now seen d s
handle-IsSound (withdraws has_deal) now seen d s = withdraw-IsSound has_deal now seen d s
handle-IsSound (accepts has_deal by) now seen d s = accept-IsSound has_deal by now seen d s
handle-IsSound (signs token g) now seen d s = sign_seen-IsSound g now (row_of_link token seen) d s

settled-IsSound :
    (d : Deal) (m : Result Refusal Deal) → IsSound d → OnOk IsSound m → IsSound (settled d m)
settled-IsSound d (ok after) s h = h
settled-IsSound d (err e) s h = s

step-IsSound : (t : Step) (d : Deal) → IsSound d → IsSound (step t d)
step-IsSound (writes a) d s = settled-IsSound d _ s (handle-IsSound a.request a.now a.seen d s)
step-IsSound (tells n) d s = tell-IsSound n d s

run-IsSound : (steps : List Step) (d : Deal) → IsSound d → IsSound (run steps d)
run-IsSound [] d s = s
run-IsSound (t ∷ steps) d s = run-IsSound steps (step t d) (step-IsSound t d s)

new_deal-IsSound : IsSound new_deal
new_deal-IsSound = (tt, refl, λ p. refl)

-- However the requests on the terms of a new deal interleave, whatever earlier row each of them has read, and
-- whenever its entry in the trail follows its write to the row, if it does: the row is never signed a second
-- time before the terms are issued or withdrawn, and each write has exactly one entry, in the trail or still
-- to come, so that the trail never has more signatures than were written. The order of the trail may differ.
pub run-IsExclusive :
    (steps : List Step)
    → IsExclusive (run steps new_deal).written
      × ((p : TrailEntry → Bool)
          → count p (run steps new_deal).owed + count p (run steps new_deal).trail
            ≡ count p (run steps new_deal).written)
run-IsExclusive steps =
    let (exclusive, sound, told) = run-IsSound steps new_deal new_deal-IsSound in (exclusive, told)

-- However the requests on the terms of a new deal interleave, and whatever earlier row each of them has
-- read, the row agrees with its status: a signature stands on accepted terms only and has a name, accepted
-- terms say by whom and when, issued terms have a link, a draft has none, and every link has an end.
pub run-IsSoundRow :
    (steps : List Step) (r : EngagementTerms) → (run steps new_deal).row ≡ some r → IsSoundRow r
run-IsSoundRow steps r q = (rw q at (run-IsSound steps new_deal new_deal-IsSound).1).0
