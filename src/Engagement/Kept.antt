-- ===== src/Engagement/Kept.antt =====
-- Signed terms under requests that come one after another.
use apex_appraise.Common.{
  Option-cases, All, Result, OnOk, OnOk-guard, ok, err, ℕ, String, ◌≡◌, refl, sym, ◌∙◌, subst, inl,
  inr, Bool, true, false, not, Option, some, List, [], ◌∷◌, arith,
}
use apex_appraise.Common.Refusals.{Refusal, not_found, bad_request}
use apex_appraise.Engagement.{
  TermsText, EngagementTerms, Deal, is_draft, is_accepted, is_some, link_expired, draft, issued,
  accepted, save, as_revoked, revoke_link, accept, Signature, row_of_link, sign,
}
use apex_appraise.Engagement.Schedule.{
  Request, handle, finished, serve, saves, issues, revokes, withdraws, accepts, signs,
}

-- What a signature is of, and the evidence of it.
pub record IsSameSigned (r after : EngagementTerms) : Type 0 where
  pub terms : after.terms ≡ r.terms
  pub status : after.status ≡ r.status
  pub accepted_at : after.accepted_at ≡ r.accepted_at
  pub accepted_by : after.accepted_by ≡ r.accepted_by
  pub signed_name : after.signed_name ≡ r.signed_name
  pub signed_at : after.signed_at ≡ r.signed_at
  pub signed_ip : after.signed_ip ≡ r.signed_ip
  pub signed_user_agent : after.signed_user_agent ≡ r.signed_user_agent

IsSameSigned-refl : (r : EngagementTerms) → IsSameSigned r r
IsSameSigned-refl r = record {
  terms = refl;
  status = refl;
  accepted_at = refl;
  accepted_by = refl;
  signed_name = refl;
  signed_at = refl;
  signed_ip = refl;
  signed_user_agent = refl;
}

IsSameSigned-trans :
    (a b c : EngagementTerms) → IsSameSigned a b → IsSameSigned b c → IsSameSigned a c
IsSameSigned-trans a b c h g = record {
  terms = g.terms ∙ h.terms;
  status = g.status ∙ h.status;
  accepted_at = g.accepted_at ∙ h.accepted_at;
  accepted_by = g.accepted_by ∙ h.accepted_by;
  signed_name = g.signed_name ∙ h.signed_name;
  signed_at = g.signed_at ∙ h.signed_at;
  signed_ip = g.signed_ip ∙ h.signed_ip;
  signed_user_agent = g.signed_user_agent ∙ h.signed_user_agent;
}

IsSameSigned-as_revoked : (now : ℕ) (r : EngagementTerms) → IsSameSigned r (as_revoked now r)
IsSameSigned-as_revoked now r = record {
  terms = refl;
  status = refl;
  accepted_at = refl;
  accepted_by = refl;
  signed_name = refl;
  signed_at = refl;
  signed_ip = refl;
  signed_user_agent = refl;
}

-- The deal still has the signed row, up to when its link ends.
abbrev pub Keeps : EngagementTerms → Deal → Type 0
Keeps r d = (after : EngagementTerms) × (d.row ≡ some after) × IsSameSigned r after

-- the requests that are meant to undo a signature
abbrev pub reopens : Request → Bool
reopens (saves has_deal terms expected) = false
reopens (issues has_deal token expiry_days) = true
reopens (revokes has_deal) = false
reopens (withdraws has_deal) = true
reopens (accepts has_deal by) = false
reopens (signs token signature) = false

module _ (d : Deal) (r : EngagementTerms) (row : d.row ≡ some r)
    (evidence : is_some r.signed_at ≡ true) (closed : is_accepted r.status ≡ true) where
  not_draft : is_draft r.status ≡ false
  not_draft =
      elim r.status as (λ s. is_accepted s ≡ true → is_draft s ≡ false) [
        | draft ↦ λ h. ground (arith, h)
        | issued ↦ λ h. refl
        | accepted ↦ λ h. refl
      ]
        closed

  kept : Keeps r d
  kept = (r, row, IsSameSigned-refl r)

  save_signed :
      (has_deal : Bool) (terms : TermsText) (expected : Option ℕ) (now : ℕ)
      → OnOk (Keeps r) (save has_deal terms expected now (some r) d)
  unfolding save
  save_signed has_deal terms expected now =
      OnOk-guard (Keeps r) has_deal not_found _ λ _. rw (closed, OnOk) tt

  accept_signed :
      (has_deal : Bool) (by : String) (now : ℕ) → OnOk (Keeps r) (accept has_deal by now (some r) d)
  unfolding accept
  accept_signed has_deal by now =
      OnOk-guard (Keeps r) has_deal not_found _ λ _. rw (not_draft, evidence, OnOk) tt

  revoke_signed : (has_deal : Bool) (now : ℕ) → OnOk (Keeps r) (revoke_link has_deal now (some r) d)
  unfolding revoke_link
  revoke_signed has_deal now = OnOk-guard (Keeps r) has_deal not_found _ λ _.
      OnOk-guard (Keeps r) (is_some r.sign_token) bad_request _
        λ _. rw (row, OnOk) (as_revoked now r, refl, IsSameSigned-as_revoked now r)

  sign_signed :
      (token : String) (g : Signature) (now : ℕ) → OnOk (Keeps r) (sign token g now (some r) d)
  unfolding sign
  sign_signed token g now = elim (Option-cases (row_of_link token (some r))) [
    | inl q ↦ rw (q, OnOk) tt
    | inr (v, q) ↦
        let same : v ≡ r = ground (arith, q) in
        rw (q, same, OnOk)
          (OnOk-guard (Keeps r) (not (is_draft r.status)) not_found _ λ _.
            OnOk-guard (Keeps r) (not (link_expired now r)) bad_request _ λ _. rw (closed, OnOk) tt)
  ]

  handle_signed :
      (q : Request) (now : ℕ) → reopens q ≡ false → OnOk (Keeps r) (handle q now (some r) d)
  unfolding handle
  handle_signed (saves has_deal terms expected) now h = save_signed has_deal terms expected now
  handle_signed (issues has_deal token days) now h = ground (arith, h)
  handle_signed (revokes has_deal) now h = revoke_signed has_deal now
  handle_signed (withdraws has_deal) now h = ground (arith, h)
  handle_signed (accepts has_deal by) now h = accept_signed has_deal by now
  handle_signed (signs token g) now h = sign_signed token g now

  finished_signed : (m : Result Refusal Deal) → OnOk (Keeps r) m → Keeps r (finished d m)
  finished_signed (ok after) h = h
  finished_signed (err e) h = kept

-- The firm's requests that come one after another leave signed terms as they were signed, with the name, the
-- time and the address of the signature and what was accepted, until the terms are issued or withdrawn.
pub serve_signed :
    (requests : List (ℕ × Request)) (d : Deal) (r : EngagementTerms)
    → d.row ≡ some r
    → is_some r.signed_at ≡ true
    → is_accepted r.status ≡ true
    → All (λ q. reopens q.1 ≡ false) requests
    → Keeps r (serve requests d)
serve_signed [] d r row evidence closed h = kept d r row evidence closed
serve_signed ((now, q) ∷ requests) d r row evidence closed h =
    let next = finished d (handle q now d.row d) in
    let (r1, row1, same1) = finished_signed d r row evidence closed (handle q now d.row d) (
      subst (λ seen. OnOk (Keeps r) (handle q now seen d)) (sym row)
        (handle_signed d r row evidence closed q now h.0)) in
    let (r2, row2, same2) =
      serve_signed requests next r1 row1 (rw same1.signed_at evidence) (rw same1.status closed)
        h.1 in
    (r2, row2, IsSameSigned-trans r r1 r2 same1 same2)
