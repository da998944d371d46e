-- ===== src/Engagement/Sound.antt =====
-- What every request keeps, whatever row it has read: what a row records agrees with its status, the row is
-- signed once between two issues or withdrawals, and each write has one entry, owed or told.
use apex_appraise.Common.{
  Option-cases, OnOk, ℕ, zero, suc, ◌+◌, String, ◌≡◌, refl, inl, inr, Bool, true, false, ◌&&◌,
  Option, none, some, List, [], ◌∷◌, ◌++◌, arith,
}
use apex_appraise.Common.{
  Option-cases, OnOk, ℕ, zero, suc, ◌+◌, String, ◌≡◌, refl, inl, inr, Bool, true, false, ◌&&◌,
  Option, none, some, List, [], ◌∷◌, ◌++◌, arith,
}
use apex_appraise.Engagement.{
  TermsText, EngagementTerms, TrailEntry, Deal, wrote, picked, left, tell, is_accepted, is_some,
  update, draft, issued, drafted, edited, issued_terms, revoked_link, withdrew, recorded_acceptance,
  signed, new_terms, with_terms, as_issued, as_revoked, as_accepted, as_withdrawn, Signature,
  as_signed,
}
use apex_appraise.Table.{count}
use apex_appraise.Common.{
  Option-cases, OnOk, ℕ, String, ◌≡◌, refl, inl, inr, Bool, true, false, ◌&&◌, Option, none, some,
  List, [], ◌∷◌, arith,
}
use apex_appraise.Engagement.{
  TermsText, EngagementTerms, TrailEntry, Deal, wrote, picked, left, tell, is_accepted, is_some,
  update, draft, issued, drafted, edited, issued_terms, revoked_link, withdrew, recorded_acceptance,
  signed, new_terms, with_terms, as_issued, as_revoked, as_accepted, as_withdrawn, Signature,
  as_signed,
}

-- Has the client signed since the terms were last issued or withdrawn?
abbrev pub is_taken : List TrailEntry → Bool
is_taken [] = false
is_taken (drafted ∷ trail) = is_taken trail
is_taken (edited ∷ trail) = is_taken trail
is_taken (issued_terms ∷ trail) = false
is_taken (revoked_link ∷ trail) = is_taken trail
is_taken (withdrew ∷ trail) = false
is_taken (recorded_acceptance name ∷ trail) = is_taken trail
is_taken (signed name ∷ trail) = true

-- No signature follows another before the terms are issued or withdrawn.
abbrev pub IsExclusive : List TrailEntry → Type 0
IsExclusive [] = Unit
IsExclusive (drafted ∷ trail) = IsExclusive trail
IsExclusive (edited ∷ trail) = IsExclusive trail
IsExclusive (issued_terms ∷ trail) = IsExclusive trail
IsExclusive (revoked_link ∷ trail) = IsExclusive trail
IsExclusive (withdrew ∷ trail) = IsExclusive trail
IsExclusive (recorded_acceptance name ∷ trail) = IsExclusive trail
IsExclusive (signed name ∷ trail) = (is_taken trail ≡ false) × IsExclusive trail

-- A signature is recorded on accepted terms only, with its name; accepted terms say by whom; issued terms
-- have a link; a draft has none; and every link ends.
pub record IsSoundRow (r : EngagementTerms) : Type 0 where
  pub signed_accepted : is_some r.signed_at ≡ true → is_accepted r.status ≡ true
  pub signed_named : is_some r.signed_name ≡ is_some r.signed_at
  pub accepted_named :
      is_accepted r.status ≡ true → (is_some r.accepted_at && is_some r.accepted_by) ≡ true
  pub issued_linked : r.status ≡ issued → (is_some r.issued_at && is_some r.sign_token) ≡ true
  pub draft_unlinked : r.status ≡ draft → is_some r.sign_token ≡ false
  pub link_ends : is_some r.sign_token ≡ true → is_some r.sign_token_expires_at ≡ true

abbrev pub IsSoundFor : (taken : Bool) → Option EngagementTerms → Type 0
IsSoundFor taken none = taken ≡ false
IsSoundFor taken (some r) = IsSoundRow r × (taken ≡ true → is_accepted r.status ≡ true)

-- The trail and the entries that are owed are those of the writes: of any kind as many as were written.
abbrev pub AreTold : Deal → Type 0
AreTold d = (p : TrailEntry → Bool) → count p d.owed + count p d.trail ≡ count p d.written

abbrev pub IsSound : Deal → Type 0
IsSound d = IsExclusive d.written × IsSoundFor (is_taken d.written) d.row × AreTold d

pub wrote-AreTold :
    (r : EngagementTerms) (e : TrailEntry) (d : Deal) → AreTold d → AreTold (wrote r e d)
wrote-AreTold r e d t p = omega (arith, t p)

count-picked :
    (p : TrailEntry → Bool) (n : ℕ) (es trail : List TrailEntry)
    → count p (left n es) + count p (picked n es ++ trail) ≡ count p es + count p trail
count-picked p n [] trail = refl
count-picked p zero (e ∷ es) trail = omega arith
count-picked p (suc n) (e ∷ es) trail = omega (arith, count-picked p n es trail)

-- Writing an entry that is owed keeps a deal sound.
pub tell-IsSound : (n : ℕ) (d : Deal) → IsSound d → IsSound (tell n d)
tell-IsSound n d (exclusive, sound, told) =
    (exclusive, sound, λ p. omega (arith, told p, count-picked p n d.owed d.trail))

pub new_terms-IsSoundRow : (terms : TermsText) (now : ℕ) → IsSoundRow (new_terms terms now)
new_terms-IsSoundRow terms now = record {
  signed_accepted = λ h. ground arith;
  signed_named = refl;
  accepted_named = λ h. ground arith;
  issued_linked = λ h. ground arith;
  draft_unlinked = λ h. refl;
  link_ends = λ h. ground arith;
}

pub with_terms-IsSoundRow :
    (terms : TermsText) (now : ℕ) (r : EngagementTerms)
    → IsSoundRow r
    → IsSoundRow (with_terms terms now r)
with_terms-IsSoundRow terms now r s = record {
  signed_accepted = s.signed_accepted;
  signed_named = s.signed_named;
  accepted_named = s.accepted_named;
  issued_linked = s.issued_linked;
  draft_unlinked = s.draft_unlinked;
  link_ends = s.link_ends;
}

pub as_issued-IsSoundRow :
    (token : String) (days now : ℕ) (r : EngagementTerms) → IsSoundRow (as_issued token days now r)
as_issued-IsSoundRow token days now r = record {
  signed_accepted = λ h. ground arith;
  signed_named = refl;
  accepted_named = λ h. ground arith;
  issued_linked = λ h. refl;
  draft_unlinked = λ h. ground arith;
  link_ends = λ h. refl;
}

pub as_revoked-IsSoundRow :
    (now : ℕ) (r : EngagementTerms) → IsSoundRow r → IsSoundRow (as_revoked now r)
as_revoked-IsSoundRow now r s = record {
  signed_accepted = s.signed_accepted;
  signed_named = s.signed_named;
  accepted_named = s.accepted_named;
  issued_linked = s.issued_linked;
  draft_unlinked = s.draft_unlinked;
  link_ends = λ h. refl;
}

pub as_accepted-IsSoundRow :
    (by : String) (now : ℕ) (r : EngagementTerms) → IsSoundRow r → IsSoundRow (as_accepted by now r)
as_accepted-IsSoundRow by now r s = record {
  signed_accepted = λ h. refl;
  signed_named = s.signed_named;
  accepted_named = λ h. refl;
  issued_linked = λ h. ground arith;
  draft_unlinked = λ h. ground arith;
  link_ends = s.link_ends;
}

pub as_signed-IsSoundRow :
    (g : Signature) (now : ℕ) (r : EngagementTerms) → IsSoundRow r → IsSoundRow (as_signed g now r)
as_signed-IsSoundRow g now r s = record {
  signed_accepted = λ h. refl;
  signed_named = refl;
  accepted_named = λ h. refl;
  issued_linked = λ h. ground arith;
  draft_unlinked = λ h. ground arith;
  link_ends = s.link_ends;
}

pub as_withdrawn-IsSoundRow : (now : ℕ) (r : EngagementTerms) → IsSoundRow (as_withdrawn now r)
as_withdrawn-IsSoundRow now r = record {
  signed_accepted = λ h. ground arith;
  signed_named = refl;
  accepted_named = λ h. ground arith;
  issued_linked = λ h. ground arith;
  draft_unlinked = λ h. refl;
  link_ends = λ h. ground arith;
}

-- An update by id keeps a deal sound when it makes a sound row of a sound row, and its entry is no more
-- than the status allows.
pub update-IsSound :
    (f : EngagementTerms → EngagementTerms) (e : TrailEntry) (d : Deal)
    → ((r : EngagementTerms)
        → IsSoundFor (is_taken d.written) (some r)
        → IsSoundFor (is_taken (e ∷ d.written)) (some (f r)))
    → (IsExclusive d.written → IsExclusive (e ∷ d.written))
    → IsSound d
    → OnOk IsSound (update f e d)
update-IsSound f e d h g s = elim (Option-cases d.row) [
  | inl q ↦ rw (q, OnOk) tt
  | inr (r, q) ↦ rw (q, OnOk) (g s.0, h r (rw q at s.1), wrote-AreTold (f r) e d s.2)
]
