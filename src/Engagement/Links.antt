-- ===== src/Engagement/Links.antt =====
-- The links of issued terms: which can be signed, and for how long.
use apex_appraise.Common.{
  ltb, leb, str_eq, Bool-cases, Option-cases, Result, ◌>>◌, guard, OnOk, OnOk-guard, ok, err, ℕ,
  ◌+◌, ◌*◌, String, ◌≡◌, refl, ◌∙◌, subst, inl, inr, Bool, true, false, ◌&&◌, not, Option, none,
  some, arith,
}
use apex_appraise.Common.Refusals.{not_found, bad_request}
use apex_appraise.Engagement.{
  EngagementTerms, Deal, is_accepted, day_ms, is_unnamed, as_issued, link_days, issue, Signature,
  row_of_link, public_get, sign,
}

abbrev pub is_ok {ℓ κ} : {E : Type ℓ} {A : Type κ} → Result E A → Bool
is_ok (ok a) = true
is_ok (err e) = false

-- the status of the row of a link
abbrev pub is_settled : Option EngagementTerms → Bool
is_settled none = false
is_settled (some r) = is_accepted r.status

-- A link can be signed exactly when it shows its terms and they are not accepted yet, where nothing is
-- written between the two.
pub sign_iff_shown :
    (token : String) (g : Signature) (now : ℕ) (d : Deal)
    → is_ok (sign token g now d.row d)
      ≡ (is_ok (public_get token now d.row) && not (is_settled (row_of_link token d.row)))
unfolding sign public_get
sign_iff_shown token g now d = elim (Option-cases d.row) [
  | inl q ↦ rw q refl
  | inr (r, q) ↦ ground (arith, q)
]

ltb-not : (a b : ℕ) → not (leb b a) ≡ ltb a b
ltb-not a b = ground arith

is_ok-guard {ℓ κ} :
    {E : Type ℓ} {A : Type κ} (b : Bool) (e : E) (a : A) → is_ok (guard b e >> ok a) ≡ b
is_ok-guard true e a = refl
is_ok-guard false e a = refl

-- The row that an issue leaves.
HasIssued : (token : String) → (days now : ℕ) → Deal → Type 0
HasIssued token days now d = (r : EngagementTerms) × (d.row ≡ some (as_issued token days now r))

issue-row :
    (has_deal : Bool) (token : String) (expiry_days : Option ℕ) (now : ℕ)
    (seen : Option EngagementTerms) (d : Deal)
    → OnOk
        (HasIssued token (link_days expiry_days) now)
        (issue has_deal token expiry_days now seen d)
unfolding issue HasIssued
issue-row has_deal token expiry_days now none d =
    OnOk-guard (HasIssued token (link_days expiry_days) now) has_deal not_found (err bad_request)
      λ _. tt
issue-row has_deal token expiry_days now (some r) d =
    OnOk-guard (HasIssued token (link_days expiry_days) now) has_deal not_found _ λ _.
      OnOk-guard (HasIssued token (link_days expiry_days) now) (not (is_unnamed r.terms))
        bad_request _
        λ _. elim (Option-cases d.row) [
          | inl q ↦ rw (q, OnOk) tt
          | inr (v, q) ↦ rw (q, OnOk) (v, refl)
        ]

issued-sign :
    (token : String) (days now : ℕ) (r : EngagementTerms) (d : Deal)
    → d.row ≡ some (as_issued token days now r)
    → (link : String) (g : Signature) (later : ℕ)
    → is_ok (sign link g later d.row d) ≡ (str_eq token link && ltb later (now + days * day_ms))
unfolding sign
issued-sign token days now r d q link g later = rw q (elim (Bool-cases (str_eq token link)) [
  | inl t ↦ rw t (
      is_ok-guard (not (leb (now + days * day_ms) later)) bad_request _
      ∙ ltb-not later (now + days * day_ms))
  | inr t ↦ rw t refl
])

-- When terms are issued, only the new link leads to them, and it can be signed for as many days as it was
-- issued for, and no longer.
pub issue-sign :
    (has_deal : Bool) (token : String) (expiry_days : Option ℕ) (now : ℕ) (d after : Deal)
    → issue has_deal token expiry_days now d.row d ≡ ok after
    → (link : String) (g : Signature) (later : ℕ)
    → is_ok (sign link g later after.row after)
      ≡ (str_eq token link && ltb later (now + link_days expiry_days * day_ms))
unfolding HasIssued
issue-sign has_deal token expiry_days now d after e link g later =
    let (r, q) : HasIssued token (link_days expiry_days) now after =
      subst (OnOk (HasIssued token (link_days expiry_days) now)) e
        (issue-row has_deal token expiry_days now d.row d) in
    issued-sign token (link_days expiry_days) now r after q link g later
