-- ===== src/Engagement/Races.antt =====
-- What the handlers let through: an edit of issued terms, and writes that go by the id alone.
use apex_appraise.Common.{
  ◌==◌, str_eq_self, ok, ℕ, String, ◌≡◌, refl, true, false, Option, some, arith,
}
use apex_appraise.Common.Refusals.{assert_unchanged}
use apex_appraise.Engagement.{
  TermsText, EngagementTerms, Deal, wrote, is_accepted, is_some, link_expired, issued, accepted,
  edited, withdrew, signed, with_terms, save, has_link, as_withdrawn, withdraw, Signature,
  as_signed, sign,
}

eq_self : (a : ℕ) → (a == a) ≡ true
eq_self a = ground arith

-- The deal's row is signed, with the terms given.
abbrev pub IsSignedWith : TermsText → Deal → Type 0
IsSignedWith terms d =
    (r : EngagementTerms) × (d.row ≡ some r)
    × (r.terms ≡ terms)
    × (r.status ≡ accepted)
    × (is_some r.signed_at ≡ true)

abbrev pub signed_deal : Signature → (now : ℕ) → EngagementTerms → Deal → Deal
signed_deal g now v d = wrote (as_signed g now v) (signed g.name) d

abbrev pub saved_deal : TermsText → (now : ℕ) → EngagementTerms → Deal → Deal
saved_deal terms now v d = wrote (with_terms terms now v) edited d

-- A signature that has read issued terms under its link writes to terms that are not accepted.
sign_issued :
    (token : String) (g : Signature) (now : ℕ) (read : Option EngagementTerms)
    (seen v : EngagementTerms) (d : Deal)
    → read ≡ some seen
    → seen.status ≡ issued
    → seen.sign_token ≡ some token
    → link_expired now seen ≡ false
    → d.row ≡ some v
    → is_accepted v.status ≡ false
    → sign token g now read d ≡ ok (signed_deal g now v d)
unfolding sign
sign_issued token g now read seen v d o s t x q a = rw (o, t, str_eq_self token, s, x, q, a) refl

-- A save that has read issued terms, with their stamp, writes to what is there.
save_issued :
    (terms : TermsText) (now : ℕ) (read : Option EngagementTerms) (seen v : EngagementTerms)
    (d : Deal)
    → read ≡ some seen
    → seen.status ≡ issued
    → d.row ≡ some v
    → save true terms (some seen.updated_at) now read d ≡ ok (saved_deal terms now v d)
unfolding save assert_unchanged
save_issued terms now read seen v d o s q = rw (o, s, eq_self seen.updated_at, q) refl

-- Issued terms are edited under their link: a save with the stamp of issued terms is accepted, and the link that
-- was sent before it then signs the edited terms, while it has not ended.
pub edited_under_link :
    (token : String) (terms : TermsText) (g : Signature) (saved later : ℕ) (d : Deal)
    (r : EngagementTerms)
    → d.row ≡ some r
    → r.status ≡ issued
    → r.sign_token ≡ some token
    → link_expired later r ≡ false
    → (saves : Deal) × (signs : Deal) × (save true terms (some r.updated_at) saved d.row d
        ≡ ok saves)
      × (sign token g later saves.row saves ≡ ok signs)
      × IsSignedWith terms signs
edited_under_link token terms g saved later d r q s t x =
    let next = saved_deal terms saved r d in
    (
      next,
      signed_deal g later (with_terms terms saved r) next,
      save_issued terms saved d.row r r d q s q,
      sign_issued token g later next.row (with_terms terms saved r) (with_terms terms saved r) next
          refl s t x refl (rw s refl),
      (as_signed g later (with_terms terms saved r), refl, refl, refl, refl),
    )

-- A save and a signature of issued terms at the same time: when the signature is written between the read and
-- the write of the save, both are accepted, and the row says that the client signed the terms of the save.
pub signed_while_saving :
    (token : String) (terms : TermsText) (g : Signature) (now later : ℕ) (d : Deal)
    (r : EngagementTerms)
    → d.row ≡ some r
    → r.status ≡ issued
    → r.sign_token ≡ some token
    → link_expired now r ≡ false
    → (signs : Deal) × (saves : Deal) × (sign token g now d.row d ≡ ok signs)
      × (save true terms (some r.updated_at) later d.row signs ≡ ok saves)
      × IsSignedWith terms saves
signed_while_saving token terms g now later d r q s t x =
    let next = signed_deal g now r d in
    (
      next,
      saved_deal terms later (as_signed g now r) next,
      sign_issued token g now d.row r r d q s t x q (rw s refl),
      save_issued terms later d.row r (as_signed g now r) next q s refl,
      (with_terms terms later (as_signed g now r), refl, refl, refl, refl),
    )

-- A withdrawal and a signature of issued terms at the same time: when the withdrawal is written between the
-- read and the write of the signature, both are accepted, and the draft that the withdrawal left is accepted
-- terms without a link.
pub signed_while_withdrawing :
    (token : String) (g : Signature) (now later : ℕ) (d : Deal) (r : EngagementTerms)
    → d.row ≡ some r
    → r.status ≡ issued
    → r.sign_token ≡ some token
    → link_expired later r ≡ false
    → (draws : Deal) × (signs : Deal) × (withdraw true now d.row d ≡ ok draws)
      × (sign token g later d.row draws ≡ ok signs)
      × IsSignedWith r.terms signs
      × (has_link signs.row ≡ false)
unfolding withdraw
signed_while_withdrawing token g now later d r q s t x =
    let next = wrote (as_withdrawn now r) withdrew d in
    (
      next,
      signed_deal g later (as_withdrawn now r) next,
      rw q refl,
      sign_issued token g later d.row r (as_withdrawn now r) next q s t x refl refl,
      (as_signed g later (as_withdrawn now r), refl, refl, refl, refl),
      refl,
    )
