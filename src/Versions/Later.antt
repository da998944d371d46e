-- ===== src/Versions/Later.antt =====
-- What later tables keep of a version that an earlier one had: its place, a stamp that does not go
-- back and stands for its inputs, and, once it is approved, everything that was signed.
use apex_appraise.Versions.Requests.{stand_down}
use apex_appraise.Common.{
  Bool-cases, All, ℕ, ◌≤◌, String, ◌≡◌, refl, ◌∙◌, inl, inr, Bool, true, some, List, ◌++◌, arith,
}
use apex_appraise.Table.{update_many, find_first-update_many, find_first-append}
use apex_appraise.Table.Unique.{All-row}
use apex_appraise.Table.Keyed.{has, row}
use apex_appraise.Versions.Row.{Version, version_id, approved}

module _ {R : Type 0} where
  -- What an approval fixes.
  pub record IsSameSigned (v r : Version R) : Type 0 where
    pub still : r.review_status ≡ approved
    pub input : r.input ≡ v.input
    pub pin : r.approval_pin ≡ v.approval_pin
    pub by : r.reviewed_by ≡ v.reviewed_by
    pub at : r.reviewed_at ≡ v.reviewed_at
    pub label : r.label ≡ v.label
    pub narrative : r.narrative ≡ v.narrative

  pub record Evolves (v r : Version R) : Type 0 where
    pub org : r.org_id ≡ v.org_id
    pub deal : r.deal_id ≡ v.deal_id
    pub stamp : v.updated_at ≤ r.updated_at
    pub input : v.updated_at ≡ r.updated_at → r.input ≡ v.input
    pub signed : v.review_status ≡ approved → IsSameSigned v r

  pub Evolves-refl : (v : Version R) → Evolves v v
  Evolves-refl v = record {
    org = refl;
    deal = refl;
    stamp = omega arith;
    input = λ _. refl;
    signed = λ h. record {
      still = h;
      input = refl;
      pin = refl;
      by = refl;
      at = refl;
      label = refl;
      narrative = refl;
    };
  }

  pub Evolves-trans : (v r s : Version R) → Evolves v r → Evolves r s → Evolves v s
  Evolves-trans v r s a b = record {
    org = b.org ∙ a.org;
    deal = b.deal ∙ a.deal;
    stamp = omega (arith, a.stamp, b.stamp);
    input = λ e.
        b.input (omega (arith, a.stamp, b.stamp, e)) ∙ a.input (omega (arith, a.stamp, b.stamp, e));
    signed = λ h.
        let k = a.signed h in
        let l = b.signed k.still in
        record {
          still = l.still;
          input = l.input ∙ k.input;
          pin = l.pin ∙ k.pin;
          by = l.by ∙ k.by;
          at = l.at ∙ k.at;
          label = l.label ∙ k.label;
          narrative = l.narrative ∙ k.narrative;
        };
  }

  unfoldable pub Later : (before after : List (Version R)) → Type 0
  Later before after =
      (k : String) (v : Version R)
      → row version_id k before ≡ some v
      → (r : Version R) × (row version_id k after ≡ some r) × Evolves v r

  pub Later-refl : (rows : List (Version R)) → Later rows rows
  unfolding Later
  Later-refl rows k v h = (v, h, Evolves-refl v)

  pub Later-trans : (a b c : List (Version R)) → Later a b → Later b c → Later a c
  unfolding Later
  Later-trans a b c p q k v h =
      let (r, hr, er) = p k v h in let (s, hs, es) = q k r hr in (s, hs, Evolves-trans v r s er es)

  pub Later-append : (rows more : List (Version R)) → Later rows (rows ++ more)
  unfolding Later
  Later-append rows more k v h =
      (v, find_first-append (has version_id k) rows more ∙ rw h refl, Evolves-refl v)

  pub Later-update_many :
      (P : Version R → Type 0) (p : Version R → Bool) (f : Version R → Version R)
      → ((r : Version R) → (f r).id ≡ r.id)
      → ((r : Version R) → P r → p r ≡ true → Evolves r (f r))
      → (rows : List (Version R)) → All P rows
      → Later rows (update_many p f rows)
  unfolding Later
  Later-update_many P p f same h rows a k v e =
      let seen = find_first-update_many (has version_id k) p f (λ r. rw (same r) refl) rows in
      elim (Bool-cases (p v)) [
        | inl q ↦ (f v, seen ∙ rw (e, q) refl, h v (All-row P (has version_id k) rows v a e) q)
        | inr q ↦ (v, seen ∙ rw (e, q) refl, Evolves-refl v)
      ]

  pub Evolves-stand_down :
      (now : ℕ) (v : Version R) → v.updated_at ≤ now → Evolves v (stand_down now v)
  Evolves-stand_down now v h = record {
    org = refl;
    deal = refl;
    stamp = h;
    input = λ _. refl;
    signed = λ e. record {
      still = e;
      input = refl;
      pin = refl;
      by = refl;
      at = refl;
      label = refl;
      narrative = refl;
    };
  }
