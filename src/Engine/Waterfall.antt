-- ===== src/Engine/Waterfall.antt =====
-- packages/appraisal-engine/src/engine.ts, `jvWaterfall`.
use apex_appraise.Common.{
  if◌then◌else◌, Bool-cases, ◌≡◌, inl, inr, false, ◌&&◌, Option, none, some, arith,
}
use apex_appraise.Engine.Number.{Number, ◌⊕◌, ◌⊖◌, ◌⊗◌, ◌⊘◌, gt, ◌≼◌, IsOrdered}

pub record JvInput (R : Type 0) : Type 0 where
  pub gp_coinvest_pct : R
  pub pref_pct : R
  pub promote_pct : R

pub record JvPartyResult (R : Type 0) : Type 0 where
  pub equity : R
  pub profit : R
  pub total : R
  pub moic : R
  pub irr : Option R

pub record JvResult (R : Type 0) : Type 0 where
  pub lp : JvPartyResult R
  pub gp : JvPartyResult R
  pub pref_total : R
  pub residual_profit : R
  pub promote : R
  pub hold_years : R

-- How a profit is divided.
pub record Split (R : Type 0) : Type 0 where
  pub lp_profit : R
  pub gp_profit : R
  pub promote : R
  pub residual_profit : R

module _ {R : Type 0} ⦃n : Number R⦄ where
  abbrev pub party : (hold_years eq pf : R) → JvPartyResult R
  party hold_years eq pf =
      let total = eq ⊕ pf in
      record {
        equity = eq;
        profit = pf;
        total = total;
        moic = if gt eq (n.lit 0) then total ⊘ eq else n.lit 0;
        irr =
            if gt eq (n.lit 0) && gt hold_years (n.lit 0) && gt total (n.lit 0)
            then some (n.pow (total ⊘ eq) (n.lit 1 ⊘ hold_years) ⊖ n.lit 1)
            else none;
      }

  -- a party's share of the equity
  abbrev pub share_of : R → R → R
  share_of equity x = if gt equity (n.lit 0) then x ⊘ equity else n.lit 0

  -- nothing is left over the preferred return
  abbrev pub pref_split : (equity lp_eq profit pref : R) → Split R
  pref_split equity lp_eq profit pref =
      let lp_profit = profit ⊗ share_of equity lp_eq in
      record {
        lp_profit = lp_profit;
        gp_profit = profit ⊖ lp_profit;
        promote = n.lit 0;
        residual_profit = n.greatest (n.lit 0) (profit ⊖ pref);
      }

  -- the promote first, then the rest pro rata
  abbrev pub promote_split : (equity lp_eq gp_co profit pref promote_pct : R) → Split R
  promote_split equity lp_eq gp_co profit pref promote_pct =
      let over = profit ⊖ pref in
      let promote = over ⊗ promote_pct ⊘ n.lit 100 in
      let shared = pref ⊕ (over ⊖ promote) in
      record {
        lp_profit = shared ⊗ share_of equity lp_eq;
        gp_profit = shared ⊗ share_of equity gp_co ⊕ promote;
        promote = promote;
        residual_profit = over;
      }

  abbrev pub pref_total_of : R → R → JvInput R → R
  pref_total_of equity hold_years jv =
      equity ⊗ (n.pow (n.lit 1 ⊕ jv.pref_pct ⊘ n.lit 100) hold_years ⊖ n.lit 1)

  abbrev pub split_of : (equity profit hold_years : R) → JvInput R → Split R
  split_of equity profit hold_years jv =
      let gp_co = equity ⊗ jv.gp_coinvest_pct ⊘ n.lit 100 in
      let pref = pref_total_of equity hold_years jv in
      if n.le profit pref
      then pref_split equity (equity ⊖ gp_co) profit pref
      else promote_split equity (equity ⊖ gp_co) gp_co profit pref jv.promote_pct

  unfoldable pub jv_waterfall : (equity profit hold_years : R) → JvInput R → JvResult R
  jv_waterfall equity profit hold_years jv =
      let gp_co = equity ⊗ jv.gp_coinvest_pct ⊘ n.lit 100 in
      let s = split_of equity profit hold_years jv in
      record {
        lp = party hold_years (equity ⊖ gp_co) s.lp_profit;
        gp = party hold_years gp_co s.gp_profit;
        pref_total = pref_total_of equity hold_years jv;
        residual_profit = s.residual_profit;
        promote = s.promote;
        hold_years = hold_years;
      }

-- The order of the promotes that profits earn.
module _ {R : Type 0} ⦃n : Number R⦄ (laws : IsOrdered R) where
  open laws use {
    le_refl, le_trans, le_total, sub_mono, sub_self, mul_mono, zero_mul, div_mono, zero_div,
    lit_mono,
  }

  over_nonneg : (x pref : R) → pref ≼ x → n.lit 0 ≼ x ⊖ pref
  over_nonneg x pref h = rw (sub_self pref) at (sub_mono pref x pref pref h (le_refl pref))

  le_of_not_le : (a b : R) → n.le a b ≡ false → b ≼ a
  le_of_not_le a b h = ground (arith, le_total a b, h)

  le_after : (a b c : R) → a ≼ b → b ≼ c → ¬ (n.le a c ≡ false)
  le_after a b c h k e = ground (arith, le_trans a b c h k, e)

  share_mono : (a b pct : R) → a ≼ b → n.lit 0 ≼ pct → a ⊗ pct ⊘ n.lit 100 ≼ b ⊗ pct ⊘ n.lit 100
  share_mono a b pct h hp = div_mono _ _ _ (mul_mono a b pct h hp) (lit_mono 1 100 (omega arith))

  share_nonneg : (a pct : R) → n.lit 0 ≼ a → n.lit 0 ≼ pct → n.lit 0 ≼ a ⊗ pct ⊘ n.lit 100
  share_nonneg a pct h hp =
      rw (zero_div (n.lit 100) (lit_mono 1 100 (omega arith))) at
        (rw (zero_mul pct hp) at (share_mono (n.lit 0) a pct h hp))

  -- With a promote percentage that is not negative, the promote is never negative, and a larger profit
  -- never pays a smaller one.
  pub promote-mono :
      (equity low high hold_years : R) (jv : JvInput R)
      → n.lit 0 ≼ jv.promote_pct
      → low ≼ high
      → ((jv_waterfall equity low hold_years jv).promote
          ≼ (jv_waterfall equity high hold_years jv).promote)
        × (n.lit 0 ≼ (jv_waterfall equity low hold_years jv).promote)
  unfolding jv_waterfall
  promote-mono equity low high hold_years jv hp h =
      let pref = pref_total_of equity hold_years jv in
      let z = le_refl (n.lit 0) in
      elim (Bool-cases (n.le low pref)) [
        | inl l ↦ elim (Bool-cases (n.le high pref)) [
          | inl g ↦ rw (l, g) (z, z)
          | inr g ↦
              rw (l, g) (share_nonneg _ _ (over_nonneg high pref (le_of_not_le high pref g)) hp, z)
        ]
        | inr l ↦ elim (Bool-cases (n.le high pref)) [
          | inl g ↦ absurd (le_after low high pref h g l)
          | inr g ↦
              rw (l, g)
                (
                  share_mono _ _ _ (sub_mono low high pref pref h (le_refl pref)) hp,
                  share_nonneg _ _ (over_nonneg low pref (le_of_not_le low pref l)) hp,
                )
        ]
      ]
