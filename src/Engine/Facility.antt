-- ===== src/Engine/Facility.antt =====
-- packages/appraisal-engine/src/engine.ts, `computeAppraisal`: the monthly pass over the programme,
-- with interest rolled up.
use apex_appraise.Common.{
  leb, if◌then◌else◌, Bool-cases, set, ℕ, zero, suc, ◌+◌, ◌≤◌, ◌≡◌, inl, inr, true, false, List,
  arith,
}
use apex_appraise.Engine.Number.{Number, ◌⊕◌, ◌⊖◌, ◌⊗◌, gt, ◌≼◌, IsOrdered}
use apex_appraise.Engine.Series.{entry}

-- What the pass keeps: `bal`, `totalInterest`, `peak`, `drawn` and `intSeries`.
pub record Loan (R : Type 0) : Type 0 where
  pub balance : R
  pub total_interest : R
  pub peak : R
  pub drawn : R
  pub int_series : List R

module _ {R : Type 0} ⦃n : Number R⦄ where
  abbrev pub no_loan : List R → Loan R
  no_loan zeros = record {
    balance = n.lit 0;
    total_interest = n.lit 0;
    peak = n.lit 0;
    drawn = n.lit 0;
    int_series = zeros;
  }

  -- what is left of a balance after a month's revenue
  abbrev pub repaid : R → R → R
  repaid rev bal = if gt rev (n.lit 0) then bal ⊖ n.least rev bal else bal

  -- `if (bal > peak) peak = bal`
  abbrev pub higher : R → R → R
  higher bal peak = if gt bal peak then bal else peak

  -- one month: interest, the month's spend, then whatever revenue arrives repays
  unfoldable pub loan_month : (m_rate ltc cost rev : R) → ℕ → Loan R → Loan R
  loan_month m_rate ltc cost rev m l =
      let intr = l.balance ⊗ m_rate in
      let draw = cost ⊗ ltc in
      let closing = repaid rev (l.balance ⊕ (intr ⊕ draw)) in
      record {
        balance = closing;
        total_interest = l.total_interest ⊕ intr;
        peak = higher closing l.peak;
        drawn = l.drawn ⊕ draw;
        int_series = set l.int_series m intr;
      }

  -- the pass over months 1 to `total`
  unfoldable pub loan_after : (m_rate ltc : R) (costs revs zeros : List R) (total : ℕ) → Loan R
  loan_after m_rate ltc costs revs zeros zero = no_loan zeros
  loan_after m_rate ltc costs revs zeros (suc m) =
      loan_month m_rate ltc (entry costs (m + 1)) (entry revs (m + 1)) (m + 1)
        (loan_after m_rate ltc costs revs zeros m)

-- The laws of numbers that the pass needs.
module _ {R : Type 0} ⦃n : Number R⦄ (laws : IsOrdered R) where
  open laws use {
    le_refl, le_total, le_trans, lt_iff, add_mono, add_zero, sub_mono, sub_self, mul_mono, zero_mul,
    least-eq,
  }

  mul-nonneg : (a c : R) → n.lit 0 ≼ a → n.lit 0 ≼ c → n.lit 0 ≼ a ⊗ c
  mul-nonneg a c pa pc = rw (zero_mul c pc) at (mul_mono (n.lit 0) a c pa pc)

  add-nonneg : (a b : R) → n.lit 0 ≼ a → n.lit 0 ≼ b → n.lit 0 ≼ a ⊕ b
  add-nonneg a b pa pb = rw (add_zero (n.lit 0)) at (add_mono (n.lit 0) a (n.lit 0) b pa pb)

  le_of_not_gt : (a b : R) → gt a b ≡ false → a ≼ b
  le_of_not_gt a b h = ground (arith, lt_iff b a, Bool-cases (n.le a b), h)

  le_of_gt : (a b : R) → gt a b ≡ true → b ≼ a
  le_of_gt a b h = ground (arith, lt_iff b a, le_total a b, h)

  least-le : (a b : R) → n.least a b ≼ b
  least-le a b = ground (arith, least-eq a b, Bool-cases (n.le a b), le_refl b)

  repaid-nonneg : (rev bal : R) → n.lit 0 ≼ bal → n.lit 0 ≼ repaid rev bal
  repaid-nonneg rev bal p = elim (Bool-cases (gt rev (n.lit 0))) [
    | inl h ↦ rw h (
        rw (sub_self bal) at
          (sub_mono bal bal bal (n.least rev bal) (le_refl bal) (least-le rev bal)))
    | inr h ↦ rw h p
  ]

  higher-ge : (bal peak : R) → (bal ≼ higher bal peak) × (peak ≼ higher bal peak)
  higher-ge bal peak = elim (Bool-cases (gt bal peak)) [
    | inl h ↦ rw h (le_refl bal, le_of_gt bal peak h)
    | inr h ↦ rw h (le_of_not_gt bal peak h, le_refl peak)
  ]

  module _ (m_rate ltc : R) (costs revs zeros : List R) where
    abbrev after : ℕ → Loan R
    after k = loan_after m_rate ltc costs revs zeros k

    abbrev IsSound : ℕ → Type 0
    IsSound k =
        (n.lit 0 ≼ (after k).balance)
        × ((after k).balance ≼ (after k).peak)
        × (n.lit 0 ≼ (after k).total_interest)

    after-IsSound :
        n.lit 0 ≼ m_rate → n.lit 0 ≼ ltc → ((m : ℕ) → n.lit 0 ≼ entry costs m) → (k : ℕ) → IsSound k
    unfolding loan_after loan_month
    after-IsSound hr hl hc zero = (le_refl _, le_refl _, le_refl _)
    after-IsSound hr hl hc (suc k) =
        let (hb, hp, hi) = after-IsSound hr hl hc k in
        let intr = mul-nonneg (after k).balance m_rate hb hr in
        let draw = mul-nonneg (entry costs (k + 1)) ltc (hc (k + 1)) hl in
        (
          repaid-nonneg _ _ (add-nonneg _ _ hb (add-nonneg _ _ intr draw)),
          (higher-ge _ _).0,
          add-nonneg _ _ hi intr,
        )

    peak_mono : (k total : ℕ) → k ≤ total → (after k).peak ≼ (after total).peak
    unfolding loan_after loan_month
    peak_mono k zero h = let e : k ≡ 0 = omega (arith, h) in rw e (le_refl _)
    peak_mono k (suc t) h = elim (Bool-cases (leb k t)) [
      | inl l ↦ le_trans _ _ _ (peak_mono k t (ground (arith, l))) (higher-ge _ _).1
      | inr g ↦ let e : k ≡ suc t = ground (arith, g, h) in rw e (le_refl _)
    ]

    -- With a rate, a loan-to-cost ratio and monthly costs that are not negative, the loan is at no month
    -- end below zero nor above the facility, which is the peak at the end of the programme, and the
    -- interest charged is not negative.
    pub loan_within_facility :
        n.lit 0 ≼ m_rate
        → n.lit 0 ≼ ltc
        → ((m : ℕ) → n.lit 0 ≼ entry costs m)
        → (k total : ℕ) → k ≤ total
        → (n.lit 0 ≼ (after k).balance)
          × ((after k).balance ≼ (after total).peak)
          × (n.lit 0 ≼ (after total).total_interest)
    loan_within_facility hr hl hc k total h =
        let (hb, hp, _) = after-IsSound hr hl hc k in
        let (_, _, hi) = after-IsSound hr hl hc total in
        (hb, le_trans _ _ _ hp (peak_mono k total h), hi)
