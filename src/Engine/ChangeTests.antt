-- ===== src/Engine/ChangeTests.antt =====
-- Comparisons of two versions of a small scheme, in numbers with nine decimals.
use apex_appraise.Common.{
  leb, if◌then◌else◌, str_eq, ℕ, ◌-◌, ◌*◌, ◌/◌, ◌≡◌, refl, true, false, arith,
}
use apex_appraise.Engine.Number.{Number}
use apex_appraise.Engine.Types.{profit, residual}
use apex_appraise.Engine.Sample.{thousandths, flats_in}
use apex_appraise.Engine.Comparison.{near_value, compare_appraisals}
use apex_appraise.Engine.Comparison.Areas.{resized, resized_identical}

-- the operations of a comparison at a finer scale
abbrev billionths : Number ℕ
billionths = record thousandths {
  lit = λ k. k * 1_000_000_000;
  sub = λ a b. if leb a b then b - a else a - b;
  div = λ a b. a * 1_000_000_000 / b;
  abs = λ a. a;
}

near_self : (a : ℕ) → near_value ⦃n = billionths⦄ a a ≡ true
near_self a = ground arith

-- A change of the build rate is seen.
rate_seen :
    (compare_appraisals ⦃n = billionths⦄
      (flats_in residual)
      (record (flats_in residual) { prof_fee_pct = 12_000 })).identical
    ≡ false
unfolding compare_appraisals str_eq
rate_seen = refl

resized_identical_example :
    (compare_appraisals ⦃n = billionths⦄
      (flats_in residual)
      (resized (λ a. a * 2) profit (flats_in residual))).identical
    ≡ true
resized_identical_example =
    resized_identical ⦃n = billionths⦄ (λ a. a * 2) profit (flats_in residual) near_self
