-- ===== src/Engine/Sample.antt =====
-- Numbers in thousandths, with the order laws that the engine's numbers have, and a small scheme in them.
use apex_appraise.Engine.Types.{
  SiteMode, AppraisalUnit, BuildTrade, FinanceInput, AppraisalInput, even,
}
use apex_appraise.Common.{
  ltb, leb, ◌==◌, if◌then◌else◌, ℕ, ◌+◌, ◌-◌, ◌*◌, ◌/◌, ◌≤◌, ◌≡◌, refl, true, not, none, some, List,
  [], ◌∷◌, arith,
}
use apex_appraise.Engine.Number.{Number, IsOrdered}
use native.Mathlib.Nat.{mul-le-mul_right, le-div_iff_mul-le, div-mul-le_self, zero-div, zero-mul}
use Prim.Native.Nat.{◌*◌, ◌/◌}

div_lower : (a b d : ℕ) → 1 ≤ d → a ≤ b → a / d ≤ b / d
div_lower a b d hd h = (le-div_iff_mul-le hd).1 (omega (arith, div-mul-le_self a d, h))

mul_right : (a b c : ℕ) → a ≤ b → a * c ≤ b * c
mul_right a b c h = mul-le-mul_right c h

instance abbrev pub thousandths : Number ℕ
thousandths = record {
  lit = λ k. k * 1_000;
  add = λ a b. a + b;
  sub = λ a b. a - b;
  mul = λ a b. a * b / 1_000;
  div = λ a b. a * 1_000 / b;
  pow = λ a b. a;
  neg = λ a. 0;
  least = λ a b. if leb a b then a else b;
  greatest = λ a b. if leb a b then b else a;
  round = λ a. (a + 500) / 1_000 * 1_000;
  ceil = λ a. (a + 999) / 1_000 * 1_000;
  floor = λ a. a / 1_000 * 1_000;
  abs = λ a. a;
  le = leb;
  lt = ltb;
  truthy = λ a. not (a == 0);
  whole = λ a. a / 1_000;
}

pub leb_of : (a b : ℕ) → a ≤ b → leb a b ≡ true
leb_of a b h = ground (arith, h)

of_leb : (a b : ℕ) → leb a b ≡ true → a ≤ b
of_leb a b h = ground (arith, h)

pub thousandths-IsOrdered : IsOrdered ℕ
thousandths-IsOrdered = record {
  le_refl = λ a. leb_of a a (omega arith);
  le_trans = λ a b c h k. leb_of a c (omega (arith, of_leb a b h, of_leb b c k));
  le_total = λ a b. ground arith;
  lt_iff = λ a b. ground arith;
  lit_mono = λ i j h. leb_of _ _ (omega (arith, h));
  add_mono = λ a b c d h k. leb_of _ _ (omega (arith, of_leb a b h, of_leb c d k));
  add_zero = λ a. omega arith;
  zero_add = λ a. omega arith;
  sub_mono = λ a b c d h k. leb_of _ _ (omega (arith, of_leb a b h, of_leb d c k));
  sub_self = λ a. omega arith;
  mul_mono =
      λ a b c h k. leb_of _ _ (div_lower _ _ 1_000 (omega arith) (mul_right a b c (of_leb a b h)));
  zero_mul = λ c h. rw (zero-mul c) refl;
  div_mono = λ a b c h k.
      leb_of _ _
        (div_lower _ _ c (ground (arith, of_leb _ _ k)) (mul_right a b 1_000 (of_leb a b h)));
  zero_div = λ c h. zero-div c;
  least-eq = λ a b. refl;
  greatest-eq = λ a b. refl;
}

-- two flats of 1,000 square feet at 400 a foot, and 150 a foot to build them
abbrev pub two_flats : List (AppraisalUnit ℕ)
two_flats = record { label = "Flat"; count = 2_000; area = 1_000_000; cap = 400_000 } ∷ []

abbrev pub shell : BuildTrade ℕ
shell = record { label = "Shell"; rate = 150_000; timing = none }

abbrev pub loan_terms : FinanceInput ℕ
loan_terms = record {
  ltc_pct = 60_000;
  rate_pct = 12_000;
  period_months = 4_000;
  sales_months = 2_000;
  arrangement_fee_pct = 1_000;
  spend_profile = some even;
  absorption_units_per_month = none;
}

abbrev pub flats_in : SiteMode → AppraisalInput ℕ
flats_in mode = record {
  units = two_flats;
  phases = none;
  efficiency = 100_000;
  trades = (shell ∷ []);
  prof_fee_pct = 10_000;
  contingency_pct = 5_000;
  other_costs = [];
  finance = loan_terms;
  site = record { mode = mode; land_fixed = 100_000_000; acq_pct = 5_000 };
  disposal = record { agent_pct = 1_000; legal_pct = 1_000 };
  target_profit_on_gdv_pct = 20_000;
  income = none;
}
