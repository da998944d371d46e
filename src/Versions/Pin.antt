-- ===== src/Versions/Pin.antt =====
-- apps/api/src/approval-pin.ts, with the reported figures of packages/appraisal-engine/src/valuation.ts.
-- A JSON column is the value that it encodes, and the digest is a parameter.
use apex_appraise.Common.{
  if◌then◌else◌, str_eq, str_eq_self, keep, ℕ, String, ◌≡◌, refl, Bool, true, false, ◌&&◌, not,
  Option, none, some, List, [], ◌∷◌, arith,
}
use apex_appraise.Engine.Number.{Number, ◌⊗◌, ◌⊘◌, gt, IsOrdered}
use apex_appraise.Engine.Types.{AppraisalInput}
use apex_appraise.Engine.Appraisal.{compute_appraisal}

-- `Record<PinnedFigure, number>`
pub record Figures (R : Type 0) : Type 0 where
  pub market_value : R
  pub gdv : R
  pub residual_net : R
  pub land_gross : R
  pub build : R
  pub total_cost : R
  pub profit : R
  pub poc : R

pub record ApprovalPin (R : Type 0) : Type 0 where
  pub engine_version : String
  pub input_hash : String
  pub figures : Figures R
  pub pinned_at : ℕ

pub data PinnedFigure : Type 0 where
  pin_market_value pin_gdv pin_residual_net pin_land_gross pin_build pin_total_cost pin_profit
        pin_poc :
      PinnedFigure

abbrev pub pinned_figures : List PinnedFigure
pinned_figures =
    pin_market_value ∷ pin_gdv ∷ pin_residual_net ∷ pin_land_gross ∷ pin_build ∷ pin_total_cost
    ∷ pin_profit ∷ pin_poc ∷ []

abbrev pub figure : {R : Type 0} → Figures R → PinnedFigure → R
figure f pin_market_value = f.market_value
figure f pin_gdv = f.gdv
figure f pin_residual_net = f.residual_net
figure f pin_land_gross = f.land_gross
figure f pin_build = f.build
figure f pin_total_cost = f.total_cost
figure f pin_profit = f.profit
figure f pin_poc = f.poc

-- What `verify` reports, less the two sets of figures themselves.
pub record Verification : Type 0 where
  pub same_engine : Bool
  pub inputs_unchanged : Bool
  pub figures_match : Bool
  pub drift : List PinnedFigure

abbrev pub engine_version : String
engine_version = "2026.09.1"

module _ {R : Type 0} ⦃n : Number R⦄ where
  abbrev pub to_nearest_thousand : R → R
  to_nearest_thousand pounds = n.round (pounds ⊘ n.lit 1_000) ⊗ n.lit 1_000

  abbrev pub reported_market_value : R → R
  reported_market_value gdv = to_nearest_thousand gdv

  abbrev pub analysed_psf : R → R → R
  analysed_psf market_value area =
      if gt area (n.lit 0) then n.round (market_value ⊘ area) else n.lit 0

  abbrev pub penny : R → R
  penny x = n.round (x ⊗ n.lit 100) ⊘ n.lit 100

  unfoldable pub figures_of : AppraisalInput R → Figures R
  figures_of input =
      let r = compute_appraisal input none none in
      record {
        market_value = reported_market_value r.gdv;
        gdv = penny r.gdv;
        residual_net = penny r.residual_net;
        land_gross = penny r.land_gross;
        build = penny r.build;
        total_cost = penny r.total_cost;
        profit = penny r.profit;
        poc = n.round (r.poc ⊗ n.lit 1_000_000) ⊘ n.lit 1_000_000;
      }

  -- `a !== b`
  abbrev pub differs : R → R → Bool
  differs a b = not (n.le a b && n.le b a)

  -- `hash` is `inputHashOf`: the SHA-256 of the canonical inputs.
  module _ (hash : AppraisalInput R → String) where
    unfoldable pub pin_for : AppraisalInput R → ℕ → ApprovalPin R
    pin_for input at = record {
      engine_version = engine_version;
      input_hash = hash input;
      figures = figures_of input;
      pinned_at = at;
    }

    abbrev pub drift_of : Figures R → Figures R → List PinnedFigure
    drift_of pinned now = keep (λ k. differs (figure pinned k) (figure now k)) pinned_figures

    abbrev pub is_empty : List PinnedFigure → Bool
    is_empty [] = true
    is_empty (k ∷ ks) = false

    unfoldable pub verify : AppraisalInput R → Option (ApprovalPin R) → Option Verification
    verify input none = none
    verify input (some pin) =
        let drift = drift_of pin.figures (figures_of input) in
        some (record {
          same_engine = str_eq pin.engine_version engine_version;
          inputs_unchanged = str_eq pin.input_hash (hash input);
          figures_match = is_empty drift;
          drift = drift;
        })

    -- Inputs verified against a pin that was made from them agree in all three respects.
    module _ (laws : IsOrdered R) where
      differs_self : (a : R) → differs a a ≡ false
      differs_self a = rw (laws.le_refl a) refl

      drift_self : (f : Figures R) → drift_of f f ≡ []
      drift_self f = ground (
        arith,
        differs_self f.market_value,
        differs_self f.gdv,
        differs_self f.residual_net,
        differs_self f.land_gross,
        differs_self f.build,
        differs_self f.total_cost,
        differs_self f.profit,
        differs_self f.poc,
      )

      pub verify-pin_for :
          (input : AppraisalInput R) (at : ℕ)
          → verify input (some (pin_for input at))
            ≡ some (record {
              same_engine = true;
              inputs_unchanged = true;
              figures_match = true;
              drift = [];
            })
      unfolding verify pin_for
      verify-pin_for input at =
          rw (str_eq_self engine_version, str_eq_self (hash input), drift_self (figures_of input))
            refl
