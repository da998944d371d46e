-- ===== src/Engine/Sensitivity.antt =====
-- packages/appraisal-engine/src/engine.ts, `sensitivityStructure` and `sensitivityGrid`: which
-- metrics a site mode can move, and the grid of recomputes.
use mathlib.Core.List.{reverse}
use apex_appraise.Common.{
  if◌then◌else◌, All, ◌≡◌, refl, Bool, ◌&&◌, Option, none, some, List, [], ◌∷◌, map,
}
use apex_appraise.Engine.Number.{Number, ◌⊕◌, ◌⊘◌, gt}
use apex_appraise.Engine.Types.{profit, SiteMode, AppraisalInput, AppraisalResult, residual}
use apex_appraise.Engine.Scheme.{scheme_of}
use apex_appraise.Engine.Appraisal.{compute_appraisal}

pub data SensitivityMetric : Type 0 where
  roc profit_metric residual_metric : SensitivityMetric

pub data SensitivityResponse : Type 0 where
  varies gdv_only pinned : SensitivityResponse

-- `responseOf`, by its three keys
pub record SensitivityStructure : Type 0 where
  pub preferred : SensitivityMetric
  pub roc_response : SensitivityResponse
  pub profit_response : SensitivityResponse
  pub residual_response : SensitivityResponse

abbrev pub sensitivity_structure : SiteMode → SensitivityStructure
sensitivity_structure residual = record {
  preferred = residual_metric;
  roc_response = pinned;
  profit_response = gdv_only;
  residual_response = varies;
}
sensitivity_structure profit = record {
  preferred = roc;
  roc_response = varies;
  profit_response = varies;
  residual_response = pinned;
}

abbrev pub response_of : SensitivityStructure → SensitivityMetric → SensitivityResponse
response_of s roc = s.roc_response
response_of s profit_metric = s.profit_response
response_of s residual_metric = s.residual_response

pub record SensitivityCell (R : Type 0) : Type 0 where
  pub value : R
  pub sales_delta : R
  pub build_delta : R
  pub is_base : Bool
  pub ratio : R

All-map {ℓ} :
    {A B : Type ℓ} (P : B → Type 0) (f : A → B) (xs : List A)
    → ((x : A) → P (f x))
    → All P (map f xs)
All-map P f [] h = tt
All-map P f (x ∷ xs) h = (h x, All-map P f xs h)

module _ {R : Type 0} ⦃n : Number R⦄ where
  abbrev pub metric_of : SensitivityMetric → AppraisalResult R → R
  metric_of roc r = r.poc
  metric_of profit_metric r = r.profit
  metric_of residual_metric r = r.residual_net

  -- `x === 0`
  abbrev pub is_zero : R → Bool
  is_zero x = n.le x (n.lit 0) && n.le (n.lit 0) x

  unfoldable pub sensitivity_cell :
      AppraisalInput R → SensitivityMetric → (base bd gd : R) → SensitivityCell R
  sensitivity_cell input metric base bd gd =
      let v =
        metric_of metric (compute_appraisal input (some (n.lit 1 ⊕ gd)) (some (n.lit 1 ⊕ bd))) in
      record {
        value = v;
        sales_delta = gd;
        build_delta = bd;
        is_base = is_zero gd && is_zero bd;
        ratio = if gt base (n.lit 0) then v ⊘ base else n.lit 1;
      }

  -- rows are build deltas, the last step first, and columns are sales deltas
  unfoldable pub sensitivity_grid :
      AppraisalInput R → SensitivityMetric → List R → List (List (SensitivityCell R))
  sensitivity_grid input metric steps =
      let base = metric_of metric (compute_appraisal input none none) in
      map (λ bd. map (sensitivity_cell input metric base bd) steps) (reverse steps)

  -- the values of a row of the grid
  abbrev pub row_values : List (SensitivityCell R) → List R
  row_values row = map (λ (c : SensitivityCell R). c.value) row

  residual_is_land :
      (input : AppraisalInput R) (sales build : Option R)
      → input.site.mode ≡ profit
      → (compute_appraisal input sales build).residual_net ≡ input.site.land_fixed
  unfolding compute_appraisal
  residual_is_land input sales build h = rw h refl

  profit_ignores_build :
      (input : AppraisalInput R) (sales build other : Option R)
      → input.site.mode ≡ residual
      → (compute_appraisal input sales build).profit ≡ (compute_appraisal input sales other).profit
  unfolding compute_appraisal scheme_of
  profit_ignores_build input sales build other h = rw h refl

  map_ext :
      (f : R → SensitivityCell R) (h : R → R) (xs : List R)
      → ((x : R) → (f x).value ≡ h x)
      → row_values (map f xs) ≡ map h xs
  map_ext f h [] e = refl
  map_ext f h (x ∷ xs) e = rw (e x, map_ext f h xs e) refl

  -- In profit mode the structure says that the residual is pinned, and so it is: in a grid of it over
  -- any steps every cell is the price of the land that was put in.
  pub pinned_residual :
      (input : AppraisalInput R) (steps : List R)
      → input.site.mode ≡ profit
      → (response_of (sensitivity_structure input.site.mode) residual_metric ≡ pinned)
        × All
            (λ row. row_values row ≡ map (λ gd. input.site.land_fixed) steps)
            (sensitivity_grid input residual_metric steps)
  unfolding sensitivity_grid sensitivity_cell
  pinned_residual input steps h = (
    rw h refl,
    All-map _ _ _ (λ bd.
        map_ext _ (λ gd. input.site.land_fixed) steps
          (λ gd. residual_is_land input (some (n.lit 1 ⊕ gd)) (some (n.lit 1 ⊕ bd)) h)),
  )

  -- In residual mode the structure says that profit moves with sales alone, and so it does: in a grid
  -- of it over any steps every row shows the profits at the build cost as it is.
  pub profit_follows_sales :
      (input : AppraisalInput R) (steps : List R)
      → input.site.mode ≡ residual
      → (response_of (sensitivity_structure input.site.mode) profit_metric ≡ gdv_only)
        × All
            (λ row.
              row_values row
              ≡ map (λ gd. (compute_appraisal input (some (n.lit 1 ⊕ gd)) none).profit) steps)
            (sensitivity_grid input profit_metric steps)
  unfolding sensitivity_grid sensitivity_cell
  profit_follows_sales input steps h = (
    rw h refl,
    All-map _ _ _ (λ bd.
        map_ext _ _ steps
          (λ gd. profit_ignores_build input (some (n.lit 1 ⊕ gd)) (some (n.lit 1 ⊕ bd)) none h)),
  )
