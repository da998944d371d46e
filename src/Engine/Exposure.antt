-- ===== src/Engine/Exposure.antt =====
-- packages/appraisal-engine/src/exposure.ts: a book of loans by asset type and region. The fields of a
-- position that the sums do not read are left out.
pub mod Groups
use apex_appraise.Common.{
  ltb, leb, ◌==◌, if◌then◌else◌, str_eq, str_eq_iff, str_eq_self, Bool-cases, Option-cases, length,
  get_elem?, get_or, set, keep, take, drop, any, All, length-append, length-drop, length-take,
  append-take, Result, ◌>>=◌, ◌>>◌, guard, OnOk, OnOk-bind, OnOk-guard, OnOk-any, ok, err,
  insert_by, sort_by, IsSortedBy, sort_by-IsSortedBy, insert_with, sort_with, All-sort_with, ℕ,
  zero, suc, ◌+◌, ◌-◌, ◌*◌, ◌/◌, ◌%◌, ◌^◌, ◌≤◌, ◌<◌, min, max, String, ◌≡◌, refl, sym, ap, ◌∙◌,
  subst, ◌≢◌, ◌↔◌, ◌⊎◌, inl, inr, Bool, true, false, ◌&&◌, ◌||◌, not, Option, none, some, List, [],
  ◌∷◌, ◌++◌, map, arith,
}
use apex_appraise.Common.Text.{
  codes, codes_eq, is_space, trim_start, trim_end, trim, cons_head, split_on, join_with,
  starts_with, IsFreeOf, codes_eq_self, codes_eq_sound, split_on-join_with,
}
use apex_appraise.Engine.Number.{
  Number, ◌⊕◌, ◌⊖◌, ◌⊗◌, ◌⊘◌, num, gt, or_else, or_default, clamp, clamp_whole, sum_from, sum_by,
  ◌≼◌, IsOrdered,
}

pub record ExposurePosition (R : Type 0) : Type 0 where
  pub name : String
  pub asset_type : String
  pub region : String
  pub gdv : R
  pub total_cost : R
  pub facility : R
  pub equity : R
  pub drawn : R

pub record ExposureGroup (R : Type 0) : Type 0 where
  pub key : String
  pub facility : R
  pub share : R
  pub deals : ℕ

pub data Dimension : Type 0 where
  deal asset_type region : Dimension

pub record Concentration (R : Type 0) : Type 0 where
  pub dimension : Dimension
  pub key : String
  pub share : R

pub record ExposureTotals (R : Type 0) : Type 0 where
  pub deals : ℕ
  pub gdv : R
  pub total_cost : R
  pub facility : R
  pub drawn : R
  pub undrawn : R
  pub equity : R
  pub utilisation : R
  pub loan_to_gdv : R

pub record ExposureSummary (R : Type 0) : Type 0 where
  pub positions : List (ExposurePosition R)
  pub totals : ExposureTotals R
  pub by_asset_type : List (ExposureGroup R)
  pub by_region : List (ExposureGroup R)
  pub largest : Option (Concentration R)

-- An entry of the map that `groupBy` fills.
pub record Holding (R : Type 0) : Type 0 where
  pub key : String
  pub facility : R
  pub deals : ℕ

-- `key(p) || 'Unknown'`
abbrev pub or_unknown : String → String
or_unknown k = if str_eq k "" then "Unknown" else k

module _ {R : Type 0} ⦃n : Number R⦄ where
  -- `acc.set(k, ...)`: a key that the map has keeps its place.
  abbrev pub credit : String → R → List (Holding R) → List (Holding R)
  credit k facility [] = record { key = k; facility = n.lit 0 ⊕ facility; deals = 1 } ∷ []
  credit k facility (h ∷ acc) =
      if str_eq h.key k
      then record { key = h.key; facility = h.facility ⊕ facility; deals = h.deals + 1 } ∷ acc
      else h ∷ credit k facility acc

  abbrev pub credit_all :
      (ExposurePosition R → String)
      → List (ExposurePosition R)
      → List (Holding R)
      → List (Holding R)
  credit_all key [] acc = acc
  credit_all key (p ∷ positions) acc =
      credit_all key positions (credit (or_unknown (key p)) p.facility acc)

  abbrev pub group_of : (total : R) → Holding R → ExposureGroup R
  group_of total h = record {
    key = h.key;
    facility = h.facility;
    share = if gt total (n.lit 0) then h.facility ⊘ total else n.lit 0;
    deals = h.deals;
  }

  -- `groupBy`
  unfoldable pub group_by :
      List (ExposurePosition R)
      → (ExposurePosition R → String)
      → (total : R) → List (ExposureGroup R)
  group_by positions key total =
      sort_with (λ (a b : ExposureGroup R). n.le b.facility a.facility)
        (map (group_of total) (credit_all key positions []))

  abbrev pub by_facility : List (ExposurePosition R) → List (ExposurePosition R)
  by_facility positions =
      sort_with (λ (a b : ExposurePosition R). n.le b.facility a.facility) positions

  abbrev pub biggest_deal : (facility : R) → List (ExposurePosition R) → List (Concentration R)
  biggest_deal facility [] = []
  biggest_deal facility (p ∷ positions) =
      record { dimension = deal; key = p.name; share = p.facility ⊘ facility } ∷ []

  abbrev pub first_group : Dimension → List (ExposureGroup R) → List (Concentration R)
  first_group dimension [] = []
  first_group dimension (g ∷ groups) =
      record { dimension = dimension; key = g.key; share = g.share } ∷ []

  abbrev pub first_of : List (Concentration R) → Option (Concentration R)
  first_of [] = none
  first_of (c ∷ cs) = some c

  abbrev pub candidates :
      (facility : R)
      → List (ExposurePosition R)
      → (by_asset_type by_region : List (ExposureGroup R)) → List (Concentration R)
  candidates facility positions by_asset_type by_region =
      if gt facility (n.lit 0)
      then biggest_deal facility (by_facility positions)
        ++ (first_group asset_type by_asset_type ++ first_group region by_region)
      else []

  abbrev pub ratio_of : R → R → R
  ratio_of a b = if gt b (n.lit 0) then a ⊘ b else n.lit 0

  -- `aggregateExposure`
  unfoldable pub aggregate_exposure : List (ExposurePosition R) → ExposureSummary R
  unfolding group_by
  aggregate_exposure positions =
      let facility = sum_by (λ (p : ExposurePosition R). p.facility) positions in
      let drawn = sum_by (λ (p : ExposurePosition R). p.drawn) positions in
      let gdv = sum_by (λ (p : ExposurePosition R). p.gdv) positions in
      let by_asset_type = group_by positions (λ (p : ExposurePosition R). p.asset_type) facility in
      let by_region = group_by positions (λ (p : ExposurePosition R). p.region) facility in
      record {
        positions = by_facility positions;
        totals = record {
          deals = length positions;
          gdv = gdv;
          total_cost = sum_by (λ (p : ExposurePosition R). p.total_cost) positions;
          facility = facility;
          drawn = drawn;
          undrawn = n.greatest (n.lit 0) (facility ⊖ drawn);
          equity = sum_by (λ (p : ExposurePosition R). p.equity) positions;
          utilisation = ratio_of drawn facility;
          loan_to_gdv = ratio_of facility gdv;
        };
        by_asset_type = by_asset_type;
        by_region = by_region;
        largest = first_of (
            sort_with (λ (a b : Concentration R). n.le b.share a.share)
              (candidates facility positions by_asset_type by_region));
      }
