-- ===== src/Versions/Portfolio.antt =====
-- apps/api/src/current-appraisal.ts: a portfolio of deals shows the version that each deal shows by itself.
use mathlib.Core.Option
use apex_appraise.Common.{
  ltb, str_eq, str_eq_iff, Bool-cases, Option-cases, keep, All, ℕ, ◌≤◌, String, ◌≡◌, refl, sym, ◌∙◌,
  inl, inr, Bool, true, false, not, some, List, [], ◌∷◌, arith,
}
use apex_appraise.Table.{find_first}
use apex_appraise.Versions.Row.{Version, is_current_at, newest, current_appraisal, current_by_deal}

module _ {R : Type 0} where
  abbrev pub at_pair : (deal : String) → String × Version R → Bool
  at_pair deal p = str_eq p.0 deal

  -- A deal that is not dropped is found as before.
  find_first-keep :
      (deal other : String) (pairs : List (String × Version R))
      → str_eq other deal ≡ false
      → find_first (at_pair deal) (keep (λ p. not (str_eq p.0 other)) pairs)
        ≡ find_first (at_pair deal) pairs
  find_first-keep deal other [] h = refl
  find_first-keep deal other (p ∷ pairs) h = ground (
    arith,
    h,
    str_eq_iff p.0 other,
    str_eq_iff p.0 deal,
    str_eq_iff other deal,
    find_first-keep deal other pairs h,
  )

  current_by_deal-first :
      (deal : String) (rows : List (Version R))
      → Option.map
          (λ (p : String × Version R). p.1)
          (find_first (at_pair deal) (current_by_deal rows))
        ≡ find_first (λ (v : Version R). str_eq v.deal_id deal) rows
  unfolding current_by_deal
  current_by_deal-first deal [] = refl
  current_by_deal-first deal (v ∷ rows) = elim (Bool-cases (str_eq v.deal_id deal)) [
    | inl e ↦ ground (arith, e)
    | inr e ↦ ground (
      arith,
      e,
      find_first-keep deal v.deal_id (current_by_deal rows) e,
      current_by_deal-first deal rows,
    )
  ]

  -- `orderBy: CURRENT_FIRST`
  abbrev pub IsNewestFirst : List (Version R) → Type 0
  IsNewestFirst [] = Unit
  IsNewestFirst (v ∷ rows) =
      All (λ (w : Version R). w.updated_at ≤ v.updated_at) rows × IsNewestFirst rows

  newest-le :
      (t : ℕ) (p : Version R → Bool) (rows : List (Version R)) (v : Version R)
      → All (λ (w : Version R). w.updated_at ≤ t) rows
      → newest (keep p rows) ≡ some v
      → v.updated_at ≤ t
  newest-le t p [] v a h = absurd (ground (arith, h))
  newest-le t p (x ∷ rows) v a h = elim (Bool-cases (p x)) [
    | inr g ↦ newest-le t p rows v a.1 (ground (arith, g, h))
    | inl g ↦ elim (Option-cases (newest (keep p rows))) [
      | inl e ↦ let same : v ≡ x = ground (arith, g, h, e) in rw same a.0
      | inr (w, e) ↦ elim (Bool-cases (ltb x.updated_at w.updated_at)) [
        | inl t_lt ↦
            let same : v ≡ w = ground (arith, g, h, e, t_lt) in rw same (newest-le t p rows w a.1 e)
        | inr t_ge ↦ let same : v ≡ x = ground (arith, g, h, e, t_ge) in rw same a.0
      ]
    ]
  ]

  newest-first :
      (p : Version R → Bool) (rows : List (Version R))
      → IsNewestFirst rows
      → newest (keep p rows) ≡ find_first p rows
  newest-first p [] s = refl
  newest-first p (v ∷ rows) s = elim (Bool-cases (p v)) [
    | inr g ↦ ground (arith, g, newest-first p rows s.1)
    | inl g ↦ elim (Option-cases (newest (keep p rows))) [
      | inl e ↦ ground (arith, g, e)
      | inr (w, e) ↦
          let older = newest-le v.updated_at p rows w s.0 e in ground (arith, g, e, older)
    ]
  ]

  find_first-current :
      (org deal : String) (rows : List (Version R))
      → All (λ (v : Version R). (v.org_id ≡ org) × (v.is_current ≡ true)) rows
      → find_first (λ (v : Version R). str_eq v.deal_id deal) rows
        ≡ find_first (is_current_at org deal) rows
  find_first-current org deal [] a = refl
  find_first-current org deal (v ∷ rows) a =
      ground (arith, a.0.0, a.0.1, str_eq_iff v.org_id org, find_first-current org deal rows a.1)

  -- Of rows that come newest first, all current and of one workspace, the portfolio shows for each deal the
  -- version that the deal shows by itself, and none for a deal that has none.
  pub current_by_deal-current :
      (org deal : String) (rows : List (Version R))
      → All (λ (v : Version R). (v.org_id ≡ org) × (v.is_current ≡ true)) rows
      → IsNewestFirst rows
      → Option.map
          (λ (p : String × Version R). p.1)
          (find_first (at_pair deal) (current_by_deal rows))
        ≡ current_appraisal org deal rows
  unfolding current_appraisal
  current_by_deal-current org deal rows a s =
      current_by_deal-first deal rows
      ∙ find_first-current org deal rows a
      ∙ sym (newest-first (is_current_at org deal) rows s)
