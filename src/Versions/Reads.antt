-- ===== src/Versions/Reads.antt =====
-- What a read of the current version, or of a version by its id, says of the row of that id.
use apex_appraise.Table.Counting.{any-of-row}
use apex_appraise.Common.{
  ltb, str_eq_iff, str_eq_self, Bool-cases, Option-cases, keep, ◌≡◌, refl, inl, inr, Bool, true,
  none, some, List, [], ◌∷◌, arith,
}
use apex_appraise.Table.{count}
use apex_appraise.Table.Keyed.{has, row}
use apex_appraise.Table.Unique.{Unique}
use apex_appraise.Versions.Row.{
  ReviewStatus, status_eq, Version, version_id, newest, draft, in_review, approved,
  changes_requested,
}

pub status_eq_sound : (a b : ReviewStatus) → status_eq a b ≡ true → a ≡ b
status_eq_sound draft draft h = refl
status_eq_sound in_review in_review h = refl
status_eq_sound approved approved h = refl
status_eq_sound changes_requested changes_requested h = refl
status_eq_sound draft in_review h = cc
status_eq_sound draft approved h = cc
status_eq_sound draft changes_requested h = cc
status_eq_sound in_review draft h = cc
status_eq_sound in_review approved h = cc
status_eq_sound in_review changes_requested h = cc
status_eq_sound approved draft h = cc
status_eq_sound approved in_review h = cc
status_eq_sound approved changes_requested h = cc
status_eq_sound changes_requested draft h = cc
status_eq_sound changes_requested in_review h = cc
status_eq_sound changes_requested approved h = cc

module _ {R : Type 0} where
  row-tail :
      (x : Version R) (rows : List (Version R)) (v : Version R)
      → Unique version_id (x ∷ rows)
      → row version_id v.id rows ≡ some v
      → row version_id v.id (x ∷ rows) ≡ some v
  row-tail x rows v u h = ground (
    arith,
    u.0,
    h,
    str_eq_iff x.id v.id,
    str_eq_iff v.id x.id,
    any-of-row (has version_id x.id) (has version_id v.id) rows v h,
  )

  pub newest-keep :
      (p : Version R → Bool) (rows : List (Version R)) (v : Version R)
      → Unique version_id rows
      → newest (keep p rows) ≡ some v
      → (row version_id v.id rows ≡ some v) × (p v ≡ true)
  newest-keep p [] v u h = ground (arith, h)
  newest-keep p (x ∷ rows) v u h = elim (Bool-cases (p x)) [
    | inr g ↦
        let (at, holds) = newest-keep p rows v u.1 (ground (arith, g, h)) in
        (row-tail x rows v u at, holds)
    | inl g ↦ elim (Option-cases (newest (keep p rows))) [
      | inl e ↦
          let same : v ≡ x = ground (arith, g, h, e) in
          rw same (ground (arith, str_eq_self x.id), g)
      | inr (w, e) ↦ elim (Bool-cases (ltb x.updated_at w.updated_at)) [
        | inl t ↦
            let same : v ≡ w = ground (arith, g, h, e, t) in
            let (at, holds) = newest-keep p rows w u.1 e in rw same (row-tail x rows w u at, holds)
        | inr t ↦
            let same : v ≡ x = ground (arith, g, h, e, t) in
            rw same (ground (arith, str_eq_self x.id), g)
      ]
    ]
  ]

  pub newest-keep-none :
      (p : Version R → Bool) (rows : List (Version R))
      → newest (keep p rows) ≡ none
      → count p rows ≡ 0
  newest-keep-none p [] h = refl
  newest-keep-none p (x ∷ rows) h =
      ground (arith, h, newest-keep-none p rows, Option-cases (newest (keep p rows)))
