-- ===== src/Engine/Exposure/Groups.antt =====
-- The groups of a book are the sums over its positions by key.
use apex_appraise.Common.{
  if◌then◌else◌, str_eq, str_eq_iff, str_eq_self, Bool-cases, length, keep, any, All, insert_with,
  sort_with, All-sort_with, ℕ, ◌+◌, String, ◌≡◌, refl, sym, ◌∙◌, inl, inr, Bool, false, List, [],
  ◌∷◌, map, arith,
}
use apex_appraise.Table.Keyed.{has}
use apex_appraise.Table.Unique.{Unique}
use apex_appraise.Engine.Number.{Number, ◌⊕◌, sum_from, sum_by}
use apex_appraise.Engine.Exposure.{
  ExposurePosition, ExposureGroup, Holding, or_unknown, credit, credit_all, group_of, group_by,
}

module _ {R : Type 0} ⦃n : Number R⦄ where
  abbrev key_of : Holding R → String
  key_of h = h.key

  -- what a map holds under a key, nothing where it has none
  abbrev facility_at : String → List (Holding R) → R
  facility_at j [] = n.lit 0
  facility_at j (h ∷ acc) = if str_eq h.key j then h.facility else facility_at j acc

  abbrev deals_at : String → List (Holding R) → ℕ
  deals_at j [] = 0
  deals_at j (h ∷ acc) = if str_eq h.key j then h.deals else deals_at j acc

  abbrev pub total_deals : List (ExposureGroup R) → ℕ
  total_deals [] = 0
  total_deals (g ∷ groups) = g.deals + total_deals groups

  abbrev deals_in : List (Holding R) → ℕ
  deals_in [] = 0
  deals_in (h ∷ acc) = h.deals + deals_in acc

  credit-facility_at :
      (k : String) (f : R) (j : String) (acc : List (Holding R))
      → facility_at j (credit k f acc)
        ≡ (if str_eq k j then facility_at j acc ⊕ f else facility_at j acc)
  credit-facility_at k f j [] = ground arith
  credit-facility_at k f j (h ∷ acc) =
      ground (
        arith,
        str_eq_iff k j,
        str_eq_iff h.key k,
        str_eq_iff h.key j,
        credit-facility_at k f j acc,
      )

  credit-deals_at :
      (k : String) (f : R) (j : String) (acc : List (Holding R))
      → deals_at j (credit k f acc) ≡ (if str_eq k j then deals_at j acc + 1 else deals_at j acc)
  credit-deals_at k f j [] = ground arith
  credit-deals_at k f j (h ∷ acc) =
      ground
        (arith, str_eq_iff k j, str_eq_iff h.key k, str_eq_iff h.key j, credit-deals_at k f j acc)

  credit-deals_in :
      (k : String) (f : R) (acc : List (Holding R)) → deals_in (credit k f acc) ≡ deals_in acc + 1
  credit-deals_in k f [] = omega arith
  credit-deals_in k f (h ∷ acc) = ground (arith, credit-deals_in k f acc)

  credit-any :
      (k : String) (f : R) (j : String) (acc : List (Holding R))
      → str_eq k j ≡ false
      → any (has key_of j) acc ≡ false
      → any (has key_of j) (credit k f acc) ≡ false
  credit-any k f j [] e h = ground (arith, e)
  credit-any k f j (x ∷ acc) e h = ground (arith, e, h, credit-any k f j acc)

  credit-Unique :
      (k : String) (f : R) (acc : List (Holding R))
      → Unique key_of acc
      → Unique key_of (credit k f acc)
  credit-Unique k f [] u = (refl, tt)
  credit-Unique k f (x ∷ acc) u = elim (Bool-cases (str_eq x.key k)) [
    | inl e ↦ rw (e, Unique) u
    | inr e ↦
        rw (e, Unique)
          (
            credit-any k f x.key acc (ground (arith, e, str_eq_iff x.key k, str_eq_iff k x.key))
                u.0,
            credit-Unique k f acc u.1,
          )
  ]

  -- The entry that a lookup finds says what the lookup says.
  abbrev IsFound : List (Holding R) → Holding R → Type 0
  IsFound acc h = (facility_at h.key acc ≡ h.facility) × (deals_at h.key acc ≡ h.deals)

  IsFound-later :
      (x : Holding R) (acc rest : List (Holding R))
      → any (has key_of x.key) rest ≡ false
      → All (IsFound acc) rest
      → All (IsFound (x ∷ acc)) rest
  IsFound-later x acc [] h a = tt
  IsFound-later x acc (y ∷ rest) h a = (
    ground (arith, h, str_eq_iff x.key y.key, str_eq_iff y.key x.key, a.0),
    IsFound-later x acc rest (ground (arith, h)) a.1,
  )

  -- A map without repeated keys holds under each key what its entry says.
  Unique-IsFound : (acc : List (Holding R)) → Unique key_of acc → All (IsFound acc) acc
  Unique-IsFound [] u = tt
  Unique-IsFound (x ∷ acc) u =
      (ground (arith, str_eq_self x.key), IsFound-later x acc acc u.0 (Unique-IsFound acc u.1))

module _ {R : Type 0} ⦃n : Number R⦄ where
  total_deals-map :
      (total : R) (acc : List (Holding R)) → total_deals (map (group_of total) acc) ≡ deals_in acc
  total_deals-map total [] = refl
  total_deals-map total (h ∷ acc) = omega (arith, total_deals-map total acc)

  total_deals-insert_with :
      (before : ExposureGroup R → ExposureGroup R → Bool) (g : ExposureGroup R)
      (groups : List (ExposureGroup R))
      → total_deals (insert_with before g groups) ≡ g.deals + total_deals groups
  total_deals-insert_with before g [] = refl
  total_deals-insert_with before g (x ∷ groups) =
      ground (arith, total_deals-insert_with before g groups)

  total_deals-sort_with :
      (before : ExposureGroup R → ExposureGroup R → Bool) (groups : List (ExposureGroup R))
      → total_deals (sort_with before groups) ≡ total_deals groups
  total_deals-sort_with before [] = refl
  total_deals-sort_with before (g ∷ groups) = omega (
    arith,
    total_deals-insert_with before g (sort_with before groups),
    total_deals-sort_with before groups,
  )

module _ {R : Type 0} ⦃n : Number R⦄ (key : ExposurePosition R → String) where
  -- the position counts under a key
  abbrev pub is_under : String → ExposurePosition R → Bool
  is_under k p = str_eq (or_unknown (key p)) k

  abbrev facility : ExposurePosition R → R
  facility p = p.facility

  credit_all-facility_at :
      (positions : List (ExposurePosition R)) (j : String) (acc : List (Holding R))
      → facility_at j (credit_all key positions acc)
        ≡ sum_from facility (facility_at j acc) (keep (is_under j) positions)
  credit_all-facility_at [] j acc = refl
  credit_all-facility_at (p ∷ positions) j acc = elim (Bool-cases (is_under j p)) [
    | inl e ↦
        rw
          (
            credit_all-facility_at positions j (credit (or_unknown (key p)) p.facility acc),
            credit-facility_at (or_unknown (key p)) p.facility j acc,
            e,
            keep,
          )
          refl
    | inr e ↦
        rw
          (
            credit_all-facility_at positions j (credit (or_unknown (key p)) p.facility acc),
            credit-facility_at (or_unknown (key p)) p.facility j acc,
            e,
            keep,
          )
          refl
  ]

  credit_all-deals_at :
      (positions : List (ExposurePosition R)) (j : String) (acc : List (Holding R))
      → deals_at j (credit_all key positions acc)
        ≡ deals_at j acc + length (keep (is_under j) positions)
  credit_all-deals_at [] j acc = omega arith
  credit_all-deals_at (p ∷ positions) j acc = ground (
    arith,
    credit_all-deals_at positions j (credit (or_unknown (key p)) p.facility acc),
    credit-deals_at (or_unknown (key p)) p.facility j acc,
  )

  credit_all-deals_in :
      (positions : List (ExposurePosition R)) (acc : List (Holding R))
      → deals_in (credit_all key positions acc) ≡ deals_in acc + length positions
  credit_all-deals_in [] acc = omega arith
  credit_all-deals_in (p ∷ positions) acc = omega (
    arith,
    credit_all-deals_in positions (credit (or_unknown (key p)) p.facility acc),
    credit-deals_in (or_unknown (key p)) p.facility acc,
  )

  credit_all-Unique :
      (positions : List (ExposurePosition R)) (acc : List (Holding R))
      → Unique key_of acc
      → Unique key_of (credit_all key positions acc)
  credit_all-Unique [] acc u = u
  credit_all-Unique (p ∷ positions) acc u =
      credit_all-Unique positions (credit (or_unknown (key p)) p.facility acc)
        (credit-Unique (or_unknown (key p)) p.facility acc u)

  -- A group has the sum and the number of the positions under its key.
  abbrev pub IsSumOf : List (ExposurePosition R) → ExposureGroup R → Type 0
  IsSumOf positions g =
      (g.facility ≡ sum_by facility (keep (is_under g.key) positions))
      × (g.deals ≡ length (keep (is_under g.key) positions))

  group_of-IsSumOf :
      (positions : List (ExposurePosition R)) (total : R) (acc : List (Holding R))
      → All (IsFound (credit_all key positions [])) acc
      → All (IsSumOf positions) (map (group_of total) acc)
  group_of-IsSumOf positions total [] a = tt
  group_of-IsSumOf positions total (h ∷ acc) a = (
    (
      sym a.0.0 ∙ credit_all-facility_at positions h.key [],
      omega (arith, a.0.1, credit_all-deals_at positions h.key []),
    ),
    group_of-IsSumOf positions total acc a.1,
  )

-- Each group of a book by any key has the facility and the number of exactly the positions under its key,
-- added in their order, and the groups together count every position once.
pub group_by-IsSumOf :
    {R : Type 0} ⦃n : Number R⦄ (key : ExposurePosition R → String)
    (positions : List (ExposurePosition R)) (total : R)
    → All (IsSumOf key positions) (group_by positions key total)
      × (total_deals (group_by positions key total) ≡ length positions)
unfolding group_by
group_by-IsSumOf ⦃n = n⦄ key positions total =
    let acc = credit_all key positions [] in
    (
      All-sort_with _ (IsSumOf key positions) (map (group_of total) acc) (
          group_of-IsSumOf key positions total acc
            (Unique-IsFound acc (credit_all-Unique key positions [] tt))),
      omega (
        arith,
        total_deals-sort_with (λ a b. n.le b.facility a.facility) (map (group_of total) acc),
        total_deals-map total acc,
        credit_all-deals_in key positions [],
      ),
    )
