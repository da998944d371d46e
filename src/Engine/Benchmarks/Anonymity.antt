-- ===== src/Engine/Benchmarks/Anonymity.antt =====
-- What a published cohort gives away: the points of no few firms, and nothing of the reader's own.
use apex_appraise.Common.{
  if◌then◌else◌, str_eq, str_eq_iff, Bool-cases, length, keep, any, All, ◌+◌, ◌≤◌, String, ◌≡◌,
  refl, ap, inl, inr, Bool, true, false, not, Option, none, some, List, [], ◌∷◌, ◌++◌, map, arith,
}
use apex_appraise.Engine.Number.{Number}
use apex_appraise.Engine.Benchmarks.{
  min_contributors, CohortPoint, Cohort, distinct, org_of, is_of_another, eligible, contributors_of,
  verdict_on, cohort_stats, is_published, percentile, rank_within, median_of, period_median,
  published,
}

abbrev IsDistinct : List String → Type 0
IsDistinct [] = Unit
IsDistinct (x ∷ xs) = (any (str_eq x) xs ≡ false) × IsDistinct xs

abbrev without : String → List String → List String
without x = keep (λ y. not (str_eq x y))

any-distinct :
    (p : String → Bool) (xs : List String) → any p xs ≡ false → any p (distinct xs) ≡ false
any-distinct p [] h = refl
any-distinct p (x ∷ xs) h = ground (arith, h, any-distinct p xs)

distinct-IsDistinct : (xs : List String) → IsDistinct (distinct xs)
distinct-IsDistinct [] = tt
distinct-IsDistinct (x ∷ xs) = elim (Bool-cases (any (str_eq x) xs)) [
  | inl e ↦ rw (e, IsDistinct) (distinct-IsDistinct xs)
  | inr e ↦ rw (e, IsDistinct) (any-distinct (str_eq x) xs e, distinct-IsDistinct xs)
]

All-distinct : (P : String → Type 0) (xs : List String) → All P xs → All P (distinct xs)
All-distinct P [] a = tt
All-distinct P (x ∷ xs) a = elim (Bool-cases (any (str_eq x) xs)) [
  | inl e ↦ rw (e, All) (All-distinct P xs a.1)
  | inr e ↦ rw (e, All) (a.0, All-distinct P xs a.1)
]

length-without_le : (x : String) (ys : List String) → length (without x ys) ≤ length ys
length-without_le x [] = omega arith
length-without_le x (y ∷ ys) = ground (arith, length-without_le x ys)

length-without :
    (x : String) (ys : List String)
    → any (str_eq x) ys ≡ true
    → length (without x ys) + 1 ≤ length ys
length-without x [] h = ground (arith, h)
length-without x (y ∷ ys) h = ground (arith, h, length-without_le x ys, length-without x ys)

any-without :
    (x z : String) (ys : List String)
    → str_eq x z ≡ false
    → any (str_eq z) ys ≡ true
    → any (str_eq z) (without x ys) ≡ true
any-without x z [] n h = ground (arith, h)
any-without x z (y ∷ ys) n h =
    ground (arith, n, h, str_eq_iff x y, str_eq_iff z y, str_eq_iff x z, any-without x z ys)

All-without :
    (x : String) (xs ys : List String)
    → any (str_eq x) xs ≡ false
    → All (λ z. any (str_eq z) ys ≡ true) xs
    → All (λ z. any (str_eq z) (without x ys) ≡ true) xs
All-without x [] ys n a = tt
All-without x (z ∷ xs) ys n a =
    (any-without x z ys (ground (arith, n)) a.0, All-without x xs ys (ground (arith, n)) a.1)

-- Distinct names that are all on a list are no more than the list.
pigeonhole :
    (xs ys : List String)
    → IsDistinct xs
    → All (λ z. any (str_eq z) ys ≡ true) xs
    → length xs ≤ length ys
pigeonhole [] ys d a = omega arith
pigeonhole (x ∷ xs) ys d a =
    omega (
      arith,
      pigeonhole xs (without x ys) d.1 (All-without x xs ys d.0 a.1),
      length-without x ys a.0,
    )

module _ {R : Type 0} where
  -- whose points are outside the coalition
  abbrev pub is_outside : List String → CohortPoint R → Bool
  is_outside coalition p = not (any (str_eq p.org_id) coalition)

  All-coalition :
      (coalition : List String) (points : List (CohortPoint R))
      → any (is_outside coalition) points ≡ false
      → All (λ z. any (str_eq z) coalition ≡ true) (map org_of points)
  All-coalition coalition [] h = tt
  All-coalition coalition (p ∷ points) h =
      (ground (arith, h), All-coalition coalition points (ground (arith, h)))

  contributors_of-coalition :
      (coalition : List String) (points : List (CohortPoint R))
      → any (is_outside coalition) points ≡ false
      → contributors_of points ≤ length coalition
  contributors_of-coalition coalition points h =
      pigeonhole (distinct (map org_of points)) coalition (distinct-IsDistinct (map org_of points))
        (All-distinct _ (map org_of points) (All-coalition coalition points h))

  any-keep_another :
      (org : String) (coalition : List String) (points : List (CohortPoint R))
      → any (is_outside coalition) (keep (is_of_another org) points) ≡ true
      → any (is_outside (org ∷ coalition)) points ≡ true
  any-keep_another org coalition [] h = h
  any-keep_another org coalition (p ∷ points) h =
      ground (arith, h, any-keep_another org coalition points)

  keep-own :
      (org : String) (own : CohortPoint R) (xs ys : List (CohortPoint R))
      → own.org_id ≡ org
      → keep (is_of_another org) (xs ++ (own ∷ ys)) ≡ keep (is_of_another org) (xs ++ ys)
  keep-own org own [] ys e = ground (arith, e, str_eq_iff own.org_id org)
  keep-own org own (x ∷ xs) ys e = ground (arith, keep-own org own xs ys e)

module _ {R : Type 0} ⦃n : Number R⦄ where
  published-contributors :
      (points : List (CohortPoint R)) (c : Cohort R)
      → verdict_on points ≡ published c
      → min_contributors ≤ contributors_of points
  published-contributors points c h = ground (arith, h)

  -- A cohort that is shown to a reader has a point from outside any four firms and the reader: no four firms
  -- that share their own points with the reader account for all of it.
  pub published_hides :
      (points : List (CohortPoint R)) (reader : String) (c : Cohort R) (coalition : List String)
      → str_eq reader "" ≡ false
      → cohort_stats points (some reader) ≡ published c
      → length coalition ≤ 4
      → any (is_outside (reader ∷ coalition)) points ≡ true
  unfolding cohort_stats
  published_hides points reader c coalition e h l =
      let others = keep (is_of_another reader) points in
      let enough = published-contributors others c (rw e at h) in
      elim (Bool-cases (any (is_outside coalition) others)) [
        | inl q ↦ any-keep_another reader coalition points q
        | inr q ↦ absurd (omega (arith, enough, l, contributors_of-coalition coalition others q))
      ]

  eligible-own :
      (reader : String) (own : CohortPoint R) (xs ys : List (CohortPoint R))
      → str_eq reader "" ≡ false
      → own.org_id ≡ reader
      → eligible (some reader) (xs ++ (own ∷ ys)) ≡ eligible (some reader) (xs ++ ys)
  eligible-own reader own xs ys e h = rw e (keep-own reader own xs ys h)

  rank-of-eligible :
      (reader : String) (value : Option R) (xs ys : List (CohortPoint R))
      → eligible (some reader) xs ≡ eligible (some reader) ys
      → rank_within xs value (some reader) ≡ rank_within ys value (some reader)
  unfolding rank_within cohort_stats
  rank-of-eligible reader none xs ys h = refl
  rank-of-eligible reader (some value) xs ys h =
      ap (λ ps. if is_published (verdict_on ps) then some (percentile ps value) else none) h

  -- A point of the reader's own, wherever it stands, changes neither the cohort that the reader is shown, nor
  -- the rank of a value in it, nor the median.
  pub own_ignored :
      (reader : String) (own : CohortPoint R) (xs ys : List (CohortPoint R)) (value : Option R)
      → str_eq reader "" ≡ false
      → own.org_id ≡ reader
      → (cohort_stats (xs ++ (own ∷ ys)) (some reader) ≡ cohort_stats (xs ++ ys) (some reader))
        × (rank_within (xs ++ (own ∷ ys)) value (some reader)
            ≡ rank_within (xs ++ ys) value (some reader))
        × (period_median (xs ++ (own ∷ ys)) (some reader) ≡ period_median (xs ++ ys) (some reader))
  unfolding cohort_stats period_median
  own_ignored reader own xs ys value e h =
      let same = eligible-own reader own xs ys e h in
      (
        ap verdict_on same,
        rank-of-eligible reader value (xs ++ (own ∷ ys)) (xs ++ ys) same,
        ap (λ ps. median_of (verdict_on ps)) same,
      )
