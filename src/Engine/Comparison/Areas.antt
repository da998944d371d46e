-- ===== src/Engine/Comparison/Areas.antt =====
-- What a comparison does not see: the areas of the units and the mode of the site.
use apex_appraise.Common.{
  str_eq, str_eq_iff, str_eq_self, Bool-cases, any, All, ℕ, String, ◌≡◌, refl, sym, ap, ◌∙◌, subst,
  inl, inr, true, false, Option, none, some, List, [], ◌∷◌, ◌++◌, map, arith,
}
use apex_appraise.Table.Keyed.{has, row}
use apex_appraise.Table.Unique.{Unique}
use apex_appraise.Engine.Number.{Number}
use apex_appraise.Engine.Types.{SiteMode, AppraisalUnit, AppraisalInput}
use apex_appraise.Engine.Comparison.{
  ScalarSpec, Entry, gather, is_empty, entry_label, put, put_all, scalars, income_lines,
  income_yield, phase_count, near_value, near, scalar_change, line_change, line_added, diff_maps,
  diff_by_label, count_change, compare_appraisals,
}

module _ {R : Type 0} where
  put-any :
      (k : String) (v : R) (j : String) (m : List (Entry R))
      → str_eq k j ≡ false
      → any (has entry_label j) m ≡ false
      → any (has entry_label j) (put k v m) ≡ false
  put-any k v j [] e h = ground (arith, e)
  put-any k v j (x ∷ m) e h = ground (arith, e, h, put-any k v j m e)

  put-Unique :
      (k : String) (v : R) (m : List (Entry R))
      → Unique entry_label m
      → Unique entry_label (put k v m)
  put-Unique k v [] u = (refl, tt)
  put-Unique k v (x ∷ m) u = elim (Bool-cases (str_eq x.label k)) [
    | inl e ↦ rw (e, Unique) u
    | inr e ↦
        rw (e, Unique)
          (
            put-any k v x.label m (ground (arith, e, str_eq_iff x.label k, str_eq_iff k x.label))
                u.0,
            put-Unique k v m u.1,
          )
  ]

  put_all-Unique {ℓ} :
      {A : Type ℓ} (label_of : A → String) (value_of : A → R) (xs : List A) (m : List (Entry R))
      → Unique entry_label m
      → Unique entry_label (put_all label_of value_of xs m)
  put_all-Unique label_of value_of [] m u = u
  put_all-Unique label_of value_of (x ∷ xs) m u =
      put_all-Unique label_of value_of xs (put (label_of x) (value_of x) m)
        (put-Unique (label_of x) (value_of x) m u)

  IsFound-later :
      (x : Entry R) (m rest : List (Entry R))
      → any (has entry_label x.label) rest ≡ false
      → All (λ e. row entry_label e.label m ≡ some e) rest
      → All (λ e. row entry_label e.label (x ∷ m) ≡ some e) rest
  IsFound-later x m [] h a = tt
  IsFound-later x m (y ∷ rest) h a = (
    ground (arith, h, str_eq_iff x.label y.label, str_eq_iff y.label x.label, a.0),
    IsFound-later x m rest (ground (arith, h)) a.1,
  )

  Unique-IsFound :
      (m : List (Entry R)) → Unique entry_label m → All (λ e. row entry_label e.label m ≡ some e) m
  Unique-IsFound [] u = tt
  Unique-IsFound (x ∷ m) u =
      (ground (arith, str_eq_self x.label), IsFound-later x m m u.0 (Unique-IsFound m u.1))

append-none {ℓ} : {A : Type ℓ} (xs ys : List A) → xs ≡ [] → ys ≡ [] → xs ++ ys ≡ []
append-none xs ys h g = rw (h, g) refl

-- Every value is near itself: none is NaN or infinite.
abbrev pub IsReflexive : (R : Type 0) ⦃n : Number R⦄ → Type 0
IsReflexive R = (a : R) → near_value a a ≡ true

module _ {R : Type 0} ⦃n : Number R⦄ where
  line_change-same :
      (prefix : String) (m : List (Entry R)) (e : Entry R)
      → IsReflexive R
      → row entry_label e.label m ≡ some e
      → line_change prefix m e ≡ []
  line_change-same prefix m e r h = rw (h, line_change, r e.value) refl

  line_added-same :
      (prefix : String) (m : List (Entry R)) (e : Entry R)
      → row entry_label e.label m ≡ some e
      → line_added prefix m e ≡ []
  line_added-same prefix m e h = rw (h, line_added) refl

  line_change-none :
      (prefix : String) (m rest : List (Entry R))
      → IsReflexive R
      → All (λ e. row entry_label e.label m ≡ some e) rest
      → gather (line_change prefix m) rest ≡ []
  line_change-none prefix m [] r a = refl
  line_change-none prefix m (e ∷ rest) r a =
      append-none (line_change prefix m e) _ (line_change-same prefix m e r a.0)
        (line_change-none prefix m rest r a.1)

  line_added-none :
      (prefix : String) (m rest : List (Entry R))
      → All (λ e. row entry_label e.label m ≡ some e) rest
      → gather (line_added prefix m) rest ≡ []
  line_added-none prefix m [] a = refl
  line_added-none prefix m (e ∷ rest) a =
      append-none (line_added prefix m e) _ (line_added-same prefix m e a.0)
        (line_added-none prefix m rest a.1)

  diff_maps-same :
      (prefix : String) (m : List (Entry R))
      → IsReflexive R
      → Unique entry_label m
      → diff_maps prefix m m ≡ []
  diff_maps-same prefix m r u =
      rw
        (
          line_change-none prefix m m r (Unique-IsFound m u),
          line_added-none prefix m m (Unique-IsFound m u),
        )
        refl

  diff_by_label-same {ℓ} :
      {A : Type ℓ} (prefix : String) (label_of : A → String) (value_of : A → R) (xs : List A)
      → IsReflexive R
      → diff_by_label prefix label_of value_of xs xs ≡ []
  diff_by_label-same prefix label_of value_of xs r =
      diff_maps-same prefix (put_all label_of value_of xs []) r
        (put_all-Unique label_of value_of xs [] tt)

  -- A change of a list that keeps the label and the value of every line is not seen.
  put_all-map {ℓ} :
      {A : Type ℓ} (label_of : A → String) (value_of : A → R) (f : A → A)
      → ((x : A) → label_of (f x) ≡ label_of x)
      → ((x : A) → value_of (f x) ≡ value_of x)
      → (xs : List A) (m : List (Entry R))
      → put_all label_of value_of (map f xs) m ≡ put_all label_of value_of xs m
  put_all-map label_of value_of f hl hv [] m = refl
  put_all-map label_of value_of f hl hv (x ∷ xs) m =
      subst
        (λ e.
          put_all label_of value_of (map f xs) e
          ≡ put_all label_of value_of xs (put (label_of x) (value_of x) m))
        (ap (λ k. put k (value_of x) m) (sym (hl x))
          ∙ ap (λ v. put (label_of (f x)) v m) (sym (hv x)))
        (put_all-map label_of value_of f hl hv xs (put (label_of x) (value_of x) m))

  diff_by_label-map {ℓ} :
      {A : Type ℓ} (prefix : String) (label_of : A → String) (value_of : A → R) (f : A → A)
      → ((x : A) → label_of (f x) ≡ label_of x)
      → ((x : A) → value_of (f x) ≡ value_of x)
      → (xs : List A) → IsReflexive R
      → diff_by_label prefix label_of value_of xs (map f xs) ≡ []
  diff_by_label-map prefix label_of value_of f hl hv xs r =
      rw (put_all-map label_of value_of f hl hv xs [])
        (diff_by_label-same prefix label_of value_of xs r)

  near_refl : (o : Option R) → IsReflexive R → near o o ≡ true
  near_refl none r = refl
  near_refl (some a) r = r a

  scalar_change-same : (path : String) (o : Option R) → IsReflexive R → scalar_change path o o ≡ []
  scalar_change-same path o r = rw (near_refl o r) refl

  scalars-same :
      (specs : List (ScalarSpec R)) (b a : AppraisalInput R)
      → IsReflexive R
      → All (λ s. s.get b ≡ s.get a) specs
      → gather (λ (s : ScalarSpec R). scalar_change s.path (s.get b) (s.get a)) specs ≡ []
  scalars-same [] b a r h = refl
  scalars-same (s ∷ specs) b a r h = rw (h.0, near_refl (s.get a) r) (scalars-same specs b a r h.1)

  count_change-same : (path : String) (k : ℕ) → count_change {R = R} path k k ≡ []
  count_change-same path k = ground arith

  abbrev pub with_area : (R → R) → AppraisalUnit R → AppraisalUnit R
  with_area f u = record u { area = f u.area }

  -- the same appraisal with other areas and another mode
  abbrev pub resized : (R → R) → SiteMode → AppraisalInput R → AppraisalInput R
  resized f mode i = record i {
    units = map (with_area f) i.units;
    site = record i.site { mode = mode };
  }

  -- Two versions that differ in the areas of their units, and in the mode of the site, are reported as identical,
  -- where every value is near itself. So is a version and itself.
  pub resized_identical :
      (f : R → R) (mode : SiteMode) (i : AppraisalInput R)
      → IsReflexive R
      → (compare_appraisals i (resized f mode i)).identical ≡ true
  unfolding compare_appraisals
  resized_identical f mode i r =
      let j = resized f mode i in
      ap is_empty (
        append-none _ _
          (scalars-same scalars i j r (
            refl,
            (
              refl,
              (
                refl,
                (
                  refl,
                  (
                    refl,
                    (refl, (refl, (refl, (refl, (refl, (refl, (refl, (refl, (refl, tt))))))))),
                  ),
                ),
              ),
            ),
          ))
          (append-none _ _
            (diff_by_label-map "units.cap" (λ u. u.label) (λ u. u.cap) (with_area f) (λ u. refl)
              (λ u. refl) i.units r)
            (append-none _ _
              (diff_by_label-map "units.count" (λ u. u.label) (λ u. u.count) (with_area f)
                (λ u. refl) (λ u. refl) i.units r)
              (append-none _ _ (diff_by_label-same "trades" (λ t. t.label) (λ t. t.rate) i.trades r)
                (append-none _ _
                  (diff_by_label-same "otherCosts" (λ o. o.label) (λ o. o.amount) i.other_costs r)
                  (append-none _ _ (count_change-same "phases" (phase_count i.phases)) (
                    append-none _ _ (count_change-same "income.lines" (income_lines i.income))
                      (scalar_change-same "income.yieldPct" (income_yield i.income) r))))))))
