-- ===== src/Common/Sorting.antt =====
-- A stable sort by a number, which stands for `orderBy` and for `Array.prototype.sort`.
use apex_appraise.Common.Tests.{leb, Bool-cases}
use apex_appraise.Common.Lists.{All}
use Prim.Native.Nat.{ℕ, ◌≤◌}
use mathlib.Core.Bool.{Bool, true, false}
use mathlib.Core.Logic.{inl, inr}
use mathlib.Core.List.{List, [], ◌∷◌}
use native.Mathlib.Omega.{arith}

module _ {ℓ} {A : Type ℓ} (key : A → ℕ) where
  abbrev pub insert_by : A → List A → List A
  insert_by x [] = x ∷ []
  insert_by x (y ∷ ys) = elim (leb (key x) (key y)) [
    | true ↦ x ∷ y ∷ ys
    | false ↦ y ∷ insert_by x ys
  ]

  abbrev pub sort_by : List A → List A
  sort_by [] = []
  sort_by (x ∷ xs) = insert_by x (sort_by xs)

  -- Every element is at least the ones before it.
  abbrev pub IsSortedBy : List A → Type 0
  IsSortedBy [] = Unit
  IsSortedBy (x ∷ xs) = All (λ y. key x ≤ key y) xs × IsSortedBy xs

  All-insert_by :
      (n : ℕ) (x : A) (ys : List A)
      → n ≤ key x
      → All (λ y. n ≤ key y) ys
      → All (λ y. n ≤ key y) (insert_by x ys)
  All-insert_by n x [] h a = (h, tt)
  All-insert_by n x (y ∷ ys) h a = ground (arith, All-insert_by n x ys h a.1)

  All-weaken : (m n : ℕ) (ys : List A) → m ≤ n → All (λ y. n ≤ key y) ys → All (λ y. m ≤ key y) ys
  All-weaken m n [] h a = tt
  All-weaken m n (y ∷ ys) h a = (omega arith, All-weaken m n ys h a.1)

  insert_by-IsSortedBy : (x : A) (ys : List A) → IsSortedBy ys → IsSortedBy (insert_by x ys)
  insert_by-IsSortedBy x [] s = (tt, tt)
  insert_by-IsSortedBy x (y ∷ ys) s = elim (Bool-cases (leb (key x) (key y))) [
    | inl e ↦
        rw (e, IsSortedBy) ((ground arith, All-weaken (key x) (key y) ys (ground arith) s.0), s)
    | inr e ↦
        rw (e, IsSortedBy)
          (All-insert_by (key y) x ys (ground arith) s.0, insert_by-IsSortedBy x ys s.1)
  ]

  pub sort_by-IsSortedBy : (xs : List A) → IsSortedBy (sort_by xs)
  sort_by-IsSortedBy [] = tt
  sort_by-IsSortedBy (x ∷ xs) = insert_by-IsSortedBy x (sort_by xs) (sort_by-IsSortedBy xs)

-- `sort` with a comparator, which is given as the test that the first of two may stay before the second.
module _ {ℓ} {A : Type ℓ} (may_precede : A → A → Bool) where
  abbrev pub insert_with : A → List A → List A
  insert_with x [] = x ∷ []
  insert_with x (y ∷ ys) = elim (may_precede x y) [
    | true ↦ x ∷ y ∷ ys
    | false ↦ y ∷ insert_with x ys
  ]

  abbrev pub sort_with : List A → List A
  sort_with [] = []
  sort_with (x ∷ xs) = insert_with x (sort_with xs)

  All-insert_with {κ} :
      (P : A → Type κ) (x : A) (ys : List A) → P x → All P ys → All P (insert_with x ys)
  All-insert_with P x [] h a = (h, tt)
  All-insert_with P x (y ∷ ys) h a = elim (Bool-cases (may_precede x y)) [
    | inl e ↦ rw (e, All) (h, a)
    | inr e ↦ rw (e, All) (a.0, All-insert_with P x ys h a.1)
  ]

  pub All-sort_with {κ} : (P : A → Type κ) (xs : List A) → All P xs → All P (sort_with xs)
  All-sort_with P [] a = tt
  All-sort_with P (x ∷ xs) a = All-insert_with P x (sort_with xs) a.0 (All-sort_with P xs a.1)
