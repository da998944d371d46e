-- ===== src/Table/Unique.antt =====
-- Tables with a unique key: updates, upserts and deletions keep the keys distinct and a property of
-- all rows, and a deletion by a test is seen by a lookup as that test on the row found.
use mathlib.Core.Option.{some-injective, none-ne-some}
use apex_appraise.Common.{
  if◌then◌else◌, str_eq, str_eq_iff, Bool-cases, any, All, ℕ, String, ◌≡◌, refl, subst, inl, inr,
  Bool, true, false, ◌&&◌, Option, none, some, List, [], ◌∷◌, ◌++◌, arith,
}
use apex_appraise.Table.{find_first, update_many, count, upsert, delete_many}
use apex_appraise.Table.Keyed.{has, row}

module _ {ℓ} {A : Type ℓ} (key_of : A → String) where
  abbrev pub Unique : List A → Type 0
  Unique [] = Unit
  Unique (x ∷ xs) = (any (has key_of (key_of x)) xs ≡ false) × Unique xs

  pub any-update_many :
      (k : String) (p : A → Bool) (f : A → A)
      → ((r : A) → key_of (f r) ≡ key_of r)
      → (rows : List A) → any (has key_of k) (update_many p f rows) ≡ any (has key_of k) rows
  any-update_many k p f h [] = refl
  any-update_many k p f h (x ∷ rows) = ground (arith, h x, any-update_many k p f h rows)

  pub Unique-update_many :
      (p : A → Bool) (f : A → A)
      → ((r : A) → key_of (f r) ≡ key_of r)
      → (rows : List A) → Unique rows
      → Unique (update_many p f rows)
  Unique-update_many p f h [] u = tt
  Unique-update_many p f h (x ∷ rows) u = (
    ground (arith, h x, u.0, any-update_many (key_of x) p f h rows),
    Unique-update_many p f h rows u.1,
  )

  any-insert :
      (k : String) (new : A) (rows : List A)
      → str_eq (key_of new) k ≡ false
      → any (has key_of k) rows ≡ false
      → any (has key_of k) (rows ++ (new ∷ [])) ≡ false
  any-insert k new [] n h = ground arith
  any-insert k new (x ∷ rows) n h = ground (arith, any-insert k new rows n)

  pub Unique-insert :
      (new : A) (rows : List A)
      → any (has key_of (key_of new)) rows ≡ false
      → Unique rows
      → Unique (rows ++ (new ∷ []))
  Unique-insert new [] h u = (refl, tt)
  Unique-insert new (x ∷ rows) h u = (
    any-insert (key_of x) new rows
        (ground (arith, str_eq_iff (key_of new) (key_of x), str_eq_iff (key_of x) (key_of new)))
        u.0,
    Unique-insert new rows (ground arith) u.1,
  )

  pub Unique-upsert :
      (k : String) (f : A → A) (new : A)
      → ((r : A) → key_of (f r) ≡ key_of r)
      → key_of new ≡ k
      → (rows : List A) → Unique rows
      → Unique (upsert (has key_of k) f new rows)
  Unique-upsert k f new h e rows u = elim (Bool-cases (any (has key_of k) rows)) [
    | inl q ↦ rw q (Unique-update_many (has key_of k) f h rows u)
    | inr q ↦ rw q (Unique-insert new rows (rw e q) u)
  ]

  any-delete_many :
      (k : String) (p : A → Bool) (rows : List A)
      → any (has key_of k) rows ≡ false
      → any (has key_of k) (delete_many p rows) ≡ false
  any-delete_many k p [] h = refl
  any-delete_many k p (x ∷ rows) h = ground (arith, any-delete_many k p rows)

  pub Unique-delete_many :
      (p : A → Bool) (rows : List A) → Unique rows → Unique (delete_many p rows)
  Unique-delete_many p [] u = tt
  Unique-delete_many p (x ∷ rows) u = elim (Bool-cases (p x)) [
    | inl q ↦ rw (q, Unique) (Unique-delete_many p rows u.1)
    | inr q ↦ rw (q, Unique) (any-delete_many (key_of x) p rows u.0, Unique-delete_many p rows u.1)
  ]

  pub row-absent :
      (k : String) (rows : List A) → any (has key_of k) rows ≡ false → row key_of k rows ≡ none
  row-absent k [] h = refl
  row-absent k (x ∷ rows) h = ground (arith, row-absent k rows)

  -- What a deletion by a test leaves of the row found under a key.
  abbrev pub spared : (A → Bool) → Option A → Option A
  spared p none = none
  spared p (some r) = if p r then none else some r

  pub row-delete_by :
      (k : String) (p : A → Bool) (rows : List A)
      → Unique rows
      → row key_of k (delete_many p rows) ≡ spared p (row key_of k rows)
  row-delete_by k p [] u = refl
  row-delete_by k p (x ∷ rows) u = ground (
    arith,
    u.0,
    str_eq_iff (key_of x) k,
    row-delete_by k p rows u.1,
    row-absent k (delete_many p rows),
    any-delete_many k p rows,
  )

  any-append :
      (k : String) (xs ys : List A)
      → any (has key_of k) xs ≡ false
      → any (has key_of k) ys ≡ false
      → any (has key_of k) (xs ++ ys) ≡ false
  any-append k [] ys h g = g
  any-append k (x ∷ xs) ys h g = ground (arith, any-append k xs ys)

  pub Unique-append :
      (xs ys : List A)
      → Unique xs
      → Unique ys
      → All (λ x. any (has key_of (key_of x)) ys ≡ false) xs
      → Unique (xs ++ ys)
  Unique-append [] ys u v a = v
  Unique-append (x ∷ xs) ys u v a =
      (any-append (key_of x) xs ys u.0 a.0, Unique-append xs ys u.1 v a.1)

  pub count-absent :
      (k : String) (c : A → Bool) (rows : List A)
      → any (has key_of k) rows ≡ false
      → count (λ r. has key_of k r && c r) rows ≡ 0
  count-absent k c [] h = refl
  count-absent k c (x ∷ rows) h = ground (arith, count-absent k c rows)

  -- How many rows a query by key and test meets: the row of the key, if it passes the test.
  abbrev pub met : (A → Bool) → Option A → ℕ
  met c none = 0
  met c (some r) = if c r then 1 else 0

  pub count-row :
      (k : String) (c : A → Bool) (rows : List A)
      → Unique rows
      → count (λ r. has key_of k r && c r) rows ≡ met c (row key_of k rows)
  count-row k c [] u = refl
  count-row k c (x ∷ rows) u =
      ground (arith, u.0, str_eq_iff (key_of x) k, count-row k c rows u.1, count-absent k c rows)

module _ {ℓ κ} {A : Type ℓ} (P : A → Type κ) where
  pub All-update_many :
      (p : A → Bool) (f : A → A)
      → ((r : A) → P r → p r ≡ true → P (f r))
      → (rows : List A) → All P rows
      → All P (update_many p f rows)
  All-update_many p f h [] a = tt
  All-update_many p f h (x ∷ rows) a = elim (Bool-cases (p x)) [
    | inl q ↦ rw q (h x a.0 q, All-update_many p f h rows a.1)
    | inr q ↦ rw q (a.0, All-update_many p f h rows a.1)
  ]

  pub All-insert : (new : A) (rows : List A) → P new → All P rows → All P (rows ++ (new ∷ []))
  All-insert new [] n a = (n, tt)
  All-insert new (x ∷ rows) n a = (a.0, All-insert new rows n a.1)

  pub All-upsert :
      (p : A → Bool) (f : A → A) (new : A)
      → ((r : A) → P r → P (f r))
      → P new
      → (rows : List A) → All P rows
      → All P (upsert p f new rows)
  All-upsert p f new h n rows a = elim (Bool-cases (any p rows)) [
    | inl q ↦ rw q (All-update_many p f (λ r b _. h r b) rows a)
    | inr q ↦ rw q (All-insert new rows n a)
  ]

  pub All-delete_many : (p : A → Bool) (rows : List A) → All P rows → All P (delete_many p rows)
  All-delete_many p [] a = tt
  All-delete_many p (x ∷ rows) a = elim (Bool-cases (p x)) [
    | inl q ↦ rw (q, All) (All-delete_many p rows a.1)
    | inr q ↦ rw (q, All) (a.0, All-delete_many p rows a.1)
  ]

  pub All-row :
      (q : A → Bool) (rows : List A) (r : A) → All P rows → find_first q rows ≡ some r → P r
  All-row q [] r a e = elim (none-ne-some r e) [ ]
  All-row q (x ∷ rows) r a e = elim (Bool-cases (q x)) [
    | inl h ↦ subst P (some-injective x r (rw (h, find_first) at e)) a.0
    | inr h ↦ All-row q rows r a.1 (rw (h, find_first) at e)
  ]

  pub All-append : (xs ys : List A) → All P xs → All P ys → All P (xs ++ ys)
  All-append [] ys a b = b
  All-append (x ∷ xs) ys a b = (a.0, All-append xs ys a.1 b)
