-- ===== src/Table/Counting.antt =====
-- How many rows pass a test, and which row a key names, across updates of one row and insertions.
use apex_appraise.Common.{
  ◌==◌, if◌then◌else◌, str_eq_iff, Bool-cases, Option-cases, any, All, ◌+◌, String, ◌≡◌, refl, sym,
  inl, inr, Bool, true, false, ◌&&◌, ◌||◌, none, some, List, [], ◌∷◌, ◌++◌, arith,
}
use apex_appraise.Table.{find_first, update_many, count, update_many-none}
use apex_appraise.Table.Keyed.{has, row}
use apex_appraise.Table.Unique.{Unique, count-absent, count-row}

module _ {ℓ} {A : Type ℓ} where
  pub count-append :
      (p : A → Bool) (rows : List A) (new : A)
      → count p (rows ++ (new ∷ [])) ≡ count p rows + (if p new then 1 else 0)
  count-append p [] new = omega arith
  count-append p (x ∷ rows) new = omega (arith, count-append p rows new)

  pub any-append_one :
      (p : A → Bool) (rows : List A) (new : A) → any p (rows ++ (new ∷ [])) ≡ (any p rows || p new)
  any-append_one p [] new = ground arith
  any-append_one p (x ∷ rows) new = ground (arith, any-append_one p rows new)

  -- An update that leaves a test alone changes neither how many rows pass it nor whether one does.
  pub count-update_many :
      (q p : A → Bool) (f : A → A)
      → ((r : A) → p r ≡ true → q (f r) ≡ q r)
      → (rows : List A) → count q (update_many p f rows) ≡ count q rows
  count-update_many q p f h [] = refl
  count-update_many q p f h (x ∷ rows) = elim (Bool-cases (p x)) [
    | inl e ↦ rw (e, h x e, count-update_many q p f h rows) refl
    | inr e ↦ rw (e, count-update_many q p f h rows) refl
  ]

  pub any-update_same :
      (q p : A → Bool) (f : A → A)
      → ((r : A) → p r ≡ true → q (f r) ≡ q r)
      → (rows : List A) → any q (update_many p f rows) ≡ any q rows
  any-update_same q p f h [] = refl
  any-update_same q p f h (x ∷ rows) = ground (arith, h x, any-update_same q p f h rows)

  pub any-of-row :
      (p q : A → Bool) (rows : List A) (r : A)
      → find_first q rows ≡ some r
      → p r ≡ true
      → any p rows ≡ true
  any-of-row p q [] r h e = ground arith
  any-of-row p q (x ∷ rows) r h e = ground (arith, any-of-row p q rows r)

module _ {ℓ} {A : Type ℓ} (key_of : A → String) where
  owned-absent :
      (k : String) (c : A → Bool) (rows : List A)
      → any (has key_of k) rows ≡ false
      → find_first (λ r. has key_of k r && c r) rows ≡ none
  owned-absent k c [] h = refl
  owned-absent k c (x ∷ rows) h = ground (arith, owned-absent k c rows)

  -- Under a unique key the first row that a lookup by key and test finds is the row of the key.
  pub row-of-owned :
      (k : String) (c : A → Bool) (rows : List A) (v : A)
      → Unique key_of rows
      → find_first (λ r. has key_of k r && c r) rows ≡ some v
      → (row key_of k rows ≡ some v) × (c v ≡ true)
  row-of-owned k c [] v u h = ground (arith, h)
  row-of-owned k c (x ∷ rows) v u h =
      ground
        (arith, h, u.0, str_eq_iff (key_of x) k, owned-absent k c rows, row-of-owned k c rows v u.1)

  -- A count by key and test that is not 0 is of the row of the key.
  pub row-of-count :
      (k : String) (c : A → Bool) (rows : List A)
      → Unique key_of rows
      → (count (λ r. has key_of k r && c r) rows == 0) ≡ false
      → (r : A) × (row key_of k rows ≡ some r) × (c r ≡ true)
  row-of-count k c rows u h =
      let same = count-row key_of k c rows u in
      elim (Option-cases (row key_of k rows)) [
        | inl e ↦ absurd (ground (arith, h, same, e))
        | inr (r, e) ↦ (r, e, ground (arith, h, same, e))
      ]

  All-absent :
      (k : String) (rows : List A) (r : A)
      → any (has key_of k) rows ≡ false
      → All (λ x. has key_of k x ≡ true → x ≡ r) rows
  All-absent k [] r h = tt
  All-absent k (x ∷ rows) r h = (λ e. ground (arith, e, h), All-absent k rows r (ground (arith, h)))

  pub All-row_only :
      (k : String) (rows : List A) (r : A)
      → Unique key_of rows
      → row key_of k rows ≡ some r
      → All (λ x. has key_of k x ≡ true → x ≡ r) rows
  All-row_only k [] r u h = tt
  All-row_only k (x ∷ rows) r u h = elim (Bool-cases (has key_of k x)) [
    | inl e ↦ (
      λ _. ground (arith, e, h),
      All-absent k rows r (ground (arith, u.0, str_eq_iff (key_of x) k, e)),
    )
    | inr e ↦ (λ g. cc, All-row_only k rows r u.1 (ground (arith, e, h)))
  ]

  -- What the change of one row, found by its key, does to how many rows pass a test.
  pub count-change_row :
      (k : String) (c q : A → Bool) (f : A → A) (rows : List A) (r : A)
      → Unique key_of rows
      → row key_of k rows ≡ some r
      → c r ≡ true
      → count q (update_many (λ x. has key_of k x && c x) f rows) + (if q r then 1 else 0)
        ≡ count q rows + (if q (f r) then 1 else 0)
  count-change_row k c q f [] r u h e = ground (arith, h)
  count-change_row k c q f (x ∷ rows) r u h e = elim (Bool-cases (has key_of k x)) [
    | inl g ↦
        let same : x ≡ r = ground (arith, g, h) in
        let absent : any (has key_of k) rows ≡ false =
          ground (arith, u.0, str_eq_iff (key_of x) k, g) in
        rw
          (
            sym same,
            g,
            update_many-none (λ x. has key_of k x && c x) f rows
                (count-absent key_of k c rows absent),
            (rw (sym same) at e),
          )
          (omega arith)
    | inr g ↦ rw g (omega (arith, count-change_row k c q f rows r u.1 (ground (arith, g, h)) e))
  ]

-- What an update makes of a property of all rows, with a second property to hand.
module _ {ℓ κ} {A : Type ℓ} (P Q : A → Type κ) where
  pub All-update_where :
      (p : A → Bool) (f : A → A)
      → ((r : A) → P r → Q r → p r ≡ true → Q (f r))
      → (rows : List A) → All P rows
      → All Q rows
      → All Q (update_many p f rows)
  All-update_where p f h [] a b = tt
  All-update_where p f h (x ∷ rows) a b = elim (Bool-cases (p x)) [
    | inl q ↦ rw q (h x a.0 b.0 q, All-update_where p f h rows a.1 b.1)
    | inr q ↦ rw q (b.0, All-update_where p f h rows a.1 b.1)
  ]

module _ {ℓ κ} {A : Type ℓ} (P Q : A → Type κ) where
  pub All-weaken_to : (rows : List A) → ((r : A) → P r → Q r) → All P rows → All Q rows
  All-weaken_to [] h a = tt
  All-weaken_to (x ∷ rows) h a = (h x a.0, All-weaken_to rows h a.1)
