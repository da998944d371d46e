-- ===== src/Table/Keyed.antt =====
-- Tables whose rows carry a text key: what a lookup by key sees of an update, an upsert or a deletion
-- that names a key.
use mathlib.Core.Option
use apex_appraise.Common.{
  inr, inl, Option-cases, ◌≡◌, Bool, true, false, ◌&&◌, Option, none, some, List, [], ◌∷◌, ◌++◌,
  arith, if◌then◌else◌, String, str_eq, str_eq_iff, any,
}
use apex_appraise.Table.{find_first, update_many, upsert, delete_many, any-find_first}

-- The row that an upsert leaves under its key.
abbrev pub upserted {ℓ} : {A : Type ℓ} → (A → A) → A → Option A → A
upserted f new none = new
upserted f new (some r) = f r

module _ {ℓ} {A : Type ℓ} (key_of : A → String) where
  abbrev pub has : String → A → Bool
  has k r = str_eq (key_of r) k

  abbrev pub row : String → List A → Option A
  row k = find_first (has k)

  pub row-key : (k : String) (rows : List A) (r : A) → row k rows ≡ some r → key_of r ≡ k
  row-key k [] r h = ground arith
  row-key k (x ∷ rows) r h = ground (arith, str_eq_iff (key_of x) k, row-key k rows r)

  pub row-update_many :
      (k j : String) (c : A → Bool) (f : A → A)
      → ((r : A) → key_of (f r) ≡ key_of r)
      → (rows : List A)
      → row j (update_many (λ r. has k r && c r) f rows)
        ≡ (if str_eq k j then Option.map (λ r. if c r then f r else r) (row k rows) else row j rows)
  row-update_many k j c f h [] = ground arith
  row-update_many k j c f h (x ∷ rows) = ground (
    arith,
    h x,
    str_eq_iff k j,
    str_eq_iff (key_of x) k,
    str_eq_iff (key_of x) j,
    row-update_many k j c f h rows,
  )

  pub row-update_key :
      (k j : String) (f : A → A)
      → ((r : A) → key_of (f r) ≡ key_of r)
      → (rows : List A)
      → row j (update_many (has k) f rows)
        ≡ (if str_eq k j then Option.map f (row k rows) else row j rows)
  row-update_key k j f h [] = ground arith
  row-update_key k j f h (x ∷ rows) = ground (
    arith,
    h x,
    str_eq_iff k j,
    str_eq_iff (key_of x) k,
    str_eq_iff (key_of x) j,
    row-update_key k j f h rows,
  )

  row-insert :
      (k j : String) (new : A)
      → key_of new ≡ k
      → (rows : List A) → any (has k) rows ≡ false
      → row j (rows ++ (new ∷ [])) ≡ (if str_eq k j then some new else row j rows)
  row-insert k j new e [] h = ground (arith, str_eq_iff k j, str_eq_iff (key_of new) j)
  row-insert k j new e (x ∷ rows) h = ground (
    arith,
    str_eq_iff k j,
    str_eq_iff (key_of x) k,
    str_eq_iff (key_of x) j,
    row-insert k j new e rows,
  )

  any-row : (k : String) (rows : List A) (r : A) → row k rows ≡ some r → any (has k) rows ≡ true
  any-row k [] r h = cc
  any-row k (x ∷ rows) r h = ground (arith, any-row k rows r)

  pub row-upsert :
      (k j : String) (f : A → A) (new : A)
      → ((r : A) → key_of (f r) ≡ key_of r)
      → key_of new ≡ k
      → (rows : List A)
      → row j (upsert (has k) f new rows)
        ≡ (if str_eq k j then some (upserted f new (row k rows)) else row j rows)
  row-upsert k j f new h e rows = elim (Option-cases (row k rows)) [
    | inl q ↦ ground (arith, any-find_first (has k) rows q, row-insert k j new e rows)
    | inr (r, q) ↦ ground (arith, any-row k rows r q, row-update_key k j f h rows)
  ]

  pub row-delete_many :
      (k j : String) (rows : List A)
      → row j (delete_many (has k) rows) ≡ (if str_eq k j then none else row j rows)
  row-delete_many k j [] = ground arith
  row-delete_many k j (x ∷ rows) = ground (
    arith,
    str_eq_iff k j,
    str_eq_iff (key_of x) k,
    str_eq_iff (key_of x) j,
    row-delete_many k j rows,
  )
