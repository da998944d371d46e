-- ===== src/Table.antt =====
-- A database table as the list of its rows, with the queries that the API sends through Prisma:
-- findUnique and findFirst, updateMany, upsert, deleteMany and count. A `where` clause is a test.
pub mod Keyed
pub mod Unique
pub mod Counting
use mathlib.Core.Option
use apex_appraise.Common.{
  ℕ, ◌+◌, ◌≡◌, refl, Bool, true, false, Option, none, some, List, [], ◌∷◌, ◌++◌, arith,
  if◌then◌else◌, keep, any, not,
}

module _ {ℓ} {A : Type ℓ} where
  abbrev pub find_first : (A → Bool) → List A → Option A
  find_first p [] = none
  find_first p (r ∷ rs) = elim (p r) [ true ↦ some r | false ↦ find_first p rs ]

  -- The new rows; the count of the rows that the test met is `count`.
  abbrev pub update_many : (A → Bool) → (A → A) → List A → List A
  update_many p f [] = []
  update_many p f (r ∷ rs) = (if p r then f r else r) ∷ update_many p f rs

  abbrev pub count : (A → Bool) → List A → ℕ
  count p [] = 0
  count p (r ∷ rs) = (if p r then 1 else 0) + count p rs

  abbrev pub upsert : (A → Bool) → (A → A) → A → List A → List A
  upsert p f new rows = if any p rows then update_many p f rows else rows ++ (new ∷ [])

  abbrev pub delete_many : (A → Bool) → List A → List A
  delete_many p = keep (λ r. not (p r))

  -- An update that leaves the test `q` alone is seen by a lookup as a map over the row found.
  pub find_first-update_many :
      (q p : A → Bool) (f : A → A)
      → ((r : A) → q (f r) ≡ q r)
      → (rows : List A)
      → find_first q (update_many p f rows)
        ≡ Option.map (λ r. if p r then f r else r) (find_first q rows)
  find_first-update_many q p f h [] = refl
  find_first-update_many q p f h (r ∷ rs) = ground (arith, h r, find_first-update_many q p f h rs)

  pub any-find_first :
      (q : A → Bool) (rows : List A) → find_first q rows ≡ none → any q rows ≡ false
  any-find_first q [] h = refl
  any-find_first q (r ∷ rs) h = ground (arith, any-find_first q rs)

  pub find_first-any :
      (q : A → Bool) (rows : List A) → any q rows ≡ false → find_first q rows ≡ none
  find_first-any q [] h = refl
  find_first-any q (r ∷ rs) h = ground (arith, find_first-any q rs)

  pub find_first-append :
      (q : A → Bool) (rows more : List A)
      → find_first q (rows ++ more)
        ≡ elim (find_first q rows) [ some r ↦ some r | none ↦ find_first q more ]
  find_first-append q [] more = refl
  find_first-append q (r ∷ rs) more = ground (arith, find_first-append q rs more)

  -- A row that a lookup finds meets the test.
  pub find_first_sound :
      (q : A → Bool) (rows : List A) (r : A) → find_first q rows ≡ some r → q r ≡ true
  find_first_sound q [] r h = ground arith
  find_first_sound q (x ∷ rs) r h = ground (arith, find_first_sound q rs r)

  -- An update that meets no row leaves the table as it was.
  pub update_many-none :
      (p : A → Bool) (f : A → A) (rows : List A) → count p rows ≡ 0 → update_many p f rows ≡ rows
  update_many-none p f [] h = refl
  update_many-none p f (r ∷ rs) h = ground (arith, update_many-none p f rs)
