-- ===== src/Engine/Histogram.antt =====
-- packages/appraisal-engine/src/engine.ts, `binned`: the distribution of a sorted sample, in columns of
-- equal width.
use apex_appraise.Common.{
  leb, if◌then◌else◌, Bool-cases, length, ℕ, zero, suc, ◌+◌, ◌-◌, ◌≤◌, ◌<◌, ◌≡◌, refl, ◌∙◌, inl,
  inr, List, [], ◌∷◌, arith,
}
use apex_appraise.Engine.Number.{Number, ◌⊕◌, ◌⊖◌, ◌⊗◌, ◌⊘◌, gt}

pub record MonteCarloBin (R : Type 0) : Type 0 where
  pub from : R
  pub to : R
  pub count : ℕ

module _ {R : Type 0} ⦃n : Number R⦄ where
  -- the column of a value, the last one for the maximum
  abbrev pub bin_index : (lo width : R) (bins : ℕ) → R → ℕ
  bin_index lo width bins v =
      let i = n.whole (n.floor ((v ⊖ lo) ⊘ width)) in if leb (bins - 1) i then bins - 1 else i

  abbrev pub empty_bins : (lo width : R) → (left i : ℕ) → List (MonteCarloBin R)
  empty_bins lo width zero i = []
  empty_bins lo width (suc left) i =
      record { from = lo ⊕ n.lit i ⊗ width; to = lo ⊕ n.lit (i + 1) ⊗ width; count = 0 }
      ∷ empty_bins lo width left (i + 1)

  -- `out[i].count++`
  abbrev pub count_in : List (MonteCarloBin R) → ℕ → List (MonteCarloBin R)
  count_in [] i = []
  count_in (b ∷ bs) zero = record { from = b.from; to = b.to; count = b.count + 1 } ∷ bs
  count_in (b ∷ bs) (suc i) = b ∷ count_in bs i

  abbrev pub fill_bins :
      (lo width : R) (bins : ℕ) → List R → List (MonteCarloBin R) → List (MonteCarloBin R)
  fill_bins lo width bins [] out = out
  fill_bins lo width bins (v ∷ vs) out =
      fill_bins lo width bins vs (count_in out (bin_index lo width bins v))

  abbrev pub last_or : R → List R → R
  last_or x [] = x
  last_or x (y ∷ ys) = last_or y ys

  unfoldable pub binned : List R → ℕ → List (MonteCarloBin R)
  binned [] bins = []
  binned (lo ∷ vs) bins =
      let hi = last_or lo vs in
      let width = (hi ⊖ lo) ⊘ n.lit bins in
      if gt hi lo
      then fill_bins lo width bins (lo ∷ vs) (empty_bins lo width bins 0)
      else record { from = lo; to = hi; count = length (lo ∷ vs) } ∷ []

  -- the samples in all columns
  abbrev pub counted : List (MonteCarloBin R) → ℕ
  counted [] = 0
  counted (b ∷ bs) = b.count + counted bs

  counted-count_in :
      (bs : List (MonteCarloBin R)) (i : ℕ)
      → i < length bs
      → counted (count_in bs i) ≡ suc (counted bs)
  counted-count_in [] i h = absurd (omega (arith, h))
  counted-count_in (b ∷ bs) zero h = omega arith
  counted-count_in (b ∷ bs) (suc i) h = omega (arith, counted-count_in bs i (omega (arith, h)))

  length-count_in : (bs : List (MonteCarloBin R)) (i : ℕ) → length (count_in bs i) ≡ length bs
  length-count_in [] i = refl
  length-count_in (b ∷ bs) zero = refl
  length-count_in (b ∷ bs) (suc i) = omega (arith, length-count_in bs i)

  bin_index-lt : (lo width : R) (bins : ℕ) (v : R) → 1 ≤ bins → bin_index lo width bins v < bins
  bin_index-lt lo width bins v h = ground (arith, h)

  counted-fill_bins :
      (lo width : R) (bins : ℕ) (vs : List R) (out : List (MonteCarloBin R))
      → 1 ≤ bins
      → length out ≡ bins
      → counted (fill_bins lo width bins vs out) ≡ counted out + length vs
  counted-fill_bins lo width bins [] out h e = omega arith
  counted-fill_bins lo width bins (v ∷ vs) out h e =
      let i = bin_index lo width bins v in
      let rest : counted (fill_bins lo width bins vs (count_in out i))
          ≡ counted (count_in out i) + length vs =
        counted-fill_bins lo width bins vs (count_in out i) h (length-count_in out i ∙ e) in
      let one : counted (count_in out i) ≡ suc (counted out) =
        counted-count_in out i (omega (arith, bin_index-lt lo width bins v h, e)) in
      omega (arith, rest, one)

  length-empty_bins : (lo width : R) (left i : ℕ) → length (empty_bins lo width left i) ≡ left
  length-empty_bins lo width zero i = refl
  length-empty_bins lo width (suc left) i = omega (arith, length-empty_bins lo width left (i + 1))

  counted-empty_bins : (lo width : R) (left i : ℕ) → counted (empty_bins lo width left i) ≡ 0
  counted-empty_bins lo width zero i = refl
  counted-empty_bins lo width (suc left) i = omega (arith, counted-empty_bins lo width left (i + 1))

  -- With at least one column, every sample falls in exactly one: the counts sum to the sample size,
  -- the maximum and a sample of one value included.
  pub counted-binned :
      (sample : List R) (bins : ℕ) → 1 ≤ bins → counted (binned sample bins) ≡ length sample
  unfolding binned
  counted-binned [] bins h = refl
  counted-binned (lo ∷ vs) bins h =
      let hi = last_or lo vs in
      let width = (hi ⊖ lo) ⊘ n.lit bins in
      elim (Bool-cases (gt hi lo)) [
        | inl g ↦ rw g (
            counted-fill_bins lo width bins (lo ∷ vs) (empty_bins lo width bins 0) h
              (length-empty_bins lo width bins 0)
            ∙ omega (arith, counted-empty_bins lo width bins 0))
        | inr g ↦ rw g (omega arith)
      ]
