-- ===== src/Engine/Duty.antt =====
-- packages/appraisal-engine/src/engine.ts: stamp duty by slices, and that it never falls as the price
-- rises.
use apex_appraise.Common.{
  if◌then◌else◌, Bool-cases, ℕ, ◌≤◌, ◌≡◌, inl, inr, Bool, true, false, Option, none, some, List, [],
  ◌∷◌, arith,
}
use apex_appraise.Engine.Number.{Number, ◌⊕◌, ◌⊖◌, ◌⊗◌, ◌⊘◌, num, gt, ◌≼◌, IsOrdered}

-- `[upTo, rate]`; the last band has no end
pub record Band (R : Type 0) : Type 0 where
  pub up_to : Option R
  pub rate : R

module _ {R : Type 0} ⦃n : Number R⦄ where
  unfoldable pub sdlt_commercial : R → R
  sdlt_commercial land_price =
      let over = gt land_price (num 250_000) in
      let sdlt = if over then num 0 ⊕ (land_price ⊖ num 250_000) ⊗ (num 5 ⊘ num 100) else num 0 in
      let l = if over then num 250_000 else land_price in
      if gt l (num 150_000) then sdlt ⊕ (l ⊖ num 150_000) ⊗ (num 2 ⊘ num 100) else sdlt

  abbrev pub bands : List (Band R)
  bands =
      record { up_to = some (num 125_000); rate = num 0 }
      ∷ record { up_to = some (num 250_000); rate = num 2 ⊘ num 100 }
      ∷ record { up_to = some (num 925_000); rate = num 5 ⊘ num 100 }
      ∷ record { up_to = some (num 1_500_000); rate = num 1 ⊘ num 10 }
      ∷ record { up_to = none; rate = num 12 ⊘ num 100 }
      ∷ []

  -- `Math.min(price, upTo)`
  abbrev pub capped : R → Option R → R
  capped price none = price
  capped price (some up_to) = n.least price up_to

  -- what the next band starts from; nothing follows the last one
  abbrev pub band_end : R → Option R → R
  band_end prev none = prev
  band_end prev (some up_to) = up_to

  -- the loop; `break` ends it at the first band that the price does not reach
  unfoldable pub duty_loop : R → R → R → List (Band R) → R
  duty_loop price sdlt prev [] = sdlt
  duty_loop price sdlt prev (b ∷ bs) =
      let rest =
        duty_loop price (sdlt ⊕ (capped price b.up_to ⊖ prev) ⊗ b.rate) (band_end prev b.up_to)
          bs in
      if n.le price prev then sdlt else rest

  unfoldable pub sdlt_residential : R → Bool → R
  sdlt_residential price additional_dwelling =
      let sdlt = duty_loop price (num 0) (num 0) bands in
      if additional_dwelling then sdlt ⊕ price ⊗ (num 5 ⊘ num 100) else sdlt

module _ {R : Type 0} ⦃n : Number R⦄ (laws : IsOrdered R) where
  open laws use {
    le_refl, le_trans, le_total, lt_iff, lit_mono, add_mono, add_zero, sub_mono, sub_self, mul_mono,
    zero_mul, div_mono, zero_div, least-eq,
  }

  -- Each band starts where the one before it ends, and has a rate that is not negative.
  abbrev AreBands : R → List (Band R) → Type 0
  AreBands prev [] = Unit
  AreBands prev (b ∷ bs) =
      (prev ≼ capped (band_end prev b.up_to) b.up_to)
      × (prev ≼ band_end prev b.up_to)
      × (num 0 ≼ b.rate)
      × AreBands (band_end prev b.up_to) bs

  capped_mono : (p q : R) (o : Option R) → p ≼ q → capped p o ≼ capped q o
  capped_mono p q none h = h
  capped_mono p q (some u) h =
      ground
        (arith, least-eq p u, least-eq q u, le_total p u, le_total q u, le_trans p q u, le_refl u)

  capped-ge : (prev q : R) (o : Option R) → prev ≼ q → prev ≼ band_end prev o → prev ≼ capped q o
  capped-ge prev q none h e = h
  capped-ge prev q (some u) h e = ground (arith, least-eq q u)

  -- A slice that starts below the price adds to the duty.
  le-add_slice : (t a prev rate : R) → prev ≼ a → num 0 ≼ rate → t ≼ t ⊕ (a ⊖ prev) ⊗ rate
  le-add_slice t a prev rate h r =
      let up : prev ⊖ prev ≼ a ⊖ prev = sub_mono prev a prev prev h (le_refl prev) in
      let up' : num 0 ≼ a ⊖ prev = rw (sub_self prev) at up in
      let part : num 0 ⊗ rate ≼ (a ⊖ prev) ⊗ rate = mul_mono (num 0) (a ⊖ prev) rate up' r in
      let part' : num 0 ≼ (a ⊖ prev) ⊗ rate = rw (zero_mul rate r) at part in
      rw (add_zero t) at (add_mono t t (num 0) ((a ⊖ prev) ⊗ rate) (le_refl t) part')

  le-duty_loop : (q t prev : R) (bs : List (Band R)) → AreBands prev bs → t ≼ duty_loop q t prev bs
  unfolding duty_loop
  le-duty_loop q t prev [] b = le_refl t
  le-duty_loop q t prev (b ∷ bs) (_, e, r, rest) = elim (Bool-cases (n.le q prev)) [
    | inl h ↦ rw h (le_refl t)
    | inr h ↦
        let a = capped q b.up_to in
        let below : prev ≼ q = ground (arith, le_total prev q) in
        let t' = t ⊕ (a ⊖ prev) ⊗ b.rate in
        rw h (
          le_trans t t' _ (le-add_slice t a prev b.rate (capped-ge prev q b.up_to below e) r)
            (le-duty_loop q t' (band_end prev b.up_to) bs rest))
  ]

  duty_loop_mono :
      (p q s t prev : R) (bs : List (Band R))
      → AreBands prev bs
      → p ≼ q
      → s ≼ t
      → duty_loop p s prev bs ≼ duty_loop q t prev bs
  unfolding duty_loop
  duty_loop_mono p q s t prev [] b h st = st
  duty_loop_mono p q s t prev (b ∷ bs) (c, e, r, rest) h st = elim (Bool-cases (n.le p prev)) [
    | inl hp ↦ rw hp (le_trans s t _ st (le-duty_loop q t prev (b ∷ bs) (c, e, r, rest)))
    | inr hp ↦
        let hq : n.le q prev ≡ false =
          ground (arith, Bool-cases (n.le q prev), le_trans p q prev) in
        rw (hp, hq)
          (duty_loop_mono p q (s ⊕ (capped p b.up_to ⊖ prev) ⊗ b.rate)
            (t ⊕ (capped q b.up_to ⊖ prev) ⊗ b.rate) (band_end prev b.up_to) bs rest h
            (add_mono s t _ _ st (
              mul_mono _ _ b.rate
                (sub_mono _ _ prev prev (capped_mono p q b.up_to h) (le_refl prev)) r)))
  ]

  rate-nonneg : (i j : ℕ) → 1 ≤ j → n.lit 0 ≼ n.lit i ⊘ n.lit j
  rate-nonneg i j h =
      rw (zero_div (n.lit j) (lit_mono 1 j h)) at
        (div_mono (n.lit 0) (n.lit i) (n.lit j) (lit_mono 0 i (omega arith)) (lit_mono 1 j h))

  capped_self : (u : R) → u ≼ capped u (some u)
  capped_self u = ground (arith, least-eq u u, le_refl u)

  bands-AreBands : AreBands (n.lit 0) bands
  bands-AreBands =
      let z = lit_mono 0 125_000 (omega arith) in
      let a = lit_mono 125_000 250_000 (omega arith) in
      let b = lit_mono 250_000 925_000 (omega arith) in
      let c = lit_mono 925_000 1_500_000 (omega arith) in
      (
        le_trans _ _ _ z (capped_self (num 125_000)),
        z,
        le_refl _,
        (
          le_trans _ _ _ a (capped_self (num 250_000)),
          a,
          rate-nonneg 2 100 (omega arith),
          (
            le_trans _ _ _ b (capped_self (num 925_000)),
            b,
            rate-nonneg 5 100 (omega arith),
            (
              le_trans _ _ _ c (capped_self (num 1_500_000)),
              c,
              rate-nonneg 1 10 (omega arith),
              (le_refl _, le_refl _, rate-nonneg 12 100 (omega arith), tt),
            ),
          ),
        ),
      )

  -- Residential duty never falls as the price rises, with the surcharge or without it.
  pub sdlt_residential_mono :
      (p q : R) (additional : Bool)
      → p ≼ q
      → sdlt_residential p additional ≼ sdlt_residential q additional
  unfolding sdlt_residential
  sdlt_residential_mono p q false h =
      duty_loop_mono p q (num 0) (num 0) (num 0) bands bands-AreBands h (le_refl _)
  sdlt_residential_mono p q true h =
      add_mono _ _ _ _
        (duty_loop_mono p q (num 0) (num 0) (num 0) bands bands-AreBands h (le_refl _))
        (mul_mono p q _ h (rate-nonneg 5 100 (omega arith)))
