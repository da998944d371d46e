-- ===== src/Engine/Number.antt =====
-- What the engine does with a JavaScript number. The type and its operations are a parameter; the laws
-- are those of IEEE arithmetic on finite doubles, as long as no result overflows: rounding keeps
-- order. No law of exact arithmetic, such as associativity, is among them.
use apex_appraise.Common.{
  if◌then◌else◌, ℕ, ◌≤◌, ◌≡◌, ◌↔◌, ◌⊎◌, Bool, true, false, Option, none, some, List, [], ◌∷◌,
}

pub record Number (R : Type 0) : Type 0 where
  pub lit : ℕ → R
  pub add : R → R → R
  pub sub : R → R → R
  pub mul : R → R → R
  pub div : R → R → R
  pub pow : R → R → R
  pub neg : R → R
  pub least : R → R → R
  pub greatest : R → R → R
  pub round : R → R
  pub ceil : R → R
  pub floor : R → R
  pub abs : R → R
  pub le : R → R → Bool
  pub lt : R → R → Bool
  -- `if (x)`: neither zero nor NaN
  pub truthy : R → Bool
  -- the value of a whole number that is not negative
  pub whole : R → ℕ

module _ {R : Type 0} ⦃n : Number R⦄ where
  infixl 65 ◌⊕◌ ◌⊖◌
  infixl 70 ◌⊗◌ ◌⊘◌
  abbrev pub ◌⊕◌ : R → R → R
  a ⊕ b = n.add a b

  abbrev pub ◌⊖◌ : R → R → R
  a ⊖ b = n.sub a b

  abbrev pub ◌⊗◌ : R → R → R
  a ⊗ b = n.mul a b

  abbrev pub ◌⊘◌ : R → R → R
  a ⊘ b = n.div a b

  abbrev pub num : ℕ → R
  num k = n.lit k

  -- `a > b`
  abbrev pub gt : R → R → Bool
  gt a b = n.lt b a

  -- `a || b`
  abbrev pub or_else : R → R → R
  or_else a b = if n.truthy a then a else b

  -- `a ?? b`
  abbrev pub or_default : R → Option R → R
  or_default d none = d
  or_default d (some a) = a

  -- `clamp`
  abbrev pub clamp : R → R → R → R
  clamp v lo hi = n.greatest lo (n.least v hi)

  -- a clamp between whole numbers, as the count it stands for
  abbrev pub clamp_whole : R → ℕ → ℕ → ℕ
  clamp_whole v lo hi = n.whole (clamp v (num lo) (num hi))

  -- `xs.reduce((a, x) => a + f(x), 0)`
  abbrev pub sum_from {ℓ} : {A : Type ℓ} → (A → R) → R → List A → R
  sum_from f acc [] = acc
  sum_from f acc (x ∷ xs) = sum_from f (acc ⊕ f x) xs

  abbrev pub sum_by {ℓ} : {A : Type ℓ} → (A → R) → List A → R
  sum_by f = sum_from f (num 0)

  infix 4 ◌≼◌
  abbrev pub ◌≼◌ : R → R → Type 0
  a ≼ b = n.le a b ≡ true

-- The order of finite doubles, and that rounded operations keep it.
pub record IsOrdered (R : Type 0) ⦃n : Number R⦄ : Type 0 where
  pub le_refl : (a : R) → a ≼ a
  pub le_trans : (a b c : R) → a ≼ b → b ≼ c → a ≼ c
  pub le_total : (a b : R) → (a ≼ b) ⊎ (b ≼ a)
  pub lt_iff : (a b : R) → (n.lt a b ≡ true) ↔ (n.le b a ≡ false)
  pub lit_mono : (i j : ℕ) → i ≤ j → n.lit i ≼ n.lit j
  pub add_mono : (a b c d : R) → a ≼ b → c ≼ d → a ⊕ c ≼ b ⊕ d
  pub add_zero : (a : R) → a ⊕ n.lit 0 ≡ a
  pub zero_add : (a : R) → n.lit 0 ⊕ a ≡ a
  pub sub_mono : (a b c d : R) → a ≼ b → d ≼ c → a ⊖ c ≼ b ⊖ d
  pub sub_self : (a : R) → a ⊖ a ≡ n.lit 0
  pub mul_mono : (a b c : R) → a ≼ b → n.lit 0 ≼ c → a ⊗ c ≼ b ⊗ c
  pub zero_mul : (c : R) → n.lit 0 ≼ c → n.lit 0 ⊗ c ≡ n.lit 0
  pub div_mono : (a b c : R) → a ≼ b → n.lit 1 ≼ c → a ⊘ c ≼ b ⊘ c
  pub zero_div : (c : R) → n.lit 1 ≼ c → n.lit 0 ⊘ c ≡ n.lit 0
  pub least-eq : (a b : R) → n.least a b ≡ (if n.le a b then a else b)
  pub greatest-eq : (a b : R) → n.greatest a b ≡ (if n.le a b then b else a)
