-- ===== src/Common/Text.antt =====
-- Texts as lists of code points, with the methods of JavaScript strings that the source uses:
-- `split` on one character, `trim`, `startsWith`, `slice`.
use Prim.Native.Char.{Char, code}
use Prim.Native.String.{String, ◌++◌ as concat}
use Prim.Native.String.append
use Prim.Native.Nat.{ℕ}
use mathlib.Core.Path.{◌≡◌, refl, sym, ap, ◌∙◌}
use mathlib.Core.Bool.{Bool, true, false, ◌&&◌, ◌||◌}
use mathlib.Core.List.{List, [], ◌∷◌, ◌++◌}
use native.Mathlib.Omega.{arith}
use apex_appraise.Common.Tests.{◌==◌, leb}
use apex_appraise.Common.Lists.{All}

abbrev pub codes : String → List ℕ
codes String.[] = []
codes (String.◌∷◌ c s) = code c ∷ codes s

abbrev pub codes_eq : List ℕ → List ℕ → Bool
codes_eq [] [] = true
codes_eq [] (y ∷ ys) = false
codes_eq (x ∷ xs) [] = false
codes_eq (x ∷ xs) (y ∷ ys) = x == y && codes_eq xs ys

-- the white space that `trim` removes
abbrev pub is_space : ℕ → Bool
is_space c =
    leb 9 c && leb c 13
    || c == 32
    || c == 0xa0
    || c == 0x1680
    || leb 0x2000 c && leb c 0x200a
    || c == 0x2028
    || c == 0x2029
    || c == 0x202f
    || c == 0x205f
    || c == 0x3000
    || c == 0xfeff

abbrev pub trim_start : List ℕ → List ℕ
trim_start [] = []
trim_start (c ∷ cs) = elim (is_space c) [ true ↦ trim_start cs | false ↦ c ∷ cs ]

-- What follows the last character that is not white space goes.
abbrev pub trim_end : List ℕ → List ℕ
trim_end [] = []
trim_end (c ∷ cs) = elim (trim_end cs) [
  | [] ↦ elim (is_space c) [ true ↦ [] | false ↦ c ∷ [] ]
  | d ∷ ds ↦ c ∷ d ∷ ds
]

abbrev pub trim : List ℕ → List ℕ
trim cs = trim_end (trim_start cs)

abbrev pub cons_head : ℕ → List (List ℕ) → List (List ℕ)
cons_head c [] = (c ∷ []) ∷ []
cons_head c (w ∷ ws) = (c ∷ w) ∷ ws

abbrev pub split_on : ℕ → List ℕ → List (List ℕ)
split_on sep [] = [] ∷ []
split_on sep (c ∷ cs) = elim (c == sep) [
  | true ↦ [] ∷ split_on sep cs
  | false ↦ cons_head c (split_on sep cs)
]

abbrev pub join_with : ℕ → List (List ℕ) → List ℕ
join_with sep [] = []
join_with sep (w ∷ []) = w
join_with sep (w ∷ v ∷ ws) = w ++ (sep ∷ join_with sep (v ∷ ws))

abbrev pub starts_with : List ℕ → List ℕ → Bool
starts_with [] cs = true
starts_with (p ∷ ps) [] = false
starts_with (p ∷ ps) (c ∷ cs) = p == c && starts_with ps cs

abbrev pub IsFreeOf : ℕ → List ℕ → Type 0
IsFreeOf sep = All (λ c. (c == sep) ≡ false)

pub codes_eq_self : (xs : List ℕ) → codes_eq xs xs ≡ true
codes_eq_self [] = refl
codes_eq_self (x ∷ xs) = ground (arith, codes_eq_self xs)

pub codes_eq_sound : (xs ys : List ℕ) → codes_eq xs ys ≡ true → xs ≡ ys
codes_eq_sound [] [] h = refl
codes_eq_sound [] (y ∷ ys) h = ground arith
codes_eq_sound (x ∷ xs) [] h = ground arith
codes_eq_sound (x ∷ xs) (y ∷ ys) h = ground (arith, codes_eq_sound xs ys)

split_on-free : (sep : ℕ) (w : List ℕ) → IsFreeOf sep w → split_on sep w ≡ w ∷ []
split_on-free sep [] f = refl
split_on-free sep (c ∷ w) f = ground (arith, f.0, split_on-free sep w f.1)

split_on-append :
    (sep : ℕ) (w rest : List ℕ)
    → IsFreeOf sep w
    → split_on sep (w ++ (sep ∷ rest)) ≡ w ∷ split_on sep rest
split_on-append sep [] rest f = ground arith
split_on-append sep (c ∷ w) rest f = ground (arith, f.0, split_on-append sep w rest f.1)

-- Splitting undoes joining, for parts that are free of the separator.
pub split_on-join_with :
    (sep : ℕ) (w : List ℕ) (ws : List (List ℕ))
    → All (IsFreeOf sep) (w ∷ ws)
    → split_on sep (join_with sep (w ∷ ws)) ≡ w ∷ ws
split_on-join_with sep w [] f = split_on-free sep w f.0
split_on-join_with sep w (v ∷ ws) f =
    ground
      (arith, split_on-append sep w (join_with sep (v ∷ ws)) f.0, split_on-join_with sep v ws f.1)

pub starts_with_append : (ps rest : List ℕ) → starts_with ps (ps ++ rest) ≡ true
starts_with_append [] rest = refl
starts_with_append (p ∷ ps) rest = ground (arith, starts_with_append ps rest)

pub starts_with_sound :
    (ps cs : List ℕ) → starts_with ps cs ≡ true → (rest : List ℕ) × (cs ≡ ps ++ rest)
starts_with_sound [] cs h = (cs, refl)
starts_with_sound (p ∷ ps) [] h = ground (arith, h)
starts_with_sound (p ∷ ps) (c ∷ cs) h =
    let (rest, e) = starts_with_sound ps cs (ground (arith, h)) in (rest, ground (arith, h, e))

tail_of : String → String
tail_of String.[] = String.[]
tail_of (String.◌∷◌ c s) = s

cons_inj : (c : Char) (s t : String) → String.◌∷◌ c s ≡ String.◌∷◌ c t → s ≡ t
unfolding tail_of
cons_inj c s t h = ap tail_of h

-- A text is told by what follows a prefix.
pub concat_inj : (p s t : String) → concat p s ≡ concat p t → s ≡ t
concat_inj String.[] s t h = sym (append.nil s) ∙ h ∙ append.nil t
concat_inj (String.◌∷◌ c p) s t h =
    concat_inj p s t (cons_inj c _ _ (sym (append.cons c p s) ∙ h ∙ append.cons c p t))

pub codes-concat : (s t : String) → codes (concat s t) ≡ codes s ++ codes t
codes-concat String.[] t = ap codes (append.nil t)
codes-concat (String.◌∷◌ c s) t =
    ap codes (append.cons c s t) ∙ ap (λ cs. code c ∷ cs) (codes-concat s t)
