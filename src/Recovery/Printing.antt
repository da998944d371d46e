-- ===== src/Recovery/Printing.antt =====
-- A code as it is printed is read back as it was.
use apex_appraise.Common.{
  ◌==◌, length, get_or, keep, any, All, ℕ, zero, suc, ◌%◌, ◌<◌, ◌≡◌, refl, ap, ◌∙◌, Bool, true,
  false, List, [], ◌∷◌, map, arith,
}
use apex_appraise.Recovery.Codes.{
  group, hyphen, alphabet, includes, as_digit, normalise_recovery_code, grouped,
  format_recovery_code, drawn_code,
}

-- A normalised code has only characters of the alphabet.
abbrev pub IsCode : List ℕ → Type 0
IsCode cs = All (λ (c : ℕ). includes alphabet c ≡ true) cs

-- What is printed has hyphens as well.
abbrev pub IsPrinted : List ℕ → Type 0
IsPrinted cs = All (λ (c : ℕ). includes (hyphen ∷ alphabet) c ≡ true) cs

any-get_or : (xs : List ℕ) (i d : ℕ) → i < length xs → any (λ x. x == get_or xs i d) xs ≡ true
any-get_or [] i d h = absurd (omega (arith, h))
any-get_or (x ∷ xs) zero d h = ground arith
any-get_or (x ∷ xs) (suc i) d h = ground (arith, any-get_or xs i d (omega (arith, h)))

pub drawn_code-IsCode : (bytes : List ℕ) → IsCode (drawn_code bytes)
unfolding drawn_code
drawn_code-IsCode [] = tt
drawn_code-IsCode (b ∷ bytes) =
    (any-get_or alphabet (b % 32) 0 (omega arith), drawn_code-IsCode bytes)

grouped-IsPrinted : (left : ℕ) (cs : List ℕ) → IsCode cs → IsPrinted (grouped left cs)
grouped-IsPrinted left [] h = tt
grouped-IsPrinted zero (c ∷ cs) h = (refl, (ground (arith, h.0), grouped-IsPrinted 4 cs h.1))
grouped-IsPrinted (suc left) (c ∷ cs) h = (ground (arith, h.0), grouped-IsPrinted left cs h.1)

keep-first : (p : ℕ → Bool) (c : ℕ) (cs : List ℕ) → p c ≡ true → keep p (c ∷ cs) ≡ c ∷ keep p cs
keep-first p c cs h = rw (h, keep) refl

keep-rest : (p : ℕ → Bool) (c : ℕ) (cs : List ℕ) → p c ≡ false → keep p (c ∷ cs) ≡ keep p cs
keep-rest p c cs h = rw (h, keep) refl

-- Printed in groups, and kept to the alphabet: the code.
keep-grouped :
    (left : ℕ) (cs : List ℕ) → IsCode cs → keep (includes alphabet) (grouped left cs) ≡ cs
keep-grouped left [] h = refl
keep-grouped zero (c ∷ cs) h =
    keep-rest (includes alphabet) hyphen (c ∷ grouped 4 cs) refl
    ∙ keep-first (includes alphabet) c (grouped 4 cs) h.0
    ∙ ap (λ ds. c ∷ ds) (keep-grouped 4 cs h.1)
keep-grouped (suc left) (c ∷ cs) h =
    keep-first (includes alphabet) c (grouped left cs) h.0
    ∙ ap (λ ds. c ∷ ds) (keep-grouped left cs h.1)

as_digit-printed : (c : ℕ) → includes (hyphen ∷ alphabet) c ≡ true → as_digit c ≡ c
as_digit-printed c h = ground (arith, h)

map-as_digit : (cs : List ℕ) → IsPrinted cs → map as_digit cs ≡ cs
map-as_digit [] h = refl
map-as_digit (c ∷ cs) h = rw (as_digit-printed c h.0, map-as_digit cs h.1) refl

-- A code that is typed as it was printed, in either case and with O, I or L for the digits that they look
-- like, is normalised to the code that was printed.
pub normalise-format :
    (upper : List ℕ → List ℕ) (cs typed : List ℕ)
    → IsCode cs
    → map as_digit (upper typed) ≡ format_recovery_code cs
    → normalise_recovery_code upper typed ≡ cs
unfolding normalise_recovery_code format_recovery_code
normalise-format upper cs typed h same = rw same (keep-grouped group cs h)

-- What is printed is typed as it was printed.
pub format-typed :
    (upper : List ℕ → List ℕ) (cs : List ℕ)
    → ((ds : List ℕ) → IsPrinted ds → upper ds ≡ ds)
    → IsCode cs
    → map as_digit (upper (format_recovery_code cs)) ≡ format_recovery_code cs
unfolding format_recovery_code
format-typed upper cs printed h =
    let is_printed = grouped-IsPrinted group cs h in
    rw (printed (grouped group cs) is_printed) (map-as_digit (grouped group cs) is_printed)
