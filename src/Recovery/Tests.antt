-- ===== src/Recovery/Tests.antt =====
-- Recovery codes: runs, with the code itself for its digest.
use apex_appraise.Common.{
  leb, if◌then◌else◌, get_elem?, ℕ, ◌-◌, ◌≡◌, refl, subst, true, ◌&&◌, some, List, [], ◌∷◌, map,
  arith,
}
use apex_appraise.Recovery.Codes.{
  hyphen, alphabet, includes, normalise_recovery_code, format_recovery_code, drawn_code, codes_eq,
  codes_from, new_recovery_codes, CodeRow, hash_recovery_code, match_recovery_code,
}
use apex_appraise.Recovery.Printing.{IsPrinted}
use apex_appraise.Recovery.Issue.{codes_eq_sound, codes_eq_self, match_recovery_code-issued}

abbrev capital : ℕ → ℕ
capital c = if leb 97 c && leb c 122 then c - 32 else c

abbrev capitals : List ℕ → List ℕ
capitals cs = map capital cs

capital-printed : (c : ℕ) → includes (hyphen ∷ alphabet) c ≡ true → capital c ≡ c
capital-printed c h = ground (arith, h)

capitals-printed : (cs : List ℕ) → IsPrinted cs → capitals cs ≡ cs
capitals-printed [] h = refl
capitals-printed (c ∷ cs) h = rw (capital-printed c h.0, capitals-printed cs h.1) refl

abbrev itself : List ℕ → List ℕ
itself cs = cs

abbrev draws : List (List ℕ)
draws =
    (0 ∷ 1 ∷ 2 ∷ 3 ∷ 4 ∷ 5 ∷ 6 ∷ 7 ∷ 8 ∷ 9 ∷ [])
    ∷ (32 ∷ 33 ∷ 2 ∷ 3 ∷ 4 ∷ 5 ∷ 6 ∷ 7 ∷ 8 ∷ 9 ∷ [])
    ∷ (0 ∷ 0 ∷ 0 ∷ 0 ∷ 0 ∷ 0 ∷ 0 ∷ 0 ∷ 0 ∷ 10 ∷ [])
    ∷ []

-- `00000-0000A`
abbrev second_code : List ℕ
second_code = 48 ∷ 48 ∷ 48 ∷ 48 ∷ 48 ∷ 45 ∷ 48 ∷ 48 ∷ 48 ∷ 48 ∷ 65 ∷ []

-- `ooooo-0000a`
abbrev second_typed : List ℕ
second_typed = 111 ∷ 111 ∷ 111 ∷ 111 ∷ 111 ∷ 45 ∷ 48 ∷ 48 ∷ 48 ∷ 48 ∷ 97 ∷ []

-- The second draw repeats the first code.
two_codes :
    new_recovery_codes 2 draws
    ≡ (48 ∷ 49 ∷ 50 ∷ 51 ∷ 52 ∷ 45 ∷ 53 ∷ 54 ∷ 55 ∷ 56 ∷ 57 ∷ []) ∷ second_code ∷ []
unfolding new_recovery_codes codes_from format_recovery_code drawn_code
two_codes = refl

abbrev stored : List (CodeRow (List ℕ))
stored =
    record { id = "a"; code_hash = 48 ∷ 49 ∷ 50 ∷ 51 ∷ 52 ∷ 53 ∷ 54 ∷ 55 ∷ 56 ∷ 57 ∷ [] }
    ∷ record { id = "b"; code_hash = 48 ∷ 48 ∷ 48 ∷ 48 ∷ 48 ∷ 48 ∷ 48 ∷ 48 ∷ 48 ∷ 65 ∷ [] }
    ∷ []

match_recovery_code-issued_example :
    (row : CodeRow (List ℕ)) × (get_elem? stored 1 ≡ some row)
    × (match_recovery_code capitals itself codes_eq second_typed stored ≡ some row)
unfolding new_recovery_codes codes_from format_recovery_code drawn_code hash_recovery_code
    normalise_recovery_code
match_recovery_code-issued_example =
    match_recovery_code-issued capitals itself codes_eq
      (λ a b. (codes_eq_sound a b, λ e. subst (λ c. codes_eq a c ≡ true) e (codes_eq_self a)))
      (λ a b _ _ h. h) capitals-printed 2 draws stored 1 second_code second_typed refl refl refl
