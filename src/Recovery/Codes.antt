-- ===== src/Recovery/Codes.antt =====
-- apps/api/src/auth/sso-recovery.ts. A text is the list of its character codes. `upper` is the library's
-- `toUpperCase`, `digest` the SHA-256 of a normalised code, and the bytes are those that were drawn.
use apex_appraise.Common.{
  leb, ◌==◌, if◌then◌else◌, length, get_or, keep, any, ℕ, zero, suc, ◌%◌, String, Bool, true, false,
  ◌&&◌, ◌||◌, Option, none, some, List, [], ◌∷◌, ◌++◌, map,
}

abbrev pub recovery_code_count : ℕ
recovery_code_count = 10

abbrev pub group : ℕ
group = 5

abbrev pub hyphen : ℕ
hyphen = 45

-- the digits, and the capital letters less I, L, O and U
abbrev pub alphabet : List ℕ
alphabet =
    48 ∷ 49 ∷ 50 ∷ 51 ∷ 52 ∷ 53 ∷ 54 ∷ 55 ∷ 56 ∷ 57 ∷ 65 ∷ 66 ∷ 67 ∷ 68 ∷ 69 ∷ 70 ∷ 71 ∷ 72 ∷ 74
    ∷ 75 ∷ 77 ∷ 78 ∷ 80 ∷ 81 ∷ 82 ∷ 83 ∷ 84 ∷ 86 ∷ 87 ∷ 88 ∷ 89 ∷ 90 ∷ []

abbrev pub includes : List ℕ → ℕ → Bool
includes cs c = any (λ d. d == c) cs

-- O is read as 0, and I and L as 1
abbrev pub as_digit : ℕ → ℕ
as_digit c = if c == 79 then 48 else if c == 73 || c == 76 then 49 else c

-- `normaliseRecoveryCode`
unfoldable pub normalise_recovery_code : (upper : List ℕ → List ℕ) → List ℕ → List ℕ
normalise_recovery_code upper raw = keep (includes alphabet) (map as_digit (upper raw))

-- the groups of five, with `left` characters to go in this one, joined by hyphens
abbrev pub grouped : (left : ℕ) → List ℕ → List ℕ
grouped left [] = []
grouped zero (c ∷ cs) = hyphen ∷ c ∷ grouped 4 cs
grouped (suc left) (c ∷ cs) = c ∷ grouped left cs

-- `formatRecoveryCode`
unfoldable pub format_recovery_code : List ℕ → List ℕ
format_recovery_code normalised = grouped group normalised

-- one character for five bits of each byte
unfoldable pub drawn_code : (bytes : List ℕ) → List ℕ
drawn_code bytes = map (λ b. get_or alphabet (b % 32) 0) bytes

abbrev pub codes_eq : List ℕ → List ℕ → Bool
codes_eq [] [] = true
codes_eq (a ∷ more) (b ∷ others) = (a == b) && codes_eq more others
codes_eq a b = false

abbrev pub has_code : List ℕ → List (List ℕ) → Bool
has_code code codes = any (codes_eq code) codes

-- The loop of `newRecoveryCodes` over the bytes of its turns: a code that is there already is drawn again.
unfoldable pub codes_from : (count : ℕ) → (draws codes : List (List ℕ)) → List (List ℕ)
codes_from count [] codes = codes
codes_from count (bytes ∷ draws) codes =
    let code = format_recovery_code (drawn_code bytes) in
    codes_from count draws
      (if leb count (length codes) || has_code code codes then codes else codes ++ (code ∷ []))

-- `newRecoveryCodes`, the codes to show
unfoldable pub new_recovery_codes : (count : ℕ) → (draws : List (List ℕ)) → List (List ℕ)
new_recovery_codes count draws = codes_from count draws []

pub record CodeRow (D : Type 0) : Type 0 where
  pub id : String
  pub code_hash : D

module _ {D : Type 0} (upper : List ℕ → List ℕ) (digest : List ℕ → D)
    (digest_eq : D → D → Bool) where
  unfoldable pub hash_recovery_code : List ℕ → D
  hash_recovery_code code = digest (normalise_recovery_code upper code)

  abbrev pub or_first : Option (CodeRow D) → CodeRow D → Option (CodeRow D)
  or_first none row = some row
  or_first (some found) row = some found

  -- The loop of `matchRecoveryCode`, which goes on past a match.
  abbrev pub match_from :
      (want : D) → (unused : List (CodeRow D)) → Option (CodeRow D) → Option (CodeRow D)
  match_from want [] found = found
  match_from want (row ∷ rows) found =
      match_from want rows (if digest_eq row.code_hash want then or_first found row else found)

  unfoldable pub match_recovery_code :
      (typed : List ℕ) → (unused : List (CodeRow D)) → Option (CodeRow D)
  match_recovery_code typed unused = match_from (hash_recovery_code typed) unused none
