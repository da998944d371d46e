-- ===== src/Recovery/Issue.antt =====
-- The codes that are issued together, and the row that a typed one finds.
use apex_appraise.Table.Counting.{any-append_one}
use apex_appraise.Table.Unique.{All-append}
use apex_appraise.Common.{
  leb, Bool-cases, length, get_elem?, All, ℕ, zero, suc, ◌≡◌, refl, sym, ap, ◌∙◌, subst, ◌↔◌, inl,
  inr, Bool, true, false, ◌||◌, none, some, List, [], ◌∷◌, ◌++◌, map, arith,
}
use apex_appraise.Table.{find_first, count}
use apex_appraise.Recovery.Codes.{
  as_digit, format_recovery_code, drawn_code, codes_eq, has_code, codes_from, new_recovery_codes,
  CodeRow, hash_recovery_code, match_from, match_recovery_code,
}
use apex_appraise.Recovery.Printing.{
  IsCode, IsPrinted, drawn_code-IsCode, normalise-format, format-typed,
}

pub codes_eq_sound : (a b : List ℕ) → codes_eq a b ≡ true → a ≡ b
codes_eq_sound [] [] h = refl
codes_eq_sound [] (y ∷ b) h = cc
codes_eq_sound (x ∷ a) [] h = cc
codes_eq_sound (x ∷ a) (y ∷ b) h =
    let heads : x ≡ y = ground (arith, h) in
    let tails : a ≡ b = codes_eq_sound a b (ground (arith, h)) in rw (heads, tails) refl

pub codes_eq_self : (a : List ℕ) → codes_eq a a ≡ true
codes_eq_self [] = refl
codes_eq_self (x ∷ a) = ground (arith, codes_eq_self a)

codes_eq_sym : (a b : List ℕ) → codes_eq a b ≡ false → codes_eq b a ≡ false
codes_eq_sym a b h = elim (Bool-cases (codes_eq b a)) [
  | inl e ↦ absurd (ground (arith, codes_eq_self b, (rw (sym (codes_eq_sound b a e)) at h)))
  | inr e ↦ e
]

-- A printed code of characters of the alphabet.
abbrev pub IsPrintedCode : List ℕ → Type 0
IsPrintedCode code = (cs : List ℕ) × IsCode cs × (code ≡ format_recovery_code cs)

abbrev pub IsDistinct : List (List ℕ) → Type 0
IsDistinct [] = Unit
IsDistinct (c ∷ codes) = (has_code c codes ≡ false) × IsDistinct codes

IsDistinct-append :
    (code : List ℕ) (codes : List (List ℕ))
    → has_code code codes ≡ false
    → IsDistinct codes
    → IsDistinct (codes ++ (code ∷ []))
IsDistinct-append code [] h d = (refl, tt)
IsDistinct-append code (c ∷ codes) h d = (
  ground
      (arith, any-append_one (codes_eq c) codes code, d.0, codes_eq_sym code c (ground (arith, h))),
  IsDistinct-append code codes (ground (arith, h)) d.1,
)

codes_from-lem :
    (count : ℕ) (draws codes : List (List ℕ))
    → All IsPrintedCode codes
    → IsDistinct codes
    → All IsPrintedCode (codes_from count draws codes) × IsDistinct (codes_from count draws codes)
unfolding codes_from
codes_from-lem count [] codes a d = (a, d)
codes_from-lem count (bytes ∷ draws) codes a d =
    let code = format_recovery_code (drawn_code bytes) in
    elim (Bool-cases (leb count (length codes) || has_code code codes)) [
      | inl e ↦ rw e (codes_from-lem count draws codes a d)
      | inr e ↦ rw e (
          codes_from-lem count draws (codes ++ (code ∷ []))
            (All-append IsPrintedCode codes (code ∷ []) a
              ((drawn_code bytes, drawn_code-IsCode bytes, refl), tt))
            (IsDistinct-append code codes (ground (arith, e)) d))
    ]

has_code-get_elem? :
    (codes : List (List ℕ)) (i : ℕ) (code : List ℕ)
    → get_elem? codes i ≡ some code
    → has_code code codes ≡ true
has_code-get_elem? [] i code h = absurd (ground (arith, h))
has_code-get_elem? (c ∷ codes) zero code h =
    let same : c ≡ code = ground (arith, h) in rw same (ground (arith, codes_eq_self code))
has_code-get_elem? (c ∷ codes) (suc i) code h = ground (arith, has_code-get_elem? codes i code h)

All-get_elem? :
    (P : List ℕ → Type 0) (codes : List (List ℕ)) (i : ℕ) (code : List ℕ)
    → All P codes
    → get_elem? codes i ≡ some code
    → P code
All-get_elem? P [] i code a h = absurd (ground (arith, h))
All-get_elem? P (c ∷ codes) zero code a h =
    let same : c ≡ code = ground (arith, h) in subst P same a.0
All-get_elem? P (c ∷ codes) (suc i) code a h = All-get_elem? P codes i code a.1 h

module _ {D : Type 0} (upper : List ℕ → List ℕ) (digest : List ℕ → D)
    (digest_eq : D → D → Bool) where
  -- The loop that does not stop at a match finds the first row that matches.
  match_from-some :
      (want : D) (rows : List (CodeRow D)) (row : CodeRow D)
      → match_from upper digest digest_eq want rows (some row) ≡ some row
  match_from-some want [] row = refl
  match_from-some want (r ∷ rows) row = ground (arith, match_from-some want rows row)

  match_from-first :
      (want : D) (rows : List (CodeRow D))
      → match_from upper digest digest_eq want rows none
        ≡ find_first (λ (r : CodeRow D). digest_eq r.code_hash want) rows
  match_from-first want [] = refl
  match_from-first want (r ∷ rows) =
      ground (arith, match_from-some want rows r, match_from-first want rows)

  -- What the digests are relied on for.
  module _ (eq_iff : (a b : D) → digest_eq a b ≡ true ↔ a ≡ b)
      (injective : (a b : List ℕ) → IsCode a → IsCode b → digest a ≡ digest b → a ≡ b)
      (upper_printed : (cs : List ℕ) → IsPrinted cs → upper cs ≡ cs) where
    hash-typed :
        (b typed : List ℕ)
        → IsPrintedCode b
        → map as_digit (upper typed) ≡ b
        → hash_recovery_code upper digest digest_eq b
          ≡ hash_recovery_code upper digest digest_eq typed
    unfolding hash_recovery_code
    hash-typed b typed (ds, js, made) t = ap digest (
        normalise-format upper ds b js (rw made (format-typed upper ds upper_printed js))
        ∙ sym (normalise-format upper ds typed js (t ∙ made)))

    -- Two printed codes with one digest are one.
    same_code :
        (a b typed : List ℕ)
        → IsPrintedCode a
        → IsPrintedCode b
        → map as_digit (upper typed) ≡ b
        → hash_recovery_code upper digest digest_eq a
          ≡ hash_recovery_code upper digest digest_eq typed
        → a ≡ b
    unfolding hash_recovery_code
    same_code a b typed (cs, is, made) (ds, js, madeb) t h =
        let first =
          normalise-format upper cs a is (rw made (format-typed upper cs upper_printed is)) in
        let second = normalise-format upper ds typed js (t ∙ madeb) in
        let same = injective cs ds is js (ap digest (sym first) ∙ h ∙ ap digest second) in
        made ∙ ap format_recovery_code same ∙ sym madeb

    find-issued :
        (codes : List (List ℕ)) (rows : List (CodeRow D)) (i : ℕ) (code typed : List ℕ)
        → All IsPrintedCode codes
        → IsDistinct codes
        → map (λ (r : CodeRow D). r.code_hash) rows
          ≡ map (hash_recovery_code upper digest digest_eq) codes
        → get_elem? codes i ≡ some code
        → map as_digit (upper typed) ≡ code
        → (row : CodeRow D) × (get_elem? rows i ≡ some row)
          × (find_first
                (λ (r : CodeRow D).
                  digest_eq r.code_hash (hash_recovery_code upper digest digest_eq typed))
                rows
              ≡ some row)
    find-issued [] rows i code typed a d h at t = absurd (ground (arith, at))
    find-issued (c ∷ codes) [] i code typed a d h at t = absurd (ground (arith, h))
    find-issued (c ∷ codes) (r ∷ rows) zero code typed a d h at t =
        let same : c ≡ code = ground (arith, at) in
        let stored : r.code_hash ≡ hash_recovery_code upper digest digest_eq c =
          ground (arith, h) in
        let found =
          (eq_iff r.code_hash (hash_recovery_code upper digest digest_eq typed)).1
            (stored ∙ hash-typed c typed a.0 (t ∙ sym same)) in
        (r, refl, rw found refl)
    find-issued (c ∷ codes) (r ∷ rows) (suc i) code typed a d h at t =
        let stored : r.code_hash ≡ hash_recovery_code upper digest digest_eq c =
          ground (arith, h) in
        let want = hash_recovery_code upper digest digest_eq typed in
        let (row, row_at, found) =
          find-issued codes rows i code typed a.1 d.1 (ground (arith, h)) at t in
        elim (Bool-cases (digest_eq r.code_hash want)) [
          | inl e ↦
              let same =
                same_code c code typed a.0 (All-get_elem? IsPrintedCode codes i code a.1 at) t
                  (sym stored ∙ (eq_iff r.code_hash want).0 e) in
              absurd (ground (arith, d.0, (rw (sym same) at (has_code-get_elem? codes i code at))))
          | inr e ↦ (row, row_at, rw e found)
        ]

    -- Each of the codes that are issued together, typed as it was printed, in either case and with O, I or
    -- L for the digits that they look like, finds the row that was stored for it: for any bytes drawn, a
    -- digest without collisions on codes, and an upper case that leaves what is printed as it is.
    pub match_recovery_code-issued :
        (count : ℕ) (draws : List (List ℕ)) (rows : List (CodeRow D)) (i : ℕ) (code typed : List ℕ)
        → map (λ (r : CodeRow D). r.code_hash) rows
          ≡ map (hash_recovery_code upper digest digest_eq) (new_recovery_codes count draws)
        → get_elem? (new_recovery_codes count draws) i ≡ some code
        → map as_digit (upper typed) ≡ code
        → (row : CodeRow D) × (get_elem? rows i ≡ some row)
          × (match_recovery_code upper digest digest_eq typed rows ≡ some row)
    unfolding match_recovery_code new_recovery_codes
    match_recovery_code-issued count draws rows i code typed h at t =
        let (a, d) = codes_from-lem count draws [] tt tt in
        let (row, row_at, found) =
          find-issued (codes_from count draws []) rows i code typed a d h at t in
        (
          row,
          row_at,
          match_from-first (hash_recovery_code upper digest digest_eq typed) rows ∙ found,
        )
