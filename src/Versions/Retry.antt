-- ===== src/Versions/Retry.antt =====
-- apps/api/src/optimistic.ts: `retryOnSerialisationFailure`. `run k` is what the k-th run of the transaction
-- does, and `jitter k c` the random wait below `c` after it.
use apex_appraise.Common.{
  leb, ◌==◌, if◌then◌else◌, str_eq, Bool-cases, ℕ, zero, suc, ◌+◌, ◌-◌, ◌*◌, ◌^◌, ◌≤◌, ◌<◌, String,
  ◌≡◌, refl, inl, inr, Bool, true, false, Option, none, some, arith,
}

abbrev pub serialisation_failure : String
serialisation_failure = "P2034"

-- `opts.attempts ?? 8`
abbrev pub default_attempts : ℕ
default_attempts = 8

-- A run returns a value, or throws an error with a code or without one.
pub data Outcome (A : Type 0) : Type 0 where
  returned : (a : A) → Outcome A
  thrown : (code : Option String) → Outcome A

pub record Retried (A : Type 0) : Type 0 where
  pub outcome : Outcome A
  pub runs : ℕ
  pub waited : ℕ

-- the longest random part of the wait after a run
abbrev pub ceiling : (attempt : ℕ) → ℕ
ceiling attempt = let c = 20 * 2 ^ (attempt - 1) in if leb 250 c then 250 else c

-- the waits after `left` runs in a row, at their longest
abbrev longest_wait : (left attempt : ℕ) → ℕ
longest_wait zero attempt = 0
longest_wait (suc left) attempt = 5 + (ceiling attempt - 1) + longest_wait left (attempt + 1)

module _ {A : Type 0} where
  unfoldable pub is_retriable : Outcome A → Bool
  is_retriable (returned a) = false
  is_retriable (thrown none) = false
  is_retriable (thrown (some code)) = str_eq code serialisation_failure

  module _ (run : ℕ → Outcome A) (jitter : (attempt below : ℕ) → ℕ) where
    abbrev pub nap : (attempt : ℕ) → ℕ
    nap attempt = 5 + jitter attempt (ceiling attempt)

    -- The loop, with `left` attempts after this one.
    unfoldable pub retry_from : (left attempt waited : ℕ) → Retried A
    retry_from zero attempt waited = record {
      outcome = run attempt;
      runs = attempt;
      waited = waited;
    }
    retry_from (suc left) attempt waited =
        let rest = retry_from left (attempt + 1) (waited + nap attempt) in
        if is_retriable (run attempt)
        then rest
        else record { outcome = run attempt; runs = attempt; waited = waited }

    -- `retryOnSerialisationFailure`
    unfoldable pub retry_on_serialisation_failure : (attempts : ℕ) → Retried A
    retry_on_serialisation_failure attempts = retry_from (attempts - 1) 1 0

    -- What a loop that starts at a run settles on.
    record IsSettled (left attempt : ℕ) (t : Retried A) : Type 0 where
      outcome : t.outcome ≡ run t.runs
      after : attempt ≤ t.runs
      within : t.runs ≤ attempt + left
      before : (k : ℕ) → attempt ≤ k → k < t.runs → is_retriable (run k) ≡ true
      settled : t.runs < attempt + left → is_retriable (run t.runs) ≡ false

    retry_from-IsSettled :
        (left attempt waited : ℕ) → IsSettled left attempt (retry_from left attempt waited)
    unfolding retry_from
    retry_from-IsSettled zero attempt waited = record {
      outcome = refl;
      after = omega arith;
      within = omega arith;
      before = λ k h g. absurd (omega (arith, h, g));
      settled = λ h. absurd (omega (arith, h));
    }
    retry_from-IsSettled (suc left) attempt waited =
        elim (Bool-cases (is_retriable (run attempt))) [
          | inr e ↦ rw e (record {
            outcome = refl;
            after = omega arith;
            within = omega arith;
            before = λ k h g. absurd (omega (arith, h, g));
            settled = λ h. e;
          })
          | inl e ↦
              let t = retry_from-IsSettled left (attempt + 1) (waited + nap attempt) in
              rw e (record {
                outcome = t.outcome;
                after = omega (arith, t.after);
                within = omega (arith, t.within);
                before = λ k h g. elim (Bool-cases (k == attempt)) [
                  | inl same ↦ let k_is : k ≡ attempt = ground (arith, same) in rw k_is e
                  | inr other ↦ t.before k (ground (arith, h, other)) g
                ];
                settled = λ h. t.settled (omega (arith, h));
              })
        ]

    retry_from-waited :
        ((attempt below : ℕ) → jitter attempt below ≤ below - 1)
        → (left attempt waited : ℕ)
        → (retry_from left attempt waited).waited ≤ waited + longest_wait left attempt
    unfolding retry_from
    retry_from-waited short zero attempt waited = omega arith
    retry_from-waited short (suc left) attempt waited =
        elim (Bool-cases (is_retriable (run attempt))) [
          | inr e ↦ rw e (omega arith)
          | inl e ↦ rw e (
              omega (
                arith,
                retry_from-waited short left (attempt + 1) (waited + nap attempt),
                short attempt (ceiling attempt),
              ))
        ]

    -- With a number of attempts that is not 0 the loop ends within it, with what its last run did: every run
    -- before was a serialisation failure, and the last was not one unless the attempts are spent. With
    -- the eight of the default, and waits below their ceilings, it waits for 1,078 milliseconds at most.
    pub retry_on_serialisation_failure-settled :
        (attempts : ℕ)
        → 1 ≤ attempts
        → ((attempt below : ℕ) → jitter attempt below ≤ below - 1)
        → let t = retry_on_serialisation_failure attempts in
          (t.outcome ≡ run t.runs)
          × (1 ≤ t.runs)
          × (t.runs ≤ attempts)
          × ((k : ℕ) → 1 ≤ k → k < t.runs → is_retriable (run k) ≡ true)
          × (t.runs < attempts → is_retriable (run t.runs) ≡ false)
          × (attempts ≡ default_attempts → t.waited ≤ 1_078)
    unfolding retry_on_serialisation_failure
    retry_on_serialisation_failure-settled attempts pos short =
        let t = retry_from-IsSettled (attempts - 1) 1 0 in
        (
          t.outcome,
          t.after,
          omega (arith, t.within, pos),
          t.before,
          (λ h. t.settled (omega (arith, h, pos))),
          (λ e. rw e (retry_from-waited short 7 1 0)),
        )
