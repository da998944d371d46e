-- ===== src/Auth/Tests.antt =====
-- Runs of the throttle, and its theorems at concrete tables.
use apex_appraise.Auth.Throttle.Row.{
  Throttle, login_key, reset_key, row_of, check_lockout, record_failure, too_many_reset_requests,
}
use apex_appraise.Common.{
  if◌then◌else◌, str_eq, ℕ, ◌≡◌, refl, true, some, List, [], ◌∷◌, ◌++◌, map, arith,
}
use apex_appraise.Auth.Throttle.Row.{
  Throttle, login_key, reset_key, check_lockout, record_failure, too_many_reset_requests,
}
use apex_appraise.Auth.Throttle.Lockout.{fail, view_of, view-record_failure, record_failures}
use apex_appraise.Auth.Throttle.Resets.{granted}
use apex_appraise.Auth.Throttle.Pruning.{IsWellFormed}

abbrev guesses : List (ℕ × ℕ)
guesses = (1000, 1001) ∷ (2000, 2001) ∷ (3000, 3001) ∷ (4000, 4001) ∷ []

abbrev one_row : List Throttle
one_row =
    record {
      key = "login:b@x.uk";
      count = 6;
      window_start = 0;
      locked_until = some 900_100;
      updated_at = 200;
    }
    ∷ []

locks_after_five :
    check_lockout 5001 "a@x.uk" (record_failures (guesses ++ ((5000, 5001) ∷ [])) "a@x.uk" one_row)
    ≡ record { locked = true; retry_after_mins = some 15 }
unfolding check_lockout record_failure str_eq login_key
locks_after_five = refl

reopens_after_lapse : map (λ r. r.count) (record_failure 900_100 900_101 "b@x.uk" one_row) ≡ 1 ∷ []
unfolding record_failure str_eq login_key
reopens_after_lapse = refl

fourth_reset_refused : granted ((0, 0) ∷ (10, 10) ∷ (20, 20) ∷ (30, 30) ∷ []) "a@x.uk" one_row ≡ 3
unfolding too_many_reset_requests str_eq reset_key
fourth_reset_refused = refl

view-record_failure_example :
    (view_of "b@x.uk" (record_failure 5000 5001 "a@x.uk" one_row) ≡ (
      if str_eq "a@x.uk" "b@x.uk"
      then fail 5000 (view_of "b@x.uk" one_row)
      else view_of "b@x.uk" one_row))
    × (row_of (reset_key "b@x.uk") (record_failure 5000 5001 "a@x.uk" one_row)
        ≡ row_of (reset_key "b@x.uk") one_row)
view-record_failure_example = view-record_failure 5000 5001 "a@x.uk" "b@x.uk" one_row

one_row-IsWellFormed : IsWellFormed 1000 one_row
one_row-IsWellFormed = record {
  unique = (refl, tt);
  sound = (record { lock_ends = omega arith; written = omega arith }, tt);
}
