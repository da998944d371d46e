-- ===== src/Common/Refusals.antt =====
-- What a handler refuses with, and `assertUnchanged` of apps/api/src/optimistic.ts.
use Prim.Native.Nat.{ℕ}
use mathlib.Core.Option.{Option, none, some}
use apex_appraise.Common.Tests.{◌==◌}
use apex_appraise.Common.Results.{Result, guard, err}

pub data Refusal : Type 0 where
  not_found conflict bad_request : Refusal

unfoldable pub assert_unchanged : ℕ → Option ℕ → Result Refusal (Unit {0})
assert_unchanged current none = err bad_request
assert_unchanged current (some expected) = guard (current == expected) conflict
