-- ===== src/Plans/Guards.antt =====
-- apps/api/src/trpc.ts: the chain of guards in front of the procedures of the firm, with the role test of
-- apps/api/src/auth/roles.ts, and the copy of the chain for uploads in apps/api/src/http-guards.ts.
use apex_appraise.Common.{
  str_eq, str_eq_iff, str_eq_self, Bool-cases, Result, ◌>>◌, guard, ok, err, ℕ, String, ◌≡◌, refl,
  ap, ◌≢◌, ◌↔◌, ◌⊎◌, inl, inr, Bool, true, false, not, Option, none, some, List, ◌++◌, arith,
}
use apex_appraise.Common.{
  str_eq, str_eq_iff, str_eq_self, Bool-cases, Result, ◌>>◌, guard, ok, err, ℕ, String, ◌≡◌, refl,
  ap, ◌≢◌, ◌↔◌, ◌⊎◌, inl, inr, Bool, true, false, not, Option, none, some, List, ◌++◌, arith,
}
use apex_appraise.Common.Text.{codes, codes_eq_sound, starts_with_append, starts_with_sound}
use apex_appraise.Common.{
  str_eq, str_eq_iff, Bool-cases, Result, ◌>>◌, guard, ok, err, ℕ, String, ◌≡◌, refl, ◌≢◌, ◌↔◌, ◌⊎◌,
  inl, inr, Bool, true, false, not, Option, none, some, List, ◌++◌, arith,
}
use apex_appraise.Common.Text.{codes, codes_eq_sound, starts_with_append, starts_with_sound}
use apex_appraise.Table.{find_first}
use apex_appraise.Plans.Trial.{OrgTrial, Lapse, assert_trial_live, HasEnded}

-- `Principal`, as far as the guards read it
pub record Principal : Type 0 where
  pub org_id : String
  pub principal_type : String
  pub role : String

pub record Organisation : Type 0 where
  pub id : String
  pub trial : OrgTrial

pub data CallType : Type 0 where
  query mutation subscription : CallType

pub data Denial : Type 0 where
  unauthorized forbidden view_only : Denial
  lapsed : (reason : Lapse) → Denial

abbrev pub is_mutation : CallType → Bool
is_mutation query = false
is_mutation mutation = true
is_mutation subscription = false

-- `canWrite`
abbrev pub can_write : (role : String) → Bool
can_write role = not (str_eq role "VIEWER")

abbrev pub trial_of : Option Organisation → Option OrgTrial
trial_of none = none
trial_of (some o) = some o.trial

abbrev pub find_org : (org_id : String) → List Organisation → Option Organisation
find_org org_id orgs = find_first (λ o. str_eq o.id org_id) orgs

abbrev pub or_lapsed : Result Lapse (Unit {0}) → Result Denial (Unit {0})
or_lapsed (ok u) = ok tt
or_lapsed (err e) = err (lapsed e)

-- `assertCanWrite`, then `assertTrialLive`
abbrev pub may_mutate :
    List Organisation → Principal → (path : List ℕ) → (now : ℕ) → Result Denial (Unit {0})
may_mutate orgs p path now = do
  guard (can_write p.role) view_only
  or_lapsed (assert_trial_live (trial_of (find_org p.org_id orgs)) path now)

-- `authedProcedure`, then `internalProcedure`: whether the call goes through
unfoldable pub internal_procedure :
    List Organisation
    → Option Principal
    → CallType
    → (path : List ℕ) → (now : ℕ) → Result Denial (Unit {0})
internal_procedure orgs none type path now = err unauthorized
internal_procedure orgs (some p) type path now = do
  guard (str_eq p.principal_type "internal") forbidden
  elim (is_mutation type) [ true ↦ may_mutate orgs p path now | false ↦ ok tt ]

-- `internalWriter`, with the answers 401 and 403 as the refusals of the chain, and the principal of the
-- session as it is found
unfoldable pub internal_writer :
    List Organisation → Option Principal → (what : List ℕ) → (now : ℕ) → Result Denial (Unit {0})
internal_writer orgs none what now = err unauthorized
internal_writer orgs (some p) what now = do
  guard (str_eq p.principal_type "internal") forbidden
  guard (can_write p.role) view_only
  or_lapsed (assert_trial_live (trial_of (find_org p.org_id orgs)) what now)

-- An upload passes the guards that a mutation passes under the same name.
pub internal_writer-internal_procedure :
    (orgs : List Organisation) (p : Option Principal) (what : List ℕ) (now : ℕ)
    → internal_writer orgs p what now ≡ internal_procedure orgs p mutation what now
unfolding internal_writer internal_procedure
internal_writer-internal_procedure orgs none what now = refl
internal_writer-internal_procedure orgs (some p) what now = refl

-- The paths of billing, of signing in, and of the two ways out.
abbrev pub IsOpenPath : List ℕ → Type 0
IsOpenPath path =
    ((rest : List ℕ) × (path ≡ codes "billing." ++ rest))
    ⊎ ((rest : List ℕ) × (path ≡ codes "auth." ++ rest))
    ⊎ (path ≡ codes "org.exportData")
    ⊎ (path ≡ codes "org.deleteWorkspace")

-- The workspace is on a trial whose end has come.
abbrev pub HasLapsed : (now : ℕ) → Option Organisation → Type 0
HasLapsed now none = ⊥
HasLapsed now (some o) = (o.trial.plan ≡ "TRIAL") × HasEnded now o.trial.trial_ends_at
