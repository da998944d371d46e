-- ===== src/Plans/Trial.antt =====
-- apps/api/src/trial.ts: when a trial ends, and what a lapsed one may still call. Times are
-- milliseconds since the epoch.
use apex_appraise.Common.{
  leb, if◌then◌else◌, str_eq, str_eq_iff, Option-cases, Result, ok, err, ℕ, ◌+◌, ◌-◌, ◌*◌, ◌/◌, ◌≤◌,
  String, ◌≡◌, ◌≢◌, ◌↔◌, inl, inr, Bool, true, false, ◌||◌, Option, none, some, List, arith,
}
use apex_appraise.Common.Text.{codes, codes_eq, starts_with}

abbrev pub trial_days : ℕ
trial_days = 14

abbrev pub day_ms : ℕ
day_ms = 24 * 60 * 60 * 1000

unfoldable pub trial_end_from : ℕ → ℕ
trial_end_from start = start + trial_days * day_ms

pub record TrialState : Type 0 where
  pub ends_at : Option ℕ
  pub expired : Bool
  pub days_left : Option ℕ

abbrev pub untimed : TrialState
untimed = record { ends_at = none; expired = false; days_left = none }

-- `Math.max(0, Math.ceil(ms / day))`: the truncated difference of a lapsed trial rounds up to 0
abbrev pub timed : (ends now : ℕ) → TrialState
timed ends now = record {
  ends_at = some ends;
  expired = leb ends now;
  days_left = some ((ends - now + (day_ms - 1)) / day_ms);
}

abbrev pub on_clock : Bool → Option ℕ → ℕ → TrialState
on_clock is_trial none now = untimed
on_clock is_trial (some ends) now = if is_trial then timed ends now else untimed

unfoldable pub trial_state_of : String → Option ℕ → ℕ → TrialState
trial_state_of plan trial_ends_at now = on_clock (str_eq plan "TRIAL") trial_ends_at now

unfoldable pub allowed_while_expired : List ℕ → Bool
allowed_while_expired path =
    starts_with (codes "billing.") path
    || starts_with (codes "auth.") path
    || codes_eq path (codes "org.exportData")
    || codes_eq path (codes "org.deleteWorkspace")

pub record OrgTrial : Type 0 where
  pub plan : String
  pub trial_ends_at : Option ℕ
  pub subscription_status : Option String

pub data Lapse : Type 0 where
  payment_attention : Lapse
  trial_ended : Option ℕ → Lapse

abbrev pub needs_payment : Option String → Bool
needs_payment none = false
needs_payment (some s) = str_eq s "unpaid" || str_eq s "incomplete" || str_eq s "paused"

abbrev pub live : OrgTrial → ℕ → Result Lapse (Unit {0})
live org now =
    let state = trial_state_of org.plan org.trial_ends_at now in
    if state.expired
    then err (
        if needs_payment org.subscription_status
        then payment_attention
        else trial_ended state.ends_at)
    else ok tt

abbrev pub live? : Option OrgTrial → ℕ → Result Lapse (Unit {0})
live? none now = ok tt
live? (some org) now = live org now

unfoldable pub assert_trial_live : Option OrgTrial → List ℕ → ℕ → Result Lapse (Unit {0})
assert_trial_live org path now = if allowed_while_expired path then ok tt else live? org now

-- A trial on the clock has no days left exactly when it has expired, which is from its end on, and
-- never shows more days than it lasts.
pub trial_state_of-clock :
    (start now : ℕ)
    → start ≤ now
    → let state = trial_state_of "TRIAL" (some (trial_end_from start)) now in
      ((state.expired ≡ true) ↔ (start + 14 * day_ms ≤ now))
      × ((state.days_left ≡ some 0) ↔ (start + 14 * day_ms ≤ now))
      × ((d : ℕ) → state.days_left ≡ some d → (d ≤ 14) × (start + 14 * day_ms ≤ now + d * day_ms))
unfolding trial_state_of trial_end_from str_eq
trial_state_of-clock start now h = ground arith

abbrev pub HasEnded : ℕ → Option ℕ → Type 0
HasEnded now none = ⊥
HasEnded now (some ends) = ends ≤ now

-- The check refuses a path exactly when it is not on the list, and the workspace is on a trial whose end
-- has come. Whether a call comes to the check is for the guards in front of it.
pub assert_trial_live_iff :
    (org : OrgTrial) (path : List ℕ) (now : ℕ)
    → (assert_trial_live (some org) path now ≢ ok tt) ↔ (
        (allowed_while_expired path ≡ false)
        × (org.plan ≡ "TRIAL")
        × HasEnded now org.trial_ends_at)
unfolding assert_trial_live trial_state_of
assert_trial_live_iff org path now = elim (Option-cases org.trial_ends_at) [
  | inl e ↦ ground (arith, str_eq_iff org.plan "TRIAL")
  | inr (ends, e) ↦ ground (arith, str_eq_iff org.plan "TRIAL")
]
