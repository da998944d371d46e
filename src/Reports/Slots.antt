-- ===== src/Reports/Slots.antt =====
-- apps/api/src/report-capacity.ts, `withReportContext`: the counters of one process, the flags of each
-- job that was let in, and what happens to a job while it runs.
use apex_appraise.Common.{
  leb, if◌then◌else◌, ℕ, zero, suc, ◌+◌, ◌-◌, Bool, true, false, ◌&&◌, ◌||◌, Option, none, some,
  List, [], ◌∷◌,
}

abbrev pub max_active_reports : ℕ
max_active_reports = 2

-- `active` and `publicActive`
pub record Counts : Type 0 where
  pub active : ℕ
  pub public_active : ℕ

-- The variables of one call. `context` tells that the browser context has arrived, and `cleanup` that
-- `close` has started.
pub record Job : Type 0 where
  pub public_share : Bool
  pub context : Bool
  pub expired : Bool
  pub released : Bool
  pub cleanup : Bool

-- What happens to a job: its context arrives or cannot be made, its render settles, its deadline
-- passes, the context (or else the browser) closes, or neither does.
pub data Event : Type 0 where
  opened not_opened settled timed_out closed not_closed : Event

pub record Slots : Type 0 where
  pub counts : Counts
  pub jobs : List Job

abbrev pub one_if : Bool → ℕ
one_if b = if b then 1 else 0

abbrev pub is_busy : Bool → Counts → Bool
is_busy public_share c = leb max_active_reports c.active || (public_share && leb 1 c.public_active)

abbrev pub fresh_job : Bool → Job
fresh_job public_share = record {
  public_share = public_share;
  context = false;
  expired = false;
  released = false;
  cleanup = false;
}

-- the start of a call: `none` is the refusal
unfoldable pub start : Bool → Slots → Option Slots
start public_share s =
    if is_busy public_share s.counts
    then none
    else some (record {
      counts = record {
        active = s.counts.active + 1;
        public_active = s.counts.public_active + one_if public_share;
      };
      jobs = fresh_job public_share ∷ s.jobs;
    })

unfoldable pub release : Job → Counts → Job × Counts
release j c = if j.released then (j, c) else (
  record j { released = true },
  record { active = c.active - 1; public_active = c.public_active - one_if j.public_share },
)

unfoldable pub happens : Event → Job → Counts → Job × Counts
happens opened j c =
    if j.context || j.released
    then (j, c)
    else (record j { context = true; cleanup = j.expired }, c)
happens not_opened j c = if j.context then (j, c) else release j c
happens settled j c = (record j { cleanup = j.cleanup || j.context }, c)
happens timed_out j c = (record j { expired = true; cleanup = j.cleanup || j.context }, c)
happens closed j c = if j.cleanup then release j c else (j, c)
happens not_closed j c = (j, c)

-- an event at the job `i` places from the newest
unfoldable pub happens_at : ℕ → Event → List Job → Counts → List Job × Counts
happens_at i e [] c = ([], c)
happens_at zero e (j ∷ js) c = let (j', c') = happens e j c in (j' ∷ js, c')
happens_at (suc i) e (j ∷ js) c = let (js', c') = happens_at i e js c in (j ∷ js', c')

-- A step of the process: a call that starts, or an event of a job.
pub data Step : Type 0 where
  call : (public_share : Bool) → Step
  event : (i : ℕ) (e : Event) → Step

abbrev pub or_same : Slots → Option Slots → Slots
or_same s none = s
or_same s (some t) = t

unfoldable pub step : Step → Slots → Slots
step (call public_share) s = or_same s (start public_share s)
step (event i e) s =
    let (jobs, counts) = happens_at i e s.jobs s.counts in record { counts = counts; jobs = jobs }

abbrev pub run : List Step → Slots → Slots
run [] s = s
run (x ∷ xs) s = run xs (step x s)

abbrev pub no_jobs : Slots
no_jobs = record { counts = record { active = 0; public_active = 0 }; jobs = [] }
