-- ===== src/Reports/Tests.antt =====
-- apps/api/src/report-capacity.ts: runs.
use apex_appraise.Common.{◌≡◌, refl, true, false, List, [], ◌∷◌}
use apex_appraise.Reports.Slots.{
  start, release, happens, happens_at, Step, step, run, no_jobs, opened, settled, timed_out, closed,
  call, event,
}
use apex_appraise.Reports.Capacity.{IsSound, capacity_bounds}

-- a public link and two customers call; the last is refused
abbrev three_calls : List Step
three_calls = call true ∷ call false ∷ call false ∷ []

three_calls_active : (run three_calls no_jobs).counts.active ≡ 2
unfolding step start
three_calls_active = refl

-- a render that settles after its deadline gives its slot back once
abbrev late_render : List Step
late_render =
    call true
    ∷ event 0 opened
    ∷ event 0 timed_out
    ∷ event 0 closed
    ∷ event 0 settled
    ∷ event 0 closed
    ∷ []

late_render_active : (run late_render no_jobs).counts.active ≡ 0
unfolding step start happens happens_at release
late_render_active = refl

capacity_bounds_example : IsSound (run late_render no_jobs)
capacity_bounds_example = capacity_bounds late_render

-- one public link that renders
abbrev one_link : List Step
one_link = call true ∷ event 0 opened ∷ []
