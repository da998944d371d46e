-- ===== src/Reports/Capacity.antt =====
-- apps/api/src/report-capacity.ts: what the counters say of the jobs, over any run.
use apex_appraise.Common.{
  leb, Bool-cases, ℕ, zero, suc, ◌+◌, ◌≤◌, ◌≡◌, refl, inl, inr, Bool, true, false, ◌&&◌, not, none,
  List, [], ◌∷◌, arith,
}
use apex_appraise.Reports.Slots.{
  Counts, Job, Event, Slots, one_if, is_busy, start, release, happens, happens_at, Step, or_same,
  step, run, no_jobs, opened, not_opened, settled, timed_out, closed, not_closed, call, event,
}

abbrev pub holds : Job → ℕ
holds j = one_if (not j.released)

abbrev pub holds_public : Job → ℕ
holds_public j = one_if (not j.released && j.public_share)

-- the jobs that hold a slot, and those of public links among them
abbrev pub held : List Job → ℕ
held [] = 0
held (j ∷ js) = holds j + held js

abbrev pub held_public : List Job → ℕ
held_public [] = 0
held_public (j ∷ js) = holds_public j + held_public js

-- The counters count the jobs that hold a slot, beside `k` and `m` that others hold.
abbrev IsCounted : (k m : ℕ) → List Job → Counts → Type 0
IsCounted k m js c = (c.active ≡ k + held js) × (c.public_active ≡ m + held_public js)

abbrev IsNoMore : Counts → Counts → Type 0
IsNoMore c d = (d.active ≤ c.active) × (d.public_active ≤ c.public_active)

abbrev KeepsCount : (k m : ℕ) → Job → Counts → Job × Counts → Type 0
KeepsCount k m j c (j', c') = IsCounted k m (j' ∷ []) c' × IsNoMore c c'

abbrev job : (public_share context expired released cleanup : Bool) → Job
job p x e r u = record { public_share = p; context = x; expired = e; released = r; cleanup = u }

unchanged : (k m : ℕ) (j : Job) (c : Counts) → IsCounted k m (j ∷ []) c → KeepsCount k m j c (j, c)
unchanged k m j c h = (h, (omega arith, omega arith))

release_flags :
    (k m : ℕ) (p x e r u : Bool) (c : Counts)
    → IsCounted k m (job p x e r u ∷ []) c
    → KeepsCount k m (job p x e r u) c (release (job p x e r u) c)
unfolding release
release_flags k m p x e true u c h = (h, (omega arith, omega arith))
release_flags k m true x e false u c h =
    ((omega (arith, h.0), omega (arith, h.1)), (omega arith, omega arith))
release_flags k m false x e false u c h =
    ((omega (arith, h.0), omega (arith, h.1)), (omega arith, omega arith))

release-KeepsCount :
    (k m : ℕ) (j : Job) (c : Counts) → IsCounted k m (j ∷ []) c → KeepsCount k m j c (release j c)
release-KeepsCount k m j c h =
    release_flags k m j.public_share j.context j.expired j.released j.cleanup c h

happens-KeepsCount :
    (e : Event) (k m : ℕ) (p x d r u : Bool) (c : Counts)
    → IsCounted k m (job p x d r u ∷ []) c
    → KeepsCount k m (job p x d r u) c (happens e (job p x d r u) c)
unfolding happens
happens-KeepsCount opened k m p true d r u c h = (h, (omega arith, omega arith))
happens-KeepsCount opened k m p false d true u c h = (h, (omega arith, omega arith))
happens-KeepsCount opened k m p false d false u c h = (h, (omega arith, omega arith))
happens-KeepsCount not_opened k m p true d r u c h = (h, (omega arith, omega arith))
happens-KeepsCount not_opened k m p false d r u c h = release-KeepsCount k m (job p false d r u) c h
happens-KeepsCount settled k m p x d r u c h = (h, (omega arith, omega arith))
happens-KeepsCount timed_out k m p x d r u c h = (h, (omega arith, omega arith))
happens-KeepsCount closed k m p x d r true c h = release-KeepsCount k m (job p x d r true) c h
happens-KeepsCount closed k m p x d r false c h = (h, (omega arith, omega arith))
happens-KeepsCount not_closed k m p x d r u c h = (h, (omega arith, omega arith))

happens_at-KeepsCount :
    (i : ℕ) (e : Event) (k m : ℕ) (js : List Job) (c : Counts)
    → IsCounted k m js c
    → let (js', c') = happens_at i e js c in IsCounted k m js' c' × IsNoMore c c'
unfolding happens_at
happens_at-KeepsCount i e k m [] c h = (h, (omega arith, omega arith))
happens_at-KeepsCount zero e k m (j ∷ js) c h =
    let (g, less) =
      happens-KeepsCount e (k + held js) (m + held_public js) j.public_share j.context j.expired
        j.released j.cleanup c (omega (arith, h.0), omega (arith, h.1)) in
    ((omega (arith, g.0), omega (arith, g.1)), less)
happens_at-KeepsCount (suc i) e k m (j ∷ js) c h =
    let (g, less) =
      happens_at-KeepsCount i e (k + holds j) (m + holds_public j) js c
        (omega (arith, h.0), omega (arith, h.1)) in
    ((omega (arith, g.0), omega (arith, g.1)), less)

-- The counters count the jobs that hold a slot, at most two, at most one of them of a public link.
abbrev pub IsSound : Slots → Type 0
IsSound s =
    (s.counts.active ≡ held s.jobs)
    × (s.counts.public_active ≡ held_public s.jobs)
    × (s.counts.active ≤ 2)
    × (s.counts.public_active ≤ 1)

start-IsSound :
    (public_share : Bool) (s : Slots) → IsSound s → IsSound (or_same s (start public_share s))
unfolding start
start-IsSound true s (a, b, c, d) = elim (Bool-cases (is_busy true s.counts)) [
  | inl h ↦ rw h (a, b, c, d)
  | inr h ↦ rw h (omega (arith, a), omega (arith, b), ground (arith, c, h), ground (arith, d, h))
]
start-IsSound false s (a, b, c, d) = elim (Bool-cases (is_busy false s.counts)) [
  | inl h ↦ rw h (a, b, c, d)
  | inr h ↦ rw h (omega (arith, a), omega (arith, b), ground (arith, c, h), omega (arith, d))
]

step-IsSound : (x : Step) (s : Slots) → IsSound s → IsSound (step x s)
unfolding step
step-IsSound (call public_share) s h = start-IsSound public_share s h
step-IsSound (event i e) s (a, b, c, d) =
    let (g, less) =
      happens_at-KeepsCount i e 0 0 s.jobs s.counts (omega (arith, a), omega (arith, b)) in
    (omega (arith, g.0), omega (arith, g.1), omega (arith, less.0, c), omega (arith, less.1, d))

run-IsSound : (xs : List Step) (s : Slots) → IsSound s → IsSound (run xs s)
run-IsSound [] s h = h
run-IsSound (x ∷ xs) s h = run-IsSound xs (step x s) (step-IsSound x s h)

-- After any run of calls and events the counters count the jobs that hold a slot: no slot is given back
-- twice or lost, at most two are held, and at most one of them by a public link.
pub capacity_bounds : (xs : List Step) → IsSound (run xs no_jobs)
capacity_bounds xs = run-IsSound xs no_jobs (refl, refl, omega arith, omega arith)

-- After any run in which public links hold every slot that is held, a customer's report is let in.
pub customer_admitted :
    (xs : List Step)
    → let s = run xs no_jobs in held s.jobs ≡ held_public s.jobs → ¬ (start false s ≡ none)
unfolding start
customer_admitted xs h =
    let s = run xs no_jobs in
    let (a, b, c, d) = capacity_bounds xs in
    let free : is_busy false s.counts ≡ false =
      ground (arith, a, b, d, h, Bool-cases (leb 2 s.counts.active)) in
    rw free (λ e. grind (arith, e))
