-- ===== src/Jobs/Exclusion.antt =====
-- An account has one running job at a time.
use e621_feed.Base.{
  ℕ, ◌+◌, ◌*◌, ◌<◌, ◌≡◌, refl, ◌≢◌, List, [], ◌∷◌, some, arith, max, ◌==◌, eq_iff, All, lookup,
  adjust, IsMap, lookup-insert, lookup-insert_self, lookup-adjust, lookup-retain, Bool-cases, inl,
  inr, ◌∙◌,
}
use e621_feed.Base.Int.{ℤ, pos_part, int_eq}
use e621_feed.Base.Results.{Result}
use e621_feed.Base.Text.{Str}
use e621_feed.Jobs.{
  Registry, ProcessJobState, running, JobMap, started, already_running, try_begin, set_pages_total,
  record_page_done, prune_finished_jobs, record_phase, finish, refresh_running_seconds, new_job,
  survives, add_phase, finish_job,
}
use e621_feed.Jobs.Invariant.{IsValid, step-IsValid}
use e621_feed.Jobs.Ops.{Op, begins, sets_total, ends_page, ends_phase, finishes, prunes, step, run}

-- An operation that does not end the job of the account that began at that time: it finishes
-- another account's, or prunes before the timeout.
abbrev pub Leaves : ℤ → ℕ → Op → Type 0
Leaves a start (begins b now refreshed) = Unit
Leaves a start (sets_total b total) = Unit
Leaves a start (ends_page b refreshed) = Unit
Leaves a start (ends_phase b name ms now refreshed) = Unit
Leaves a start (finishes b result now refreshed) = b ≢ a
Leaves a start (prunes retain_secs timeout now now' refreshed) =
    now' < start + max (pos_part timeout) 60 * 1_000_000_000

-- The account has a running job that began at that time.
abbrev pub Runs : ℤ → ℕ → JobMap → Type 0
Runs a start m =
    (s : ProcessJobState) × (lookup a m ≡ some s) × (s.phase ≡ running) × (s.started_at ≡ start)

adjust-Runs :
    (a b : ℤ) (start : ℕ) (f : ProcessJobState → ProcessJobState) (m : JobMap)
    → ((s : ProcessJobState)
        → s.phase ≡ running
        → ((f s).phase ≡ running) × ((f s).started_at ≡ s.started_at))
    → Runs a start m
    → Runs a start (adjust b f m)
adjust-Runs a b start f m keep (s, found, runs, at) = elim (Bool-cases (b == a)) [
  | inl own ↦
      let (runs', at') = keep s runs in
      (f s, ground (arith, lookup-adjust b a f m), runs', at' ∙ at)
  | inr other ↦ (s, ground (arith, lookup-adjust b a f m), runs, at)
]

try_begin-Runs :
    (r : Registry) (a b : ℤ) (start now refreshed : ℕ)
    → Runs a start r.jobs
    → Runs a start (try_begin r b now refreshed).0.jobs
unfolding try_begin refresh_running_seconds
try_begin-Runs r a b start now refreshed (s, found, runs, at) =
    (s, ground (arith, eq_iff b a, lookup-insert b a (new_job b now) r.jobs), runs, at)

finish_other-Runs :
    (r : Registry) (a b : ℤ) (start : ℕ) (result : Result Str (Unit {0})) (now refreshed : ℕ)
    → b ≢ a
    → Runs a start r.jobs
    → Runs a start (finish r b result now refreshed).jobs
unfolding finish refresh_running_seconds
finish_other-Runs r a b start result now refreshed other (s, found, runs, at) =
    (s, ground (arith, eq_iff b a, lookup-adjust b a (finish_job result now) r.jobs), runs, at)

prune-Runs :
    (r : Registry) (a : ℤ) (start : ℕ) (retain_secs timeout : ℤ) (now now' refreshed : ℕ)
    → IsMap r.jobs
    → now' < start + max (pos_part timeout) 60 * 1_000_000_000
    → Runs a start r.jobs
    → Runs a start (prune_finished_jobs retain_secs timeout r now now' refreshed).0.jobs
unfolding prune_finished_jobs survives refresh_running_seconds
prune-Runs r a start retain_secs timeout now now' refreshed h soon (s, found, runs, at) = (
  s,
  ground (
    arith,
    lookup-retain (survives (pos_part retain_secs) (max (pos_part timeout) 60) now now') a r.jobs h,
  ),
  runs,
  at,
)

step-Runs :
    (r : Registry) (a : ℤ) (start : ℕ) (o : Op)
    → IsMap r.jobs
    → Leaves a start o
    → Runs a start r.jobs
    → Runs a start (step r o).jobs
unfolding step set_pages_total record_page_done record_phase refresh_running_seconds
step-Runs r a start (begins b now refreshed) h l x = try_begin-Runs r a b start now refreshed x
step-Runs r a start (sets_total b total) h l x =
    adjust-Runs a b start _ r.jobs (λ s runs. (runs, refl)) x
step-Runs r a start (ends_page b refreshed) h l x =
    adjust-Runs a b start _ r.jobs (λ s runs. (runs, refl)) x
step-Runs r a start (ends_phase b name ms now refreshed) h l x =
    adjust-Runs a b start (add_phase name ms now) r.jobs (λ s runs. (ground arith, ground arith)) x
step-Runs r a start (finishes b result now refreshed) h l x =
    finish_other-Runs r a b start result now refreshed l x
step-Runs r a start (prunes retain_secs timeout now now' refreshed) h l x =
    prune-Runs r a start retain_secs timeout now now' refreshed h l x

run-Runs :
    (r : Registry) (a : ℤ) (start : ℕ) (os : List Op)
    → IsValid r.jobs
    → All (Leaves a start) os
    → Runs a start r.jobs
    → Runs a start (run r os).jobs
unfolding run
run-Runs r a start [] v l x = x
run-Runs r a start (o ∷ os) v l x =
    run-Runs (step r o) a start os (step-IsValid r o v) l.1 (step-Runs r a start o v.is_map l.0 x)

try_begin_started :
    (r : Registry) (a : ℤ) (now refreshed : ℕ) (s : ProcessJobState)
    → (try_begin r a now refreshed).1 ≡ started s
    → Runs a now (try_begin r a now refreshed).0.jobs
unfolding try_begin refresh_running_seconds
try_begin_started r a now refreshed s e =
    (new_job a now, ground (arith, lookup-insert_self a (new_job a now) r.jobs), refl, refl)

-- Once a job of an account has started, and until that account's job is finished or pruned past
-- the timeout, whatever else happens, a further attempt is told that the job that started then is
-- running, and changes nothing.
pub try_begin_exclusive :
    (r : Registry) (a : ℤ) (now refreshed now' refreshed' : ℕ) (s : ProcessJobState) (os : List Op)
    → IsValid r.jobs
    → (try_begin r a now refreshed).1 ≡ started s
    → All (Leaves a now) os
    → let r' = run (try_begin r a now refreshed).0 os in
      (s' : ProcessJobState) × (try_begin r' a now' refreshed' ≡ (r', already_running s'))
      × (s'.started_at ≡ now)
unfolding try_begin step
try_begin_exclusive r a now refreshed now' refreshed' s os v e l =
    let (s', found, runs, at) =
      run-Runs (try_begin r a now refreshed).0 a now os (step-IsValid r (begins a now refreshed) v)
        l (try_begin_started r a now refreshed s e) in
    (s', rw (found, runs, try_begin), at)
