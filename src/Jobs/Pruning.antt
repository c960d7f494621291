-- ===== src/Jobs/Pruning.antt =====
-- The gauge of running jobs, and what pruning spares.
use e621_feed.Base.{
  ℕ, ◌+◌, ◌≤◌, ◌<◌, ◌≡◌, refl, ◌⊎◌, inl, inr, [], ◌∷◌, some, none, arith, max, leb, eq_iff, lookup,
  IsMap, lookup-retain, Bool-cases,
}
use e621_feed.Base.Int.{ℤ, pos_part, int_eq}
use e621_feed.Jobs.{
  Registry, ProcessJobState, running, JobMap, refresh_running_seconds, longest_running, is_running,
  whole_seconds, prune_finished_jobs, survives,
}

longest_upper :
    (now : ℕ) (a : ℤ) (s : ProcessJobState) (m : JobMap)
    → lookup a m ≡ some s
    → s.phase ≡ running
    → whole_seconds now s.started_at ≤ longest_running now m
unfolding longest_running lookup
longest_upper now a s [] found runs = cc
longest_upper now a s ((k, t) ∷ m) found runs = ground (arith, longest_upper now a s m)

-- Some running job has that age.
abbrev pub Attained : ℕ → ℕ → JobMap → Type 0
Attained now age m =
    (a : ℤ) × (s : ProcessJobState) × (lookup a m ≡ some s)
    × (s.phase ≡ running)
    × (whole_seconds now s.started_at ≡ age)

Attained-under :
    (now age : ℕ) (k : ℤ) (t : ProcessJobState) (m : JobMap)
    → lookup k m ≡ none
    → Attained now age m
    → Attained now age ((k, t) ∷ m)
unfolding lookup
Attained-under now age k t m fresh (a, s, found, runs, is) =
    (a, s, ground (arith, eq_iff k a), runs, is)

deeper :
    (now age : ℕ) (k : ℤ) (t : ProcessJobState) (m : JobMap)
    → lookup k m ≡ none
    → (age ≡ 0) ⊎ Attained now age m
    → (age ≡ 0) ⊎ Attained now age ((k, t) ∷ m)
deeper now age k t m fresh (inl none_runs) = inl none_runs
deeper now age k t m fresh (inr attained) = inr (Attained-under now age k t m fresh attained)

longest-Attained :
    (now : ℕ) (m : JobMap)
    → IsMap m
    → (longest_running now m ≡ 0) ⊎ Attained now (longest_running now m) m
unfolding longest_running lookup
longest-Attained now [] h = inl refl
longest-Attained now ((k, t) ∷ m) h =
    let age = whole_seconds now t.started_at in
    let rest = longest_running now m in
    elim (Bool-cases (is_running t.phase)) [
      | inl runs ↦ elim (Bool-cases (leb rest age)) [
        | inl oldest ↦
            let e : max age rest ≡ age = ground arith in
            rw (runs, e) (inr (k, t, ground (arith, eq_iff k k), ground arith, refl))
        | inr younger ↦
            let e : max age rest ≡ rest = ground arith in
            rw (runs, e) (deeper now rest k t m h.0 (longest-Attained now m h.1))
      ]
      | inr ended ↦ rw ended (deeper now rest k t m h.0 (longest-Attained now m h.1))
    ]

-- The gauge after a refresh is the age in seconds of the oldest running job: every running job is
-- at most that old, and some running job is that old, unless the gauge is 0.
pub running_seconds-refresh :
    (r : Registry) (now : ℕ) (a : ℤ) (s : ProcessJobState)
    → IsMap r.jobs
    → lookup a r.jobs ≡ some s
    → s.phase ≡ running
    → let gauge = (refresh_running_seconds r now).running_seconds in
      (whole_seconds now s.started_at ≤ gauge) × ((gauge ≡ 0) ⊎ Attained now gauge r.jobs)
unfolding refresh_running_seconds
running_seconds-refresh r now a s h found runs =
    (longest_upper now a s r.jobs found runs, longest-Attained now r.jobs h)

-- Whatever the settings, pruning spares a running job that is younger than a minute.
pub prune_finished_jobs_spares :
    (retain_secs timeout : ℤ) (r : Registry) (now now' refreshed : ℕ) (a : ℤ) (s : ProcessJobState)
    → IsMap r.jobs
    → lookup a r.jobs ≡ some s
    → s.phase ≡ running
    → now' < s.started_at + 60_000_000_000
    → lookup a (prune_finished_jobs retain_secs timeout r now now' refreshed).0.jobs ≡ some s
unfolding prune_finished_jobs survives refresh_running_seconds
prune_finished_jobs_spares retain_secs timeout r now now' refreshed a s h found runs young =
    ground (
      arith,
      lookup-retain (survives (pos_part retain_secs) (max (pos_part timeout) 60) now now') a r.jobs
          h,
    )
