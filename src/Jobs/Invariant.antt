-- ===== src/Jobs/Invariant.antt =====
-- What every job in the registry satisfies.
use e621_feed.Base.{
  ℕ, ◌≡◌, refl, ◌≢◌, Bool, List, [], ◌∷◌, Option, some, none, arith, ◌==◌, eq_iff, lookup, insert,
  adjust, retain, IsMap, lookup-insert, lookup-adjust, lookup-retain, insert-IsMap, adjust-IsMap,
  retain-IsMap, Option-cases, Bool-cases, inl, inr,
}
use e621_feed.Base.Int.{ℤ, int_eq}
use e621_feed.Base.Results.{Result, ok, err}
use e621_feed.Base.Text.{Str}
use e621_feed.Jobs.{
  Registry, ProcessJobState, ProcessJobPhase, running, done, failed, JobMap, try_begin,
  set_pages_total, record_page_done, prune_finished_jobs, record_phase, finish,
  refresh_running_seconds, new_job, is_running, add_phase, finish_job,
}
use e621_feed.Jobs.Ops.{Op, begins, sets_total, ends_page, ends_phase, finishes, prunes, step, run}

abbrev pub Status : ProcessJobPhase → Option ℕ → Option Str → Type 0
Status running finished_at error = (finished_at ≡ none) × (error ≡ none)
Status done finished_at error = (finished_at ≢ none) × (error ≡ none)
Status failed finished_at error = (finished_at ≢ none) × (error ≢ none)

-- A job stands under its account, is finished exactly if it does not run, and has an error exactly
-- if it failed.
pub record IsConsistent (a : ℤ) (s : ProcessJobState) : Type 0 where
  pub own_key : s.account_id ≡ a
  pub status : Status s.phase s.finished_at s.error

pub record IsValid (m : JobMap) : Type 0 where
  pub is_map : IsMap m
  pub consistent : (a : ℤ) (s : ProcessJobState) → lookup a m ≡ some s → IsConsistent a s

insert-IsValid : (a : ℤ) (now : ℕ) (m : JobMap) → IsValid m → IsValid (insert a (new_job a now) m)
insert-IsValid a now m v = record {
  is_map = insert-IsMap a (new_job a now) m v.is_map;
  consistent = λ b s found. elim (Bool-cases (a == b)) [
    | inl own ↦
        let e : new_job a now ≡ s = ground (arith, lookup-insert a b (new_job a now) m) in
        let same : a ≡ b = (eq_iff a b).0 own in
        rw (← e, ← same) (record { own_key = refl; status = (refl, refl) })
    | inr other ↦ v.consistent b s (ground (arith, lookup-insert a b (new_job a now) m))
  ];
}

adjust-IsValid :
    (a : ℤ) (f : ProcessJobState → ProcessJobState) (m : JobMap)
    → ((s : ProcessJobState) → IsConsistent a s → IsConsistent a (f s))
    → IsValid m
    → IsValid (adjust a f m)
adjust-IsValid a f m keep v = record {
  is_map = adjust-IsMap a f m v.is_map;
  consistent = λ b s found. elim (Option-cases (lookup b m)) [
    | inl absent ↦ absurd (ground (arith, lookup-adjust a b f m))
    | inr (old, at_b) ↦ elim (Bool-cases (a == b)) [
      | inl own ↦
          let same : a ≡ b = (eq_iff a b).0 own in
          let e : f old ≡ s = ground (arith, lookup-adjust a b f m) in
          rw (← e, ← same) (keep old (rw same (v.consistent b old at_b)))
      | inr other ↦ v.consistent b s (ground (arith, lookup-adjust a b f m))
    ]
  ];
}

retain-IsValid : (p : ProcessJobState → Bool) (m : JobMap) → IsValid m → IsValid (retain p m)
retain-IsValid p m v = record {
  is_map = retain-IsMap p m v.is_map;
  consistent = λ b s found. v.consistent b s (ground (arith, lookup-retain p b m v.is_map));
}

add_phase-IsConsistent :
    (a : ℤ) (name : Str) (ms now : ℕ) (s : ProcessJobState)
    → IsConsistent a s
    → IsConsistent a (add_phase name ms now s)
add_phase-IsConsistent a name ms now s c = ground arith

finish_job-IsConsistent :
    (a : ℤ) (result : Result Str (Unit {0})) (now : ℕ) (s : ProcessJobState)
    → IsConsistent a s
    → IsConsistent a (finish_job result now s)
finish_job-IsConsistent a (ok _) now s c = ground arith
finish_job-IsConsistent a (err e) now s c = ground arith

try_begin-IsValid :
    (r : Registry) (a : ℤ) (now refreshed : ℕ)
    → IsValid r.jobs
    → IsValid (try_begin r a now refreshed).0.jobs
unfolding try_begin refresh_running_seconds
try_begin-IsValid r a now refreshed v = elim (Option-cases (lookup a r.jobs)) [
  | inl absent ↦ rw (absent, try_begin) (insert-IsValid a now r.jobs v)
  | inr (s, found) ↦ elim (Bool-cases (is_running s.phase)) [
    | inl runs ↦ rw (found, runs, try_begin) v
    | inr ended ↦ rw (found, ended, try_begin) (insert-IsValid a now r.jobs v)
  ]
]

finish-jobs :
    (r : Registry) (a : ℤ) (result : Result Str (Unit {0})) (now refreshed : ℕ)
    → (finish r a result now refreshed).jobs ≡ adjust a (finish_job result now) r.jobs
unfolding finish refresh_running_seconds
finish-jobs r a result now refreshed = ground arith

-- Every operation keeps the registry valid.
pub step-IsValid : (r : Registry) (o : Op) → IsValid r.jobs → IsValid (step r o).jobs
unfolding step set_pages_total record_page_done record_phase prune_finished_jobs
    refresh_running_seconds
step-IsValid r (begins a now refreshed) v = try_begin-IsValid r a now refreshed v
step-IsValid r (sets_total a total) v =
    adjust-IsValid a _ r.jobs (λ s c. record { own_key = c.own_key; status = c.status }) v
step-IsValid r (ends_page a refreshed) v =
    adjust-IsValid a _ r.jobs (λ s c. record { own_key = c.own_key; status = c.status }) v
step-IsValid r (ends_phase a name ms now refreshed) v =
    adjust-IsValid a _ r.jobs (add_phase-IsConsistent a name ms now) v
step-IsValid r (finishes a result now refreshed) v =
    rw (finish-jobs r a result now refreshed)
      (adjust-IsValid a _ r.jobs (finish_job-IsConsistent a result now) v)
step-IsValid r (prunes retain_secs timeout now now' refreshed) v = retain-IsValid _ r.jobs v

pub run-IsValid : (r : Registry) (os : List Op) → IsValid r.jobs → IsValid (run r os).jobs
unfolding run
run-IsValid r [] v = v
run-IsValid r (o ∷ os) v = run-IsValid (step r o) os (step-IsValid r o v)

abbrev pub no_jobs : Registry
no_jobs = record { jobs = []; running_seconds = 0; last_duration_seconds = 0 }

pub no_jobs-IsValid : IsValid no_jobs.jobs
unfolding lookup
no_jobs-IsValid = record { is_map = tt; consistent = λ a s found. cc }

-- After any history from the empty registry, a job stands under its account, it is finished exactly
-- if it does not run, and it has an error exactly if it failed.
pub run-IsConsistent :
    (os : List Op) (a : ℤ) (s : ProcessJobState)
    → lookup a (run no_jobs os).jobs ≡ some s
    → IsConsistent a s
run-IsConsistent os a s found = (run-IsValid no_jobs os no_jobs-IsValid).consistent a s found
