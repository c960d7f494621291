-- ===== src/Jobs.antt =====
-- parser-api/src/jobs.rs: the registry of `/process` jobs and its two gauges.
-- Time is in nanoseconds since the epoch, and an operation takes one argument for each time that it
-- reads the clock. `elapsed_ms` of a phase is an f64 that is only stored; `elapsed_secs` is kept in
-- milliseconds. The lock of the registry is never poisoned.
pub mod Ops
pub mod Invariant
pub mod Exclusion
pub mod Pruning
use e621_feed.Base.{
  ℕ, zero, suc, leb, ◌+◌, ◌-◌, ◌/◌, ◌*◌, Bool, true, false, ◌&&◌, List, [], ◌∷◌, ◌++◌, Option, some,
  none, if◌then◌else◌, ltb, max, lookup, insert, adjust, retain, length,
}
use e621_feed.Base.Int.{ℤ, pos, negsuc, pos_part, int_eq, succ_i32}
use e621_feed.Base.Results.{Result, ok, err}
use e621_feed.Base.Text.{Str}

pub record JobPhaseRecord : Type 0 where
  pub name : Str
  pub elapsed_ms : ℕ

pub data ProcessJobPhase : Type 0 where
  running done failed : ProcessJobPhase

pub record ProcessJobState : Type 0 where
  pub account_id : ℤ
  pub phase : ProcessJobPhase
  pub pages_total : ℤ
  pub pages_done : ℤ
  pub error : Option Str
  pub started_at : ℕ
  pub finished_at : Option ℕ
  pub phases : List JobPhaseRecord
  pub elapsed_secs : ℤ

pub data BeginResult : Type 0 where
  started : ProcessJobState → BeginResult
  already_running : ProcessJobState → BeginResult

abbrev pub JobMap : Type 0
JobMap = List (ℤ × ProcessJobState)

-- `JOBS`, and the gauges `process_running_seconds` and `process_last_duration_seconds`.
pub record Registry : Type 0 where
  pub jobs : JobMap
  pub running_seconds : ℕ
  pub last_duration_seconds : ℕ

abbrev pub is_running : ProcessJobPhase → Bool
is_running running = true
is_running done = false
is_running failed = false

-- `num_seconds().max(0)` of a difference.
abbrev pub whole_seconds : ℕ → ℕ → ℕ
whole_seconds now started_at = (now - started_at) / 1_000_000_000

unfoldable pub longest_running : ℕ → JobMap → ℕ
longest_running now [] = 0
longest_running now ((k, s) ∷ m) =
    let rest = longest_running now m in
    if is_running s.phase then max (whole_seconds now s.started_at) rest else rest

unfoldable pub refresh_running_seconds : Registry → ℕ → Registry
unfolding longest_running
refresh_running_seconds r now = record r { running_seconds = longest_running now r.jobs }

unfoldable pub get_state : Registry → ℤ → Option ProcessJobState
get_state r account_id = lookup account_id r.jobs

running_in : JobMap → Bool
running_in [] = false
running_in ((k, s) ∷ m) = elim (is_running s.phase) [ true ↦ true | false ↦ running_in m ]

unfoldable pub any_running : Registry → Bool
unfolding running_in
any_running r = running_in r.jobs

abbrev pub new_job : ℤ → ℕ → ProcessJobState
new_job account_id now = record {
  account_id = account_id;
  phase = running;
  pages_total = pos 0;
  pages_done = pos 0;
  error = none;
  started_at = now;
  finished_at = none;
  phases = [];
  elapsed_secs = pos 0;
}

begin_new : Registry → ℤ → ℕ → ℕ → Registry × BeginResult
begin_new r account_id now refreshed = (
  refresh_running_seconds (record r { jobs = insert account_id (new_job account_id now) r.jobs })
      refreshed,
  started (new_job account_id now),
)

unfoldable pub try_begin : Registry → ℤ → ℕ → ℕ → Registry × BeginResult
unfolding begin_new
try_begin r account_id now refreshed = elim (lookup account_id r.jobs) [
  | none ↦ begin_new r account_id now refreshed
  | some existing ↦
      if is_running existing.phase
      then (r, already_running existing)
      else begin_new r account_id now refreshed
]

unfoldable pub set_pages_total : Registry → ℤ → ℤ → Registry
set_pages_total r account_id total = record r {
  jobs = adjust account_id (λ s. record s { pages_total = total }) r.jobs;
}

unfoldable pub record_page_done : Registry → ℤ → ℕ → Registry
record_page_done r account_id refreshed =
    refresh_running_seconds
      (record r {
        jobs = adjust account_id (λ s. record s { pages_done = succ_i32 s.pages_done }) r.jobs;
      })
      refreshed

-- What `prune_finished_jobs` retains. `started_at > now - timeout`, with the timeout moved over.
unfoldable pub survives : ℕ → ℕ → ℕ → ℕ → ProcessJobState → Bool
survives retain_secs timeout_secs now now' s =
    if is_running s.phase
    then ltb now' (s.started_at + timeout_secs * 1_000_000_000)
    else elim s.finished_at [ none ↦ true | some f ↦ ltb now (f + retain_secs * 1_000_000_000) ]

-- The two settings are `jobs_finished_retain_secs` and `jobs_running_timeout_secs`, both
-- raised to their least values, 0 and 60.
unfoldable pub prune_finished_jobs : ℤ → ℤ → Registry → ℕ → ℕ → ℕ → Registry × (ℕ × ℕ)
prune_finished_jobs jobs_finished_retain_secs jobs_running_timeout_secs r now now' refreshed =
    let retain_secs = pos_part jobs_finished_retain_secs in
    let running_timeout_secs = max (pos_part jobs_running_timeout_secs) 60 in
    let kept = retain (survives retain_secs running_timeout_secs now now') r.jobs in
    (refresh_running_seconds (record r { jobs = kept }) refreshed, (length r.jobs, length kept))

abbrev negated : ℕ → ℤ
negated zero = pos 0
negated (suc n) = negsuc n

-- `num_milliseconds()` of a difference, which is rounded towards 0.
abbrev pub millis_between : ℕ → ℕ → ℤ
millis_between started_at now =
    if leb started_at now
    then pos ((now - started_at) / 1_000_000)
    else negated ((started_at - now) / 1_000_000)

abbrev pub add_phase : Str → ℕ → ℕ → ProcessJobState → ProcessJobState
add_phase name elapsed_ms now s =
    if is_running s.phase
    then record s {
      phases = s.phases ++ record { name = name; elapsed_ms = elapsed_ms } ∷ [];
      elapsed_secs = millis_between s.started_at now;
    }
    else s

unfoldable pub record_phase : Registry → ℤ → Str → ℕ → ℕ → ℕ → Registry
record_phase r account_id name elapsed_ms now refreshed =
    refresh_running_seconds
      (record r { jobs = adjust account_id (add_phase name elapsed_ms now) r.jobs }) refreshed

abbrev pub finish_job : Result Str (Unit {0}) → ℕ → ProcessJobState → ProcessJobState
finish_job (ok _) now s = record s { phase = done; error = none; finished_at = some now }
finish_job (err e) now s = record s { phase = failed; error = some e; finished_at = some now }

abbrev pub note_duration : ℕ → Option ProcessJobState → Registry → Registry
note_duration now none r = r
note_duration now (some s) r = record r { last_duration_seconds = whole_seconds now s.started_at }

unfoldable pub finish : Registry → ℤ → Result Str (Unit {0}) → ℕ → ℕ → Registry
finish r account_id result now refreshed =
    refresh_running_seconds
      (note_duration now (lookup account_id r.jobs)
        (record r { jobs = adjust account_id (finish_job result now) r.jobs }))
      refreshed
