-- ===== src/Tests/Registry.antt =====
-- Jobs and the instance's owner, at concrete inputs.
use e621_feed.Base.{◌≡◌, refl, [], ◌∷◌, some, List, lookup, insert, adjust}
use e621_feed.Base.Int.{ℤ, pos, int_eq}
use e621_feed.Base.Results.{err}
use e621_feed.Base.Text.{codes}
use e621_feed.Jobs.{
  Registry, ProcessJobState, failed, try_begin, already_running, new_job, refresh_running_seconds,
  finish,
}
use e621_feed.Jobs.Ops.{Op, begins, ends_page, finishes, sets_total, step, run}
use e621_feed.Jobs.Invariant.{no_jobs, no_jobs-IsValid, IsConsistent, run-IsConsistent}
use e621_feed.Jobs.Exclusion.{try_begin_exclusive}
use e621_feed.Claim.{bootstrap, secret, written, Ownership}
use e621_feed.Claim.Owner.{Attempt, claims, heir, holder, holder-claims}

abbrev account : ℤ
account = pos 7

abbrev busy_day : List Op
busy_day = sets_total account (pos 3) ∷ ends_page account 150 ∷ begins (pos 8) 160 160 ∷ []

try_begin_exclusive_example :
    let r = run (try_begin no_jobs account 100 100).0 busy_day in
    (s : ProcessJobState) × (try_begin r account 200 200 ≡ (r, already_running s))
    × (s.started_at ≡ 100)
unfolding try_begin lookup
try_begin_exclusive_example =
    try_begin_exclusive no_jobs account 100 100 200 200 (new_job account 100) busy_day
      no_jobs-IsValid refl (tt, (tt, (tt, tt)))

abbrev failing_run : List Op
failing_run = begins account 100 100 ∷ finishes account (err (codes "no")) 180 180 ∷ []

abbrev failed_job : ProcessJobState
failed_job = record (new_job account 100) {
  phase = failed;
  error = some (codes "no");
  finished_at = some 180;
}

run-IsConsistent_example : IsConsistent account failed_job
unfolding run step try_begin finish lookup refresh_running_seconds insert adjust
run-IsConsistent_example = run-IsConsistent failing_run account failed_job refl

abbrev one_job : Registry
one_job = record {
  jobs = (account, new_job account 100) ∷ [];
  running_seconds = 0;
  last_duration_seconds = 0;
}

abbrev owned_by_ann : Ownership
owned_by_ann = some (written (codes "ann") (codes "2024") bootstrap)

abbrev attempts : List Attempt
attempts =
    record { token = codes "eve"; method = bootstrap; now = codes "2025" }
    ∷ record { token = codes "bob"; method = secret; now = codes "2026" }
    ∷ []

holder-claims_example : holder (claims owned_by_ann attempts) ≡ heir (some (codes "ann")) attempts
holder-claims_example = holder-claims owned_by_ann attempts
