-- ===== src/Jobs/Ops.antt =====
-- The operations of the registry as one type of events, for histories.
use e621_feed.Base.{ℕ, List, [], ◌∷◌}
use e621_feed.Base.Int.{ℤ}
use e621_feed.Base.Results.{Result}
use e621_feed.Base.Text.{Str}
use e621_feed.Jobs.{
  Registry, try_begin, set_pages_total, record_page_done, prune_finished_jobs, record_phase, finish,
}

-- Each with the times that it reads.
pub data Op : Type 0 where
  begins : ℤ → ℕ → ℕ → Op
  sets_total : ℤ → ℤ → Op
  ends_page : ℤ → ℕ → Op
  ends_phase : ℤ → Str → ℕ → ℕ → ℕ → Op
  finishes : ℤ → Result Str (Unit {0}) → ℕ → ℕ → Op
  prunes : ℤ → ℤ → ℕ → ℕ → ℕ → Op

unfoldable pub step : Registry → Op → Registry
step r (begins a now refreshed) = (try_begin r a now refreshed).0
step r (sets_total a total) = set_pages_total r a total
step r (ends_page a refreshed) = record_page_done r a refreshed
step r (ends_phase a name ms now refreshed) = record_phase r a name ms now refreshed
step r (finishes a result now refreshed) = finish r a result now refreshed
step r (prunes retain_secs timeout_secs now now' refreshed) =
    (prune_finished_jobs retain_secs timeout_secs r now now' refreshed).0

unfoldable pub run : Registry → List Op → Registry
run r [] = r
run r (o ∷ os) = run (step r o) os
