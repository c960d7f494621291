-- ===== src/Tests/Limits.antt =====
-- The rate limits, at concrete inputs.
use e621_feed.Base.{ℕ, refl, List, [], ◌∷◌, ◌≤◌, ◌+◌, ◌*◌, arith, max, lookup, nat_eq, list_eq}
use e621_feed.Base.Text.{Str, codes}
use e621_feed.RateLimit.{Table, unit}
use e621_feed.RateLimit.Bound.{Call, elapsed, granted}
use e621_feed.RateLimit.Trace.{granted_bound}
use e621_feed.LoadMonitor.{
  Priority, live, backfill, RuntimeConfig, E621LoadMonitor, new_monitor, effective_delay, Gate,
  Turn, woken, wait,
}
use e621_feed.LoadMonitor.Spacing.{run, wait_spaced}

abbrev empty_table : Table
empty_table = record { buckets = []; last_gc = 0 }

abbrev client : Str
client = codes "feed:1.2.3.4"

abbrev calls : List Call
calls =
    record { delay = 10; key = client; per_min = 60; burst = 2 }
    ∷ record { delay = 0; key = codes "other"; per_min = 5; burst = 1 }
    ∷ record { delay = 20; key = client; per_min = 60; burst = 2 }
    ∷ record { delay = 5; key = client; per_min = 60; burst = 2 }
    ∷ []

granted_bound_example :
    granted client empty_table 0 calls * unit ≤ max 2 1 * unit + elapsed calls * 60
unfolding lookup
granted_bound_example =
    granted_bound client 60 2 empty_table 0 calls
      (
        (λ e. (refl, refl, refl)),
        ((λ e. ground arith), ((λ e. (refl, refl, refl)), ((λ e. (refl, refl, refl)), tt))),
      )
      (omega arith)
      (record { is_map = tt; past = λ b e. ground arith; same_burst = λ b e. ground arith })

abbrev two_buckets : Table
two_buckets = record {
  buckets =
      (client, record { tokens = 2 * unit; last_refill = 0; burst = 2 * unit })
      ∷ (codes "other", record { tokens = unit; last_refill = 0; burst = 2 * unit })
      ∷ [];
  last_gc = 0;
}

abbrev monitor : E621LoadMonitor
monitor = new_monitor 1_000

abbrev runtime : RuntimeConfig
runtime = record {
  live_rps_delay_ms = 100;
  prefetch_rps_delay_ms = 500;
  backfill_rps_delay_ms = 800;
  backfill_live_window_ms = 3_000;
}

abbrev gate : Gate
gate = record { monitor = monitor; next_available = 0 }

abbrev turn : Priority → ℕ → Turn
turn p at = record {
  priority = p;
  seen = monitor;
  asked = at;
  locked = at;
  overslept = 0;
  late = 0;
}

wait_spaced_example :
    woken gate (turn backfill 2_000) + effective_delay monitor backfill runtime 2_000
    ≤ woken
        (run runtime (wait runtime gate (turn backfill 2_000)) (turn live 2_010 ∷ []))
        (turn live 2_020)
wait_spaced_example =
    wait_spaced runtime gate (turn backfill 2_000) (turn live 2_020) (turn live 2_010 ∷ [])
