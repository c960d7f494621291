-- ===== src/CachePruner/Reports.antt =====
-- What a tick reports, against what it dropped.
use e621_feed.Base.{
  ℕ, ◌+◌, ◌-◌, ◌/◌, ◌^◌, ◌≤◌, ◌<◌, max, ◌≡◌, not, List, [], ◌∷◌, ◌++◌, arith, ltb, if◌then◌else◌,
  length, ◌==◌, nat_eq, list_eq, pair_eq, IsMap,
}
use e621_feed.Base.Int.{ℤ, int_eq}
use e621_feed.Base.Text.{Str, codes}
use e621_feed.ApiCache.{ApiCache, prune_api_cache, evict_api_cache_if_idle}
use e621_feed.Jobs.{Registry, prune_finished_jobs}
use e621_feed.Base.{length-retain-le}
use e621_feed.Base.Int.{pos_part}
use e621_feed.Base.Evict.{length-evict_oldest}
use e621_feed.ApiCache.{is_live}
use e621_feed.Jobs.{survives, refresh_running_seconds}
use e621_feed.Auth.{reload_revocation_set, store_revocation_set}
use e621_feed.RateLimit.{Bucket, is_idle, Table, prune_buckets}
use e621_feed.Auth.{Denylist, prune_revoked_tokens, prune_and_reload, revoked_token_retention_secs}
use e621_feed.TagRelation.{evict_if_idle, is_empty_graph, n_pairs, n_tags, empty}
use e621_feed.CachePruner.{
  Process, Settings, Surroundings, sub_usize, record_pruned, dropped_of, tick,
}

-- The increments under one label.
unfoldable pub reported : Str → List (Str × ℕ) → ℕ
reported label [] = 0
reported label ((category, n) ∷ log) =
    let rest = reported label log in if category == label then n + rest else rest

reported-append :
    (label : Str) (log more : List (Str × ℕ))
    → reported label (log ++ more) ≡ reported label log + reported label more
unfolding reported
reported-append label [] more = omega arith
reported-append label ((category, n) ∷ log) more = ground (arith, reported-append label log more)

reported-record_pruned :
    (label category : Str) (n : ℕ) (log : List (Str × ℕ))
    → reported label (record_pruned category n ++ log)
      ≡ (if category == label then n else 0) + reported label log
unfolding reported record_pruned
reported-record_pruned label category n log = ground arith

sub_usize_exact : (a b : ℕ) → a < 2 ^ 64 → b ≤ a → sub_usize a b ≡ a - b
sub_usize_exact a b h k = ground arith

-- The two numbers that an operation returns are the sizes of a table before and after it, or
-- nothing was dropped.
abbrev Accounts : (before after : ℕ) → ℕ × ℕ → Type 0
Accounts before after (b, a) = (b ≤ before) × (a ≤ b) × (b - a + after ≡ before)

prune_api_cache-Accounts :
    (c : ApiCache) (ttl now : ℕ)
    → Accounts
        (length c.entries)
        (length (prune_api_cache c ttl now).0.entries)
        (prune_api_cache c ttl now).1
unfolding prune_api_cache
prune_api_cache-Accounts c ttl now = ground (arith, length-retain-le (is_live ttl now) c.entries)

evict_api_cache_if_idle-Accounts :
    (c : ApiCache) (idle_secs now : ℕ)
    → Accounts
        (length c.entries)
        (length (evict_api_cache_if_idle c idle_secs now).0.entries)
        (evict_api_cache_if_idle c idle_secs now).1
unfolding evict_api_cache_if_idle
evict_api_cache_if_idle-Accounts c idle_secs now = ground arith

prune_finished_jobs-Accounts :
    (retain_secs timeout_secs : ℤ) (r : Registry) (now : ℕ)
    → Accounts
        (length r.jobs)
        (length (prune_finished_jobs retain_secs timeout_secs r now now now).0.jobs)
        (prune_finished_jobs retain_secs timeout_secs r now now now).1
unfolding prune_finished_jobs refresh_running_seconds
prune_finished_jobs-Accounts retain_secs timeout_secs r now = ground (
  arith,
  length-retain-le (survives (pos_part retain_secs) (max (pos_part timeout_secs) 60) now now)
      r.jobs,
)

prune_buckets-Accounts :
    (t : Table) (now : ℕ)
    → IsMap t.buckets
    → Accounts (length t.buckets) (length (prune_buckets t now).0.buckets) (prune_buckets t now).1
unfolding prune_buckets
prune_buckets-Accounts t now h = ground (
  arith,
  length-retain-le (λ b. not (is_idle now b)) t.buckets,
  length-evict_oldest (λ (b : Bucket). b.last_refill) (length t.buckets / 2) t.buckets h,
)

prune_and_reload-Accounts :
    (d : Denylist) (now : ℕ)
    → Accounts
        (length d.rows)
        (length (prune_and_reload d now).rows)
        (prune_revoked_tokens revoked_token_retention_secs now d.rows).1
unfolding prune_and_reload prune_revoked_tokens reload_revocation_set store_revocation_set
prune_and_reload-Accounts d now =
    ground
      (arith, length-retain-le (λ at. not (ltb at (now - revoked_token_retention_secs))) d.rows)

reported_last :
    (label category : Str) (n : ℕ)
    → reported label (record_pruned category n) ≡ (if category == label then n else 0)
unfolding reported record_pruned
reported_last label category n = ground arith

module _ (settings : Settings) (around : Surroundings) (p : Process) (now : ℕ) where
  abbrev after : Process
  after = (tick settings around p now).0

  abbrev count : Str → ℕ
  count label = reported label (tick settings around p now).1

  count_jobs :
      count (codes "jobs")
      ≡ dropped_of
          (prune_finished_jobs settings.jobs_finished_retain_secs settings.jobs_running_timeout_secs
            p.jobs now now now).1
  unfolding tick
  count_jobs = simp (reported-record_pruned, reported_last) (omega arith)

  count_ratelimit : count (codes "ratelimit") ≡ dropped_of (prune_buckets p.ratelimit now).1
  unfolding tick
  count_ratelimit = simp (reported-record_pruned, reported_last) (omega arith)

  count_revoked :
      count (codes "revoked")
      ≡ dropped_of
          (prune_revoked_tokens revoked_token_retention_secs
            (now / 1_000_000_000)
            p.denylist.rows).1
  unfolding tick
  count_revoked = simp (reported-record_pruned, reported_last) (omega arith)

  count_relation :
      count (codes "relation")
      ≡ dropped_of
          (evict_if_idle settings.cache_idle_eviction_secs around.relation_idle_secs p.relation).1
  unfolding tick
  count_relation = simp (reported-record_pruned, reported_last) (omega arith)

  count_api :
      count (codes "api_ttl") + count (codes "api_idle")
      ≡ dropped_of (prune_api_cache p.api settings.cache_ttl now).1
        + dropped_of
            (evict_api_cache_if_idle
              (prune_api_cache p.api settings.cache_ttl now).0
              settings.cache_idle_eviction_secs
              now).1
  unfolding tick
  count_api = simp (reported-record_pruned, reported_last) (omega arith)

  -- With fewer than 2^64 entries in each part, a tick reports exactly what it drops: of the cache of
  -- answers under its two labels together, of the jobs, of the buckets of the rate limiter, and of
  -- the revoked tokens, what is reported and what is left make up what was there.
  pub tick_reports :
      IsMap p.ratelimit.buckets
      → length p.api.entries < 2 ^ 64
      → length p.jobs.jobs < 2 ^ 64
      → length p.ratelimit.buckets < 2 ^ 64
      → length p.denylist.rows < 2 ^ 64
      → (count (codes "api_ttl") + count (codes "api_idle") + length after.api.entries
          ≡ length p.api.entries)
        × (count (codes "jobs") + length after.jobs.jobs ≡ length p.jobs.jobs)
        × (count (codes "ratelimit") + length after.ratelimit.buckets ≡ length p.ratelimit.buckets)
        × (count (codes "revoked") + length after.denylist.rows ≡ length p.denylist.rows)
  unfolding tick
  tick_reports m h1 h2 h3 h4 = (
    omega (
      arith,
      count_api,
      prune_api_cache-Accounts p.api settings.cache_ttl now,
      evict_api_cache_if_idle-Accounts (prune_api_cache p.api settings.cache_ttl now).0
          settings.cache_idle_eviction_secs now,
    ),
    omega (
      arith,
      count_jobs,
      prune_finished_jobs-Accounts settings.jobs_finished_retain_secs
          settings.jobs_running_timeout_secs p.jobs now,
    ),
    omega (arith, count_ratelimit, prune_buckets-Accounts p.ratelimit now m),
    omega (arith, count_revoked, prune_and_reload-Accounts p.denylist (now / 1_000_000_000)),
  )

  -- When an idle graph with fewer pairs than tags is evicted, the counter of dropped pairs grows by
  -- nearly 2^64: the tick takes the two numbers for the sizes before and after, but they are the
  -- pairs and the tags, and their difference wraps.
  pub tick_relation_wraps :
      n_pairs p.relation < n_tags p.relation
      → n_tags p.relation < 2 ^ 64
      → 0 < settings.cache_idle_eviction_secs
      → settings.cache_idle_eviction_secs ≤ around.relation_idle_secs
      → (after.relation ≡ empty)
        × (count (codes "relation") + n_tags p.relation ≡ 2 ^ 64 + n_pairs p.relation)
  unfolding tick evict_if_idle is_empty_graph
  tick_relation_wraps fewer small enabled idle = (ground arith, ground (arith, count_relation))
