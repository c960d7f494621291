-- ===== src/CachePruner.antt =====
-- parser-api/src/cache_pruner.rs: one tick of the thread that prunes the caches, over the parts that
-- other modules model. The clock is read once. What the tick does to the database besides is given:
-- the counts of the orphan candidates and of the shown posts, 0 where that failed, and what the
-- eviction of the IDF index reported. The catalog cleanup and the log are not modelled. A
-- subtraction of two `usize` wraps, as in a release.
pub mod Reports
use e621_feed.Base.{
  ℕ, zero, suc, ◌+◌, ◌-◌, ◌*◌, ◌/◌, ◌%◌, ◌^◌, ◌≤◌, ◌<◌, min, max, ◌≡◌, refl, sym, ap, subst, ◌∙◌,
  ◌≢◌, ◌↔◌, ◌⊎◌, inl, inr, Bool, true, false, not, ◌&&◌, ◌||◌, Option, some, none, List, [], ◌∷◌,
  ◌++◌, map, reverse, arith, ltb, leb, nat_beq, if◌then◌else◌, Bool-cases, Option-cases, length,
  take, drop, all, any, All, All-append, length-append, length-take, Eq, ◌==◌, eq_iff, eq_refl,
  nat_eq, list_eq, pair_eq, contains, lookup, insert, remove, adjust, retain, keep_if, IsMap,
  lookup-insert, lookup-remove, lookup-adjust, lookup-retain, insert-IsMap, remove-IsMap,
  adjust-IsMap, retain-IsMap,
}
use e621_feed.Base.Int.{ℤ, int_eq}
use e621_feed.Base.Text.{Str, codes}
use e621_feed.ApiCache.{ApiCache, prune_api_cache, evict_api_cache_if_idle}
use e621_feed.Jobs.{Registry, prune_finished_jobs}
use e621_feed.RateLimit.{Table, prune_buckets}
use e621_feed.Auth.{Denylist, prune_revoked_tokens, prune_and_reload, revoked_token_retention_secs}
use e621_feed.FeedSessions.{Tables, prune_expired_sessions}
use e621_feed.TagRelation.{TagRelationGraph, evict_if_idle}

-- The parts that a tick goes through.
pub record Process : Type 0 where
  pub api : ApiCache
  pub jobs : Registry
  pub ratelimit : Table
  pub denylist : Denylist
  pub sessions : Tables
  pub relation : TagRelationGraph

pub record Settings : Type 0 where
  pub cache_ttl : ℕ
  pub jobs_finished_retain_secs : ℤ
  pub jobs_running_timeout_secs : ℤ
  pub cache_idle_eviction_secs : ℕ

-- What the database and the IDF index report, and how long no request used the graph.
pub record Surroundings : Type 0 where
  pub candidates : ℕ × ℕ
  pub shown_posts : ℕ × ℕ
  pub idf_evicted : ℕ × ℕ
  pub relation_idle_secs : ℕ

abbrev pub sub_usize : ℕ → ℕ → ℕ
sub_usize a b = (a + 2 ^ 64 - b) % 2 ^ 64

-- The increment of `cache_pruned_total` under a label, if there is one.
unfoldable pub record_pruned : Str → ℕ → List (Str × ℕ)
record_pruned category dropped = if ltb 0 dropped then (category, dropped) ∷ [] else []

abbrev pub dropped_of : ℕ × ℕ → ℕ
dropped_of (before, after) = sub_usize before after

-- What is left of the parts, and the increments of the tick in their order.
unfoldable pub tick : Settings → Surroundings → Process → ℕ → Process × List (Str × ℕ)
unfolding record_pruned
tick settings around p now =
    let (api, api_diff) = prune_api_cache p.api settings.cache_ttl now in
    let (jobs, jobs_diff) =
      prune_finished_jobs settings.jobs_finished_retain_secs settings.jobs_running_timeout_secs
        p.jobs now now now in
    let (ratelimit, rl_diff) = prune_buckets p.ratelimit now in
    let seconds = now / 1_000_000_000 in
    let revoked_diff =
      (prune_revoked_tokens revoked_token_retention_secs seconds p.denylist.rows).1 in
    let denylist = prune_and_reload p.denylist seconds in
    let (sessions, pruned) = prune_expired_sessions p.sessions now in
    let (api', api_evicted) = evict_api_cache_if_idle api settings.cache_idle_eviction_secs now in
    let (relation, relation_evicted) =
      evict_if_idle settings.cache_idle_eviction_secs around.relation_idle_secs p.relation in
    (
      record {
        api = api';
        jobs = jobs;
        ratelimit = ratelimit;
        denylist = denylist;
        sessions = sessions;
        relation = relation;
      },
      record_pruned (codes "api_ttl") (dropped_of api_diff)
          ++ (record_pruned (codes "jobs") (dropped_of jobs_diff)
              ++ (record_pruned (codes "ratelimit") (dropped_of rl_diff)
                  ++ (record_pruned (codes "candidates") (dropped_of around.candidates)
                      ++ (record_pruned (codes "revoked") (dropped_of revoked_diff)
                          ++ (record_pruned (codes "shown_posts") (dropped_of around.shown_posts)
                              ++ (record_pruned (codes "api_idle") (dropped_of api_evicted)
                                  ++ (record_pruned (codes "idf") around.idf_evicted.0
                                      ++ record_pruned (codes "relation")
                                          (dropped_of relation_evicted)))))))),
    )
