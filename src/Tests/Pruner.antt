-- ===== src/Tests/Pruner.antt =====
-- A tick of the cache pruner, at concrete inputs.
use e621_feed.Base.{
  ◌+◌, ◌^◌, ◌≡◌, refl, some, none, [], ◌∷◌, arith, length, nat_eq, list_eq, pair_eq, lookup,
}
use e621_feed.Base.Int.{pos}
use e621_feed.Base.Text.{codes}
use e621_feed.TagRelation.{TagRelationGraph, hot, empty, n_pairs, n_tags, storage_len}
use e621_feed.CachePruner.{Process, Settings, Surroundings, tick}
use e621_feed.CachePruner.Reports.{reported, tick_reports, tick_relation_wraps}

abbrev settings : Settings
settings = record {
  cache_ttl = 60;
  jobs_finished_retain_secs = pos 600;
  jobs_running_timeout_secs = pos 3600;
  cache_idle_eviction_secs = 900;
}

abbrev quiet : Surroundings
quiet = record {
  candidates = (3, 1);
  shown_posts = (0, 0);
  idf_evicted = (0, 0);
  relation_idle_secs = 1_000;
}

-- Two tags, and no pair of them.
abbrev pairless : TagRelationGraph
pairless = record { tag_to_id = []; pairs = hot []; marginals = 4 ∷ 2 ∷ []; n_posts = 5 }

abbrev process : Process
process = record {
  api = record {
    entries = (codes "/posts.json", record { body = []; etag = none; inserted_at = 1 }) ∷ [];
    last_access = 1;
  };
  jobs = record { jobs = []; running_seconds = 0; last_duration_seconds = 0 };
  ratelimit = record {
    buckets = (codes "10.0.0.1", record { tokens = 5; last_refill = 1; burst = 5 }) ∷ [];
    last_gc = 0;
  };
  denylist = record { rows = (codes "0123456789abcdef", 7) ∷ []; hot = some [] };
  sessions = record { feed_sessions = []; feed_session_posts = [] };
  relation = pairless;
}

tick_reports_example :
    let (after, log) = tick settings quiet process 90 in
    (reported (codes "api_ttl") log + reported (codes "api_idle") log + length after.api.entries
      ≡ 1)
    × (reported (codes "jobs") log + length after.jobs.jobs ≡ 0)
    × (reported (codes "ratelimit") log + length after.ratelimit.buckets ≡ 1)
    × (reported (codes "revoked") log + length after.denylist.rows ≡ 1)
unfolding lookup
tick_reports_example =
    tick_reports settings quiet process 90 (refl, tt) (omega arith) (omega arith) (omega arith)
      (omega arith)

tick_relation_wraps_example :
    let (after, log) = tick settings quiet process 90 in
    (after.relation ≡ empty)
    × (reported (codes "relation") log + n_tags pairless ≡ 2 ^ 64 + n_pairs pairless)
unfolding n_pairs n_tags storage_len
tick_relation_wraps_example =
    tick_relation_wraps settings quiet process 90 (omega arith) (omega arith) (omega arith)
      (omega arith)
