-- ===== src/Lib.antt =====
-- E621-Feed: a self-hosted recommendation feed over e621. A Rocket server (parser-api) links
-- accounts, imports their favourites from e621, scores posts and serves the feed, the digest and
-- the stored media; a Yew application (parser-web) shows it and reports what was seen. This
-- library models the parts of both that keep state or decide what is let through, and leaves the
-- scoring, the SQL and the rendering alone.
--
-- The parts, and the files that model them:
-- - Errors: parser-api/src/errors.rs, the error of every route and its classification from text.
-- - Validation: parser-api/src/validation.rs, the checks on requests; every `validate_*` function
--   is the definition of that name, a `Result` whose error is the `ApiError`.
-- - RateLimit: parser-api/src/ratelimit.rs, the token buckets (`check`, `maybe_gc`,
--   `prune_buckets`) over a table that is an association list with the time of the last sweep.
-- - LoadMonitor: parser-api/src/load_monitor.rs, the estimate of e621's remaining budget and the
--   gate (`wait`) that spaces the requests to e621.
-- - ApiCache: parser-api/src/api.rs, the cache of e621's answers and `fetch_authed_conditional`,
--   split where it waits for e621 into `start_fetch` and `finish_fetch`; e621 and the rate limiter
--   answer by arguments.
-- - PageFetch: parser-api/src/utils/page_fetch.rs, the loop over a favourites listing
--   of the seed binary.
-- - Pipeline: parser-api/src/pipeline.rs, the full and the incremental import of favourites, whose
--   saves and progress reports are a list of effects; e621 and the database answer by arguments,
--   the 200 pages of an incremental run are the loop's count, and the owned ids are given.
-- - Jobs: parser-api/src/jobs.rs, the registry of import jobs and its gauges.
-- - HydrateCache, SeenIds: parser-api/src/db/hydrate_cache.rs and its use by the three readers of
--   parser-api/src/db/feed.rs, with the rows of the database as an argument.
-- - Claim: parser-api/src/db/instance.rs, who owns the instance, as the optional row of its table.
-- - Blacklist: parser-api/src/utils/blacklist.rs, the rules that hide posts and shape the request.
-- - MediaRange: parser-api/src/routes/media.rs, conditional and range requests for a stored file.
-- - InteractionQueue: parser-web/src/interaction_queue.rs, the browser's buffer of interactions.
--   Its batches are what Validation checks on the server, which records them and merges them into
--   the sets of HydrateCache.
-- - TagRelation: parser-api/src/utils/tag_relation.rs, the graph of tags that stand together, and the
--   load by names of parser-api/src/db/cooccurrence.rs. Its maps are association lists, its frozen
--   pairs a sorted list with the binary search; a panic is `none`. TagRelation/Rebuild is the cached
--   global graph with the threads that rebuild it: a list of events is an interleaving of the
--   threads' atomic steps.
-- - Auth: parser-api/src/auth.rs, the guard of requests with an owner token, the origin check, and
--   the denylist of parser-api/src/db/sessions.rs with its mirror in memory.
-- - FeedSessions: parser-api/src/db/sessions.rs, the sessions of the feed and what they were shown,
--   as two association lists by the primary keys, and what `clear_feed_interactions` of
--   parser-api/src/db/feed.rs deletes of them.
-- - CachePruner: parser-api/src/cache_pruner.rs, one tick over ApiCache, Jobs, RateLimit, Auth,
--   FeedSessions and TagRelation, with the increments of its counter.
-- - TagQuery: parser-api/src/api.rs, the `tags` query for e621; its terms are kept apart until the
--   last step writes them as one text.
-- - GroupQuota: parser-api/src/utils/scorer/diversify.rs, the quota on artists and characters in the
--   first posts of a feed, whose order is given. Its promotions have a round for each key wanted.
-- - Prefetch: parser-api/src/prefetch.rs, the loop of a worker with its circuit breaker. The accounts
--   that it picks are arguments; e621 answers by a function of the number of the request.
-- - Base: what the parts share: tests, lists, association lists with the eviction of the oldest
--   entries that three caches repeat, text with the operations of `str`, integers, results.
-- - Tests: each theorem at a concrete input.
--
-- How the code is modelled: a static behind a lock is a record that an operation takes and
-- returns, a map an association list without repeated keys, the clock an argument. Text is a list
-- of Unicode scalar values. `u32` and `i32` counters wrap; the sum of two `i64` counts of tags
-- past the maximum, which panics or wraps by the settings of the build, is `none`, and the
-- theorems say when it does not occur; other sizes do not reach their bounds in the code that is
-- modelled. Tokens of the rate limiter are exact multiples of a fraction, where the program has
-- floats. Loops are structural recursion; `decimal` has fuel, one more than the number, which has
-- no more digits than that; the binary search has the length of its slice, which halves with every
-- step.
--
-- Not modelled: the rest of the scorer and the calibration, which compute with floats; the SQL
-- beyond the rows that a reader gets; encryption; file storage; the routes and the components that
-- only pass values on; logs and metrics. A lock is never poisoned (but for the mirror of the
-- denylist), and operations on one static follow each other, but in TagRelation/Rebuild and where
-- the two halves of a reload of the denylist are apart.
pub mod Base
pub mod Errors
pub mod HydrateCache
pub mod SeenIds
pub mod RateLimit
pub mod Jobs
pub mod LoadMonitor
pub mod Claim
pub mod InteractionQueue
pub mod PageFetch
pub mod MediaRange
pub mod ApiCache
pub mod Validation
pub mod Blacklist
pub mod Pipeline
pub mod TagRelation
pub mod Auth
pub mod FeedSessions
pub mod CachePruner
pub mod TagQuery
pub mod GroupQuota
pub mod Prefetch
pub mod Tests
