-- ===== src/RateLimit.antt =====
-- parser-api/src/ratelimit.rs: the token buckets of the rate limiter.
-- Time is in nanoseconds. A number of tokens (an f64 of the program) is an exact multiple of
-- 1 / `unit` tokens: `per_min` tokens a minute are `per_min` such parts a nanosecond. The rounding
-- of the floats is not modelled. The locks are never poisoned.
pub mod Refill
pub mod Gc
pub mod Bound
pub mod Trace
pub mod Prune
use e621_feed.Base.{
  ℕ, ◌+◌, ◌-◌, ◌*◌, ◌/◌, Bool, not, ◌&&◌, ◌||◌, List, Option, some, none, [], ◌++◌, if◌then◌else◌,
  ltb, leb, min, max, lookup, insert, retain, length, nat_eq, list_eq,
}
use e621_feed.Base.Evict.{evict_oldest}
use e621_feed.Base.Results.{Result, ok, err}
use e621_feed.Base.Text.{Str, codes, decimal}
use e621_feed.Errors.{ApiError, too_many_requests}

abbrev pub unit : ℕ
unit = 60_000_000_000

pub record Bucket : Type 0 where
  pub tokens : ℕ
  pub last_refill : ℕ
  pub burst : ℕ

abbrev pub minutes : ℕ → ℕ
minutes n = n * 60_000_000_000

abbrev pub gc_interval : ℕ
gc_interval = minutes 5

abbrev pub gc_idle_threshold : ℕ
gc_idle_threshold = minutes 15

abbrev pub max_buckets : ℕ
max_buckets = 50_000

-- `BUCKETS` and `LAST_GC`.
pub record Table : Type 0 where
  pub buckets : List (Str × Bucket)
  pub last_gc : ℕ

unfoldable pub reset_for_tests : ℕ → Table → Table
reset_for_tests now t = record { buckets = []; last_gc = now }

-- Full, and untouched for longer than the threshold.
abbrev pub is_idle : ℕ → Bucket → Bool
is_idle now b = leb b.burst b.tokens && ltb gc_idle_threshold (now - b.last_refill)

-- Over the cap the half that was refilled longest ago goes, else what is idle.
unfoldable pub sweep : List (Str × Bucket) → ℕ → List (Str × Bucket)
sweep map now =
    if ltb max_buckets (length map)
    then evict_oldest (λ b. b.last_refill) (length map / 2) map
    else retain (λ b. not (is_idle now b)) map

unfoldable pub maybe_gc : Table → ℕ → Table
unfolding sweep
maybe_gc t now =
    if not (leb gc_interval (now - t.last_gc)) && not (ltb max_buckets (length t.buckets))
    then t
    else record { buckets = sweep t.buckets now; last_gc = now }

abbrev pub entry_or_insert : Option Bucket → Bucket → Bucket
entry_or_insert none fresh = fresh
entry_or_insert (some b) fresh = b

unfoldable pub refill : Bucket → ℕ → ℕ → ℕ → Bucket
refill bucket per_min burst_f now = record {
  tokens = min (bucket.tokens + (now - bucket.last_refill) * per_min) burst_f;
  last_refill = now;
  burst = burst_f;
}

abbrev pub full : ℕ → ℕ
full burst = max burst 1 * unit

-- The bucket of the key, refilled up to now.
unfoldable pub bucket_of : Table → Str → ℕ → ℕ → ℕ → Bucket
unfolding refill
bucket_of t key per_min burst now =
    refill
      (entry_or_insert (lookup key t.buckets)
        (record { tokens = full burst; last_refill = now; burst = full burst }))
      per_min (full burst) now

abbrev pub refusal : ℕ → ApiError
refusal per_min =
    too_many_requests
      (codes "rate limit exceeded (" ++ (decimal per_min ++ codes "/min); slow down and retry"))

unfoldable pub take_token : Bucket → Bucket
take_token bucket =
    if leb unit bucket.tokens then record bucket { tokens = bucket.tokens - unit } else bucket

-- Take one token, if there is one, and collect garbage.
unfoldable pub check : Table → Str → ℕ → ℕ → ℕ → Table × Result ApiError (Unit {0})
check t key per_min burst now =
    let bucket = bucket_of t key per_min burst now in
    (
      maybe_gc (record t { buckets = insert key (take_token bucket) t.buckets }) now,
      if leb unit bucket.tokens then ok tt else err (refusal per_min),
    )

unfoldable pub prune_buckets : Table → ℕ → Table × (ℕ × ℕ)
unfolding sweep
prune_buckets t now =
    let map = sweep t.buckets now in
    (record { buckets = map; last_gc = now }, (length t.buckets, length map))
