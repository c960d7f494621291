-- ===== src/RateLimit/Prune.antt =====
-- The sizes that the sweeps report and reach.
use e621_feed.Base.{
  ℕ, ◌+◌, ◌-◌, ◌/◌, ◌≤◌, ◌<◌, ◌≡◌, ◌⊎◌, ◌↔◌, refl, not, some, none, arith, lookup, length, IsMap,
  lookup-retain, nat_eq, list_eq,
}
use e621_feed.Base.Evict.{length-evict_oldest, evict_oldest_order}
use e621_feed.Base.Text.{Str}
use e621_feed.RateLimit.{Table, Bucket, prune_buckets, max_buckets, is_idle, gc_idle_threshold}

-- Over the cap, pruning drops the half of the table that was refilled longest ago, rounded down,
-- and reports the sizes before and after: what goes was refilled no later than what stays.
pub prune_buckets_over :
    (t : Table) (now : ℕ) (i j : Str) (gone kept : Bucket)
    → IsMap t.buckets
    → max_buckets < length t.buckets
    → lookup i t.buckets ≡ some gone
    → lookup i (prune_buckets t now).0.buckets ≡ none
    → lookup j (prune_buckets t now).0.buckets ≡ some kept
    → ((prune_buckets t now).1 ≡ (length t.buckets, length (prune_buckets t now).0.buckets))
      × (length (prune_buckets t now).0.buckets + length t.buckets / 2 ≡ length t.buckets)
      × (gone.last_refill ≤ kept.last_refill)
unfolding prune_buckets
prune_buckets_over t now i j gone kept h over at_i out stays =
    let n = length t.buckets / 2 in
    let at = λ (b : Bucket). b.last_refill in
    (
      refl,
      ground (arith, length-evict_oldest at n t.buckets h),
      ground (arith, evict_oldest_order at n i j t.buckets gone kept h at_i),
    )

-- Up to the cap, pruning keeps a bucket exactly if it is not full, or was refilled at most 15
-- minutes ago, and changes none.
pub lookup-prune_buckets :
    (t : Table) (now : ℕ) (key : Str) (b : Bucket)
    → IsMap t.buckets
    → length t.buckets ≤ max_buckets
    → (lookup key (prune_buckets t now).0.buckets ≡ some b) ↔ (
        (lookup key t.buckets ≡ some b)
        × ((b.tokens < b.burst) ⊎ (now - b.last_refill ≤ gc_idle_threshold)))
unfolding prune_buckets
lookup-prune_buckets t now key b h small = (
  λ found. ground (arith, lookup-retain (λ b. not (is_idle now b)) key t.buckets h),
  λ kept. ground (arith, lookup-retain (λ b. not (is_idle now b)) key t.buckets h),
)
