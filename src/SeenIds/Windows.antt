-- ===== src/SeenIds/Windows.antt =====
-- The window that a caller asks for, against the cache, whose key is the account alone.
use e621_feed.Base.{ℕ, ◌-◌, ◌≤◌, ◌<◌, ◌≡◌, List, some, none, arith, length, IsMap, eq_refl}
use e621_feed.Base.Int.{ℤ, int_eq}
use e621_feed.Base.Results.{ok}
use e621_feed.HydrateCache.{
  Caches, recent_seen, recent_seen_ttl, cache_max_entries, store_recent_seen,
}
use e621_feed.HydrateCache.Reads.{get_set-put_set}
use e621_feed.SeenIds.{Query, max_one, get_recently_seen_post_ids}

module _ (query : Query) (c : Caches) (a days other : ℤ) (set : List ℤ) (now later : ℕ) where
  abbrev pub first : Caches
  first = (get_recently_seen_post_ids query c a days now).0

  hit_after_store :
      IsMap c.recent_seen_cache
      → length c.recent_seen_cache < cache_max_entries
      → now ≤ later
      → later - now < recent_seen_ttl
      → recent_seen (store_recent_seen c a set now) a later ≡ some set
  unfolding recent_seen store_recent_seen
  hit_after_store h room order soon = ground (
    arith,
    get_set-put_set c.recent_seen_cache a a set recent_seen_ttl now later h room order,
    eq_refl a,
  )

  -- With fewer than 1024 accounts in the cache, a read of the recent ids that misses it and gets its
  -- rows fills it; a second read for the account with any number of days, with nothing in between
  -- and less than 20 seconds later, answers with the ids of the first window, whatever the rows of
  -- the second one are.
  pub second_window_ignored :
      IsMap c.recent_seen_cache
      → length c.recent_seen_cache < cache_max_entries
      → now ≤ later
      → later - now < recent_seen_ttl
      → recent_seen c a now ≡ none
      → query a (max_one days) ≡ ok set
      → (get_recently_seen_post_ids query first a other later).1 ≡ ok set
  unfolding get_recently_seen_post_ids
  second_window_ignored h room order soon miss rows =
      ground (arith, hit_after_store h room order soon)
