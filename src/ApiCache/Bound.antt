-- ===== src/ApiCache/Bound.antt =====
-- The cache of answers stays below its cap, one entry for a URL.
use e621_feed.Base.{
  ℕ, ◌≤◌, ◌<◌, ◌/◌, ◌+◌, arith, length, IsMap, insert-IsMap, retain-IsMap, length-insert-le,
  length-retain-le, nat_eq, list_eq, Option,
}
use e621_feed.Base.Evict.{evict_oldest, evict_oldest-IsMap, length-evict_oldest}
use e621_feed.Base.Text.{Str}
use e621_feed.ApiCache.{ApiCache, BodyMap, CachedBody, api_cache_put, make_room, is_live, new_body}

abbrev pub body_time : CachedBody → ℕ
body_time v = v.inserted_at

pub make_room-IsMap :
    (m : BodyMap) (ttl max_entries now : ℕ) → IsMap m → IsMap (make_room m ttl max_entries now)
unfolding make_room
make_room-IsMap m ttl max_entries now h =
    let gone = evict_oldest body_time (max_entries / 10 + 1) m in
    let h' = evict_oldest-IsMap body_time (max_entries / 10 + 1) m h in
    ground (arith, retain-IsMap (is_live ttl now) gone h')

-- With room for one more.
length-make_room :
    (m : BodyMap) (ttl max_entries now : ℕ)
    → IsMap m
    → length m ≤ max_entries
    → 0 < max_entries
    → length (make_room m ttl max_entries now) < max_entries
unfolding make_room
length-make_room m ttl max_entries now h l p =
    let gone = evict_oldest body_time (max_entries / 10 + 1) m in
    ground (
      arith,
      length-evict_oldest body_time (max_entries / 10 + 1) m h,
      length-retain-le (is_live ttl now) gone,
    )

-- Storing an answer keeps the cache within its cap, with one entry for a URL.
pub length-api_cache_put :
    (c : ApiCache) (url body : Str) (etag : Option Str) (ttl max_entries now : ℕ)
    → IsMap c.entries
    → length c.entries ≤ max_entries
    → let c' = api_cache_put c url body etag ttl max_entries now in
      IsMap c'.entries × (length c'.entries ≤ max_entries)
unfolding api_cache_put
length-api_cache_put c url body etag ttl max_entries now h l =
    let m = make_room c.entries ttl max_entries now in
    let h' = make_room-IsMap c.entries ttl max_entries now h in
    (
      ground (arith, insert-IsMap url (new_body body etag now) m h'),
      ground (
        arith,
        length-make_room c.entries ttl max_entries now h l,
        length-insert-le url (new_body body etag now) m,
      ),
    )
