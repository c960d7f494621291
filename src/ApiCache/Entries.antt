-- ===== src/ApiCache/Entries.antt =====
-- What each operation on the cache of answers leaves of the entries.
use e621_feed.Base.{
  ℕ, ◌/◌, ◌+◌, ◌≡◌, ◌⊎◌, arith, Option, some, lookup, IsMap, eq_iff, lookup-insert, lookup-retain,
  nat_eq, list_eq,
}
use e621_feed.Base.Evict.{evict_oldest, evict_oldest-IsMap, lookup-evict_oldest}
use e621_feed.Base.Text.{Str}
use e621_feed.ApiCache.{ApiCache, BodyMap, CachedBody, api_cache_put, make_room, is_live, new_body}
use e621_feed.ApiCache.Bound.{body_time}

-- Making room only drops entries.
lookup-make_room :
    (m : BodyMap) (url : Str) (ttl max_entries now : ℕ) (v : CachedBody)
    → IsMap m
    → lookup url (make_room m ttl max_entries now) ≡ some v
    → lookup url m ≡ some v
unfolding make_room
lookup-make_room m url ttl max_entries now v h found =
    let n = max_entries / 10 + 1 in
    ground (
      arith,
      lookup-evict_oldest body_time n url m {v = v},
      lookup-retain (is_live ttl now) url (evict_oldest body_time n m)
          (evict_oldest-IsMap body_time n m h),
    )

-- An entry after an answer was stored is that answer, or was there before.
pub lookup-api_cache_put :
    (c : ApiCache) (url j body : Str) (etag : Option Str) (ttl max_entries now : ℕ) (v : CachedBody)
    → IsMap c.entries
    → lookup j (api_cache_put c url body etag ttl max_entries now).entries ≡ some v
    → ((url ≡ j) × (v ≡ new_body body etag now)) ⊎ (lookup j c.entries ≡ some v)
unfolding api_cache_put
lookup-api_cache_put c url j body etag ttl max_entries now v h found = ground (
  arith,
  eq_iff url j,
  lookup-insert url j (new_body body etag now) (make_room c.entries ttl max_entries now),
  lookup-make_room c.entries j ttl max_entries now v h,
)
