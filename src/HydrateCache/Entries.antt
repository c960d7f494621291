-- ===== src/HydrateCache/Entries.antt =====
-- What each operation on a set cache does to the entry of a key.
use e621_feed.Base.{
  ℕ, ◌-◌, ◌≤◌, ◌≡◌, List, some, arith, if◌then◌else◌, ◌==◌, lookup, insert, retain, length, IsMap,
  keep_if, lookup-insert, lookup-retain, insert-IsMap, retain-IsMap,
}
use e621_feed.Base.Evict.{evict_oldest-IsMap, length-evict_oldest, lookup-evict_oldest}
use e621_feed.Base.Int.{ℤ, int_eq}
use e621_feed.HydrateCache.{SetEntry, SetMap, is_fresh, put_set, cache_max_entries}

abbrev pub entry_time : SetEntry → ℕ
entry_time e = e.inserted_at

-- The map of `put_set` before the eviction.
abbrev pub filled : SetMap → ℤ → List ℤ → ℕ → ℕ → SetMap
filled map key set ttl now =
    insert key (record { set = set; inserted_at = now })
      (retain (λ e. is_fresh ttl now e.inserted_at) map)

pub filled-IsMap :
    (map : SetMap) (key : ℤ) (set : List ℤ) (ttl now : ℕ)
    → IsMap map
    → IsMap (filled map key set ttl now)
filled-IsMap map key set ttl now h =
    insert-IsMap key _ (retain (λ e. is_fresh ttl now e.inserted_at) map) (retain-IsMap _ map h)

pub put_set-IsMap :
    (map : SetMap) (key : ℤ) (set : List ℤ) (ttl now : ℕ)
    → IsMap map
    → IsMap (put_set map key set ttl now)
unfolding put_set
put_set-IsMap map key set ttl now h =
    let m = filled map key set ttl now in
    let v = filled-IsMap map key set ttl now h in
    ground (arith, v, evict_oldest-IsMap entry_time (length m - cache_max_entries) m v)

-- Never more entries than the cap.
pub length-put_set :
    (map : SetMap) (key : ℤ) (set : List ℤ) (ttl now : ℕ)
    → IsMap map
    → length (put_set map key set ttl now) ≤ cache_max_entries
unfolding put_set
length-put_set map key set ttl now h =
    let m = filled map key set ttl now in
    ground (
      arith,
      length-evict_oldest entry_time (length m - cache_max_entries) m
          (filled-IsMap map key set ttl now h),
    )

-- An entry after a write is the new one, or one that was there and was fresh.
pub lookup-put_set :
    (map : SetMap) (key j : ℤ) (set : List ℤ) (ttl now : ℕ) (e : SetEntry)
    → IsMap map
    → lookup j (put_set map key set ttl now) ≡ some e
    → (if key == j
        then some (record { set = set; inserted_at = now })
        else keep_if (λ e. is_fresh ttl now e.inserted_at) (lookup j map))
      ≡ some e
unfolding put_set
lookup-put_set map key j set ttl now e h found =
    let m = filled map key set ttl now in
    let fresh = λ (e : SetEntry). is_fresh ttl now e.inserted_at in
    ground (
      arith,
      lookup-evict_oldest entry_time (length m - cache_max_entries) j m {v = e},
      lookup-insert key j (record { set = set; inserted_at = now }) (retain fresh map),
      lookup-retain fresh j map h,
    )
