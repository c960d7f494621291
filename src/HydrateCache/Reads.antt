-- ===== src/HydrateCache/Reads.antt =====
-- What a read gives after a write: the cache as a map whose entries live for the lifetime.
use e621_feed.Base.{
  ℕ, ◌-◌, ◌≤◌, ◌<◌, ◌≡◌, ◌≢◌, List, some, none, arith, if◌then◌else◌, ltb, ◌==◌, eq_iff, lookup,
  retain, length, IsMap, lookup-insert, lookup-retain, length-insert-le, length-retain-le,
}
use e621_feed.Base.Evict.{evict_oldest_order}
use e621_feed.Base.Int.{ℤ, int_eq}
use e621_feed.HydrateCache.{SetEntry, SetMap, is_fresh, get_set, put_set, cache_max_entries}
use e621_feed.HydrateCache.Entries.{entry_time, filled, filled-IsMap}

-- Below the cap nothing is evicted.
put_set_below :
    (map : SetMap) (key : ℤ) (set : List ℤ) (ttl now : ℕ)
    → length map < cache_max_entries
    → put_set map key set ttl now ≡ filled map key set ttl now
unfolding put_set
put_set_below map key set ttl now room =
    let kept = retain (λ (e : SetEntry). is_fresh ttl now e.inserted_at) map in
    ground (
      arith,
      length-retain-le (λ (e : SetEntry). is_fresh ttl now e.inserted_at) map,
      length-insert-le key (record { set = set; inserted_at = now }) kept,
    )

-- Below the cap, a later read gives the set that was stored for its lifetime, and for every other
-- account what it would have given before: dropping expired entries cannot be observed.
pub get_set-put_set :
    (map : SetMap) (key j : ℤ) (set : List ℤ) (ttl now later : ℕ)
    → IsMap map
    → length map < cache_max_entries
    → now ≤ later
    → get_set (put_set map key set ttl now) j ttl later ≡ (
        if key == j
        then (if ltb (later - now) ttl then some set else none)
        else get_set map j ttl later)
unfolding get_set
get_set-put_set map key j set ttl now later h room order =
    rw (put_set_below map key set ttl now room) (
      ground (
        arith,
        lookup-insert key j (record { set = set; inserted_at = now })
            (retain (λ (e : SetEntry). is_fresh ttl now e.inserted_at) map),
        lookup-retain (λ (e : SetEntry). is_fresh ttl now e.inserted_at) j map h,
      ))

-- An entry that a write drops, though it is still fresh and belongs to another account, is no
-- younger than any entry that stays: the cap evicts the oldest first.
pub put_set_evicts_oldest :
    (map : SetMap) (key i j : ℤ) (set : List ℤ) (ttl now : ℕ) (gone kept : SetEntry)
    → IsMap map
    → i ≢ key
    → lookup i map ≡ some gone
    → now - gone.inserted_at < ttl
    → lookup i (put_set map key set ttl now) ≡ none
    → lookup j (put_set map key set ttl now) ≡ some kept
    → gone.inserted_at ≤ kept.inserted_at
unfolding put_set
put_set_evicts_oldest map key i j set ttl now gone kept h other at_i fresh out stays =
    let m = filled map key set ttl now in
    ground (
      arith,
      lookup-insert key i (record { set = set; inserted_at = now })
          (retain (λ (e : SetEntry). is_fresh ttl now e.inserted_at) map),
      eq_iff key i,
      lookup-retain (λ (e : SetEntry). is_fresh ttl now e.inserted_at) i map h,
      evict_oldest_order entry_time (length m - cache_max_entries) i j m gone kept
          (filled-IsMap map key set ttl now h),
    )
