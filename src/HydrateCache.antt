-- ===== src/HydrateCache.antt =====
-- parser-api/src/db/hydrate_cache.rs: the per-account caches of id sets, with a short lifetime.
-- A cache is a map; the clock is an argument, in nanoseconds. `Instant` differences stop at 0.
-- The lock of a cache is never poisoned here.
pub mod Entries
pub mod Reads
pub mod Merge
use e621_feed.Base.{
  ℕ, ◌+◌, ◌-◌, ◌*◌, ◌≡◌, Bool, List, [], ◌∷◌, Option, some, none, if◌then◌else◌, ltb, leb, lookup,
  insert, remove, retain, adjust, length, contains,
}
use e621_feed.Base.Evict.{evict_oldest}
use e621_feed.Base.Int.{ℤ, int_eq}

abbrev pub cache_max_entries : ℕ
cache_max_entries = 1024

abbrev pub secs : ℕ → ℕ
secs n = n * 1_000_000_000

pub record SetEntry : Type 0 where
  pub set : List ℤ
  pub inserted_at : ℕ

pub record IdsEntry : Type 0 where
  pub ids : List ℤ
  pub inserted_at : ℕ

abbrev pub SetMap : Type 0
SetMap = List (ℤ × SetEntry)

abbrev pub IdsMap : Type 0
IdsMap = List (ℤ × IdsEntry)

-- `entry.inserted_at.elapsed() < ttl`.
abbrev pub is_fresh : ℕ → ℕ → ℕ → Bool
is_fresh ttl now inserted_at = ltb (now - inserted_at) ttl

unfoldable pub get_set : SetMap → ℤ → ℕ → ℕ → Option (List ℤ)
get_set map key ttl now = elim (lookup key map) [
  | none ↦ none
  | some entry ↦ if is_fresh ttl now entry.inserted_at then some entry.set else none
]

unfoldable pub evict_oldest_set : SetMap → SetMap
evict_oldest_set map =
    if leb (length map) cache_max_entries
    then map
    else evict_oldest (λ e. e.inserted_at) (length map - cache_max_entries) map

unfoldable pub put_set : SetMap → ℤ → List ℤ → ℕ → ℕ → SetMap
unfolding evict_oldest_set
put_set map key set ttl now = evict_oldest_set (
    insert key (record { set = set; inserted_at = now })
      (retain (λ e. is_fresh ttl now e.inserted_at) map))

unfoldable pub clear_set : SetMap → ℤ → SetMap
clear_set map key = remove key map

-- `HashSet::extend`.
unfoldable pub extend : List ℤ → List ℤ → List ℤ
extend set [] = set
extend set (id ∷ ids) = extend (if contains set id then set else id ∷ set) ids

-- `Arc::make_mut(&mut entry.set).extend(ids)` on an entry that is still fresh.
abbrev pub extend_entry : ℕ → ℕ → List ℤ → SetEntry → SetEntry
extend_entry ttl now ids entry =
    if leb ttl (now - entry.inserted_at) then entry else record entry { set = extend entry.set ids }

unfoldable pub merge_into : SetMap → ℤ → List ℤ → ℕ → ℕ → SetMap
unfolding extend
merge_into map key ids ttl now = adjust key (extend_entry ttl now ids) map

unfoldable pub get_ids : IdsMap → ℤ → ℕ → ℕ → Option (List ℤ)
get_ids map key ttl now = elim (lookup key map) [
  | none ↦ none
  | some entry ↦ if is_fresh ttl now entry.inserted_at then some entry.ids else none
]

abbrev pub candidate_ttl : ℕ
candidate_ttl = secs 20

evict_ids : IdsMap → IdsMap
evict_ids map =
    if ltb cache_max_entries (length map)
    then evict_oldest (λ e. e.inserted_at) (length map - cache_max_entries) map
    else map

unfoldable pub put_ids : IdsMap → ℤ → List ℤ → ℕ → IdsMap
unfolding evict_ids
put_ids map key ids now = evict_ids (
    insert key (record { ids = ids; inserted_at = now })
      (retain (λ e. is_fresh candidate_ttl now e.inserted_at) map))

unfoldable pub clear_ids : IdsMap → ℤ → IdsMap
clear_ids map key = remove key map

abbrev pub recent_seen_ttl : ℕ
recent_seen_ttl = secs 20

abbrev pub long_term_seen_ttl : ℕ
long_term_seen_ttl = secs 30

abbrev pub owned_ttl : ℕ
owned_ttl = secs 60

-- The four statics.
pub record Caches : Type 0 where
  pub recent_seen_cache : SetMap
  pub long_term_seen_cache : SetMap
  pub owned_cache : SetMap
  pub candidate_cache : IdsMap

unfoldable pub recent_seen : Caches → ℤ → ℕ → Option (List ℤ)
unfolding get_set
recent_seen c account_id now = get_set c.recent_seen_cache account_id recent_seen_ttl now

unfoldable pub store_recent_seen : Caches → ℤ → List ℤ → ℕ → Caches
store_recent_seen c account_id set now = record c {
  recent_seen_cache = put_set c.recent_seen_cache account_id set recent_seen_ttl now;
}

unfoldable pub merge_recent_seen : Caches → ℤ → List ℤ → ℕ → Caches
merge_recent_seen c account_id ids now = record c {
  recent_seen_cache = merge_into c.recent_seen_cache account_id ids recent_seen_ttl now;
}

unfoldable pub long_term_seen : Caches → ℤ → ℕ → Option (List ℤ)
unfolding get_set
long_term_seen c account_id now = get_set c.long_term_seen_cache account_id long_term_seen_ttl now

unfoldable pub store_long_term_seen : Caches → ℤ → List ℤ → ℕ → Caches
store_long_term_seen c account_id set now = record c {
  long_term_seen_cache = put_set c.long_term_seen_cache account_id set long_term_seen_ttl now;
}

unfoldable pub merge_long_term_seen : Caches → ℤ → List ℤ → ℕ → Caches
merge_long_term_seen c account_id ids now = record c {
  long_term_seen_cache = merge_into c.long_term_seen_cache account_id ids long_term_seen_ttl now;
}

unfoldable pub owned : Caches → ℤ → ℕ → Option (List ℤ)
unfolding get_set
owned c account_id now = get_set c.owned_cache account_id owned_ttl now

unfoldable pub store_owned : Caches → ℤ → List ℤ → ℕ → Caches
store_owned c account_id set now = record c {
  owned_cache = put_set c.owned_cache account_id set owned_ttl now;
}

unfoldable pub candidates : Caches → ℤ → ℕ → Option (List ℤ)
unfolding get_ids
candidates c account_id now = get_ids c.candidate_cache account_id candidate_ttl now

unfoldable pub store_candidates : Caches → ℤ → List ℤ → ℕ → Caches
store_candidates c account_id ids now = record c {
  candidate_cache = put_ids c.candidate_cache account_id ids now;
}

unfoldable pub clear_seen : Caches → ℤ → Caches
unfolding clear_set
clear_seen c account_id = record c {
  recent_seen_cache = clear_set c.recent_seen_cache account_id;
  long_term_seen_cache = clear_set c.long_term_seen_cache account_id;
}

unfoldable pub clear_owned_and_candidates : Caches → ℤ → Caches
unfolding clear_set clear_ids
clear_owned_and_candidates c account_id = record c {
  owned_cache = clear_set c.owned_cache account_id;
  candidate_cache = clear_ids c.candidate_cache account_id;
}
