-- ===== src/ApiCache.antt =====
-- parser-api/src/api.rs: the cache of answers from e621, and the fetch that goes through it. Time
-- is in nanoseconds and a duration likewise; the readings of the clock in one operation agree, and
-- a lock is never poisoned.
pub mod Bound
pub mod Entries
pub mod Fetch
pub mod Validators
use e621_feed.Base.{
  ℕ, ◌-◌, ◌+◌, ◌/◌, ◌*◌, leb, ltb, nat_beq, Bool, true, false, not, ◌&&◌, ◌||◌, List, [], ◌∷◌, ◌++◌,
  Option, some, none, if◌then◌else◌, lookup, insert, remove, adjust, retain, length, nat_eq,
  list_eq,
}
use e621_feed.Base.Evict.{evict_oldest}
use e621_feed.Base.Results.{Result, ok, err}
use e621_feed.Base.Text.{Str, codes}
use mathlib.Core.Option

pub record CachedBody : Type 0 where
  pub body : Str
  pub etag : Option Str
  pub inserted_at : ℕ

abbrev pub BodyMap : Type 0
BodyMap = List (Str × CachedBody)

-- `API_CACHE` and `API_CACHE_LAST_ACCESS`.
pub record ApiCache : Type 0 where
  pub entries : BodyMap
  pub last_access : ℕ

unfoldable pub touch_api_cache_access : ApiCache → ℕ → ApiCache
touch_api_cache_access c now = record c { last_access = now }

abbrev pub is_live : ℕ → ℕ → CachedBody → Bool
is_live ttl now v = ltb (now - v.inserted_at) ttl

abbrev pub body_in : BodyMap → Str → ℕ → ℕ → Option Str
body_in m url ttl now = elim (lookup url m) [
  | none ↦ none
  | some v ↦ if is_live ttl now v then some v.body else none
]

unfoldable pub api_cache_get : ApiCache → Str → ℕ → ℕ → ApiCache × Option Str
unfolding touch_api_cache_access
api_cache_get c url ttl now =
    if nat_beq ttl 0 then (c, none) else elim (body_in c.entries url ttl now) [
      | none ↦ (c, none)
      | some body ↦ (touch_api_cache_access c now, some body)
    ]

unfoldable pub clear_api_cache : ApiCache → ApiCache
clear_api_cache c = record c { entries = [] }

unfoldable pub remove_api_cache_entry : ApiCache → Str → ApiCache
remove_api_cache_entry c url = record c { entries = remove url c.entries }

-- The parser of the type is an argument.
unfoldable pub parse_cached_or_evict :
    {T : Type 0} → (Str → Result Str T) → ApiCache → Str → Str → Str → ApiCache × Result Str T
unfolding remove_api_cache_entry
parse_cached_or_evict parse c url body what = elim (parse body) [
  | ok t ↦ (c, ok t)
  | err e ↦ (remove_api_cache_entry c url, err (what ++ (codes " parse failed: " ++ e)))
]

unfoldable pub api_cache_etag : ApiCache → Str → Option Str
api_cache_etag c url = elim (lookup url c.entries) [ none ↦ none | some v ↦ v.etag ]

unfoldable pub api_cache_stale_body : ApiCache → Str → Option Str
api_cache_stale_body c url = Option.map (λ (v : CachedBody). v.body) (lookup url c.entries)

abbrev pub renew : ℕ → CachedBody → CachedBody
renew now v = record v { inserted_at = now }

unfoldable pub api_cache_refresh_ttl : ApiCache → Str → ℕ → ApiCache × Bool
api_cache_refresh_ttl c url now = elim (lookup url c.entries) [
  | none ↦ (c, false)
  | some v ↦ (record c { entries = adjust url (renew now) c.entries }, true)
]

unfoldable pub prune_api_cache : ApiCache → ℕ → ℕ → ApiCache × (ℕ × ℕ)
prune_api_cache c ttl now =
    if nat_beq ttl 0
    then (c, (0, 0))
    else let kept = retain (is_live ttl now) c.entries in
      (record c { entries = kept }, (length c.entries, length kept))

unfoldable pub evict_api_cache_if_idle : ApiCache → ℕ → ℕ → ApiCache × (ℕ × ℕ)
evict_api_cache_if_idle c idle_secs now =
    if nat_beq idle_secs 0
      || ltb ((now - c.last_access) / 1_000_000_000) idle_secs
      || nat_beq (length c.entries) 0
    then (c, (0, 0))
    else (record { entries = []; last_access = now }, (length c.entries, 0))

-- At the cap, the oldest tenth goes, and then what has expired.
unfoldable pub make_room : BodyMap → ℕ → ℕ → ℕ → BodyMap
make_room m ttl max_entries now =
    if leb max_entries (length m)
    then retain (is_live ttl now) (evict_oldest (λ v. v.inserted_at) (max_entries / 10 + 1) m)
    else m

abbrev pub new_body : Str → Option Str → ℕ → CachedBody
new_body body etag now = record { body = body; etag = etag; inserted_at = now }

unfoldable pub api_cache_put : ApiCache → Str → Str → Option Str → ℕ → ℕ → ℕ → ApiCache
unfolding make_room
api_cache_put c url body etag ttl max_entries now =
    if nat_beq ttl 0 || nat_beq max_entries 0 then c else record {
      entries = insert url (new_body body etag now) (make_room c.entries ttl max_entries now);
      last_access = now;
    }
