-- ===== src/Tests/Caches.antt =====
-- The caches, at concrete inputs.
use e621_feed.Base.{
  ℕ, ◌≡◌, refl, List, [], ◌∷◌, some, none, Bool, true, false, arith, if◌then◌else◌, ◌==◌, lookup,
  nat_eq, list_eq, ◌⊎◌, ◌≢◌,
}
use e621_feed.Base.Int.{ℤ, pos, int_eq}
use e621_feed.Base.Results.{ok, err}
use e621_feed.Base.Text.{Str, codes}
use e621_feed.HydrateCache.{SetMap, secs, recent_seen}
use e621_feed.SeenIds.{Query, get_recently_seen_post_ids, get_long_term_seen_post_ids}
use e621_feed.SeenIds.Windows.{second_window_ignored}
use e621_feed.SeenIds.Windows
use e621_feed.SeenIds.Coherence.{
  Event, reads_recent, reads_long, records, waits, no_caches, recent_query, long_query, SameIds,
  seen_ids-run, World,
}
use e621_feed.SeenIds.Coherence
use e621_feed.ApiCache.{ApiCache, api_cache_get, api_cache_etag, api_cache_stale_body}
use e621_feed.ApiCache.Fetch.{
  Settings, Response, start_fetch, finish_fetch, effective_ttl, is_success,
}
use e621_feed.ApiCache.Validators.{unchanged, IsConsistent, Agrees, fetch_current}

abbrev warm : SetMap
warm = (pos 7, record { set = pos 11 ∷ []; inserted_at = secs 10 }) ∷ []

abbrev history : List Event
history =
    reads_recent (pos 7) ∷ records (pos 7) (pos 12 ∷ []) ∷ waits (secs 5) ∷ reads_long (pos 7) ∷ []

abbrev rows : ℤ → List ℤ
rows a = pos 11 ∷ []

seen_ids-run_example :
    let w =
      Coherence.run
        (record { caches = no_caches; recent_rows = rows; long_rows = rows; now = 0 })
        history in
    (s t : List ℤ) × ((get_recently_seen_post_ids
        (recent_query w)
        w.caches
        (pos 7)
        (pos 14)
        w.now).1
      ≡ ok s)
    × ((get_long_term_seen_post_ids (long_query w) w.caches (pos 7) (pos 60) w.now).1 ≡ ok t)
    × SameIds s (w.recent_rows (pos 7))
    × SameIds t (w.long_rows (pos 7))
seen_ids-run_example = seen_ids-run rows rows 0 history (pos 7)

-- Fourteen days hold two posts, and fewer days one.
abbrev by_days : Query
by_days a days = ok (if days == pos 14 then pos 11 ∷ pos 12 ∷ [] else pos 12 ∷ [])

second_window_ignored_example :
    (get_recently_seen_post_ids by_days
      (Windows.first by_days no_caches
        (pos 7)
        (pos 14)
        (pos 7)
        (pos 11 ∷ pos 12 ∷ [])
        (secs 1)
        (secs 2))
      (pos 7)
      (pos 7)
      (secs 2)).1
    ≡ ok (pos 11 ∷ pos 12 ∷ [])
unfolding recent_seen lookup
second_window_ignored_example =
    second_window_ignored by_days no_caches (pos 7) (pos 14) (pos 7) (pos 11 ∷ pos 12 ∷ []) (secs 1)
      (secs 2) tt (omega arith) (omega arith) (omega arith) refl refl

abbrev posts_url : Str
posts_url = codes "/posts.json"

abbrev stale : ApiCache
stale = record {
  entries =
      (posts_url, record { body = codes "old"; etag = some (codes "v1"); inserted_at = 0 }) ∷ [];
  last_access = 0;
}

abbrev settings : Settings
settings = record { e621_cache_ttl_secs = 60; e621_cache_max_entries = 100 }

-- The tag v1 names the old body.
abbrev version : Str → Str → Str
version url tag = codes "old"

abbrev answer_304 : Response
answer_304 = record {
  status = 304;
  status_text = codes "304 Not Modified";
  etag = none;
  text = ok [];
}

Agrees-at_most :
    (url : Str) (b : Bool)
    → Agrees version url (
        if b
        then some (record { body = codes "old"; etag = some (codes "v1"); inserted_at = 0 })
        else none)
Agrees-at_most url true = refl
Agrees-at_most url false = tt

IsConsistent-stale : IsConsistent version stale
unfolding lookup
IsConsistent-stale url = Agrees-at_most url (posts_url == url)

fetch_current_example :
    ((finish_fetch settings stale posts_url false 0 (ok answer_304) (secs 101)).1
      ≡ ok (codes "old", true))
    ⊎ ((answer_304.status ≢ 304)
        × (is_success answer_304.status ≡ false)
        × (e : Str) × ((finish_fetch settings stale posts_url false 0 (ok answer_304) (secs 101)).1
            ≡ err e))
unfolding start_fetch finish_fetch api_cache_get effective_ttl lookup api_cache_etag
    api_cache_stale_body
fetch_current_example =
    fetch_current version settings stale stale posts_url false 0 (secs 100) (secs 101) true
      answer_304 (codes "old") (some (codes "v1")) (some (codes "v1")) IsConsistent-stale refl refl
      (unchanged refl refl refl)

abbrev three_times : List (ℤ × ℕ)
three_times = (pos 1, 30) ∷ (pos 2, 10) ∷ (pos 3, 20) ∷ []

abbrev same_time : ℕ → ℕ
same_time t = t
