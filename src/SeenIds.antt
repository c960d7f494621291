-- ===== src/SeenIds.antt =====
-- parser-api/src/db/feed.rs: the ids that an account has seen, read through the caches of
-- hydrate_cache.rs. The query of the database is a parameter: for an account and a number of days
-- it gives the ids of the rows in that window, or the text of an error.
pub mod Coherence
pub mod Windows
use e621_feed.Base.{ℕ, List, Option, some, none}
use e621_feed.Base.Int.{ℤ, pos, ltb_ℤ}
use e621_feed.Base.Results.{Result, ok, err}
use e621_feed.Base.Text.{Str}
use e621_feed.Base.{if◌then◌else◌}
use e621_feed.HydrateCache.{
  Caches, recent_seen, store_recent_seen, long_term_seen, store_long_term_seen, owned, store_owned,
}

abbrev pub Query : Type 0
Query = ℤ → ℤ → Result Str (List ℤ)

-- `days.max(1)`.
abbrev pub max_one : ℤ → ℤ
max_one days = if ltb_ℤ days (pos 1) then pos 1 else days

keep_recent : Caches → ℤ → ℕ → Result Str (List ℤ) → Caches × Result Str (List ℤ)
keep_recent c account_id now (ok set) = (store_recent_seen c account_id set now, ok set)
keep_recent c account_id now (err e) = (c, err e)

unfoldable pub get_recently_seen_post_ids :
    Query → Caches → ℤ → ℤ → ℕ → Caches × Result Str (List ℤ)
unfolding keep_recent
get_recently_seen_post_ids query c account_id days now = elim (recent_seen c account_id now) [
  | some cached ↦ (c, ok cached)
  | none ↦ keep_recent c account_id now (query account_id (max_one days))
]

keep_long_term : Caches → ℤ → ℕ → Result Str (List ℤ) → Caches × Result Str (List ℤ)
keep_long_term c account_id now (ok set) = (store_long_term_seen c account_id set now, ok set)
keep_long_term c account_id now (err e) = (c, err e)

unfoldable pub get_long_term_seen_post_ids :
    Query → Caches → ℤ → ℤ → ℕ → Caches × Result Str (List ℤ)
unfolding keep_long_term
get_long_term_seen_post_ids query c account_id long_days now =
    elim (long_term_seen c account_id now) [
      | some cached ↦ (c, ok cached)
      | none ↦ keep_long_term c account_id now (query account_id (max_one long_days))
    ]

keep_owned : Caches → ℤ → ℕ → Result Str (List ℤ) → Caches × Result Str (List ℤ)
keep_owned c account_id now (ok set) = (store_owned c account_id set now, ok set)
keep_owned c account_id now (err e) = (c, err e)

-- Here the query has no window.
unfoldable pub get_owned_post_ids :
    (ℤ → Result Str (List ℤ)) → Caches → ℤ → ℕ → Caches × Result Str (List ℤ)
unfolding keep_owned
get_owned_post_ids query c account_id now = elim (owned c account_id now) [
  | some cached ↦ (c, ok cached)
  | none ↦ keep_owned c account_id now (query account_id)
]
