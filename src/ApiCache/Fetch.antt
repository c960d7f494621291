-- ===== src/ApiCache/Fetch.antt =====
-- `fetch_authed_conditional`, in two parts: up to the request, and from its answer on. Other
-- requests may change the cache in between, so each part takes the cache that it finds.
use e621_feed.Base.{
  ℕ, ◌*◌, ltb, leb, nat_beq, Bool, true, false, not, ◌&&◌, List, [], ◌∷◌, ◌++◌, Option, some, none,
  if◌then◌else◌, map, take,
}
use e621_feed.Base.Results.{Result, ok, err}
use e621_feed.Base.Text.{Str, codes, lines, trim}
use e621_feed.Errors.{upstream_err_marker}
use e621_feed.ApiCache.{
  ApiCache, api_cache_get, api_cache_etag, api_cache_stale_body, api_cache_refresh_ttl,
  touch_api_cache_access, api_cache_put,
}

pub record Settings : Type 0 where
  pub e621_cache_ttl_secs : ℕ
  pub e621_cache_max_entries : ℕ

-- An answer of the server: its status, as a number and in words, the `ETag`, where there is one
-- that is text, and the body, or why it could not be read.
pub record Response : Type 0 where
  pub status : ℕ
  pub status_text : Str
  pub etag : Option Str
  pub text : Result Str Str

-- What the first part does: answer from the cache, give up for the request budget, or send a
-- request with that validator.
pub data Start : Type 0 where
  hit : Str → Start
  over_budget : Str → Start
  sends : Option Str → Start

unfoldable pub effective_ttl : Settings → ℕ → ℕ
effective_ttl cfg cache_ttl_secs =
    (if ltb 0 cache_ttl_secs then cache_ttl_secs else cfg.e621_cache_ttl_secs) * 1_000_000_000

-- `allowed` is what `ratelimit::check` says.
abbrev pub ask_upstream : Bool → Option Str → Start
ask_upstream allowed etag =
    if allowed
    then sends etag
    else over_budget (codes "global e621 admin-key request limit exceeded")

abbrev pub or_ask : Bool → Str → ApiCache × Option Str → ApiCache × Start
or_ask allowed url (c, some body) = (c, hit body)
or_ask allowed url (c, none) = (c, ask_upstream allowed (api_cache_etag c url))

unfoldable pub start_fetch : Settings → ApiCache → Str → Bool → ℕ → Bool → ℕ → ApiCache × Start
start_fetch cfg c url bypass_cache cache_ttl_secs allowed now =
    if bypass_cache
    then (c, ask_upstream allowed none)
    else or_ask allowed url (api_cache_get c url (effective_ttl cfg cache_ttl_secs) now)

abbrev pub first_full : List Str → Str
first_full [] = []
first_full ([] ∷ ls) = first_full ls
first_full ((c ∷ l) ∷ ls) = c ∷ l

unfoldable pub body_preview : Str → Str
body_preview body = take 160 (first_full (map trim (lines body)))

abbrev pub no_cached_body : Str → Str
no_cached_body url =
    upstream_err_marker ++ (codes "upstream returned 304 but no cached body for " ++ url)

-- A 304: the cached body, with a new lease.
abbrev pub on_not_modified : ApiCache → Str → ℕ → ApiCache × Result Str (Str × Bool)
on_not_modified c url now = elim (api_cache_stale_body c url) [
  | none ↦ (c, err (no_cached_body url))
  | some body ↦ (touch_api_cache_access (api_cache_refresh_ttl c url now).0 now, ok (body, true))
]

-- `status.is_success()`.
abbrev pub is_success : ℕ → Bool
is_success status = leb 200 status && ltb status 300

abbrev pub bad_status : Response → Str → Str
bad_status r body =
    upstream_err_marker
    ++ (codes "returned " ++ (r.status_text ++ (codes ": " ++ body_preview body)))

abbrev pub on_body :
    Settings → ApiCache → Str → Bool → ℕ → Response → Str → ℕ → ApiCache × Result Str (Str × Bool)
on_body cfg c url bypass_cache cache_ttl_secs r body now =
    if not (is_success r.status)
    then (c, err (bad_status r body))
    else if bypass_cache
    then (c, ok (body, false))
    else (
      api_cache_put c url body r.etag (effective_ttl cfg cache_ttl_secs) cfg.e621_cache_max_entries
          now,
      ok (body, false),
    )

unfoldable pub finish_fetch :
    Settings
    → ApiCache
    → Str
    → Bool
    → ℕ
    → Result Str Response
    → ℕ
    → ApiCache × Result Str (Str × Bool)
finish_fetch cfg c url bypass_cache cache_ttl_secs (err e) now =
    (c, err (upstream_err_marker ++ (codes "request failed: " ++ e)))
finish_fetch cfg c url bypass_cache cache_ttl_secs (ok r) now =
    if nat_beq r.status 304 then on_not_modified c url now else elim r.text [
      | err e ↦ (c, err (upstream_err_marker ++ (codes "body read failed: " ++ e)))
      | ok body ↦ on_body cfg c url bypass_cache cache_ttl_secs r body now
    ]
