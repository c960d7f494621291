-- ===== src/ApiCache/Validators.antt =====
-- Conditional requests: what a fetch returns is what the server has.
use e621_feed.Base.{
  ◌++◌, ℕ, ◌≡◌, ◌≢◌, refl, arith, Bool, false, Option, some, none, lookup, IsMap, lookup-adjust,
  nat_eq, list_eq, subst, sym, ap, ◌∙◌, inl, inr, ◌⊎◌, Option-cases,
}
use mathlib.Core.Option
use e621_feed.Base.Results.{ok, Result-cases}
use e621_feed.Errors.{upstream_err_marker}
use e621_feed.Base.Text.{Str}
use e621_feed.ApiCache.{
  ApiCache, CachedBody, api_cache_put, api_cache_get, api_cache_etag, api_cache_stale_body,
  api_cache_refresh_ttl, touch_api_cache_access, renew, true, nat_beq, err, codes,
}
use e621_feed.ApiCache.Entries.{lookup-api_cache_put}
use e621_feed.ApiCache.Fetch.{
  Settings, Response, sends, start_fetch, finish_fetch, effective_ttl, is_success, on_not_modified,
  bad_status,
}

-- An honest answer about a resource with that body and tag to a request with that validator: not
-- modified only where the validator is the tag, and in full only the body, with the tag.
pub data IsHonest (body : Str) (tag sent : Option Str) : Response → Type 0 where
  unchanged :
      {r : Response} {t : Str}
      → r.status ≡ 304
      → sent ≡ some t
      → tag ≡ some t
      → IsHonest body tag sent r
  in_full :
      {r : Response}
      → r.status ≢ 304
      → is_success r.status ≡ true
      → r.text ≡ ok body
      → r.etag ≡ tag
      → IsHonest body tag sent r
  refused : {r : Response} → r.status ≢ 304 → is_success r.status ≡ false → IsHonest body tag sent r

-- A tag names one body of a URL, for good.
module _ (version : Str → Str → Str) where
  abbrev pub HasVersion : Str → Option Str → Str → Type 0
  HasVersion url none body = Unit
  HasVersion url (some t) body = body ≡ version url t

  abbrev pub Agrees : Str → Option CachedBody → Type 0
  Agrees url none = Unit
  Agrees url (some v) = HasVersion url v.etag v.body

  abbrev pub IsConsistent : ApiCache → Type 0
  IsConsistent c = (url : Str) → Agrees url (lookup url c.entries)

  put-IsConsistent :
      (c : ApiCache) (url body : Str) (etag : Option Str) (ttl max_entries now : ℕ)
      → IsMap c.entries
      → IsConsistent c
      → HasVersion url etag body
      → IsConsistent (api_cache_put c url body etag ttl max_entries now)
  put-IsConsistent c url body etag ttl max_entries now m h k j =
      by_entry (lookup j (api_cache_put c url body etag ttl max_entries now).entries) refl
    where
      by_entry :
          (o : Option CachedBody)
          → lookup j (api_cache_put c url body etag ttl max_entries now).entries ≡ o
          → Agrees j o
      by_entry none e = tt
      by_entry (some v) e =
          elim (lookup-api_cache_put c url j body etag ttl max_entries now v m e) [
            | inl (same, new) ↦
                subst (λ i. Agrees i (some v)) same (subst (λ w. Agrees url (some w)) (sym new) k)
            | inr old ↦ subst (Agrees j) old (h j)
          ]

  Agrees-renew :
      (j : Str) (now : ℕ) (o : Option CachedBody) → Agrees j o → Agrees j (Option.map (renew now) o)
  Agrees-renew j now none h = tt
  Agrees-renew j now (some v) h = h

  refresh_cases :
      (c : ApiCache) (url j : Str) (now : ℕ)
      → let o = lookup j (api_cache_refresh_ttl c url now).0.entries in
        (o ≡ lookup j c.entries) ⊎ (o ≡ Option.map (renew now) (lookup j c.entries))
  unfolding api_cache_refresh_ttl
  refresh_cases c url j now = ground (arith, lookup-adjust url j (renew now) c.entries)

  refresh-IsConsistent :
      (c : ApiCache) (url : Str) (now : ℕ)
      → IsConsistent c
      → IsConsistent (api_cache_refresh_ttl c url now).0
  refresh-IsConsistent c url now h j = elim (refresh_cases c url j now) [
    | inl e ↦ subst (Agrees j) (sym e) (h j)
    | inr e ↦ subst (Agrees j) (sym e) (Agrees-renew j now (lookup j c.entries) (h j))
  ]

  on_not_modified_cases :
      (c : ApiCache) (url : Str) (now : ℕ)
      → let c' = (on_not_modified c url now).0 in
        (c' ≡ c) ⊎ (c' ≡ touch_api_cache_access (api_cache_refresh_ttl c url now).0 now)
  on_not_modified_cases c url now = ground arith

  on_not_modified-IsConsistent :
      (c : ApiCache) (url : Str) (now : ℕ)
      → IsConsistent c
      → IsConsistent (on_not_modified c url now).0
  unfolding touch_api_cache_access
  on_not_modified-IsConsistent c url now h = elim (on_not_modified_cases c url now) [
    | inl e ↦ subst IsConsistent (sym e) h
    | inr e ↦ subst IsConsistent (sym e) (refresh-IsConsistent c url now h)
  ]

  finish_cases :
      (cfg : Settings) (c : ApiCache) (url : Str) (bypass_cache : Bool) (ttl : ℕ) (r : Response)
      (body : Str) (tag sent : Option Str) (now : ℕ)
      → IsHonest body tag sent r
      → let c' = (finish_fetch cfg c url bypass_cache ttl (ok r) now).0 in
        (c' ≡ c)
        ⊎ (c' ≡ (on_not_modified c url now).0)
        ⊎ (c' ≡ api_cache_put c url body tag (effective_ttl cfg ttl) cfg.e621_cache_max_entries now)
  unfolding finish_fetch
  finish_cases cfg c url bypass_cache ttl r body tag sent now (unchanged s e t) = ground arith
  finish_cases cfg c url bypass_cache ttl r body tag sent now (in_full s g e t) = ground arith
  finish_cases cfg c url bypass_cache ttl r body tag sent now (refused s e) = ground arith

  -- Whatever the cache is when an honest answer arrives, it still holds only bodies that their
  -- tags name.
  pub finish_fetch-IsConsistent :
      (cfg : Settings) (c : ApiCache) (url : Str) (bypass_cache : Bool) (ttl : ℕ) (r : Response)
      (body : Str) (tag sent : Option Str) (now : ℕ)
      → IsMap c.entries
      → IsConsistent c
      → HasVersion url tag body
      → IsHonest body tag sent r
      → IsConsistent (finish_fetch cfg c url bypass_cache ttl (ok r) now).0
  finish_fetch-IsConsistent cfg c url bypass_cache ttl r body tag sent now m h k honest =
      elim (finish_cases cfg c url bypass_cache ttl r body tag sent now honest) [
        | inl e ↦ subst IsConsistent (sym e) h
        | inr (inl e) ↦ subst IsConsistent (sym e) (on_not_modified-IsConsistent c url now h)
        | inr (inr e) ↦ subst IsConsistent (sym e) (
            put-IsConsistent c url body tag (effective_ttl cfg ttl) cfg.e621_cache_max_entries now m
              h k)
      ]

  -- A validator that was sent is the one that the cache holds.
  start_sends :
      (cfg : Settings) (c c' : ApiCache) (url t : Str) (bypass_cache : Bool) (ttl now : ℕ)
      (allowed : Bool)
      → start_fetch cfg c url bypass_cache ttl allowed now ≡ (c', sends (some t))
      → (c' ≡ c) × (api_cache_etag c url ≡ some t)
  unfolding start_fetch api_cache_get
  start_sends cfg c c' url t bypass_cache ttl now allowed e = ground arith

  stale_body-version :
      (c : ApiCache) (url t b : Str)
      → IsConsistent c
      → api_cache_etag c url ≡ some t
      → api_cache_stale_body c url ≡ some b
      → b ≡ version url t
  unfolding api_cache_etag api_cache_stale_body
  stale_body-version c url t b h e f = by_entry (lookup url c.entries) (h url) e f
    where
      by_entry :
          (o : Option CachedBody)
          → Agrees url o
          → elim o [ none ↦ none | some v ↦ v.etag ] ≡ some t
          → Option.map (λ (v : CachedBody). v.body) o ≡ some b
          → b ≡ version url t
      by_entry none a e f = ground arith
      by_entry (some v) a e f = let a' = subst (λ o. HasVersion url o v.body) e a in ground arith

  stale_body-some :
      (c : ApiCache) (url t : Str)
      → api_cache_etag c url ≡ some t
      → (b : Str) × (api_cache_stale_body c url ≡ some b)
  unfolding api_cache_etag api_cache_stale_body
  stale_body-some c url t e = elim (Option-cases (lookup url c.entries)) [
    | inl absent ↦ ground (arith, absent, e)
    | inr (v, held) ↦ (v.body, ground (arith, held))
  ]

  -- A 304 to a validator of the cache is answered with the body that the validator names.
  on_not_modified-version :
      (c : ApiCache) (url t : Str) (now : ℕ)
      → IsConsistent c
      → api_cache_etag c url ≡ some t
      → (on_not_modified c url now).1 ≡ ok (version url t, true)
  on_not_modified-version c url t now h e =
      let (b, held) = stale_body-some c url t e in
      ground (arith, held, stale_body-version c url t b h e held)

  -- Where every cached body is the one that its tag names, a fetch that sends a request, and gets an
  -- honest answer to it before anything else changes the cache, returns the body that the server
  -- has, whether it comes with the answer or, the server saying that nothing changed, out of the
  -- cache; only an answer that is neither a 304 nor a success makes it fail.
  pub fetch_current :
      (cfg : Settings) (c c' : ApiCache) (url : Str) (bypass_cache : Bool) (ttl now later : ℕ)
      (allowed : Bool) (r : Response) (body : Str) (tag sent : Option Str)
      → IsConsistent c
      → HasVersion url tag body
      → start_fetch cfg c url bypass_cache ttl allowed now ≡ (c', sends sent)
      → IsHonest body tag sent r
      → ((finish_fetch cfg c' url bypass_cache ttl (ok r) later).1
          ≡ ok (body, nat_beq r.status 304))
        ⊎ ((r.status ≢ 304)
            × (is_success r.status ≡ false)
            × (e : Str) × ((finish_fetch cfg c' url bypass_cache ttl (ok r) later).1 ≡ err e))
  unfolding finish_fetch
  fetch_current cfg c c' url bypass_cache ttl now later allowed r body tag sent h k s
        (unchanged {t = t} st es et) =
      let (same, held) =
        start_sends cfg c c' url t bypass_cache ttl now allowed
          (subst (λ x. start_fetch cfg c url bypass_cache ttl allowed now ≡ (c', sends x)) es s) in
      let answer =
        on_not_modified-version c' url t later (subst IsConsistent (sym same) h)
          (ap (λ x. api_cache_etag x url) same ∙ held) in
      let current : body ≡ version url t = subst (λ o. HasVersion url o body) et k in
      inl (ground (arith, st, answer, current))
  fetch_current cfg c c' url bypass_cache ttl now later allowed r body tag sent h k s
        (in_full st good es et) =
      inl (ground (arith, st, good, es))
  fetch_current cfg c c' url bypass_cache ttl now later allowed r body tag sent h k s
        (refused st bad) =
      inr (elim (Result-cases r.text) [
        | inl (text, read) ↦ (st, bad, bad_status r text, ground (arith, st, bad, read))
        | inr (e, unread) ↦ (
          st,
          bad,
          upstream_err_marker ++ (codes "body read failed: " ++ e),
          ground (arith, st, unread),
        )
      ])
