-- ===== src/Auth.antt =====
-- parser-api/src/auth.rs and the revocation half of parser-api/src/db/sessions.rs: who a request
-- is from, and which device tokens were logged out. Rocket's parsing of a request is given as the
-- fields of `Request`; the host is the test that Rocket makes of a text against the `Host` header.
-- `debug` is `cfg!(debug_assertions)`. Times are in seconds, and the database does not fail.
pub mod Origin
pub mod Revocation
use e621_feed.Base.{
  ℕ, zero, suc, ◌+◌, ◌-◌, ◌*◌, ◌/◌, ◌%◌, ◌^◌, ◌≤◌, ◌<◌, min, max, ◌≡◌, refl, sym, ap, subst, ◌∙◌,
  ◌≢◌, ◌↔◌, ◌⊎◌, inl, inr, Bool, true, false, not, ◌&&◌, ◌||◌, Option, some, none, List, [], ◌∷◌,
  ◌++◌, map, reverse, arith, ltb, leb, nat_beq, if◌then◌else◌, Bool-cases, Option-cases, length,
  take, drop, all, any, All, All-append, length-append, length-take, Eq, ◌==◌, eq_iff, eq_refl,
  nat_eq, list_eq, pair_eq, contains, lookup, insert, remove, adjust, retain, keep_if, IsMap,
  lookup-insert, lookup-remove, lookup-adjust, lookup-retain, insert-IsMap, remove-IsMap,
  adjust-IsMap, retain-IsMap,
}
use e621_feed.Base.Results.{Result, ok, err}
use e621_feed.Base.Text.{Str, codes, eq_ignore_ascii_case, strip_prefix, split}
use e621_feed.Errors.{ApiError, unauthorized, forbidden}
use e621_feed.Validation.Fields.{validate_owner_token}

abbrev pub owner_token_max_age_days : ℕ
owner_token_max_age_days = 400

abbrev pub revoked_token_retention_secs : ℕ
revoked_token_retention_secs = (400 + 10) * 86_400

pub data Method : Type 0 where
  get put post delete options head trace connect patch : Method

pub record Request : Type 0 where
  pub method : Method
  pub sec_fetch_site : Option Str
  pub origin : Option Str
  pub host : Option (Str → Bool)
  pub owner_token : Option Str

pub record Cookie : Type 0 where
  pub name : Str
  pub value : Str
  pub http_only : Bool
  pub secure : Bool
  pub same_site_strict : Bool
  pub path : Str
  pub max_age : ℕ

unfoldable pub build_owner_cookie : Bool → Str → Cookie
build_owner_cookie debug token = record {
  name = codes "owner_token";
  value = token;
  http_only = true;
  secure = not debug;
  same_site_strict = true;
  path = codes "/api";
  max_age = owner_token_max_age_days * 86_400;
}

unfoldable pub build_owner_cookie_clear : Bool → Cookie
build_owner_cookie_clear debug = record {
  name = codes "owner_token";
  value = [];
  http_only = true;
  secure = not debug;
  same_site_strict = true;
  path = codes "/api";
  max_age = 0;
}

-- `matches!(req.method(), Method::Get | Method::Head | Method::Options)`.
abbrev pub is_safe : Method → Bool
is_safe get = true
is_safe head = true
is_safe options = true
is_safe _ = false

abbrev pub is_cross_site : Option Str → Bool
is_cross_site none = false
is_cross_site (some site) = eq_ignore_ascii_case site (codes "cross-site")

abbrev pub is_local : Str → Bool
is_local origin =
    origin == codes "http://localhost:8000"
    || (origin == codes "http://127.0.0.1:8000"
        || (origin == codes "http://localhost:8181" || origin == codes "http://127.0.0.1:8181"))

abbrev pub first_of : List Str → Option Str
first_of [] = none
first_of (x ∷ xs) = some x

abbrev pub or_else : Option Str → Option Str → Option Str
or_else none other = other
or_else (some x) other = some x

unfoldable pub origin_host : Str → Option Str
origin_host origin =
    elim (or_else (strip_prefix (codes "https://") origin)
      (strip_prefix (codes "http://") origin)) [
        | none ↦ none
        | some value ↦ first_of (split b'/' value)
      ]

abbrev pub is_host : Option (Str → Bool) → Option Str → Bool
is_host host none = false
is_host none (some origin_host) = false
is_host (some host_eq) (some origin_host) = host_eq origin_host

abbrev pub origin_allowed : Bool → Option (Str → Bool) → Option Str → Bool
origin_allowed debug host none = debug
origin_allowed debug host (some origin) =
    if debug then is_local origin else is_host host (origin_host origin)

unfoldable pub csrf_origin_is_allowed : Bool → Request → Bool
unfolding origin_host
csrf_origin_is_allowed debug req =
    if is_cross_site req.sec_fetch_site
    then false
    else if is_safe req.method
    then true
    else origin_allowed debug req.host req.origin

-- The table `revoked_tokens`, whose key is the token, and its mirror in memory: `none` when the
-- lock is poisoned.
pub record Denylist : Type 0 where
  pub rows : List (Str × ℕ)
  pub hot : Option (List Str)

-- `INSERT OR IGNORE`.
unfoldable pub revoke_token_in_db : Str → ℕ → List (Str × ℕ) → List (Str × ℕ)
revoke_token_in_db token now rows = elim (lookup token rows) [
  | none ↦ insert token now rows
  | some at ↦ rows
]

unfoldable pub load_all_revoked_tokens : List (Str × ℕ) → List Str
load_all_revoked_tokens rows = map (λ row. row.0) rows

-- The cutoff stops at 0, where the program goes below: no row is older than either.
unfoldable pub prune_revoked_tokens : ℕ → ℕ → List (Str × ℕ) → List (Str × ℕ) × (ℕ × ℕ)
prune_revoked_tokens retention_secs now rows =
    let left = retain (λ at. not (ltb at (now - retention_secs))) rows in
    (left, (length rows, length left))

-- A `HashSet` as a list.
abbrev pub insert_token : Str → List Str → List Str
insert_token token set = if contains set token then set else token ∷ set

unfoldable pub revoke : Denylist → Str → ℕ → Denylist × Bool
unfolding revoke_token_in_db
revoke d token now =
    let rows = revoke_token_in_db token now d.rows in
    elim d.hot [
      | none ↦ (record d { rows = rows }, false)
      | some set ↦ (record { rows = rows; hot = some (insert_token token set) }, true)
    ]

-- The two halves of `reload_revocation_set`: what it reads, and what it stores.
unfoldable pub store_revocation_set : Denylist → List Str → Denylist
store_revocation_set d tokens = elim d.hot [ none ↦ d | some set ↦ record d { hot = some tokens } ]

unfoldable pub reload_revocation_set : Denylist → Denylist
unfolding store_revocation_set load_all_revoked_tokens
reload_revocation_set d = store_revocation_set d (load_all_revoked_tokens d.rows)

-- The step of the cache pruner: the reload follows when rows were deleted.
unfoldable pub prune_and_reload : Denylist → ℕ → Denylist
unfolding prune_revoked_tokens reload_revocation_set
prune_and_reload d now =
    let (rows, (before, after)) = prune_revoked_tokens revoked_token_retention_secs now d.rows in
    if before == after
    then record d { rows = rows }
    else reload_revocation_set (record d { rows = rows })

-- A poisoned lock counts as revoked.
unfoldable pub is_revoked : Denylist → Str → Bool
is_revoked d token = elim d.hot [ none ↦ true | some set ↦ contains set token ]

-- What the guard answers, and the cookies that it sets.
pub record Guarded : Type 0 where
  pub cookies : List Cookie
  pub outcome : Result (ℕ × ApiError) Str

abbrev pub rejected : List Cookie → ℕ → ApiError → Guarded
rejected cookies status error = record { cookies = cookies; outcome = err (status, error) }

guard_token : Bool → Denylist → Request → Str → Guarded
unfolding csrf_origin_is_allowed is_revoked build_owner_cookie build_owner_cookie_clear
guard_token debug d req token = elim (validate_owner_token token) [
  | err e ↦ rejected (build_owner_cookie_clear debug ∷ []) 400 e
  | ok _ ↦
      if not (csrf_origin_is_allowed debug req)
      then rejected [] 403 (forbidden (codes "cross-origin state-changing request rejected"))
      else if is_revoked d token
      then rejected (build_owner_cookie_clear debug ∷ []) 401
          (unauthorized (codes "session revoked; please log in again"))
      else record { cookies = build_owner_cookie debug token ∷ []; outcome = ok token }
]

unfoldable pub from_request : Bool → Denylist → Request → Guarded
unfolding guard_token
from_request debug d req = elim req.owner_token [
  | none ↦ rejected [] 401 (unauthorized (codes "missing owner token"))
  | some token ↦ guard_token debug d req token
]
