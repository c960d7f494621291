-- ===== src/Tests/Sessions.antt =====
-- Device tokens, feed sessions and the pruner, at concrete inputs.
use e621_feed.Base.{
  ◌+◌, ◌≡◌, refl, ◌⊎◌, Bool, true, false, ◌&&◌, ◌||◌, some, none, List, [], ◌∷◌, map, arith, ◌==◌,
  nat_eq, list_eq, pair_eq, contains, lookup,
}
use e621_feed.Base.Int.{pos, int_eq, ℤ}
use e621_feed.Validation.Fields.{validate_owner_token}
use e621_feed.Base.Text.{
  byte_len, len_utf8, Str, codes, contains_char, split, strip_prefix, eq_ignore_ascii_case,
  lower_char,
}
use e621_feed.Base.Results.{ok}
use e621_feed.Auth.{
  build_owner_cookie, Denylist, Request, post, from_request, revoke, load_all_revoked_tokens,
  store_revocation_set, csrf_origin_is_allowed, is_cross_site,
}
use e621_feed.Auth.Revocation.{Op, revokes, prunes, reloads, reload_loses, run}
use e621_feed.Auth.Origin.{Names, csrf_origin_is_allowed-Names}
use e621_feed.FeedSessions.{
  Tables, Session, minutes, active, touch_or_create_feed_session, get_session_shown_post_ids,
  prune_expired_sessions, record_session_shown_posts,
}
use e621_feed.FeedSessions.Records.{shown_record}
use e621_feed.FeedSessions.Expiry.{touch_prune_differ}
use e621_feed.FeedSessions.Isolated.{clears, touches, records, run_isolated}
use e621_feed.FeedSessions.Isolated

abbrev token : Str
token = codes "0123456789abcdef"

abbrev logged_out : Denylist
logged_out = record { rows = (token, 1_000) ∷ []; hot = some (token ∷ []) }

abbrev from_browser : Request
from_browser = record {
  method = post;
  sec_fetch_site = some (codes "same-origin");
  origin = some (codes "https://feed.example/app");
  host = some (λ h. h == codes "feed.example");
  owner_token = some token;
}

abbrev a_year : List Op
a_year = revokes (codes "fedcba9876543210") 2_000 ∷ prunes 31_000_000 ∷ reloads ∷ []

abbrev nobody_out : Denylist
nobody_out = record { rows = []; hot = some [] }

reload_loses_example :
    let tokens = load_all_revoked_tokens nobody_out.rows in
    let after = store_revocation_set (revoke nobody_out token 5).0 tokens in
    (lookup token after.rows ≡ some 5)
    × ((from_request false after from_browser).outcome ≡ ok token)
    × ((from_request false after from_browser).cookies ≡ build_owner_cookie false token ∷ [])
unfolding lookup csrf_origin_is_allowed split strip_prefix eq_ignore_ascii_case lower_char
    validate_owner_token byte_len len_utf8
reload_loses_example =
    reload_loses false nobody_out from_browser [] token 5 refl refl refl refl refl

csrf_origin_is_allowed-Names_example :
    (is_cross_site from_browser.sec_fetch_site ≡ false)
    × ((origin : Str) × (host : Str) × (host_eq : Str → Bool) × (from_browser.origin ≡ some origin)
        × (from_browser.host ≡ some host_eq)
        × (host_eq host ≡ true)
        × (contains_char b'/' host ≡ false)
        × (Names (codes "https://") host origin ⊎ Names (codes "http://") host origin))
unfolding csrf_origin_is_allowed split strip_prefix eq_ignore_ascii_case lower_char
csrf_origin_is_allowed-Names_example = csrf_origin_is_allowed-Names from_browser refl refl

abbrev tab : Str
tab = codes "tab-0001"

abbrev used : Session
used = record { created_at = 0; last_accessed_at = minutes 10 }

abbrev tables : Tables
tables = record {
  feed_sessions = ((tab, pos 7), used) ∷ [];
  feed_session_posts = (((tab, pos 7), pos 11), (pos 0, minutes 1)) ∷ [];
}

shown_record_example :
    contains
      (get_session_shown_post_ids
        (record_session_shown_posts tables tab (pos 7) ((pos 12, pos 1) ∷ []) (minutes 11)).0
        tab
        (pos 7))
      (pos 12)
    ≡ (((tab == tab && pos 7 == pos 7)
          && contains (map (λ (x : ℤ × ℤ). x.0) ((pos 12, pos 1) ∷ [])) (pos 12))
        || contains (get_session_shown_post_ids tables tab (pos 7)) (pos 12))
unfolding lookup
shown_record_example =
    shown_record tables tab (pos 7) ((pos 12, pos 1) ∷ []) (minutes 11) used tab (pos 7) (pos 12)
      refl

touch_prune_differ_example :
    ((touch_or_create_feed_session tables tab (pos 7) (minutes 40 + 1)).1 ≡ active)
    × (lookup
          (tab, pos 7)
          (touch_or_create_feed_session tables tab (pos 7) (minutes 40 + 1)).0.feed_sessions
        ≡ some (record used { last_accessed_at = minutes 40 + 1 }))
    × (lookup (tab, pos 7) (prune_expired_sessions tables (minutes 40 + 1)).0.feed_sessions ≡ none)
    × (contains
          (get_session_shown_post_ids
            (prune_expired_sessions tables (minutes 40 + 1)).0
            tab
            (pos 7))
          (pos 11)
        ≡ false)
unfolding lookup
touch_prune_differ_example =
    touch_prune_differ tables tab (pos 7) (minutes 40 + 1) used (pos 11) (refl, tt) refl
      (omega arith) (omega arith)

abbrev others : List Isolated.Op
others =
    touches tab (pos 8) (minutes 12)
    ∷ records tab (pos 8) ((pos 13, pos 0) ∷ []) (minutes 12)
    ∷ clears true (pos 8)
    ∷ Isolated.prunes (minutes 40)
    ∷ []

run_isolated_example :
    (lookup (tab, pos 7) (Isolated.run tables others).feed_sessions ≡ some used)
    × (contains (get_session_shown_post_ids (Isolated.run tables others) tab (pos 7)) (pos 11)
        ≡ contains (get_session_shown_post_ids tables tab (pos 7)) (pos 11))
unfolding lookup
run_isolated_example =
    run_isolated tables others tab (pos 7) used (pos 11) (refl, tt) refl
      (refl, (refl, (refl, (omega arith, tt))))
