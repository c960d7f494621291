-- ===== src/FeedSessions.antt =====
-- The feed sessions of parser-api/src/db/sessions.rs: which posts a browser tab was shown, with the
-- one operation of parser-api/src/db/feed.rs that deletes them. The
-- tables are association lists by their primary keys. A time is in nanoseconds: the texts that the
-- program stores for it are in the order of the times. The database itself does not fail.
pub mod Records
pub mod Expiry
pub mod Isolated
pub mod Cleared
use e621_feed.Base.{
  ℕ, zero, suc, ◌+◌, ◌-◌, ◌*◌, ◌/◌, ◌%◌, ◌^◌, ◌≤◌, ◌<◌, min, max, ◌≡◌, refl, sym, ap, subst, ◌∙◌,
  ◌≢◌, ◌↔◌, ◌⊎◌, inl, inr, Bool, true, false, not, ◌&&◌, ◌||◌, Option, some, none, List, [], ◌∷◌,
  ◌++◌, map, reverse, arith, ltb, leb, nat_beq, if◌then◌else◌, Bool-cases, Option-cases, length,
  take, drop, all, any, All, All-append, length-append, length-take, Eq, ◌==◌, eq_iff, eq_refl,
  nat_eq, list_eq, pair_eq, contains, lookup, insert, remove, adjust, retain, keep_if, IsMap,
  lookup-insert, lookup-remove, lookup-adjust, lookup-retain, insert-IsMap, remove-IsMap,
  adjust-IsMap, retain-IsMap,
}
use e621_feed.Base.Int.{ℤ, int_eq}
use e621_feed.Base.Results.{Result, ok, err}
use e621_feed.Base.Text.{Str, codes}

abbrev pub minutes : ℕ → ℕ
minutes n = n * 60_000_000_000

abbrev pub feed_session_ttl_min : ℕ
feed_session_ttl_min = 30

pub data FeedSessionState : Type 0 where
  fresh active expired : FeedSessionState

pub record Session : Type 0 where
  pub created_at : ℕ
  pub last_accessed_at : ℕ

-- A session belongs to an account; its id alone does not tell whose it is.
abbrev pub SessionKey : Type 0
SessionKey = Str × ℤ

-- A row of `feed_session_posts`: its session, its post, and the position and time of showing.
abbrev pub PostKey : Type 0
PostKey = SessionKey × ℤ

pub record Tables : Type 0 where
  pub feed_sessions : List (SessionKey × Session)
  pub feed_session_posts : List (PostKey × (ℤ × ℕ))

-- The number of whole minutes, 0 when the clock went back.
abbrev pub elapsed_min : ℕ → ℕ → ℕ
elapsed_min now last = (now - last) / minutes 1

unfoldable pub touch_or_create_feed_session : Tables → Str → ℤ → ℕ → Tables × FeedSessionState
touch_or_create_feed_session db session_id account_id now =
    elim (lookup (session_id, account_id) db.feed_sessions) [
      | none ↦ (
        record db {
          feed_sessions =
              insert (session_id, account_id) (record { created_at = now; last_accessed_at = now })
                db.feed_sessions;
        },
        fresh,
      )
      | some session ↦
          if ltb feed_session_ttl_min (elapsed_min now session.last_accessed_at)
          then (db, expired)
          else (
            record db {
              feed_sessions =
                  insert (session_id, account_id) (record session { last_accessed_at = now })
                    db.feed_sessions;
            },
            active,
          )
    ]

-- `INSERT OR IGNORE`.
unfoldable pub insert_or_ignore :
    PostKey → ℤ × ℕ → List (PostKey × (ℤ × ℕ)) → List (PostKey × (ℤ × ℕ))
insert_or_ignore key row rows = elim (lookup key rows) [
  | none ↦ insert key row rows
  | some old ↦ rows
]

unfoldable pub insert_shown :
    SessionKey → ℕ → List (ℤ × ℤ) → List (PostKey × (ℤ × ℕ)) → List (PostKey × (ℤ × ℕ))
unfolding insert_or_ignore
insert_shown session now [] rows = rows
insert_shown session now ((post_id, position) ∷ posts) rows =
    insert_shown session now posts (insert_or_ignore (session, post_id) (position, now) rows)

unfoldable pub record_session_shown_posts :
    Tables → Str → ℤ → List (ℤ × ℤ) → ℕ → Tables × Result Str (Unit {0})
unfolding insert_shown
record_session_shown_posts db session_id account_id [] now = (db, ok tt)
record_session_shown_posts db session_id account_id (post ∷ posts) now =
    elim (lookup (session_id, account_id) db.feed_sessions) [
      | none ↦ (db, err (codes "session does not belong to this account"))
      | some session ↦ (
        record db {
          feed_session_posts =
              insert_shown (session_id, account_id) now (post ∷ posts) db.feed_session_posts;
        },
        ok tt,
      )
    ]

unfoldable pub shown_of : SessionKey → List (PostKey × (ℤ × ℕ)) → List ℤ
shown_of session [] = []
shown_of session (((owner, post_id), row) ∷ rows) =
    let rest = shown_of session rows in if owner == session then post_id ∷ rest else rest

unfoldable pub get_session_shown_post_ids : Tables → Str → ℤ → List ℤ
unfolding shown_of
get_session_shown_post_ids db session_id account_id =
    shown_of (session_id, account_id) db.feed_session_posts

-- `EXISTS` of a session of the row that was used since the cutoff.
abbrev pub is_live : ℕ → Option Session → Bool
is_live cutoff none = false
is_live cutoff (some session) = leb cutoff session.last_accessed_at

unfoldable pub prune_session_posts :
    List (SessionKey × Session) → ℕ → List (PostKey × (ℤ × ℕ)) → List (PostKey × (ℤ × ℕ))
prune_session_posts sessions cutoff [] = []
prune_session_posts sessions cutoff (((owner, post_id), row) ∷ rows) =
    let rest = prune_session_posts sessions cutoff rows in
    if is_live cutoff (lookup owner sessions) then ((owner, post_id), row) ∷ rest else rest

-- The posts go first, so that no row is left for the cascade of the foreign key.
unfoldable pub prune_expired_sessions : Tables → ℕ → Tables × ℕ
unfolding prune_session_posts
prune_expired_sessions db now =
    let cutoff = now - minutes feed_session_ttl_min in
    let left = retain (λ session. leb cutoff session.last_accessed_at) db.feed_sessions in
    (
      record {
        feed_sessions = left;
        feed_session_posts = prune_session_posts db.feed_sessions cutoff db.feed_session_posts;
      },
      length db.feed_sessions - length left,
    )

-- `DELETE` by the account.
unfoldable pub delete_sessions_of : ℤ → List (SessionKey × Session) → List (SessionKey × Session)
delete_sessions_of account_id [] = []
delete_sessions_of account_id (((id, account), session) ∷ rows) =
    let rest = delete_sessions_of account_id rows in
    if account == account_id then rest else ((id, account), session) ∷ rest

unfoldable pub delete_posts_of : ℤ → List (PostKey × (ℤ × ℕ)) → List (PostKey × (ℤ × ℕ))
delete_posts_of account_id [] = []
delete_posts_of account_id ((((id, account), post_id), row) ∷ rows) =
    let rest = delete_posts_of account_id rows in
    if account == account_id then rest else (((id, account), post_id), row) ∷ rest

-- What `clear_feed_interactions` of parser-api/src/db/feed.rs does to the two tables; whether the
-- device may address the account is an argument.
unfoldable pub clear_feed_interactions : Bool → Tables → ℤ → Tables × Result Str (Unit {0})
unfolding delete_sessions_of delete_posts_of
clear_feed_interactions in_scope db account_id =
    if not in_scope then (db, err (codes "Account is not in scope for this device token")) else (
      record {
        feed_sessions = delete_sessions_of account_id db.feed_sessions;
        feed_session_posts = delete_posts_of account_id db.feed_session_posts;
      },
      ok tt,
    )
