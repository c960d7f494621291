-- ===== src/FeedSessions/Expiry.antt =====
-- When a session ends, for a request and for the pruner.
use e621_feed.Base.{
  ℕ, ◌+◌, ◌-◌, ◌≤◌, ◌<◌, ◌≡◌, ◌↔◌, inl, inr, false, ◌&&◌, some, none, List, [], ◌∷◌, arith, leb,
  Option-cases, eq_iff, nat_eq, list_eq, pair_eq, contains, lookup, IsMap, lookup-retain,
  lookup-insert, eq_refl,
}
use e621_feed.Base.Int.{ℤ, int_eq}
use e621_feed.Base.Text.{Str}
use e621_feed.FeedSessions.{
  Session, SessionKey, PostKey, Tables, active, expired, get_session_shown_post_ids,
  prune_session_posts, prune_expired_sessions, touch_or_create_feed_session, is_live, minutes,
}
use e621_feed.FeedSessions.Records.{is_shown, contains-shown_of}

-- A request finds its session expired exactly when there is one that was left for 31 minutes or
-- more, and then nothing is written.
pub touch-expired :
    (db : Tables) (id : Str) (account : ℤ) (now : ℕ)
    → (touch_or_create_feed_session db id account now ≡ (db, expired)) ↔ (
        (session : Session) × (lookup (id, account) db.feed_sessions ≡ some session)
        × (session.last_accessed_at + minutes 31 ≤ now))
unfolding touch_or_create_feed_session
touch-expired db id account now = elim (Option-cases (lookup (id, account) db.feed_sessions)) [
  | inl absent ↦ (λ e. ground (arith, absent, e), λ p. ground (arith, absent, p.1))
  | inr (session, found) ↦
      (λ e. (session, found, ground (arith, found, e)), λ p. ground (arith, found, p.1, p.2))
]

lookup-prune_session_posts :
    (sessions : List (SessionKey × Session)) (cutoff : ℕ) (s : SessionKey) (q : ℤ)
    (rows : List (PostKey × (ℤ × ℕ)))
    → is_shown (lookup (s, q) (prune_session_posts sessions cutoff rows))
      ≡ (is_live cutoff (lookup s sessions) && is_shown (lookup (s, q) rows))
unfolding prune_session_posts lookup
lookup-prune_session_posts sessions cutoff s q [] = ground arith
lookup-prune_session_posts sessions cutoff s q (((o, p), row) ∷ rows) =
    ground (arith, eq_iff o s, lookup-prune_session_posts sessions cutoff s q rows)

-- Pruning keeps what the sessions that are in use were shown, and nothing of the others.
pub shown_prune :
    (db : Tables) (now : ℕ) (id : Str) (account : ℤ) (q : ℤ)
    → contains (get_session_shown_post_ids (prune_expired_sessions db now).0 id account) q ≡ (
        is_live (now - minutes 30) (lookup (id, account) db.feed_sessions)
        && contains (get_session_shown_post_ids db id account) q)
unfolding get_session_shown_post_ids prune_expired_sessions
shown_prune db now id account q = ground (
  arith,
  contains-shown_of (id, account) q
      (prune_session_posts db.feed_sessions (now - minutes 30) db.feed_session_posts),
  contains-shown_of (id, account) q db.feed_session_posts,
  lookup-prune_session_posts db.feed_sessions (now - minutes 30) (id, account) q
      db.feed_session_posts,
)

-- A session that was left for more than 30 and less than 31 minutes is still active for a request,
-- which renews it, and gone after a pruning at the same time, with all that it was shown.
pub touch_prune_differ :
    (db : Tables) (id : Str) (account : ℤ) (now : ℕ) (session : Session) (q : ℤ)
    → IsMap db.feed_sessions
    → lookup (id, account) db.feed_sessions ≡ some session
    → session.last_accessed_at + minutes 30 < now
    → now < session.last_accessed_at + minutes 31
    → ((touch_or_create_feed_session db id account now).1 ≡ active)
      × (lookup (id, account) (touch_or_create_feed_session db id account now).0.feed_sessions
          ≡ some (record session { last_accessed_at = now }))
      × (lookup (id, account) (prune_expired_sessions db now).0.feed_sessions ≡ none)
      × (contains (get_session_shown_post_ids (prune_expired_sessions db now).0 id account) q
          ≡ false)
unfolding touch_or_create_feed_session prune_expired_sessions
touch_prune_differ db id account now session q m found past before = (
  ground (arith, found),
  ground (
    arith,
    found,
    lookup-insert (id, account) (id, account) (record session { last_accessed_at = now })
        db.feed_sessions,
    eq_refl {A = SessionKey} (id, account),
  ),
  ground (
    arith,
    found,
    lookup-retain (λ x. leb (now - minutes 30) x.last_accessed_at) (id, account) db.feed_sessions m,
  ),
  ground (arith, found, shown_prune db now id account q),
)
