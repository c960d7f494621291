-- ===== src/FeedSessions/Records.antt =====
-- What a session was shown: the posts recorded for it, and none of another session or account.
use e621_feed.Base.{
  ℕ, ◌≡◌, refl, Bool, true, false, ◌&&◌, ◌||◌, Option, some, none, List, [], ◌∷◌, map, arith, ◌==◌,
  eq_iff, nat_eq, list_eq, pair_eq, contains, lookup, IsMap, lookup-insert, Option-cases, inl, inr,
}
use e621_feed.Base.Int.{ℤ, int_eq}
use e621_feed.Base.Text.{Str}
use e621_feed.FeedSessions.{
  Session, SessionKey, PostKey, Tables, insert_or_ignore, insert_shown, record_session_shown_posts,
  shown_of, get_session_shown_post_ids,
}

-- The tables have no key twice, and every shown post has its session.
pub record IsValid (db : Tables) : Type 0 where
  pub sessions : IsMap db.feed_sessions
  pub posts : IsMap db.feed_session_posts
  pub owned :
      (s : SessionKey) (p : ℤ) (row : ℤ × ℕ)
      → lookup (s, p) db.feed_session_posts ≡ some row
      → (session : Session) × (lookup s db.feed_sessions ≡ some session)

abbrev pub is_shown : Option (ℤ × ℕ) → Bool
is_shown none = false
is_shown (some row) = true

pub contains-shown_of :
    (s : SessionKey) (p : ℤ) (rows : List (PostKey × (ℤ × ℕ)))
    → contains (shown_of s rows) p ≡ is_shown (lookup (s, p) rows)
unfolding shown_of lookup
contains-shown_of s p [] = refl
contains-shown_of s p (((o, q), row) ∷ rows) =
    ground (arith, eq_iff o s, contains-shown_of s p rows)

-- One row more, for its own session and post.
is_shown-insert_or_ignore :
    (s t : SessionKey) (p q : ℤ) (row : ℤ × ℕ) (rows : List (PostKey × (ℤ × ℕ)))
    → is_shown (lookup (t, q) (insert_or_ignore (s, p) row rows))
      ≡ ((s == t && p == q) || is_shown (lookup (t, q) rows))
unfolding insert_or_ignore
is_shown-insert_or_ignore s t p q row rows =
    ground (arith, lookup-insert (s, p) (t, q) row rows, eq_iff s t, eq_iff p q)

pub is_shown-insert_shown :
    (s t : SessionKey) (now : ℕ) (q : ℤ) (posts : List (ℤ × ℤ)) (rows : List (PostKey × (ℤ × ℕ)))
    → is_shown (lookup (t, q) (insert_shown s now posts rows))
      ≡ ((s == t && contains (map (λ x. x.0) posts) q) || is_shown (lookup (t, q) rows))
unfolding insert_shown
is_shown-insert_shown s t now q [] rows = ground arith
is_shown-insert_shown s t now q ((p, position) ∷ posts) rows = ground (
  arith,
  is_shown-insert_shown s t now q posts (insert_or_ignore (s, p) (position, now) rows),
  is_shown-insert_or_ignore s t p q (position, now) rows,
)

-- Recording for a session that the account has adds exactly the recorded posts to what that session
-- was shown, and leaves alone every session with another id or another account.
pub shown_record :
    (db : Tables) (session_id : Str) (account_id : ℤ) (posts : List (ℤ × ℤ)) (now : ℕ)
    (session : Session) (id : Str) (account : ℤ) (q : ℤ)
    → lookup (session_id, account_id) db.feed_sessions ≡ some session
    → let after = (record_session_shown_posts db session_id account_id posts now).0 in
      contains (get_session_shown_post_ids after id account) q ≡ (
        ((session_id == id && account_id == account) && contains (map (λ x. x.0) posts) q)
        || contains (get_session_shown_post_ids db id account) q)
unfolding record_session_shown_posts get_session_shown_post_ids
shown_record db sid aid [] now session id account q known = ground arith
shown_record db sid aid (post ∷ posts) now session id account q known = ground (
  arith,
  known,
  contains-shown_of (id, account) q
      (insert_shown (sid, aid) now (post ∷ posts) db.feed_session_posts),
  contains-shown_of (id, account) q db.feed_session_posts,
  is_shown-insert_shown (sid, aid) (id, account) now q (post ∷ posts) db.feed_session_posts,
)

-- A call for another session or account changes nothing, whether it is refused or not.
pub shown_record_other :
    (db : Tables) (sid : Str) (aid : ℤ) (posts : List (ℤ × ℤ)) (now : ℕ) (id : Str) (account : ℤ)
    (q : ℤ)
    → ◌==◌ {K = SessionKey} (sid, aid) (id, account) ≡ false
    → contains
        (get_session_shown_post_ids (record_session_shown_posts db sid aid posts now).0 id account)
        q
      ≡ contains (get_session_shown_post_ids db id account) q
unfolding record_session_shown_posts
shown_record_other db sid aid [] now id account q other = refl
shown_record_other db sid aid (post ∷ posts) now id account q other =
    elim (Option-cases (lookup (sid, aid) db.feed_sessions)) [
      | inl absent ↦ ground (arith, absent)
      | inr (session, known) ↦
          ground
            (arith, known, shown_record db sid aid (post ∷ posts) now session id account q known)
    ]
