-- ===== src/FeedSessions/Cleared.antt =====
-- What clearing the interactions of one account leaves to the others.
use e621_feed.Base.{
  ℕ, ◌≡◌, refl, Bool, true, false, none, List, [], ◌∷◌, arith, ◌==◌, eq_iff, eq_refl, nat_eq,
  list_eq, pair_eq, contains, lookup, IsMap,
}
use e621_feed.Base.Int.{ℤ, int_eq}
use e621_feed.Base.Text.{Str}
use e621_feed.FeedSessions.{
  Session, SessionKey, PostKey, Tables, delete_sessions_of, delete_posts_of,
  clear_feed_interactions, get_session_shown_post_ids,
}
use e621_feed.FeedSessions.Records.{is_shown, contains-shown_of}

lookup-delete_sessions_of :
    (aid : ℤ) (id : Str) (account : ℤ) (rows : List (SessionKey × Session))
    → aid == account ≡ false
    → lookup (id, account) (delete_sessions_of aid rows) ≡ lookup (id, account) rows
unfolding delete_sessions_of lookup
lookup-delete_sessions_of aid id account [] other = refl
lookup-delete_sessions_of aid id account (((i, a), s) ∷ rows) other = ground (
  arith,
  other,
  eq_iff a aid,
  eq_iff a account,
  eq_iff aid account,
  eq_refl account,
  lookup-delete_sessions_of aid id account rows other,
)

delete_sessions_of-none :
    (aid : ℤ) (key : SessionKey) (rows : List (SessionKey × Session))
    → lookup key rows ≡ none
    → lookup key (delete_sessions_of aid rows) ≡ none
unfolding delete_sessions_of lookup
delete_sessions_of-none aid key [] absent = refl
delete_sessions_of-none aid key (((i, a), s) ∷ rows) absent =
    ground (arith, absent, delete_sessions_of-none aid key rows)

delete_sessions_of-IsMap :
    (aid : ℤ) (rows : List (SessionKey × Session))
    → IsMap rows
    → IsMap (delete_sessions_of aid rows)
unfolding delete_sessions_of
delete_sessions_of-IsMap aid [] m = tt
delete_sessions_of-IsMap aid (((i, a), s) ∷ rows) m =
    ground
      (arith, delete_sessions_of-none aid (i, a) rows m.0, delete_sessions_of-IsMap aid rows m.1)

is_shown-delete_posts_of :
    (aid : ℤ) (id : Str) (account : ℤ) (q : ℤ) (rows : List (PostKey × (ℤ × ℕ)))
    → aid == account ≡ false
    → is_shown (lookup ((id, account), q) (delete_posts_of aid rows))
      ≡ is_shown (lookup ((id, account), q) rows)
unfolding delete_posts_of lookup
is_shown-delete_posts_of aid id account q [] other = refl
is_shown-delete_posts_of aid id account q ((((i, a), p), row) ∷ rows) other = ground (
  arith,
  other,
  eq_iff a aid,
  eq_iff a account,
  eq_iff aid account,
  eq_refl account,
  is_shown-delete_posts_of aid id account q rows other,
)

-- Clearing an account keeps the session table a map, and the sessions of every other account, with
-- what they were shown.
pub clear_keeps :
    (in_scope : Bool) (db : Tables) (aid : ℤ) (id : Str) (account q : ℤ)
    → IsMap db.feed_sessions
    → aid == account ≡ false
    → IsMap (clear_feed_interactions in_scope db aid).0.feed_sessions
      × (lookup (id, account) (clear_feed_interactions in_scope db aid).0.feed_sessions
          ≡ lookup (id, account) db.feed_sessions)
      × (contains
            (get_session_shown_post_ids (clear_feed_interactions in_scope db aid).0 id account)
            q
          ≡ contains (get_session_shown_post_ids db id account) q)
unfolding clear_feed_interactions get_session_shown_post_ids
clear_keeps false db aid id account q m other = (m, refl, refl)
clear_keeps true db aid id account q m other = (
  delete_sessions_of-IsMap aid db.feed_sessions m,
  lookup-delete_sessions_of aid id account db.feed_sessions other,
  ground (
    arith,
    contains-shown_of (id, account) q db.feed_session_posts,
    contains-shown_of (id, account) q (delete_posts_of aid db.feed_session_posts),
    is_shown-delete_posts_of aid id account q db.feed_session_posts other,
  ),
)
