-- ===== src/FeedSessions/Isolated.antt =====
-- What others can do to a session in use: nothing.
use e621_feed.Base.{
  ◌∙◌, ℕ, ◌+◌, ◌-◌, ◌≤◌, ◌≡◌, refl, inl, inr, Bool, false, some, List, [], ◌∷◌, arith, leb,
  Option-cases, All, ◌==◌, nat_eq, list_eq, pair_eq, contains, lookup, IsMap, lookup-insert,
  lookup-retain, insert-IsMap, retain-IsMap,
}
use e621_feed.Base.Int.{ℤ, int_eq}
use e621_feed.Base.Text.{Str}
use e621_feed.FeedSessions.Cleared.{clear_keeps}
use e621_feed.FeedSessions.{
  clear_feed_interactions, Session, SessionKey, Tables, record_session_shown_posts,
  get_session_shown_post_ids, prune_expired_sessions, touch_or_create_feed_session, minutes,
}
use e621_feed.FeedSessions.Records.{shown_record_other}
use e621_feed.FeedSessions.Expiry.{shown_prune}

-- What can happen between two requests of a session: others use their sessions, interactions are
-- cleared, and the pruner runs.
pub data Op : Type 0 where
  touches : Str → ℤ → ℕ → Op
  records : Str → ℤ → List (ℤ × ℤ) → ℕ → Op
  clears : Bool → ℤ → Op
  prunes : ℕ → Op

unfoldable pub step : Tables → Op → Tables
step db (touches id account now) = (touch_or_create_feed_session db id account now).0
step db (records id account posts now) = (record_session_shown_posts db id account posts now).0
step db (clears in_scope aid) = (clear_feed_interactions in_scope db aid).0
step db (prunes now) = (prune_expired_sessions db now).0

unfoldable pub run : Tables → List Op → Tables
run db [] = db
run db (op ∷ ops) = run (step db op) ops

-- An operation of another session, a clearing of another account, or a pruning up to the time.
abbrev pub Spares : SessionKey → ℕ → Op → Type 0
Spares s limit (touches id account now) = ◌==◌ {K = SessionKey} (id, account) s ≡ false
Spares s limit (records id account posts now) = ◌==◌ {K = SessionKey} (id, account) s ≡ false
Spares s limit (clears in_scope aid) = aid == s.1 ≡ false
Spares s limit (prunes now) = now ≤ limit

record_feed_sessions :
    (db : Tables) (sid : Str) (aid : ℤ) (posts : List (ℤ × ℤ)) (now : ℕ)
    → (record_session_shown_posts db sid aid posts now).0.feed_sessions ≡ db.feed_sessions
unfolding record_session_shown_posts
record_feed_sessions db sid aid [] now = refl
record_feed_sessions db sid aid (post ∷ posts) now = ground arith

-- A session that is in use, with what it was shown.
record Holds (db : Tables) (id : Str) (account : ℤ) (session : Session) (shown : List ℤ)
    : Type 0 where
  is_map : IsMap db.feed_sessions
  in_use : lookup (id, account) db.feed_sessions ≡ some session
  same : (q : ℤ) → contains (get_session_shown_post_ids db id account) q ≡ contains shown q

module _ (id : Str) (account : ℤ) (session : Session) (shown : List ℤ) where
  touch-Holds :
      (db : Tables) (sid : Str) (aid : ℤ) (now : ℕ)
      → Holds db id account session shown
      → ◌==◌ {K = SessionKey} (sid, aid) (id, account) ≡ false
      → Holds (touch_or_create_feed_session db sid aid now).0 id account session shown
  unfolding touch_or_create_feed_session get_session_shown_post_ids
  touch-Holds db sid aid now h other = elim (Option-cases (lookup (sid, aid) db.feed_sessions)) [
    | inl absent ↦ record {
      is_map = ground (
        arith,
        absent,
        h.is_map,
        insert-IsMap (sid, aid) (record { created_at = now; last_accessed_at = now })
            db.feed_sessions h.is_map,
      );
      in_use = ground (
        arith,
        absent,
        h.in_use,
        lookup-insert (sid, aid) (id, account) (record { created_at = now; last_accessed_at = now })
            db.feed_sessions,
      );
      same = λ q. ground (arith, absent, h.same q);
    }
    | inr (old, known) ↦ record {
      is_map = ground (
        arith,
        known,
        h.is_map,
        insert-IsMap (sid, aid) (record old { last_accessed_at = now }) db.feed_sessions h.is_map,
      );
      in_use = ground (
        arith,
        known,
        h.in_use,
        lookup-insert (sid, aid) (id, account) (record old { last_accessed_at = now })
            db.feed_sessions,
      );
      same = λ q. ground (arith, known, h.same q);
    }
  ]

  record_session_shown_posts-Holds :
      (db : Tables) (sid : Str) (aid : ℤ) (posts : List (ℤ × ℤ)) (now : ℕ)
      → Holds db id account session shown
      → ◌==◌ {K = SessionKey} (sid, aid) (id, account) ≡ false
      → Holds (record_session_shown_posts db sid aid posts now).0 id account session shown
  record_session_shown_posts-Holds db sid aid posts now h other = record {
    is_map = ground (arith, record_feed_sessions db sid aid posts now, h.is_map);
    in_use = ground (arith, record_feed_sessions db sid aid posts now, h.in_use);
    same =
        λ q. ground (arith, shown_record_other db sid aid posts now id account q other, h.same q);
  }

  prune-Holds :
      (db : Tables) (now : ℕ)
      → Holds db id account session shown
      → now ≤ session.last_accessed_at + minutes 30
      → Holds (prune_expired_sessions db now).0 id account session shown
  unfolding prune_expired_sessions
  prune-Holds db now h early =
      let keep : Session → Bool = λ x. leb (now - minutes 30) x.last_accessed_at in
      record {
        is_map = retain-IsMap keep db.feed_sessions h.is_map;
        in_use =
            ground (arith, lookup-retain keep (id, account) db.feed_sessions h.is_map, h.in_use);
        same = λ q. ground (arith, shown_prune db now id account q, h.in_use, h.same q);
      }

  clear-Holds :
      (in_scope : Bool) (db : Tables) (aid : ℤ)
      → Holds db id account session shown
      → aid == account ≡ false
      → Holds (clear_feed_interactions in_scope db aid).0 id account session shown
  clear-Holds in_scope db aid h other = record {
    is_map = (clear_keeps in_scope db aid id account aid h.is_map other).0;
    in_use = (clear_keeps in_scope db aid id account aid h.is_map other).1 ∙ h.in_use;
    same = λ q. (clear_keeps in_scope db aid id account q h.is_map other).2 ∙ h.same q;
  }

  step-Holds :
      (db : Tables) (op : Op)
      → Holds db id account session shown
      → Spares (id, account) (session.last_accessed_at + minutes 30) op
      → Holds (step db op) id account session shown
  unfolding step
  step-Holds db (touches sid aid now) h other = touch-Holds db sid aid now h other
  step-Holds db (records sid aid posts now) h other =
      record_session_shown_posts-Holds db sid aid posts now h other
  step-Holds db (clears in_scope aid) h other = clear-Holds in_scope db aid h other
  step-Holds db (prunes now) h early = prune-Holds db now h early

  run-Holds :
      (ops : List Op) (db : Tables)
      → Holds db id account session shown
      → All (Spares (id, account) (session.last_accessed_at + minutes 30)) ops
      → Holds (run db ops) id account session shown
  unfolding run
  run-Holds [] db h spared = h
  run-Holds (op ∷ ops) db h spared =
      run-Holds ops (step db op) (step-Holds db op h spared.0) spared.1

-- For 30 minutes after its last request a session keeps its row and exactly the posts that it was
-- shown, whatever requests and recordings other sessions make, of the account or of others, however
-- often other accounts clear their interactions, and however often the pruner runs.
pub run_isolated :
    (db : Tables) (ops : List Op) (id : Str) (account : ℤ) (session : Session) (q : ℤ)
    → IsMap db.feed_sessions
    → lookup (id, account) db.feed_sessions ≡ some session
    → All (Spares (id, account) (session.last_accessed_at + minutes 30)) ops
    → (lookup (id, account) (run db ops).feed_sessions ≡ some session)
      × (contains (get_session_shown_post_ids (run db ops) id account) q
          ≡ contains (get_session_shown_post_ids db id account) q)
run_isolated db ops id account session q m found spared =
    let h =
      run-Holds id account session (get_session_shown_post_ids db id account) ops db
        (record { is_map = m; in_use = found; same = λ p. refl }) spared in
    (h.in_use, h.same q)
