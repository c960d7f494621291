-- ===== src/SeenIds/Coherence.antt =====
-- The caches against the rows of the database, over any history of reads and writes.
use e621_feed.Base.{
  ℕ, ◌+◌, ◌≡◌, refl, true, ◌||◌, List, [], ◌∷◌, ◌++◌, some, arith, if◌then◌else◌, ◌==◌, eq_iff,
  lookup, contains, IsMap, Option-cases, inl, inr, lookup-remove, remove-IsMap,
}
use e621_feed.Base.Int.{ℤ, int_eq, pos}
use e621_feed.Base.Results.{ok}
use e621_feed.HydrateCache.{
  Caches, SetMap, SetEntry, is_fresh, get_set, recent_seen, long_term_seen, store_recent_seen,
  store_long_term_seen, merge_recent_seen, merge_long_term_seen, clear_seen, recent_seen_ttl,
  long_term_seen_ttl, merge_into, clear_set, put_set,
}
use e621_feed.HydrateCache.Entries.{put_set-IsMap, lookup-put_set}
use e621_feed.HydrateCache.Merge.{lookup-merge_into, merge_into-IsMap, contains-extend}
use e621_feed.SeenIds.{get_recently_seen_post_ids, get_long_term_seen_post_ids, Query}

-- The rows in the short and in the long window, each of one fixed length, and the clock.
pub record World : Type 0 where
  pub caches : Caches
  pub recent_rows : ℤ → List ℤ
  pub long_rows : ℤ → List ℤ
  pub now : ℕ

pub data Event : Type 0 where
  -- A request reads the short or the long window of an account.
  reads_recent : ℤ → Event
  reads_long : ℤ → Event
  -- Interactions are recorded: their posts join the rows, and are merged.
  records : ℤ → List ℤ → Event
  -- An interaction is taken back: the rows of the account are now others, and it is cleared.
  takes_back : ℤ → List ℤ → List ℤ → Event
  waits : ℕ → Event

abbrev pub recent_query : World → Query
recent_query w a days = ok (w.recent_rows a)

abbrev pub long_query : World → Query
long_query w a days = ok (w.long_rows a)

abbrev update : (ℤ → List ℤ) → ℤ → List ℤ → ℤ → List ℤ
update rows a ids b = if a == b then ids else rows b

pub step : World → Event → World
step w (reads_recent a) = record w {
  caches = (get_recently_seen_post_ids (recent_query w) w.caches a (pos 14) w.now).0;
}
step w (reads_long a) = record w {
  caches = (get_long_term_seen_post_ids (long_query w) w.caches a (pos 60) w.now).0;
}
step w (records a ids) = record w {
  caches = merge_long_term_seen (merge_recent_seen w.caches a ids w.now) a ids w.now;
  recent_rows = update w.recent_rows a (ids ++ w.recent_rows a);
  long_rows = update w.long_rows a (ids ++ w.long_rows a);
}
step w (takes_back a recent long) = record w {
  caches = clear_seen w.caches a;
  recent_rows = update w.recent_rows a recent;
  long_rows = update w.long_rows a long;
}
step w (waits n) = record w { now = w.now + n }

pub run : World → List Event → World
run w [] = w
run w (e ∷ es) = run (step w e) es

-- Two lists hold the same ids.
abbrev pub SameIds : List ℤ → List ℤ → Type 0
SameIds s t = (id : ℤ) → contains s id ≡ contains t id

-- Every entry that can still be read holds the ids of the rows.
pub record Mirrors (map : SetMap) (ttl now : ℕ) (rows : ℤ → List ℤ) : Type 0 where
  pub is_map : IsMap map
  pub same :
      (a : ℤ) (e : SetEntry) (id : ℤ)
      → lookup a map ≡ some e
      → is_fresh ttl now e.inserted_at ≡ true
      → contains e.set id ≡ contains (rows a) id

contains-append : (id : ℤ) (s t : List ℤ) → contains (s ++ t) id ≡ (contains s id || contains t id)
contains-append id [] t = refl
contains-append id (x ∷ s) t = ground (arith, contains-append id s t)

module _ (map : SetMap) (ttl now : ℕ) (rows : ℤ → List ℤ) (m : Mirrors map ttl now rows) where
  pub Mirrors-put_set : (a : ℤ) → Mirrors (put_set map a (rows a) ttl now) ttl now rows
  Mirrors-put_set a = record {
    is_map = put_set-IsMap map a (rows a) ttl now m.is_map;
    same = λ b e id found fresh. ground (
      arith,
      lookup-put_set map a b (rows a) ttl now e m.is_map found,
      eq_iff a b,
      m.same b e id,
    );
  }

  pub Mirrors-merge_into :
      (a : ℤ) (ids : List ℤ)
      → Mirrors (merge_into map a ids ttl now) ttl now (update rows a (ids ++ rows a))
  Mirrors-merge_into a ids = record {
    is_map = merge_into-IsMap map a ids ttl now m.is_map;
    same = λ b e id found fresh. elim (Option-cases (lookup b map)) [
      | inl absent ↦ ground (arith, lookup-merge_into map a b ids ttl now)
      | inr (old, at_b) ↦ ground (
        arith,
        lookup-merge_into map a b ids ttl now,
        eq_iff a b,
        contains-extend id old.set ids,
        contains-append id ids (rows a),
        m.same b old id,
      )
    ];
  }

  pub Mirrors-clear_set :
      (a : ℤ) (ids : List ℤ) → Mirrors (clear_set map a) ttl now (update rows a ids)
  unfolding clear_set
  Mirrors-clear_set a ids = record {
    is_map = remove-IsMap a map m.is_map;
    same = λ b e id found fresh. ground (arith, lookup-remove a b map, m.same b e id);
  }

  pub Mirrors-later : (n : ℕ) → Mirrors map ttl (now + n) rows
  Mirrors-later n = record {
    is_map = m.is_map;
    same = λ b e id found fresh. m.same b e id found (ground arith);
  }

  -- A read gives the ids of the rows.
  pub Mirrors-get_set :
      (a id : ℤ) (set : List ℤ)
      → get_set map a ttl now ≡ some set
      → contains set id ≡ contains (rows a) id
  unfolding get_set
  Mirrors-get_set a id set hit = elim (Option-cases (lookup a map)) [
    | inl absent ↦ ground arith
    | inr (e, found) ↦ ground (arith, m.same a e id)
  ]

pub record Coherent (w : World) : Type 0 where
  pub recent : Mirrors w.caches.recent_seen_cache recent_seen_ttl w.now w.recent_rows
  pub long : Mirrors w.caches.long_term_seen_cache long_term_seen_ttl w.now w.long_rows

reads_recent-Coherent : (w : World) (a : ℤ) → Coherent w → Coherent (step w (reads_recent a))
unfolding step get_recently_seen_post_ids store_recent_seen
reads_recent-Coherent w a c = elim (Option-cases (recent_seen w.caches a w.now)) [
  | inl miss ↦
      rw (miss, get_recently_seen_post_ids)
        (record { recent = Mirrors-put_set _ _ _ _ c.recent a; long = c.long })
  | inr (set, hit) ↦ rw (hit, get_recently_seen_post_ids) c
]

reads_long-Coherent : (w : World) (a : ℤ) → Coherent w → Coherent (step w (reads_long a))
unfolding step get_long_term_seen_post_ids store_long_term_seen
reads_long-Coherent w a c = elim (Option-cases (long_term_seen w.caches a w.now)) [
  | inl miss ↦
      rw (miss, get_long_term_seen_post_ids)
        (record { recent = c.recent; long = Mirrors-put_set _ _ _ _ c.long a })
  | inr (set, hit) ↦ rw (hit, get_long_term_seen_post_ids) c
]

step-Coherent : (w : World) (e : Event) → Coherent w → Coherent (step w e)
unfolding step merge_recent_seen merge_long_term_seen clear_seen
step-Coherent w (reads_recent a) c = reads_recent-Coherent w a c
step-Coherent w (reads_long a) c = reads_long-Coherent w a c
step-Coherent w (records a ids) c = record {
  recent = Mirrors-merge_into _ _ _ _ c.recent a ids;
  long = Mirrors-merge_into _ _ _ _ c.long a ids;
}
step-Coherent w (takes_back a recent long) c = record {
  recent = Mirrors-clear_set _ _ _ _ c.recent a recent;
  long = Mirrors-clear_set _ _ _ _ c.long a long;
}
step-Coherent w (waits n) c = record {
  recent = Mirrors-later _ _ _ _ c.recent n;
  long = Mirrors-later _ _ _ _ c.long n;
}

run-Coherent : (w : World) (es : List Event) → Coherent w → Coherent (run w es)
unfolding run
run-Coherent w [] c = c
run-Coherent w (e ∷ es) c = run-Coherent (step w e) es (step-Coherent w e c)

abbrev pub no_caches : Caches
no_caches = record {
  recent_seen_cache = [];
  long_term_seen_cache = [];
  owned_cache = [];
  candidate_cache = [];
}

empty-Coherent :
    (recent long : ℤ → List ℤ) (now : ℕ)
    → Coherent (record { caches = no_caches; recent_rows = recent; long_rows = long; now = now })
unfolding lookup
empty-Coherent recent long now = record {
  recent = record { is_map = tt; same = λ a e id found fresh. cc };
  long = record { is_map = tt; same = λ a e id found fresh. cc };
}

recent_answer :
    (w : World) (a : ℤ)
    → Coherent w
    → (s : List ℤ) × ((get_recently_seen_post_ids (recent_query w) w.caches a (pos 14) w.now).1
        ≡ ok s)
      × SameIds s (w.recent_rows a)
unfolding get_recently_seen_post_ids recent_seen
recent_answer w a c = elim (Option-cases (recent_seen w.caches a w.now)) [
  | inl miss ↦ (w.recent_rows a, rw (miss, get_recently_seen_post_ids), λ id. refl)
  | inr (set, hit) ↦ (
    set,
    rw (hit, get_recently_seen_post_ids),
    λ id. Mirrors-get_set _ _ _ _ c.recent a id set hit,
  )
]

long_answer :
    (w : World) (a : ℤ)
    → Coherent w
    → (s : List ℤ) × ((get_long_term_seen_post_ids (long_query w) w.caches a (pos 60) w.now).1
        ≡ ok s)
      × SameIds s (w.long_rows a)
unfolding get_long_term_seen_post_ids long_term_seen
long_answer w a c = elim (Option-cases (long_term_seen w.caches a w.now)) [
  | inl miss ↦ (w.long_rows a, rw (miss, get_long_term_seen_post_ids), λ id. refl)
  | inr (set, hit) ↦ (
    set,
    rw (hit, get_long_term_seen_post_ids),
    λ id. Mirrors-get_set _ _ _ _ c.long a id set hit,
  )
]

-- From empty caches, after any history of reads, recorded and withdrawn interactions and waiting,
-- a read of either window answers, from the cache or not, with exactly the ids of the rows. The
-- windows are of fixed lengths, and rows leave a window only by a withdrawal.
pub seen_ids-run :
    (recent long : ℤ → List ℤ) (start : ℕ) (es : List Event) (a : ℤ)
    → let w =
        run
          (record { caches = no_caches; recent_rows = recent; long_rows = long; now = start })
          es in
      (s t : List ℤ) × ((get_recently_seen_post_ids (recent_query w) w.caches a (pos 14) w.now).1
        ≡ ok s)
      × ((get_long_term_seen_post_ids (long_query w) w.caches a (pos 60) w.now).1 ≡ ok t)
      × SameIds s (w.recent_rows a)
      × SameIds t (w.long_rows a)
seen_ids-run recent long start es a =
    let w =
      run (record { caches = no_caches; recent_rows = recent; long_rows = long; now = start }) es in
    let c : Coherent w = run-Coherent _ es (empty-Coherent recent long start) in
    let (s, read_s, same_s) = recent_answer w a c in
    let (t, read_t, same_t) = long_answer w a c in (s, t, read_s, read_t, same_s, same_t)
