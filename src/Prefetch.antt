-- ===== src/Prefetch.antt =====
-- parser-api/src/prefetch.rs: a worker that refreshes the posts of accounts, and its circuit breaker.
-- The choice of the accounts is SQL and an argument; e621 answers each request by its number.
pub mod Stamps
pub mod Breaker
use e621_feed.Base.{
  ℕ, zero, suc, ◌+◌, ◌-◌, ◌*◌, ◌/◌, ◌%◌, ◌^◌, ◌≤◌, ◌<◌, min, max, ◌≡◌, refl, sym, ap, subst, ◌∙◌,
  ◌≢◌, ◌↔◌, ◌⊎◌, inl, inr, Bool, true, false, not, ◌&&◌, ◌||◌, Option, some, none, List, [], ◌∷◌,
  ◌++◌, map, reverse, arith, ltb, leb, nat_beq, if◌then◌else◌, Bool-cases, Option-cases, length,
  take, drop, all, any, All, All-append, length-append, length-take, length-set, get_elem?-lt,
  get_elem?-set, get_elem?, get_or, set, replicate, Eq, ◌==◌, eq_iff, eq_refl, nat_eq, list_eq,
  pair_eq, contains, lookup, insert, remove, adjust, retain, keep_if, IsMap, lookup-insert,
  lookup-remove, lookup-adjust, lookup-retain, insert-IsMap, remove-IsMap, adjust-IsMap,
  retain-IsMap,
}
use e621_feed.Base.Int.{ℤ, int_eq}
use e621_feed.Base.Text.{Str}

pub record PrefetchQueries : Type 0 where
  pub account_id : ℤ
  pub blacklist : Str
  pub artist_queries : List Str
  pub character_queries : List Str
  pub recent_popular : List Str

-- An answer to a request; for a page with posts, whether the thread that persists it was joined.
pub data Answer : Type 0 where
  some_posts : Bool → Answer
  no_posts fetch_failed : Answer

-- The failures in a row, and the number of requests so far.
pub record Worker : Type 0 where
  pub breaker : ℕ
  pub asked : ℕ

pub data TargetOutcome : Type 0 where
  clean unclean panicked : TargetOutcome

abbrev pub queries_of : PrefetchQueries → List Str
queries_of target = target.artist_queries ++ (target.character_queries ++ target.recent_popular)

-- `fetch_add`, which wraps.
abbrev pub fetch_add : ℕ → ℕ
fetch_add breaker = (breaker + 1) % 2 ^ 32

module _ (get_posts_by_tags : ℕ → Str → Str → Answer) where
  -- The loop over the queries of a target; a failure leaves it.
  unfoldable pub run_queries : Str → List Str → Worker → Worker × TargetOutcome
  run_queries blacklist [] w = (w, clean)
  run_queries blacklist (q ∷ queries) w = elim (get_posts_by_tags w.asked blacklist q) [
    | some_posts joined ↦
        let fetched : Worker = record { breaker = 0; asked = w.asked + 1 } in
        let rest = run_queries blacklist queries fetched in
        if joined then rest else (fetched, panicked)
    | no_posts ↦ run_queries blacklist queries (record w { asked = w.asked + 1 })
    | fetch_failed ↦ (record { breaker = fetch_add w.breaker; asked = w.asked + 1 }, unclean)
  ]

  -- The loop over the targets, with the accounts that are to be stamped; none when the tick fails.
  unfoldable pub run_targets : List PrefetchQueries → List ℤ → Worker → Worker × Option (List ℤ)
  unfolding run_queries
  run_targets [] succeeded w = (w, some succeeded)
  run_targets (target ∷ targets) succeeded w =
      let (w', outcome) = run_queries target.blacklist (queries_of target) w in
      elim outcome [
        | clean ↦
            run_targets targets
              (if contains succeeded target.account_id
                then succeeded
                else target.account_id ∷ succeeded)
              w'
        | unclean ↦ run_targets targets succeeded w'
        | panicked ↦ (w', none)
      ]

  -- The targets are none when picking them failed.
  unfoldable pub run_prefetch_tick :
      Option (List PrefetchQueries) → Worker → Worker × Option (List ℤ)
  unfolding run_targets
  run_prefetch_tick none w = (w, none)
  run_prefetch_tick (some targets) w = run_targets targets [] w

  -- A turn of the loop: the seconds it sleeps, and what a tick stamped.
  pub data LoopTurn : Type 0 where
    paused : ℕ → LoopTurn
    ticked : Option (List ℤ) → ℕ → LoopTurn

  unfoldable pub prefetch_loop :
      (threshold pause interval : ℕ) → Option (List PrefetchQueries) → Worker → Worker × LoopTurn
  unfolding run_prefetch_tick
  prefetch_loop threshold pause interval targets w =
      let (w', stamped) = run_prefetch_tick targets w in
      if ltb 0 threshold && leb threshold w.breaker
      then (record w { breaker = 0 }, paused (max pause 60))
      else (w', ticked stamped interval)
