-- ===== src/Tests/Workers.antt =====
-- The prefetch worker, at concrete inputs.
use e621_feed.Base.{
  ℕ, ◌+◌, ◌<◌, ◌≡◌, refl, true, some, none, List, [], ◌∷◌, arith, if◌then◌else◌, ◌==◌, nat_eq,
  list_eq, pair_eq,
}
use e621_feed.Base.Int.{ℤ, int_eq, pos}
use e621_feed.Base.Text.{Str, codes}
use e621_feed.Prefetch.{
  PrefetchQueries, Answer, some_posts, fetch_failed, Worker, run_prefetch_tick, prefetch_loop,
  paused,
}
use e621_feed.Prefetch.Stamps.{IsRefreshed, stamped-IsRefreshed}
use e621_feed.Prefetch.Breaker.{turns, turns-breaker, asking, failing_tick_asks_all}

abbrev target : ℤ → PrefetchQueries
target id = record {
  account_id = id;
  blacklist = codes "gore";
  artist_queries = codes "rune" ∷ [];
  character_queries = [];
  recent_popular = codes "order:favcount" ∷ [];
}

abbrev picked_targets : List PrefetchQueries
picked_targets = target (pos 3) ∷ target (pos 8) ∷ []

-- e621 fails at its second answer.
abbrev second_fails : ℕ → Str → Str → Answer
second_fails n blacklist query = if n == 1 then fetch_failed else some_posts true

abbrev out_of_order : ℕ → Str → Str → Answer
out_of_order n blacklist query = fetch_failed

abbrev new_worker : Worker
new_worker = record { breaker = 0; asked = 0 }

stamped_second :
    run_prefetch_tick second_fails (some picked_targets) new_worker
    ≡ (record { breaker = 0; asked = 4 }, some (pos 8 ∷ []))
unfolding run_prefetch_tick
stamped_second = refl

stamped-IsRefreshed_example : IsRefreshed second_fails picked_targets (pos 8)
unfolding run_prefetch_tick
stamped-IsRefreshed_example =
    stamped-IsRefreshed second_fails picked_targets new_worker (pos 8 ∷ []) (pos 8) refl refl

opens :
    prefetch_loop out_of_order 2 30 900 (some picked_targets) (record { breaker = 2; asked = 2 })
    ≡ (record { breaker = 0; asked = 2 }, paused 60)
unfolding prefetch_loop
opens = refl

turns-breaker_example :
    (turns out_of_order 5 300 900
      (some picked_targets ∷ none ∷ some picked_targets ∷ [])
      new_worker).breaker
    < 5 + 3
turns-breaker_example =
    turns-breaker out_of_order 5 300 900 3 (some picked_targets ∷ none ∷ some picked_targets ∷ [])
      new_worker (omega arith) (omega arith, (tt, (omega arith, tt))) (omega arith)

failing_tick_asks_all_example :
    ((run_prefetch_tick out_of_order (some picked_targets) new_worker).0.breaker
      ≡ 0 + asking picked_targets)
    × ((run_prefetch_tick out_of_order (some picked_targets) new_worker).0.asked
        ≡ 0 + asking picked_targets)
failing_tick_asks_all_example =
    failing_tick_asks_all out_of_order picked_targets new_worker (λ n blacklist query. refl)
      (omega arith)
