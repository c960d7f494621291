-- ===== src/Prefetch/Breaker.antt =====
-- How far the circuit breaker counts, and what a tick asks while e621 fails.
use e621_feed.Base.{
  ℕ, ◌+◌, ◌%◌, ◌^◌, ◌≤◌, ◌<◌, ◌≡◌, refl, inl, inr, Option, some, none, List, [], ◌∷◌, arith,
  if◌then◌else◌, Bool-cases, length, All, ◌==◌, nat_eq, list_eq, pair_eq, contains,
}
use e621_feed.Base.Int.{ℤ, int_eq}
use e621_feed.Base.Text.{Str}
use e621_feed.Prefetch.{
  PrefetchQueries, Answer, fetch_failed, Worker, clean, unclean, TargetOutcome, queries_of,
  run_queries, run_targets, run_prefetch_tick, prefetch_loop, fetch_add,
}
use e621_feed.Prefetch.Stamps.{Answer-cases, TargetOutcome-cases}

fetch_add_le : (b : ℕ) → fetch_add b ≤ b + 1
fetch_add_le b = omega arith

-- How many targets have a query.
abbrev pub asking : List PrefetchQueries → ℕ
asking [] = 0
asking (t ∷ targets) = (if length (queries_of t) == 0 then 0 else 1) + asking targets

-- At most `n` targets were picked.
abbrev pub IsWithin : ℕ → Option (List PrefetchQueries) → Type 0
IsWithin n none = Unit
IsWithin n (some targets) = length targets ≤ n

module _ (get_posts_by_tags : ℕ → Str → Str → Answer) where
  breaker-run_queries :
      (blacklist : Str) (queries : List Str) (w : Worker)
      → (run_queries get_posts_by_tags blacklist queries w).0.breaker ≤ w.breaker + 1
  unfolding run_queries
  breaker-run_queries blacklist [] w = omega arith
  breaker-run_queries blacklist (q ∷ queries) w =
      elim (Answer-cases (get_posts_by_tags w.asked blacklist q)) [
        | inl (joined, at) ↦ ground (
          arith,
          at,
          breaker-run_queries blacklist queries (record { breaker = 0; asked = w.asked + 1 }),
        )
        | inr (inl at) ↦
            ground
              (arith, at, breaker-run_queries blacklist queries (record w { asked = w.asked + 1 }))
        | inr (inr at) ↦ ground (arith, at, fetch_add_le w.breaker)
      ]

  breaker-run_targets :
      (targets : List PrefetchQueries) (succeeded : List ℤ) (w : Worker)
      → (run_targets get_posts_by_tags targets succeeded w).0.breaker ≤ w.breaker + length targets
  unfolding run_targets
  breaker-run_targets [] succeeded w = omega arith
  breaker-run_targets (t ∷ targets) succeeded w =
      let r : Worker × TargetOutcome = run_queries get_posts_by_tags t.blacklist (queries_of t) w in
      let step : r.0.breaker ≤ w.breaker + 1 = breaker-run_queries t.blacklist (queries_of t) w in
      elim (TargetOutcome-cases r.1) [
        | inl at ↦ ground (
          arith,
          at,
          step,
          breaker-run_targets targets
              (if contains succeeded t.account_id then succeeded else t.account_id ∷ succeeded) r.0,
        )
        | inr (inl at) ↦ ground (arith, at, step, breaker-run_targets targets succeeded r.0)
        | inr (inr at) ↦ ground (arith, at, step)
      ]

  -- Turns of the loop, each with the targets that it picks; what they do to the worker.
  unfoldable pub turns :
      (threshold pause interval : ℕ) → List (Option (List PrefetchQueries)) → Worker → Worker
  turns threshold pause interval [] w = w
  turns threshold pause interval (picked ∷ later) w =
      turns threshold pause interval later
        (prefetch_loop get_posts_by_tags threshold pause interval picked w).0

  breaker-prefetch_loop :
      (threshold pause interval max_targets : ℕ) (picked : Option (List PrefetchQueries))
      (w : Worker)
      → 0 < threshold
      → IsWithin max_targets picked
      → w.breaker < threshold + max_targets
      → (prefetch_loop get_posts_by_tags threshold pause interval picked w).0.breaker
        < threshold + max_targets
  unfolding prefetch_loop
  breaker-prefetch_loop threshold pause interval max_targets none w pos within h = ground arith
  breaker-prefetch_loop threshold pause interval max_targets (some targets) w pos within h =
      ground (arith, breaker-run_targets targets [] w)

  -- With a threshold, and `max_targets` accounts in a tick at most, the breaker of a worker that
  -- starts below their sum stays below it, whatever e621 answers.
  pub turns-breaker :
      (threshold pause interval max_targets : ℕ) (picked : List (Option (List PrefetchQueries)))
      (w : Worker)
      → 0 < threshold
      → All (IsWithin max_targets) picked
      → w.breaker < threshold + max_targets
      → (turns threshold pause interval picked w).breaker < threshold + max_targets
  unfolding turns
  turns-breaker threshold pause interval max_targets [] w pos within h = h
  turns-breaker threshold pause interval max_targets (p ∷ picked) w pos within h =
      turns-breaker threshold pause interval max_targets picked
        (prefetch_loop get_posts_by_tags threshold pause interval p w).0 pos within.1
        (breaker-prefetch_loop threshold pause interval max_targets p w pos within.0 h)

  failing_queries :
      (blacklist : Str) (queries : List Str) (w : Worker)
      → ((n : ℕ) (blacklist query : Str) → get_posts_by_tags n blacklist query ≡ fetch_failed)
      → w.breaker + 1 < 2 ^ 32
      → ((run_queries get_posts_by_tags blacklist queries w).1
          ≡ (if length queries == 0 then clean else unclean))
        × ((run_queries get_posts_by_tags blacklist queries w).0.breaker
            ≡ w.breaker + (if length queries == 0 then 0 else 1))
        × ((run_queries get_posts_by_tags blacklist queries w).0.asked
            ≡ w.asked + (if length queries == 0 then 0 else 1))
  unfolding run_queries
  failing_queries blacklist [] w failing h = (refl, omega arith, omega arith)
  failing_queries blacklist (q ∷ queries) w failing h =
      let small : (w.breaker + 1) % 2 ^ 32 ≡ w.breaker + 1 = omega (arith, h) in
      let at = failing w.asked blacklist q in
      (ground (arith, at), ground (arith, at, small), ground (arith, at))

  failing_targets :
      (targets : List PrefetchQueries) (succeeded : List ℤ) (w : Worker)
      → ((n : ℕ) (blacklist query : Str) → get_posts_by_tags n blacklist query ≡ fetch_failed)
      → w.breaker + length targets < 2 ^ 32
      → ((run_targets get_posts_by_tags targets succeeded w).0.breaker ≡ w.breaker + asking targets)
        × ((run_targets get_posts_by_tags targets succeeded w).0.asked ≡ w.asked + asking targets)
  unfolding run_targets
  failing_targets [] succeeded w failing h = (omega arith, omega arith)
  failing_targets (t ∷ targets) succeeded w failing h =
      let r : Worker × TargetOutcome = run_queries get_posts_by_tags t.blacklist (queries_of t) w in
      let (outcome, fails, asked) =
        failing_queries t.blacklist (queries_of t) w failing (omega (arith, h)) in
      elim (Bool-cases (length (queries_of t) == 0)) [
        | inl idle ↦
            let kept : List ℤ =
              if contains succeeded t.account_id then succeeded else t.account_id ∷ succeeded in
            let still : r.0.breaker ≡ w.breaker = ground (arith, fails, idle) in
            let (b, a) = failing_targets targets kept r.0 failing (ground (arith, h, still)) in
            (ground (arith, outcome, fails, idle, b), ground (arith, outcome, asked, idle, a))
        | inr busy ↦
            let one : r.0.breaker ≡ w.breaker + 1 = ground (arith, fails, busy) in
            let (b, a) = failing_targets targets succeeded r.0 failing (ground (arith, h, one)) in
            (ground (arith, outcome, fails, busy, b), ground (arith, outcome, asked, busy, a))
      ]

  -- While e621 fails and the breaker cannot wrap, a tick does not end at the first failure: it asks
  -- once for each target that has a query, and counts each as a failure.
  pub failing_tick_asks_all :
      (targets : List PrefetchQueries) (w : Worker)
      → ((n : ℕ) (blacklist query : Str) → get_posts_by_tags n blacklist query ≡ fetch_failed)
      → w.breaker + length targets < 2 ^ 32
      → ((run_prefetch_tick get_posts_by_tags (some targets) w).0.breaker
          ≡ w.breaker + asking targets)
        × ((run_prefetch_tick get_posts_by_tags (some targets) w).0.asked
            ≡ w.asked + asking targets)
  unfolding run_prefetch_tick
  failing_tick_asks_all targets w failing h = failing_targets targets [] w failing h
