-- ===== src/Prefetch/Stamps.antt =====
-- Which accounts are stamped as refreshed.
use e621_feed.Base.{
  ℕ, suc, ◌+◌, ◌≡◌, refl, ◌≢◌, ◌⊎◌, inl, inr, Bool, true, some, List, [], ◌∷◌, arith, Bool-cases,
  get_elem?, ◌==◌, eq_iff, nat_eq, list_eq, pair_eq, contains,
}
use e621_feed.Base.Int.{ℤ, int_eq}
use e621_feed.Base.Text.{Str}
use e621_feed.Prefetch.{
  run_prefetch_tick, PrefetchQueries, Answer, fetch_failed, queries_of, run_queries, Worker, clean,
  TargetOutcome, run_targets, some_posts, no_posts, unclean, panicked,
}

pub Answer-cases :
    (a : Answer) → ((joined : Bool) × (a ≡ some_posts joined)) ⊎ (a ≡ no_posts) ⊎ (a ≡ fetch_failed)
Answer-cases (some_posts joined) = inl (joined, refl)
Answer-cases no_posts = inr (inl refl)
Answer-cases fetch_failed = inr (inr refl)

pub TargetOutcome-cases : (o : TargetOutcome) → (o ≡ clean) ⊎ (o ≡ unclean) ⊎ (o ≡ panicked)
TargetOutcome-cases clean = inl refl
TargetOutcome-cases unclean = inr (inl refl)
TargetOutcome-cases panicked = inr (inr refl)

module _ (get_posts_by_tags : ℕ → Str → Str → Answer) where
  -- From request `n` on, e621 answers each of the queries without a failure.
  abbrev pub AreAnswered : Str → List Str → ℕ → Type 0
  AreAnswered blacklist [] n = Unit
  AreAnswered blacklist (q ∷ queries) n =
      (get_posts_by_tags n blacklist q ≢ fetch_failed) × AreAnswered blacklist queries (n + 1)

  -- A target of the list is that of the account, and all its queries were answered.
  abbrev pub IsRefreshed : List PrefetchQueries → ℤ → Type 0
  IsRefreshed targets id =
      (i : ℕ) × (target : PrefetchQueries) × (n : ℕ) × (get_elem? targets i ≡ some target)
      × (target.account_id ≡ id)
      × AreAnswered target.blacklist (queries_of target) n

  later :
      (target : PrefetchQueries) (targets : List PrefetchQueries) (id : ℤ)
      → IsRefreshed targets id
      → IsRefreshed (target ∷ targets) id
  later target targets id (i, t, n, at, same, answered) = (suc i, t, n, at, same, answered)

  run_queries-clean :
      (blacklist : Str) (queries : List Str) (w : Worker)
      → (run_queries get_posts_by_tags blacklist queries w).1 ≡ clean
      → AreAnswered blacklist queries w.asked
  unfolding run_queries
  run_queries-clean blacklist [] w h = tt
  run_queries-clean blacklist (q ∷ queries) w h =
      elim (Answer-cases (get_posts_by_tags w.asked blacklist q)) [
        | inl (joined, at) ↦ elim (Bool-cases joined) [
          | inl did ↦ (
            ground (arith, at),
            run_queries-clean blacklist queries (record { breaker = 0; asked = w.asked + 1 })
                (ground (arith, h, at, did)),
          )
          | inr failed ↦ ground (arith, h, at, failed)
        ]
        | inr (inl at) ↦ (
          ground (arith, at),
          run_queries-clean blacklist queries (record w { asked = w.asked + 1 })
              (ground (arith, h, at)),
        )
        | inr (inr at) ↦ ground (arith, h, at)
      ]

  -- The accounts that are kept come from the targets or were there before.
  stamped_refreshed :
      (targets : List PrefetchQueries) (succeeded : List ℤ) (w : Worker) (stamped : List ℤ) (id : ℤ)
      → (run_targets get_posts_by_tags targets succeeded w).1 ≡ some stamped
      → contains stamped id ≡ true
      → (contains succeeded id ≡ true) ⊎ IsRefreshed targets id
  unfolding run_targets
  stamped_refreshed [] succeeded w stamped id h k = inl (ground (arith, h, k))
  stamped_refreshed (t ∷ targets) succeeded w stamped id h k =
      let r : Worker × TargetOutcome = run_queries get_posts_by_tags t.blacklist (queries_of t) w in
      elim (TargetOutcome-cases r.1) [
        | inl at ↦ elim (Bool-cases (contains succeeded t.account_id)) [
          | inl old ↦
              elim (stamped_refreshed targets succeeded r.0 stamped id (ground (arith, h, at, old))
                k) [ inl before ↦ inl before | inr refreshed ↦ inr (later t targets id refreshed) ]
          | inr new ↦
              elim (stamped_refreshed targets (t.account_id ∷ succeeded) r.0 stamped id
                (ground (arith, h, at, new)) k) [
                  | inl before ↦ elim (Bool-cases (t.account_id == id)) [
                    | inl same ↦ inr (
                      0,
                      t,
                      w.asked,
                      refl,
                      (eq_iff t.account_id id).0 same,
                      run_queries-clean t.blacklist (queries_of t) w at,
                    )
                    | inr other ↦ inl (ground (arith, before, other))
                  ]
                  | inr refreshed ↦ inr (later t targets id refreshed)
                ]
        ]
        | inr (inl at) ↦
            elim (stamped_refreshed targets succeeded r.0 stamped id (ground (arith, h, at)) k) [
              | inl before ↦ inl before
              | inr refreshed ↦ inr (later t targets id refreshed)
            ]
        | inr (inr at) ↦ ground (arith, h, at)
      ]

-- An account is stamped as refreshed only when it is that of a target that has had an answer other
-- than a failure to each of its queries.
pub stamped-IsRefreshed :
    (get_posts_by_tags : ℕ → Str → Str → Answer) (targets : List PrefetchQueries) (w : Worker)
    (stamped : List ℤ) (id : ℤ)
    → (run_prefetch_tick get_posts_by_tags (some targets) w).1 ≡ some stamped
    → contains stamped id ≡ true
    → IsRefreshed get_posts_by_tags targets id
unfolding run_prefetch_tick
stamped-IsRefreshed get_posts_by_tags targets w stamped id h k =
    elim (stamped_refreshed get_posts_by_tags targets [] w stamped id h k) [
      | inl before ↦ ground (arith, before)
      | inr refreshed ↦ refreshed
    ]
