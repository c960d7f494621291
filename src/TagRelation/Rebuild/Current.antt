-- ===== src/TagRelation/Rebuild/Current.antt =====
-- The cached graph is never behind a write that was marked, once the rebuild has come to rest.
use e621_feed.Base.{
  zero, suc, ℕ, ◌≤◌, ◌≡◌, Bool, true, false, ◌||◌, List, [], ◌∷◌, arith, ltb, nat_eq, list_eq,
  pair_eq,
}
use e621_feed.TagRelation.Rebuild.Covered.{with_threads, IsCovered, step-IsCovered}
use e621_feed.TagRelation.Rebuild.{
  Shared, Event, Pc, loading, failing, storing, commits, marks, accesses, spawns, evicts,
  marks_evicted, leaves, works, start, step, run,
}

-- The writes that the cache will reflect when the thread has finished what it holds.
abbrev pub promised : Shared → List Pc → ℕ
promised s [] = s.cached
promised s (loading ∷ pcs) = s.written
promised s (storing version ∷ pcs) = version
promised s (_ ∷ pcs) = s.cached

abbrev pub is_failing : List Pc → Bool
is_failing (failing ∷ pcs) = true
is_failing _ = false

pub record IsCurrent (s : Shared) : Type 0 where
  pub behind : s.marked ≤ s.written
  pub fresh :
      (s.dirty || (is_failing s.threads || ltb 0 s.evicting)) ≡ false
      → s.marked ≤ promised s s.threads

works-IsCurrent :
    (s : Shared) (pcs : List Pc) (i : ℕ) (go : Bool)
    → IsCovered (with_threads s pcs)
    → IsCurrent (with_threads s pcs)
    → IsCurrent (step (with_threads s pcs) (works i go))
unfolding step
works-IsCurrent s [] i go c v = v
works-IsCurrent s (pc ∷ []) zero go c v = ground arith
works-IsCurrent s (pc ∷ []) (suc i) go c v = v
works-IsCurrent s (pc ∷ other ∷ pcs) i go c v = ground (arith, c.one_thread)

spawns-IsCurrent :
    (s : Shared) (pcs : List Pc)
    → IsCovered (with_threads s pcs)
    → IsCurrent (with_threads s pcs)
    → IsCurrent (step (with_threads s pcs) spawns)
unfolding step
spawns-IsCurrent s [] c v = ground arith
spawns-IsCurrent s (pc ∷ pcs) c v = ground (arith, c.one_thread)

step-IsCurrent : (s : Shared) (e : Event) → IsCovered s → IsCurrent s → IsCurrent (step s e)
unfolding step
step-IsCurrent s commits c v = ground (arith, v)
step-IsCurrent s marks c v = ground arith
step-IsCurrent s accesses c v = ground arith
step-IsCurrent s spawns c v = spawns-IsCurrent s s.threads c v
step-IsCurrent s evicts c v = ground arith
step-IsCurrent s marks_evicted c v = ground arith
step-IsCurrent s leaves c v = ground arith
step-IsCurrent s (works i go) c v = works-IsCurrent s s.threads i go c v

run-IsCurrent :
    (events : List Event) (s : Shared) → IsCovered s → IsCurrent s → IsCurrent (run s events)
unfolding run
run-IsCurrent [] s c v = v
run-IsCurrent (e ∷ events) s c v =
    run-IsCurrent events (step s e) (step-IsCovered s e c) (step-IsCurrent s e c v)

-- After any interleaving from the start that leaves the graph clean, with no thread rebuilding it
-- and no eviction between its two stores, the cached graph reflects every write that was committed
-- before the last mark.
pub run-cached :
    (events : List Event)
    → (run start events).dirty ≡ false
    → (run start events).threads ≡ []
    → (run start events).evicting ≡ 0
    → (run start events).marked ≤ (run start events).cached
run-cached events clean resting whole =
    ground (arith, (run-IsCurrent events start (ground arith) (ground arith)).fresh)
