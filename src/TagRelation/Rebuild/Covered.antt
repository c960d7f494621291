-- ===== src/TagRelation/Rebuild/Covered.antt =====
-- A dirty flag is never forgotten, whatever the interleaving.
use e621_feed.Base.{
  if◌then◌else◌, length, length-append, ℕ, zero, suc, ◌≡◌, Bool, true, ◌||◌, List, [], ◌∷◌, arith,
  ltb, nat_eq, list_eq, pair_eq,
}
use e621_feed.TagRelation.Rebuild.{
  working, Shared, Event, Pc, commits, marks, accesses, spawns, evicts, marks_evicted, leaves,
  works, step,
}

-- There is one rebuilding thread where the flag is set, and none elsewhere; and someone will look at
-- a dirty graph.
pub record IsCovered (s : Shared) : Type 0 where
  pub one_thread : length s.threads ≡ (if s.rebuilding then 1 else 0)
  pub seen_to :
      s.dirty ≡ true → (s.rebuilding || (ltb 0 s.spawning || (ltb 0 s.leaving || s.cold))) ≡ true

-- The state with those threads.
abbrev pub with_threads : Shared → List Pc → Shared
with_threads s pcs = record s { threads = pcs }

works-IsCovered :
    (s : Shared) (pcs : List Pc) (i : ℕ) (go : Bool)
    → IsCovered (with_threads s pcs)
    → IsCovered (step (with_threads s pcs) (works i go))
unfolding step
works-IsCovered s [] i go v = v
works-IsCovered s (pc ∷ []) zero go v = ground arith
works-IsCovered s (pc ∷ []) (suc i) go v = v
works-IsCovered s (pc ∷ other ∷ pcs) i go v = ground (arith, v.one_thread)

pub step-IsCovered : (s : Shared) (e : Event) → IsCovered s → IsCovered (step s e)
unfolding step
step-IsCovered s commits v = ground arith
step-IsCovered s marks v = ground arith
step-IsCovered s accesses v = ground arith
step-IsCovered s spawns v = ground (arith, length-append s.threads (working ∷ []))
step-IsCovered s evicts v = ground arith
step-IsCovered s marks_evicted v = ground arith
step-IsCovered s leaves v = ground arith
step-IsCovered s (works i go) v = works-IsCovered s s.threads i go v
