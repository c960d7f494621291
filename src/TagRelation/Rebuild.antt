-- ===== src/TagRelation/Rebuild.antt =====
-- The cached global graph of parser-api/src/utils/tag_relation.rs and the threads that rebuild it.
-- An event is one atomic step of one thread, so a list of events is an interleaving; an event that
-- cannot happen changes nothing. The database and the cached graph are given by the number of
-- writes that they reflect, and whether a load succeeds is part of the event.
pub mod Covered
pub mod Current
pub mod Spinning
use e621_feed.Base.{
  set, get_elem?, some, none, ◌++◌, ℕ, zero, suc, ◌+◌, ◌-◌, List, [], ◌∷◌, Bool, true, false, not,
  ◌&&◌, ◌||◌, if◌then◌else◌, ◌==◌, nat_eq, leb, ltb,
}

-- Where a rebuilding thread is: at the swap of the dirty flag, in the database, with a graph
-- that reflects so many writes, after a failure, in the cooldown, after it, and past its loop.
pub data Pc : Type 0 where
  working loading failing cooling deciding finishing : Pc
  storing : ℕ → Pc

pub record Shared : Type 0 where
  pub dirty : Bool
  pub rebuilding : Bool
  -- The rebuilding threads that have not given up the flag.
  pub threads : List Pc
  -- Threads that are about to call `spawn_rebuild_if_needed`.
  pub spawning : ℕ
  -- Rebuilding threads that gave up the flag and have not looked at the dirty flag since.
  pub leaving : ℕ
  -- Evictions between their two stores.
  pub evicting : ℕ
  pub written : ℕ
  pub cached : ℕ
  -- Not in the program: the writes before the last mark, and whether only an access is awaited.
  pub marked : ℕ
  pub cold : Bool

pub data Event : Type 0 where
  commits marks accesses spawns evicts marks_evicted leaves : Event
  works : ℕ → Bool → Event

-- The statics, before the first access.
abbrev pub start : Shared
start = record {
  dirty = true;
  rebuilding = false;
  threads = [];
  spawning = 0;
  leaving = 0;
  evicting = 0;
  written = 0;
  cached = 0;
  marked = 0;
  cold = true;
}

-- The swap at the head of `spawn_rebuild_if_needed`, and the thread that it starts.
unfoldable pub spawn_rebuild_if_needed : Shared → Shared
spawn_rebuild_if_needed s =
    if s.rebuilding
    then record s { cold = false }
    else record s { rebuilding = true; threads = s.threads ++ working ∷ []; cold = false }

unfoldable pub mark_global_relation_dirty : Shared → Shared
mark_global_relation_dirty s = record s {
  dirty = true;
  marked = s.written;
  spawning = s.spawning + 1;
}

unfoldable pub current_global_relation : Shared → Shared
current_global_relation s = if s.dirty then record s { spawning = s.spawning + 1 } else s

-- `evict_if_idle` past its checks: first the empty graph, then the flag.
unfoldable pub evict : Shared → Shared
evict s = record s { cached = 0; evicting = s.evicting + 1 }

-- A thread goes on to another point of its code.
abbrev pub goes_to : Shared → ℕ → Pc → Shared
goes_to s i pc = record s { threads = set s.threads i pc }

abbrev pub drop_at : List Pc → ℕ → List Pc
drop_at [] i = []
drop_at (pc ∷ pcs) zero = pcs
drop_at (pc ∷ pcs) (suc i) = pc ∷ drop_at pcs i

-- One step of the `i`-th rebuilding thread. `go` says whether the load succeeds, and in the cooldown
-- whether the deadline has passed.
unfoldable pub work : Shared → ℕ → Pc → Bool → Shared
work s i working go =
    if s.dirty then goes_to (record s { dirty = false }) i loading else goes_to s i cooling
work s i loading go = goes_to s i (if go then storing s.written else failing)
work s i (storing version) go = goes_to (record s { cached = version }) i working
work s i failing go = goes_to (record s { dirty = true }) i finishing
work s i cooling go = goes_to s i (if s.dirty || go then deciding else cooling)
work s i deciding go = goes_to s i (if s.dirty then working else finishing)
work s i finishing go = record s {
  rebuilding = false;
  threads = drop_at s.threads i;
  leaving = s.leaving + 1;
}

unfoldable pub step : Shared → Event → Shared
unfolding work spawn_rebuild_if_needed mark_global_relation_dirty current_global_relation evict
step s commits = record s { written = s.written + 1 }
step s marks = mark_global_relation_dirty s
step s accesses = current_global_relation s
step s spawns =
    if ltb 0 s.spawning then spawn_rebuild_if_needed (record s { spawning = s.spawning - 1 }) else s
step s evicts = evict s
step s marks_evicted =
    if ltb 0 s.evicting
    then record s { dirty = true; evicting = s.evicting - 1; cold = true }
    else s
step s leaves =
    if ltb 0 s.leaving
    then record s {
      leaving = s.leaving - 1;
      spawning = if s.dirty then s.spawning + 1 else s.spawning;
    }
    else s
step s (works i go) = elim (get_elem? s.threads i) [ none ↦ s | some pc ↦ work s i pc go ]

unfoldable pub run : Shared → List Event → Shared
unfolding step
run s [] = s
run s (e ∷ events) = run (step s e) events
