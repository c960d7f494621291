-- ===== src/HydrateCache/Merge.antt =====
-- Merging ids into a live entry.
use mathlib.Core.Option
use mathlib.Core.Option.{Option}
use e621_feed.Base.{
  ℕ, ◌≡◌, refl, ◌||◌, ◌&&◌, Option-cases, List, [], ◌∷◌, arith, if◌then◌else◌, ◌==◌, eq_iff, lookup,
  contains, IsMap, lookup-adjust, adjust-IsMap, inl, inr, ◌≤◌,
}
use e621_feed.Base.Int.{ℤ, int_eq}
use e621_feed.HydrateCache.{SetMap, get_set, merge_into, extend, extend_entry}

contains_cons :
    (id x : ℤ) (set : List ℤ)
    → contains (if contains set x then set else x ∷ set) id ≡ (x == id || contains set id)
contains_cons id x set = ground (arith, eq_iff x id)

-- The extended set holds the ids of both.
pub contains-extend :
    (id : ℤ) (set ids : List ℤ)
    → contains (extend set ids) id ≡ (contains ids id || contains set id)
unfolding extend
contains-extend id set [] = refl
contains-extend id set (x ∷ ids) = ground (
  arith,
  contains-extend id (if contains set x then set else x ∷ set) ids,
  contains_cons id x set,
)

pub lookup-merge_into :
    (map : SetMap) (key j : ℤ) (ids : List ℤ) (ttl now : ℕ)
    → lookup j (merge_into map key ids ttl now)
      ≡ (if key == j then Option.map (extend_entry ttl now ids) (lookup j map) else lookup j map)
unfolding merge_into
lookup-merge_into map key j ids ttl now = lookup-adjust key j (extend_entry ttl now ids) map

pub merge_into-IsMap :
    (map : SetMap) (key : ℤ) (ids : List ℤ) (ttl now : ℕ)
    → IsMap map
    → IsMap (merge_into map key ids ttl now)
unfolding merge_into
merge_into-IsMap map key ids ttl now h = adjust-IsMap key (extend_entry ttl now ids) map h

-- Merging ids into the set of an account adds exactly these ids to what a read of that account
-- gives at any later time, invents no entry and prolongs none, and leaves other accounts alone.
pub get_set-merge_into :
    (map : SetMap) (key j id : ℤ) (ids : List ℤ) (ttl now later : ℕ)
    → now ≤ later
    → Option.map (λ s. contains s id) (get_set (merge_into map key ids ttl now) j ttl later)
      ≡ Option.map (λ s. (key == j && contains ids id) || contains s id) (get_set map j ttl later)
unfolding get_set
get_set-merge_into map key j id ids ttl now later order = elim (Option-cases (lookup j map)) [
  | inl absent ↦ ground (arith, lookup-merge_into map key j ids ttl now)
  | inr (e, found) ↦
      ground (arith, lookup-merge_into map key j ids ttl now, contains-extend id e.set ids)
]
