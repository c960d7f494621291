-- ===== src/TagRelation/Frozen.antt =====
-- Freezing a graph: what its queries answer afterwards, and what every graph keeps to.
use e621_feed.Base.{
  ℕ, ◌≡◌, refl, List, [], ◌∷◌, Option, none, if◌then◌else◌, ◌==◌, nat_eq, pair_eq, eq_iff, lookup,
  IsMap, arith, length, min, ltb, not, ◌||◌,
}
use e621_feed.Base.Int.{ℤ}
use e621_feed.TagRelation.{
  Key, Entry, PairStorage, hot, frozen, TagRelationGraph, u32_max, sort_entries, canonical,
  cooc_by_id, get, or_zero, marginal_by_id, freeze_inner, filtered, filter_hot, filter_frozen,
  threshold, is_queried,
}
use e621_feed.TagRelation.Order.{
  IsAscending, sort_entries-IsAscending, lookup-sort_entries, lookup_below,
}
use e621_feed.TagRelation.Search.{binary_search-lookup}
use e621_feed.TagRelation.Sums.{AreU32}

-- A map has no key twice; a frozen vector is in the order of its keys, and holds `u32` counts.
abbrev pub IsStored : PairStorage → Type 0
IsStored (hot m) = IsMap m
IsStored (frozen v) = IsAscending v × AreU32 v

-- What a frozen graph answers for two different ids that had `c` in common.
abbrev pub kept : ℕ → Option (List ℕ) → Key → ℕ → ℕ
kept least queryable key c =
    if ltb c least || not (is_queried queryable key) then 0 else min c u32_max

pub IsAscending-IsMap : (v : List Entry) → IsAscending v → IsMap v
IsAscending-IsMap [] h = tt
IsAscending-IsMap ((k, c) ∷ v) h = (lookup_below k v h.0, IsAscending-IsMap v h.1)

module _ (least : ℕ) (q : Option (List ℕ)) where
  lookup-filter_hot-none :
      (key : Key) (m : List Entry) → lookup key m ≡ none → lookup key (filter_hot least q m) ≡ none
  unfolding filter_hot lookup
  lookup-filter_hot-none key [] h = refl
  lookup-filter_hot-none key ((k, c) ∷ m) h = ground (arith, lookup-filter_hot-none key m)

  lookup-filter_hot :
      (key : Key) (m : List Entry)
      → IsMap m
      → or_zero (lookup key (filter_hot least q m)) ≡ kept least q key (or_zero (lookup key m))
  unfolding filter_hot lookup
  lookup-filter_hot key [] h = ground arith
  lookup-filter_hot key ((k, c) ∷ m) h =
      ground (arith, eq_iff k key, lookup-filter_hot key m h.1, lookup-filter_hot-none k m h.0)

  filter_hot-IsMap : (m : List Entry) → IsMap m → IsMap (filter_hot least q m)
  unfolding filter_hot
  filter_hot-IsMap [] h = tt
  filter_hot-IsMap ((k, c) ∷ m) h =
      ground (arith, filter_hot-IsMap m h.1, lookup-filter_hot-none k m h.0)

  -- On counts that are `u32` the two filters agree.
  filter_frozen-filter_hot :
      (v : List Entry) → AreU32 v → filter_frozen least q v ≡ filter_hot least q v
  unfolding filter_frozen filter_hot
  filter_frozen-filter_hot [] u = refl
  filter_frozen-filter_hot ((k, c) ∷ v) u = ground (arith, filter_frozen-filter_hot v u.1)

  filtered-IsMap : (s : PairStorage) → IsStored s → IsMap (filtered least q s)
  unfolding filtered
  filtered-IsMap (hot m) h = filter_hot-IsMap m h
  filtered-IsMap (frozen v) h =
      rw (filter_frozen-filter_hot v h.1) (filter_hot-IsMap v (IsAscending-IsMap v h.0))

  lookup-filtered :
      (key : Key) (s : PairStorage)
      → IsStored s
      → or_zero (lookup key (filtered least q s)) ≡ kept least q key (get s key)
  unfolding filtered get
  lookup-filtered key (hot m) h = lookup-filter_hot key m h
  lookup-filtered key (frozen v) h = ground (
    arith,
    filter_frozen-filter_hot v h.1,
    lookup-filter_hot key v (IsAscending-IsMap v h.0),
    binary_search-lookup (length v) key v (omega arith) h.0,
  )

-- Freezing leaves the answer for one id alone. For two different ids it keeps the count when that
-- reaches the threshold and both ids can be queried, cut off at the largest `u32`, and otherwise
-- answers with 0: on a growing map as on a graph that is frozen already.
pub cooc_by_id-freeze_inner :
    (graph : TagRelationGraph) (min_cooc : ℤ) (queryable : Option (List ℕ)) (a b : ℕ)
    → IsStored graph.pairs
    → cooc_by_id (freeze_inner graph min_cooc queryable) a b ≡ (
        if a == b
        then cooc_by_id graph a b
        else kept (threshold min_cooc) queryable (canonical a b) (cooc_by_id graph a b))
unfolding cooc_by_id freeze_inner marginal_by_id get
cooc_by_id-freeze_inner graph min_cooc queryable a b h =
    let v : List Entry = filtered (threshold min_cooc) queryable graph.pairs in
    let m : IsMap v = filtered-IsMap (threshold min_cooc) queryable graph.pairs h in
    ground (
      arith,
      binary_search-lookup (length (sort_entries v)) (canonical a b) (sort_entries v) (omega arith)
          (sort_entries-IsAscending v m),
      lookup-sort_entries (canonical a b) v m,
      lookup-filtered (threshold min_cooc) queryable (canonical a b) graph.pairs h,
    )
