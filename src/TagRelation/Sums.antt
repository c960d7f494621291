-- ===== src/TagRelation/Sums.antt =====
-- The bulk load adds up the counts of every pair, in whatever order and direction they come.
use e621_feed.Base.{
  ℕ, ◌+◌, ◌≡◌, ◌≢◌, ◌≤◌, refl, List, [], ◌∷◌, true, false, if◌then◌else◌, All, ◌==◌, nat_eq,
  pair_eq, eq_iff, lookup, arith, length, Bool-cases, inl, inr, min, ◌&&◌, ◌||◌,
}
use e621_feed.TagRelation.{
  Key, Entry, TagRelationGraph, key_ltb, u32_max, insert_entry, sort_entries, saturating_add,
  coalesce_from, coalesce, canonicalise, canonical, set_pairs_frozen_vec, cooc_by_id, get, or_zero,
}
use e621_feed.TagRelation.Order.{IsAscending, IsOrdered, sort_entries-IsOrdered}
use e621_feed.TagRelation.Search.{binary_search-lookup}

-- The counts under one key, all together.
unfoldable pub sum_of : Key → List Entry → ℕ
sum_of key [] = 0
sum_of key ((k, c) ∷ v) = let rest = sum_of key v in if k == key then c + rest else rest

-- The counts of the pair {a, b}, whichever id comes first.
unfoldable pub pair_total : ℕ → ℕ → List Entry → ℕ
pair_total a b [] = 0
pair_total a b (((i, j), c) ∷ v) =
    let rest = pair_total a b v in
    if (i == a && j == b) || (i == b && j == a) then c + rest else rest

-- Every count is a `u32`.
abbrev pub AreU32 : List Entry → Type 0
AreU32 v = All (λ x. x.1 ≤ u32_max) v

sum_of-canonicalise :
    (a b : ℕ) (v : List Entry) → a ≢ b → sum_of (canonical a b) (canonicalise v) ≡ pair_total a b v
unfolding sum_of canonicalise pair_total
sum_of-canonicalise a b [] h = refl
sum_of-canonicalise a b (((i, j), c) ∷ v) h = ground (arith, sum_of-canonicalise a b v h)

canonicalise-AreU32 : (v : List Entry) → AreU32 v → AreU32 (canonicalise v)
unfolding canonicalise
canonicalise-AreU32 [] h = tt
canonicalise-AreU32 (((i, j), c) ∷ v) h = ground (arith, canonicalise-AreU32 v h.1)

sum_of-insert_entry :
    (key k : Key) (c : ℕ) (v : List Entry)
    → sum_of key (insert_entry (k, c) v) ≡ sum_of key ((k, c) ∷ v)
unfolding sum_of insert_entry
sum_of-insert_entry key k c [] = refl
sum_of-insert_entry key k c ((j, d) ∷ v) = ground (arith, sum_of-insert_entry key k c v)

insert_entry-AreU32 :
    (k : Key) (c : ℕ) (v : List Entry) → c ≤ u32_max → AreU32 v → AreU32 (insert_entry (k, c) v)
unfolding insert_entry
insert_entry-AreU32 k c [] h a = (h, tt)
insert_entry-AreU32 k c ((j, d) ∷ v) h a = ground (arith, insert_entry-AreU32 k c v h a.1)

sum_of-sort_entries : (key : Key) (v : List Entry) → sum_of key (sort_entries v) ≡ sum_of key v
unfolding sort_entries sum_of
sum_of-sort_entries key [] = refl
sum_of-sort_entries key ((k, c) ∷ v) =
    ground (arith, sum_of-insert_entry key k c (sort_entries v), sum_of-sort_entries key v)

sort_entries-AreU32 : (v : List Entry) → AreU32 v → AreU32 (sort_entries v)
unfolding sort_entries
sort_entries-AreU32 [] h = tt
sort_entries-AreU32 ((k, c) ∷ v) h =
    insert_entry-AreU32 k c (sort_entries v) h.0 (sort_entries-AreU32 v h.1)

-- Entries that are not below `k` are all above it, when none of them has its key.
sum_of_above : (key : Key) (v : List Entry) → All (λ x. key_ltb key x.0 ≡ true) v → sum_of key v ≡ 0
unfolding sum_of
sum_of_above key [] h = refl
sum_of_above (a, b) (((i, j), c) ∷ v) h = ground (arith, sum_of_above (a, b) v h.1)

coalesce_from_above :
    (i k : Key) (c : ℕ) (v : List Entry)
    → key_ltb i k ≡ true
    → All (λ x. key_ltb i x.0 ≡ true) v
    → All (λ x. key_ltb i x.0 ≡ true) (coalesce_from (k, c) v)
unfolding coalesce_from
coalesce_from_above i k c [] h a = (h, tt)
coalesce_from_above i k c ((j, d) ∷ v) h a = ground (
  arith,
  coalesce_from_above i k (saturating_add c d) v h a.1,
  coalesce_from_above i j d v a.0 a.1,
)

-- An entry that is above `k`, in an ordered vector, has everything after it above `k`.
tail_above :
    (k j : Key) (d : ℕ) (v : List Entry)
    → key_ltb k j ≡ true
    → IsOrdered ((j, d) ∷ v)
    → All (λ x. key_ltb k x.0 ≡ true) ((j, d) ∷ v)
tail_above k j d [] h s = (h, tt)
tail_above (a, b) (i, j) d (((m, n), e) ∷ v) h s =
    (h, tail_above (a, b) (m, n) e v (ground (arith, s.0.0)) s.1)

next_above :
    (k j : Key) (c d : ℕ) (v : List Entry)
    → (k == j) ≡ false
    → IsOrdered ((k, c) ∷ (j, d) ∷ v)
    → All (λ x. key_ltb k x.0 ≡ true) ((j, d) ∷ v)
next_above (a, b) (i, j) c d v other s = tail_above (a, b) (i, j) d v (ground (arith, s.0.0)) s.1

coalesce_from-IsAscending :
    (k : Key) (c : ℕ) (v : List Entry)
    → IsOrdered ((k, c) ∷ v)
    → IsAscending (coalesce_from (k, c) v)
unfolding coalesce_from
coalesce_from-IsAscending k c [] s = (tt, tt)
coalesce_from-IsAscending k c ((j, d) ∷ v) s = elim (Bool-cases (k == j)) [
  | inl same ↦ rw same (coalesce_from-IsAscending k (saturating_add c d) v (s.0.1, s.1.1))
  | inr other ↦ rw other (
    coalesce_from_above k j d v (next_above k j c d v other s).0 (next_above k j c d v other s).1,
    coalesce_from-IsAscending j d v s.1,
  )
]

lookup-coalesce_from :
    (key k : Key) (c : ℕ) (v : List Entry)
    → IsOrdered ((k, c) ∷ v)
    → AreU32 ((k, c) ∷ v)
    → or_zero (lookup key (coalesce_from (k, c) v)) ≡ min (sum_of key ((k, c) ∷ v)) u32_max
unfolding coalesce_from lookup sum_of saturating_add
lookup-coalesce_from key k c [] s u = ground arith
lookup-coalesce_from key k c ((j, d) ∷ v) s u = elim (Bool-cases (k == j)) [
  | inl same ↦ ground (
    arith,
    eq_iff k j,
    lookup-coalesce_from key k (saturating_add c d) v (s.0.1, s.1.1) (omega arith, u.1.1),
  )
  | inr other ↦ ground (
    arith,
    eq_iff k key,
    sum_of_above k ((j, d) ∷ v) (next_above k j c d v other s),
    lookup-coalesce_from key j d v s.1 u.1,
  )
]

coalesce-IsAscending : (v : List Entry) → IsOrdered v → IsAscending (coalesce v)
unfolding coalesce
coalesce-IsAscending [] s = tt
coalesce-IsAscending ((k, c) ∷ v) s = coalesce_from-IsAscending k c v s

lookup-coalesce :
    (key : Key) (v : List Entry)
    → IsOrdered v
    → AreU32 v
    → or_zero (lookup key (coalesce v)) ≡ min (sum_of key v) u32_max
unfolding coalesce lookup sum_of
lookup-coalesce key [] s u = refl
lookup-coalesce key ((k, c) ∷ v) s u = lookup-coalesce_from key k c v s u

pub set_pairs_frozen_vec-IsAscending :
    (v : List Entry) → IsAscending (coalesce (sort_entries (canonicalise v)))
set_pairs_frozen_vec-IsAscending v =
    coalesce-IsAscending (sort_entries (canonicalise v)) (sort_entries-IsOrdered (canonicalise v))

-- After a bulk load a graph answers, for two different ids, with the sum of all the counts that
-- were loaded for the two, in either direction and any order, cut off at the largest `u32`.
pub cooc_by_id-set_pairs_frozen_vec :
    (graph : TagRelationGraph) (v : List Entry) (a b : ℕ)
    → AreU32 v
    → a ≢ b
    → cooc_by_id (set_pairs_frozen_vec graph v) a b ≡ min (pair_total a b v) u32_max
unfolding cooc_by_id set_pairs_frozen_vec get
cooc_by_id-set_pairs_frozen_vec graph v a b u distinct = ground (
  arith,
  binary_search-lookup (length (coalesce (sort_entries (canonicalise v)))) (canonical a b)
      (coalesce (sort_entries (canonicalise v))) (omega arith) (set_pairs_frozen_vec-IsAscending v),
  lookup-coalesce (canonical a b) (sort_entries (canonicalise v))
      (sort_entries-IsOrdered (canonicalise v))
      (sort_entries-AreU32 (canonicalise v) (canonicalise-AreU32 v u)),
  sum_of-sort_entries (canonical a b) (canonicalise v),
  sum_of-canonicalise a b v distinct,
)
