-- ===== src/TagRelation/Built.antt =====
-- A graph that is built pair by pair, and one that is loaded at once.
use e621_feed.Base.{
  ◌≤◌, ◌*◌, ◌^◌, length, ℕ, ◌+◌, ◌≡◌, ◌≢◌, refl, List, [], ◌∷◌, Option, some, none, if◌then◌else◌,
  ◌==◌, nat_eq, pair_eq, lookup, insert, IsMap, arith, ◌||◌, Bool-cases, inl, inr, insert-IsMap,
  lookup-insert,
}
use e621_feed.Base.Int.{pos, leb_ℤ}
use e621_feed.TagRelation.{
  i64_max, u32_max, Key, Entry, PairStorage, hot, frozen, TagRelationGraph, canonical, cooc_by_id,
  get, or_zero, insert_pair_by_id, entry_add, freeze, set_pairs_frozen_vec,
}
use e621_feed.TagRelation.Sums.{AreU32, pair_total, cooc_by_id-set_pairs_frozen_vec}
use e621_feed.TagRelation.Frozen.{IsStored, cooc_by_id-freeze_inner}

-- The graph can still grow.
abbrev pub IsHot : PairStorage → Type 0
IsHot (hot m) = IsMap m
IsHot (frozen v) = ⊥

-- The pairs of a list, inserted one after another.
unfoldable pub insert_all : TagRelationGraph → List Entry → Option TagRelationGraph
insert_all graph [] = some graph
insert_all graph (((a, b), c) ∷ v) = elim (insert_pair_by_id graph a b (pos c)) [
  | none ↦ none
  | some next ↦ insert_all next v
]

IsHot-IsStored : (s : PairStorage) → IsHot s → IsStored s
IsHot-IsStored (hot m) h = h
IsHot-IsStored (frozen v) h = elim h [ ]

pub entry_add-IsHot :
    (s : PairStorage) (key : Key) (delta : ℕ)
    → IsHot s
    → get s key + delta ≤ i64_max
    → (s' : PairStorage) × (entry_add s key delta ≡ some s')
      × IsHot s'
      × ((other : Key) → get s' other ≡ (if key == other then get s key + delta else get s other))
unfolding entry_add get
entry_add-IsHot (hot m) key delta h fits = (
  hot (insert key (or_zero (lookup key m) + delta) m),
  ground (arith, fits),
  insert-IsMap key (or_zero (lookup key m) + delta) m h,
  λ other. ground (arith, lookup-insert key other (or_zero (lookup key m) + delta) m),
)
entry_add-IsHot (frozen v) key delta h fits = elim h [ ]

-- The counts of a list, together.
abbrev volume : List Entry → ℕ
volume [] = 0
volume ((key, c) ∷ v) = c + volume v

volume_bound : (v : List Entry) → AreU32 v → volume v ≤ length v * u32_max
volume_bound [] h = omega arith
volume_bound ((key, c) ∷ v) h = omega (arith, h.0, volume_bound v h.1)

-- Inserting one pair does not panic, and adds to the one count.
insert_pair_by_id-IsHot :
    (graph : TagRelationGraph) (i j c rest : ℕ)
    → IsHot graph.pairs
    → ((key : Key) → get graph.pairs key + (c + rest) ≤ i64_max)
    → (next : TagRelationGraph) × (insert_pair_by_id graph i j (pos c) ≡ some next)
      × IsHot next.pairs
      × ((key : Key) → get next.pairs key + rest ≤ i64_max)
      × ((a b : ℕ)
          → a ≢ b
          → cooc_by_id next a b ≡ cooc_by_id graph a b + pair_total a b (((i, j), c) ∷ []))
unfolding insert_pair_by_id cooc_by_id pair_total
insert_pair_by_id-IsHot graph i j c rest h fits =
    elim (Bool-cases (leb_ℤ (pos c) (pos 0) || i == j)) [
      | inl skipped ↦
          (graph, rw skipped, h, λ key. omega (arith, fits key), λ a b distinct. ground arith)
      | inr counted ↦
          let (s', added, still, counts) =
            entry_add-IsHot graph.pairs (canonical i j) c h (omega (arith, fits (canonical i j))) in
          (
            record graph { pairs = s' },
            rw (counted, added),
            still,
            λ key. ground (arith, counts key, fits key),
            λ a b distinct. ground (arith, counts (canonical a b)),
          )
    ]

insert_all-IsHot :
    (v : List Entry) (graph : TagRelationGraph)
    → IsHot graph.pairs
    → ((key : Key) → get graph.pairs key + volume v ≤ i64_max)
    → (built : TagRelationGraph) × (insert_all graph v ≡ some built)
      × IsHot built.pairs
      × ((a b : ℕ) → a ≢ b → cooc_by_id built a b ≡ cooc_by_id graph a b + pair_total a b v)
unfolding insert_all pair_total
insert_all-IsHot [] graph h fits = (graph, refl, h, λ a b distinct. omega arith)
insert_all-IsHot (((i, j), c) ∷ v) graph h fits =
    let (next, step, hot_next, room, one) = insert_pair_by_id-IsHot graph i j c (volume v) h fits in
    let (built, rest, hot_built, more) = insert_all-IsHot v next hot_next room in
    (
      built,
      rw (insert_all, step) rest,
      hot_built,
      λ a b distinct. ground (arith, one a b distinct, more a b distinct),
    )

no_pairs :
    (graph : TagRelationGraph) (a b : ℕ) → graph.pairs ≡ hot [] → a ≢ b → cooc_by_id graph a b ≡ 0
unfolding cooc_by_id get lookup
no_pairs graph a b e distinct = ground (arith, e)

no_counts :
    (graph : TagRelationGraph) (key : Key) (v : List Entry)
    → graph.pairs ≡ hot []
    → volume v ≤ length v * u32_max
    → length v ≤ 2 ^ 31
    → get graph.pairs key + volume v ≤ i64_max
unfolding get lookup
no_counts graph key v e bound short = ground (arith, e, bound, short)

-- The two ways to load the pairs into a graph without pairs agree: inserting them one by one does
-- not panic, and freezing the result with every count kept answers, for any two different ids, as
-- the bulk load of the same list does, whose counts are `u32`; with at most 2^31 pairs in the list
-- no sum leaves the `i64`.
pub freeze-insert_all :
    (graph : TagRelationGraph) (v : List Entry) (a b : ℕ)
    → graph.pairs ≡ hot []
    → AreU32 v
    → length v ≤ 2 ^ 31
    → a ≢ b
    → (built : TagRelationGraph) × (insert_all graph v ≡ some built)
      × (cooc_by_id (freeze built (pos 1)) a b ≡ cooc_by_id (set_pairs_frozen_vec graph v) a b)
unfolding freeze
freeze-insert_all graph v a b none_yet u short distinct =
    let (built, done, hot_built, counts) =
      insert_all-IsHot v graph (rw none_yet tt)
        (λ key. no_counts graph key v none_yet (volume_bound v u) short) in
    (
      built,
      done,
      ground (
        arith,
        cooc_by_id-freeze_inner built (pos 1) none a b (IsHot-IsStored built.pairs hot_built),
        cooc_by_id-set_pairs_frozen_vec graph v a b u distinct,
        counts a b distinct,
        no_pairs graph a b none_yet distinct,
      ),
    )
