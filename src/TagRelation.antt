-- ===== src/TagRelation.antt =====
-- parser-api/src/utils/tag_relation.rs: how often two tags stand on the same post.
-- A tag id is a `u32`, which `intern` cuts off the number of tags. The counts that are kept are
-- never negative, so they are natural numbers; what a caller passes is signed. `none` is a panic, and
-- the sum of two counts past the `i64`, which panics or wraps by the settings of the build.
-- The bytes that `shrink_to_fit` gives back are not modelled.
pub mod Order
pub mod Search
pub mod Sums
pub mod Frozen
pub mod Built
pub mod Interned
pub mod Named
pub mod Loads
pub mod Rebuild
use e621_feed.Base.{
  ℕ, zero, suc, ◌+◌, ◌/◌, ◌%◌, ◌-◌, ◌^◌, List, [], ◌∷◌, ◌++◌, Bool, true, false, not, ◌&&◌, ◌||◌,
  Option, some, none, if◌then◌else◌, ltb, leb, min, max, length, take, map, ◌==◌, nat_eq, list_eq,
  pair_eq, lookup, insert, contains, drop, get_or, get_elem?, set, replicate,
}
use e621_feed.Base.Int.{ℤ, pos, negsuc, pos_part, leb_ℤ}
use e621_feed.Base.Text.{Str, is_empty}

abbrev pub Key : Type 0
Key = ℕ × ℕ

-- An entry of the map, and of the vector: its triple with the two ids as one key.
abbrev pub Entry : Type 0
Entry = Key × ℕ

abbrev pub u32_max : ℕ
u32_max = 4_294_967_295

abbrev pub i64_max : ℕ
i64_max = 9_223_372_036_854_775_807

abbrev pub group_count : ℕ
group_count = 7

pub data PairStorage : Type 0 where
  hot frozen : List Entry → PairStorage

pub record TagRelationGraph : Type 0 where
  pub tag_to_id : List (List (Str × ℕ))
  pub pairs : PairStorage
  pub marginals : List ℕ
  pub n_posts : ℕ

-- The order of tuples: by the first id, then by the second.
abbrev pub key_ltb : Key → Key → Bool
key_ltb (a, b) (c, d) = ltb a c || (a == c && ltb b d)

-- The search of the standard library halves the slice: the middle entry and what follows it stay,
-- unless it is greater than the key. `fuel` is the length of the slice.
unfoldable pub binary_search : ℕ → Key → List Entry → Option ℕ
binary_search zero key v = none
binary_search (suc fuel) key [] = none
binary_search (suc fuel) key ((k, c) ∷ []) = if k == key then some c else none
binary_search (suc fuel) key (x ∷ y ∷ v) = elim (drop (length (x ∷ y ∷ v) / 2) (x ∷ y ∷ v)) [
  | [] ↦ none
  | (k, c) ∷ after ↦
      let before = binary_search fuel key (take (length (x ∷ y ∷ v) / 2) (x ∷ y ∷ v)) in
      let rest = binary_search fuel key ((k, c) ∷ after) in if key_ltb key k then before else rest
]

-- `*m.get(&key).unwrap_or(&0)`.
abbrev pub or_zero : Option ℕ → ℕ
or_zero none = 0
or_zero (some c) = c

unfoldable pub storage_len : PairStorage → ℕ
storage_len (hot m) = length m
storage_len (frozen v) = length v

unfoldable pub get : PairStorage → Key → ℕ
get (hot m) key = or_zero (lookup key m)
get (frozen v) key = or_zero (binary_search (length v) key v)

unfoldable pub entry_add : PairStorage → Key → ℕ → Option PairStorage
entry_add (hot m) key delta =
    let sum = or_zero (lookup key m) + delta in
    if leb sum i64_max then some (hot (insert key sum m)) else none
entry_add (frozen v) key delta = none

unfoldable pub with_posts : ℤ → TagRelationGraph
with_posts n = record {
  tag_to_id = replicate group_count [];
  pairs = hot [];
  marginals = [];
  n_posts = pos_part n;
}

unfoldable pub empty : TagRelationGraph
unfolding with_posts
empty = with_posts (pos 0)

-- An index past the groups panics.
unfoldable pub intern : TagRelationGraph → ℕ → Str → Option (TagRelationGraph × ℕ)
intern graph g t = elim (get_elem? graph.tag_to_id g) [
  | none ↦ none
  | some bucket ↦ elim (lookup t bucket) [
    | some id ↦ some (graph, id)
    | none ↦
        let id = length graph.marginals % 2 ^ 32 in
        some (
          record graph {
            tag_to_id = set graph.tag_to_id g (insert t id bucket);
            marginals = graph.marginals ++ 0 ∷ [];
          },
          id,
        )
  ]
]

unfoldable pub tag_id : TagRelationGraph → ℕ → Str → Option ℕ
tag_id graph g t =
    if is_empty t
    then none
    else elim (get_elem? graph.tag_to_id g) [ none ↦ none | some bucket ↦ lookup t bucket ]

-- `if a < b { (a, b) } else { (b, a) }`.
abbrev pub canonical : ℕ → ℕ → Key
canonical a b = if ltb a b then (a, b) else (b, a)

abbrev with_pairs : TagRelationGraph → Option PairStorage → Option TagRelationGraph
with_pairs graph none = none
with_pairs graph (some pairs) = some (record graph { pairs = pairs })

unfoldable pub insert_pair_by_id : TagRelationGraph → ℕ → ℕ → ℤ → Option TagRelationGraph
insert_pair_by_id graph a b count =
    if leb_ℤ count (pos 0) || a == b
    then some graph
    else with_pairs graph (entry_add graph.pairs (canonical a b) (pos_part count))

unfoldable pub insert_pair : TagRelationGraph → ℕ → Str → ℕ → Str → ℤ → Option TagRelationGraph
insert_pair graph g1 t1 g2 t2 count =
    if leb_ℤ count (pos 0) || (is_empty t1 || is_empty t2)
    then some graph
    else elim (intern graph g1 t1) [
      | none ↦ none
      | some (first, a) ↦ elim (intern first g2 t2) [
        | none ↦ none
        | some (second, b) ↦
            if a == b
            then some second
            else with_pairs second (entry_add second.pairs (canonical a b) (pos_part count))
      ]
    ]

unfoldable pub set_marginal : TagRelationGraph → ℕ → Str → ℤ → Option TagRelationGraph
set_marginal graph g t count = if is_empty t then some graph else elim (intern graph g t) [
  | none ↦ none
  | some (known, id) ↦ some (record known { marginals = set known.marginals id (pos_part count) })
]

unfoldable pub marginal_by_id : TagRelationGraph → ℕ → ℕ
marginal_by_id graph id = get_or graph.marginals id 0

unfoldable pub cooc_by_id : TagRelationGraph → ℕ → ℕ → ℕ
cooc_by_id graph a b = if a == b then marginal_by_id graph a else get graph.pairs (canonical a b)

unfoldable pub n_tags : TagRelationGraph → ℕ
n_tags graph = length graph.marginals

unfoldable pub n_pairs : TagRelationGraph → ℕ
n_pairs graph = storage_len graph.pairs

unfoldable pub is_empty_graph : TagRelationGraph → Bool
unfolding n_pairs n_tags
is_empty_graph graph = n_pairs graph == 0 && (n_tags graph == 0 && graph.n_posts == 0)

-- `sort_by_key` of the standard library keeps entries with the same key in their order.
unfoldable pub insert_entry : Entry → List Entry → List Entry
insert_entry (k, c) [] = (k, c) ∷ []
insert_entry (k, c) ((j, d) ∷ v) =
    if key_ltb j k then (j, d) ∷ insert_entry (k, c) v else (k, c) ∷ (j, d) ∷ v

unfoldable pub sort_entries : List Entry → List Entry
unfolding insert_entry
sort_entries [] = []
sort_entries (x ∷ v) = insert_entry x (sort_entries v)

unfoldable pub saturating_add : ℕ → ℕ → ℕ
saturating_add c d = min (c + d) u32_max

-- The entry is the one at `write - 1`; those before it are settled. The loop writes behind the
-- place that it reads.
unfoldable pub coalesce_from : Entry → List Entry → List Entry
unfolding saturating_add
coalesce_from (k, c) [] = (k, c) ∷ []
coalesce_from (k, c) ((j, d) ∷ v) =
    let merged = coalesce_from (k, saturating_add c d) v in
    let next = (k, c) ∷ coalesce_from (j, d) v in if k == j then merged else next

unfoldable pub coalesce : List Entry → List Entry
unfolding coalesce_from
coalesce [] = []
coalesce (x ∷ v) = coalesce_from x v

-- Pairs of a tag with itself go, and the smaller id comes first.
unfoldable pub canonicalise : List Entry → List Entry
canonicalise [] = []
canonicalise (((a, b), c) ∷ v) =
    let rest = canonicalise v in
    if a == b then rest else ((if ltb b a then (b, a) else (a, b)), c) ∷ rest

unfoldable pub set_pairs_frozen_vec : TagRelationGraph → List Entry → TagRelationGraph
unfolding canonicalise sort_entries coalesce
set_pairs_frozen_vec graph v = record graph {
  pairs = frozen (coalesce (sort_entries (canonicalise v)));
}

-- What a pass of `freeze` keeps: `queryable` is the set of ids, if there is one.
abbrev pub is_queried : Option (List ℕ) → Key → Bool
is_queried none key = true
is_queried (some q) key = contains q key.0 && contains q key.1

abbrev pub threshold : ℤ → ℕ
threshold min_cooc = max (pos_part min_cooc) 1 % 2 ^ 32

unfoldable pub filter_hot : ℕ → Option (List ℕ) → List Entry → List Entry
filter_hot least queryable [] = []
filter_hot least queryable ((k, c) ∷ m) =
    let rest = filter_hot least queryable m in
    if ltb c least || not (is_queried queryable k) then rest else (k, min c u32_max) ∷ rest

unfoldable pub filter_frozen : ℕ → Option (List ℕ) → List Entry → List Entry
filter_frozen least queryable [] = []
filter_frozen least queryable ((k, c) ∷ v) =
    let rest = filter_frozen least queryable v in
    if ltb c least || not (is_queried queryable k) then rest else (k, c) ∷ rest

unfoldable pub filtered : ℕ → Option (List ℕ) → PairStorage → List Entry
unfolding filter_hot filter_frozen
filtered least queryable (hot m) = filter_hot least queryable m
filtered least queryable (frozen v) = filter_frozen least queryable v

unfoldable pub freeze_inner : TagRelationGraph → ℤ → Option (List ℕ) → TagRelationGraph
unfolding filtered sort_entries
freeze_inner graph min_cooc queryable = record graph {
  tag_to_id = map (λ _. []) graph.tag_to_id;
  pairs = frozen (sort_entries (filtered (threshold min_cooc) queryable graph.pairs));
}

unfoldable pub freeze : TagRelationGraph → ℤ → TagRelationGraph
unfolding freeze_inner
freeze graph min_cooc = freeze_inner graph min_cooc none

unfoldable pub freeze_with_query_set : TagRelationGraph → List ℕ → ℤ → TagRelationGraph
unfolding freeze_inner
freeze_with_query_set graph queryable min_cooc = freeze_inner graph min_cooc (some queryable)

-- `evict_if_idle`, with the graph that is cached and the time since a request used it; it returns
-- the numbers of pairs and of tags that were dropped. What it does to the flags is in `Rebuild`.
unfoldable pub evict_if_idle : ℕ → ℕ → TagRelationGraph → TagRelationGraph × (ℕ × ℕ)
unfolding empty is_empty_graph
evict_if_idle idle_secs elapsed_secs current =
    if idle_secs == 0 || (ltb elapsed_secs idle_secs || is_empty_graph current)
    then (current, (0, 0))
    else (empty, (n_pairs current, n_tags current))
