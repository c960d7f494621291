-- ===== src/TagRelation/Loads/Total.antt =====
-- A whole load by names: it does not panic, and the graph answers with what was loaded.
use e621_feed.Base.{
  get_elem?, replicate, lookup, ◌⊎◌, ℕ, zero, suc, ◌+◌, ◌*◌, ◌^◌, ◌≡◌, ◌≢◌, ◌≤◌, refl, List, [],
  ◌∷◌, some, none, nat_eq, list_eq, pair_eq, arith, length, inl, inr, All, false, Option-cases,
}
use e621_feed.Base.Int.{ℤ}
use e621_feed.Base.Text.{Str, is_empty}
use e621_feed.TagRelation.{
  i64_max, TagRelationGraph, get, group_count, with_posts, tag_id, cooc_by_id, marginal_by_id,
}
use e621_feed.TagRelation.Interned.{Name, id_of, IsInterned}
use e621_feed.TagRelation.Named.{counted, marked}
use e621_feed.TagRelation.Loads.Inserted.{insert_pair-Loaded}
use e621_feed.TagRelation.Loads.Marked.{set_marginal-Loaded}
use e621_feed.TagRelation.Loads.{
  volume, worth, Load, pairs, marks, load, load_all, InGroups, total, last_mark, IsLoading, Loaded,
}

load-Loaded :
    (graph : TagRelationGraph) (l : Load) (left coming : ℕ)
    → IsLoading graph (suc left) (worth l + coming)
    → InGroups l
    → (new : TagRelationGraph) × (load graph l ≡ some new) × Loaded graph new l left coming
load-Loaded graph (pairs n m count) left coming v h =
    insert_pair-Loaded graph n m count left coming v h
load-Loaded graph (marks n count) left coming v h =
    set_marginal-Loaded graph n count left coming
      (record {
        interned = v.interned;
        hot = v.hot;
        room = v.room;
        fits = λ key. omega (arith, v.fits key);
      })
      h

load_all_from :
    (loads : List Load) (graph : TagRelationGraph)
    → IsLoading graph (length loads) (volume loads)
    → All InGroups loads
    → (built : TagRelationGraph) × (load_all graph loads ≡ some built)
      × IsLoading built 0 0
      × ((a b : Name) → a ≢ b → counted built a b ≡ counted graph a b + total a b loads)
      × ((a : Name) → marked built a ≡ last_mark a (marked graph a) loads)
unfolding load_all
load_all_from [] graph v h = (graph, refl, v, λ a b distinct. omega arith, λ a. refl)
load_all_from (l ∷ loads) graph v h =
    let (next, step, done) = load-Loaded graph l (length loads) (volume loads) v h.0 in
    let (built, rest, final, counts, marginals) = load_all_from loads next done.loading h.1 in
    (
      built,
      rw (load_all, step) rest,
      final,
      λ a b distinct. ground (arith, done.counts a b distinct, counts a b distinct),
      λ a. ground (arith, marginals a, done.marks_of a),
    )

new_bucket :
    (k g : ℕ)
    → (get_elem? {A = List (Str × ℕ)} (replicate k []) g ≡ none)
      ⊎ (get_elem? {A = List (Str × ℕ)} (replicate k []) g ≡ some [])
new_bucket zero g = inl refl
new_bucket (suc k) zero = inr refl
new_bucket (suc k) (suc g) = new_bucket k g

new_graph_unnamed : (n : ℤ) (a : Name) → id_of (with_posts n) a ≡ none
unfolding id_of with_posts lookup
new_graph_unnamed n (g, t) = ground (arith, new_bucket group_count g)

empty-IsLoading :
    (n : ℤ) (left coming : ℕ)
    → 2 * left ≤ 2 ^ 32
    → coming ≤ i64_max
    → IsLoading (with_posts n) left coming
unfolding with_posts get lookup
empty-IsLoading n left coming h k = record {
  interned = record {
    sized = refl;
    below = λ a id e. ground (arith, new_graph_unnamed n a);
    distinct = λ a b id e f. ground (arith, new_graph_unnamed n a);
    quiet = λ i j e. refl;
  };
  hot = tt;
  room = omega (arith, h);
  fits = λ key. omega (arith, k);
}

-- How a scorer asks: for the ids of two tags, and then for their count.
unfoldable pub cooc_of : TagRelationGraph → Name → Name → ℕ
unfolding tag_id cooc_by_id
cooc_of graph (g, t) (k, u) = elim (tag_id graph g t) [
  | none ↦ 0
  | some i ↦ elim (tag_id graph k u) [ none ↦ 0 | some j ↦ cooc_by_id graph i j ]
]

unfoldable pub marginal_of : TagRelationGraph → Name → ℕ
unfolding tag_id marginal_by_id
marginal_of graph (g, t) = elim (tag_id graph g t) [ none ↦ 0 | some i ↦ marginal_by_id graph i ]

tag_id-id_of :
    (graph : TagRelationGraph) (a : Name)
    → is_empty a.1 ≡ false
    → tag_id graph a.0 a.1 ≡ id_of graph a
unfolding tag_id id_of
tag_id-id_of graph a h = rw h

cooc_of-counted :
    (graph : TagRelationGraph) (a b : Name)
    → IsInterned graph
    → a ≢ b
    → is_empty a.1 ≡ false
    → is_empty b.1 ≡ false
    → cooc_of graph a b ≡ counted graph a b
unfolding cooc_of counted
cooc_of-counted graph a b v distinct full_a full_b = elim (Option-cases (id_of graph a)) [
  | inl no_a ↦ ground (arith, no_a, tag_id-id_of graph a full_a)
  | inr (i, at) ↦
      ground
        (arith, at, tag_id-id_of graph a full_a, tag_id-id_of graph b full_b, v.distinct a b i at)
]

-- A load of counts and marginals by names into a new graph, with all groups below seven, at most
-- 2^31 calls, and positive counts that together fit an `i64`, does not panic and no sum wraps. Asked for two different tags, whose texts are not empty, the
-- graph then answers with the sum of the positive counts that were inserted for the two, in either
-- order; asked for one of them, with the last marginal that was set, and 0 for a negative one or
-- none.
pub load_all-total :
    (n_posts : ℤ) (loads : List Load) (a b : Name)
    → All InGroups loads
    → 2 * length loads ≤ 2 ^ 32
    → volume loads ≤ i64_max
    → a ≢ b
    → is_empty a.1 ≡ false
    → is_empty b.1 ≡ false
    → (built : TagRelationGraph) × (load_all (with_posts n_posts) loads ≡ some built)
      × (cooc_of built a b ≡ total a b loads)
      × (marginal_of built a ≡ last_mark a 0 loads)
unfolding marginal_of marked counted
load_all-total n_posts loads a b h room sums distinct full_a full_b =
    let (built, done, final, counts, marginals) =
      load_all_from loads (with_posts n_posts)
        (empty-IsLoading n_posts (length loads) (volume loads) room sums) h in
    (
      built,
      done,
      ground (
        arith,
        cooc_of-counted built a b final.interned distinct full_a full_b,
        counts a b distinct,
        new_graph_unnamed n_posts a,
      ),
      ground (arith, marginals a, new_graph_unnamed n_posts a, tag_id-id_of built a full_a),
    )
