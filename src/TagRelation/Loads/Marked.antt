-- ===== src/TagRelation/Loads/Marked.antt =====
-- What `set_marginal` does to the answers by names.
use e621_feed.Base.{
  length-set, ℕ, suc, ◌≡◌, false, some, if◌then◌else◌, ◌==◌, nat_eq, list_eq, pair_eq, eq_iff,
  arith, Bool-cases, Option-cases, inl, inr, set,
}
use e621_feed.Base.Int.{ℤ, pos_part}
use e621_feed.Base.Text.{is_empty}
use e621_feed.TagRelation.{TagRelationGraph, marginal_by_id, set_marginal}
use e621_feed.TagRelation.Interned.{Name, id_of, IsInterned, Extends, intern-Extends, get_or-set}
use e621_feed.TagRelation.Named.{counted, marked, Extends-counted, Extends-marked}
use e621_feed.TagRelation.Loads.{marks, load, InGroups, IsLoading, Loaded}

module _ (graph one : TagRelationGraph) (n : Name) (i : ℕ) (count : ℤ) (left coming : ℕ)
    (v : IsLoading graph (suc left) coming) (v1 : IsInterned one) (x : Extends graph one n i)
    (taken : is_empty n.1 ≡ false) where
  abbrev remarked : TagRelationGraph
  remarked = record one { marginals = set one.marginals i (pos_part count) }

  remarked-IsInterned : IsInterned remarked
  unfolding id_of
  remarked-IsInterned = record {
    sized = v1.sized;
    below = λ a id h. ground (arith, v1.below a id, length-set one.marginals i (pos_part count));
    distinct = v1.distinct;
    quiet = λ k l h. ground (arith, v1.quiet k l, length-set one.marginals i (pos_part count));
  }

  marked-remarked :
      (a : Name) → marked remarked a ≡ (if a == n then pos_part count else marked one a)
  unfolding marked id_of marginal_by_id
  marked-remarked a = elim (Option-cases (id_of one a)) [
    | inl no_a ↦ ground (arith, no_a, x.known, eq_iff a n)
    | inr (k, at) ↦ ground (
      arith,
      at,
      x.known,
      eq_iff a n,
      v1.distinct a n i,
      v1.below n i x.known,
      get_or-set one.marginals i k (pos_part count) 0 (v1.below n i x.known),
    )
  ]

  remarked-Loaded : Loaded graph remarked (marks n count) left coming
  unfolding counted id_of
  remarked-Loaded = record {
    loading = record {
      interned = remarked-IsInterned;
      hot = rw x.same_pairs (v.hot);
      room = omega (arith, v.room, x.one_more, length-set one.marginals i (pos_part count));
      fits = λ key. rw x.same_pairs (v.fits key);
    };
    counts = λ a b distinct. ground (arith, Extends-counted v.interned x a b);
    marks_of = λ a. ground (arith, taken, marked-remarked a, Extends-marked v.interned x a);
  }

pub set_marginal-Loaded :
    (graph : TagRelationGraph) (n : Name) (count : ℤ) (left coming : ℕ)
    → IsLoading graph (suc left) coming
    → InGroups (marks n count)
    → (new : TagRelationGraph) × (load graph (marks n count) ≡ some new)
      × Loaded graph new (marks n count) left coming
unfolding load set_marginal
set_marginal-Loaded graph n count left coming v h = elim (Bool-cases (is_empty n.1)) [
  | inl skipped ↦ (
    graph,
    rw skipped,
    record {
      loading = record {
        interned = v.interned;
        hot = v.hot;
        room = omega (arith, v.room);
        fits = v.fits;
      };
      counts = λ a b distinct. omega arith;
      marks_of = λ a. ground (arith, skipped);
    },
  )
  | inr taken ↦
      let (one, i, step, v1, x) =
        intern-Extends graph n.0 n.1 v.interned h (omega (arith, v.room)) in
      (
        record one { marginals = set one.marginals i (pos_part count) },
        ground (arith, taken, step),
        remarked-Loaded graph one n i count left coming v v1 x taken,
      )
]
