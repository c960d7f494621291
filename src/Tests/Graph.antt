-- ===== src/Tests/Graph.antt =====
-- The graph of tags and its rebuilding, at concrete inputs.
use e621_feed.Base.{
  ◌≤◌, ◌≡◌, refl, true, false, some, none, List, [], ◌∷◌, arith, nat_eq, list_eq, pair_eq, lookup,
}
use e621_feed.Base.Int.{pos, negsuc, int_eq}
use e621_feed.Base.Text.{codes}
use e621_feed.TagRelation.{
  TagRelationGraph, Entry, hot, with_posts, cooc_by_id, canonical, freeze_inner, freeze,
  set_pairs_frozen_vec, threshold,
}
use e621_feed.TagRelation.Sums.{pair_total, cooc_by_id-set_pairs_frozen_vec}
use e621_feed.TagRelation.Frozen.{kept, cooc_by_id-freeze_inner}
use e621_feed.TagRelation.Built.{insert_all, freeze-insert_all}
use e621_feed.TagRelation.Interned.{Name}
use e621_feed.TagRelation.Loads.{Load, pairs, load_all}
use e621_feed.TagRelation.Loads.Total.{cooc_of, marginal_of, load_all-total}
use e621_feed.TagRelation.Rebuild.{
  Shared, Event, start, step, run, commits, marks, accesses, spawns, works, loading, work,
}
use e621_feed.TagRelation.Rebuild
use e621_feed.TagRelation.Rebuild.Current.{run-cached}
use e621_feed.TagRelation.Rebuild.Spinning.{rounds, failed_loads_spin}

abbrev wolf : Name
wolf = (0, codes "wolf")

abbrev forest : Name
forest = (4, codes "forest")

abbrev few_loads : List Load
few_loads =
    pairs wolf forest (pos 3)
    ∷ Load.marks wolf (pos 9)
    ∷ pairs forest wolf (pos 2)
    ∷ pairs wolf forest (negsuc 4)
    ∷ []

load_all-total_example :
    (built : TagRelationGraph) × (load_all (with_posts (pos 5)) few_loads ≡ some built)
    × (cooc_of built wolf forest ≡ 5)
    × (marginal_of built wolf ≡ 9)
load_all-total_example =
    load_all-total (pos 5) few_loads wolf forest
      (
        (omega arith, omega arith),
        (omega arith, ((omega arith, omega arith), ((omega arith, omega arith), tt))),
      )
      (omega arith) (omega arith) (λ e. ground (arith, e)) refl refl

abbrev small_graph : TagRelationGraph
small_graph = record {
  tag_to_id = [];
  pairs = hot (((1, 2), 3) ∷ ((1, 3), 1) ∷ []);
  marginals = 4 ∷ 4 ∷ 3 ∷ 1 ∷ [];
  n_posts = 4;
}

cooc_by_id-freeze_inner_example :
    cooc_by_id (freeze_inner small_graph (pos 2) none) 3 1
    ≡ kept (threshold (pos 2)) none (canonical 3 1) (cooc_by_id small_graph 3 1)
unfolding lookup
cooc_by_id-freeze_inner_example =
    cooc_by_id-freeze_inner small_graph (pos 2) none 3 1 (refl, (refl, tt))

abbrev triples : List Entry
triples = ((2, 1), 3) ∷ ((1, 1), 9) ∷ ((1, 2), 4) ∷ []

cooc_by_id-set_pairs_frozen_vec_example :
    cooc_by_id (set_pairs_frozen_vec small_graph triples) 1 2 ≡ 7
unfolding pair_total
cooc_by_id-set_pairs_frozen_vec_example =
    cooc_by_id-set_pairs_frozen_vec small_graph triples 1 2
      (omega arith, (omega arith, (omega arith, tt))) (λ e. omega (arith, e))

abbrev no_pairs : TagRelationGraph
no_pairs = record { tag_to_id = []; pairs = hot []; marginals = []; n_posts = 4 }

freeze-insert_all_example :
    (built : TagRelationGraph) × (insert_all no_pairs triples ≡ some built)
    × (cooc_by_id (freeze built (pos 1)) 1 2
        ≡ cooc_by_id (set_pairs_frozen_vec no_pairs triples) 1 2)
freeze-insert_all_example =
    freeze-insert_all no_pairs triples 1 2 refl (omega arith, (omega arith, (omega arith, tt)))
      (omega arith) (λ e. omega (arith, e))

abbrev first_access : List Event
first_access =
    accesses ∷ accesses ∷ spawns ∷ spawns ∷ works 0 true ∷ works 0 false ∷ works 0 true ∷ []

-- A write that is marked, a load, the cooldown and the end of the thread.
abbrev one_rebuild : List Event
one_rebuild =
    commits
    ∷ Rebuild.marks
    ∷ spawns
    ∷ works 0 true
    ∷ works 0 true
    ∷ works 0 true
    ∷ works 0 true
    ∷ works 0 true
    ∷ works 0 true
    ∷ works 0 true
    ∷ []

run-cached_example : (run start one_rebuild).marked ≤ (run start one_rebuild).cached
unfolding run
run-cached_example = run-cached one_rebuild refl refl refl

abbrev stuck : Shared
stuck = record start { dirty = false; rebuilding = true; threads = loading ∷ []; cold = false }

failed_loads_spin_example : run stuck (rounds 3) ≡ stuck
failed_loads_spin_example =
    failed_loads_spin 3 stuck
      (record { loads = refl; flagged = refl; clean = refl; nobody = (refl, refl); warm = refl })
