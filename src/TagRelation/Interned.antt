-- ===== src/TagRelation/Interned.antt =====
-- Interning: every tag of a group has one id of its own, which it keeps.
use e621_feed.Base.{
  length-set, get_elem?-lt, get_elem?-set, ℕ, zero, suc, ◌+◌, ◌^◌, ◌≡◌, ◌<◌, ◌≤◌, refl, List, [],
  ◌∷◌, ◌++◌, false, Option, some, none, if◌then◌else◌, ◌==◌, nat_eq, list_eq, pair_eq, eq_iff,
  lookup, insert, arith, length, Option-cases, inl, inr, lookup-insert, get_elem?, set, get_or,
  length-append, ◌⊎◌,
}
use e621_feed.Base.Text.{Str}
use e621_feed.TagRelation.{TagRelationGraph, intern, canonical, marginal_by_id, get, group_count}

-- A tag as the program names it: its group and its text.
abbrev pub Name : Type 0
Name = ℕ × Str

-- The id of a name; `tag_id` answers so for every text but the empty one.
unfoldable pub id_of : TagRelationGraph → Name → Option ℕ
id_of graph (g, t) = elim (get_elem? graph.tag_to_id g) [
  | none ↦ none
  | some bucket ↦ lookup t bucket
]

-- Ids are places in the marginals, no two names share one, and only ids that are in use have
-- counts.
pub record IsInterned (graph : TagRelationGraph) : Type 0 where
  pub sized : length graph.tag_to_id ≡ group_count
  pub below : (n : Name) (id : ℕ) → id_of graph n ≡ some id → id < length graph.marginals
  pub distinct : (n m : Name) (id : ℕ) → id_of graph n ≡ some id → id_of graph m ≡ some id → n ≡ m
  pub quiet : (i j : ℕ) → length graph.marginals ≤ i → get graph.pairs (canonical i j) ≡ 0

pub get_or-set {ℓ} :
    {A : Type ℓ} (xs : List A) (i j : ℕ) (v y : A)
    → i < length xs
    → get_or (set xs i v) j y ≡ (if i == j then v else get_or xs j y)
get_or-set [] i j v y h = absurd (omega arith)
get_or-set (x ∷ xs) zero zero v y h = ground arith
get_or-set (x ∷ xs) zero (suc j) v y h = ground arith
get_or-set (x ∷ xs) (suc i) zero v y h = ground arith
get_or-set (x ∷ xs) (suc i) (suc j) v y h = ground (arith, get_or-set xs i j v y)

get_or-append : (xs : List ℕ) (i : ℕ) → get_or (xs ++ 0 ∷ []) i 0 ≡ get_or xs i 0
get_or-append [] zero = refl
get_or-append [] (suc i) = refl
get_or-append (x ∷ xs) zero = refl
get_or-append (x ∷ xs) (suc i) = get_or-append xs i

-- What a step keeps of the graph before it: its ids, its counts, and at most one more tag.
pub record Extends (old new : TagRelationGraph) (n : Name) (id : ℕ) : Type 0 where
  pub known : id_of new n ≡ some id
  pub others : (m : Name) → (m == n) ≡ false → id_of new m ≡ id_of old m
  pub first_id : (id_of old n ≡ some id) ⊎ ((id_of old n ≡ none) × (id ≡ length old.marginals))
  pub same_pairs : new.pairs ≡ old.pairs
  pub same_marginals : (i : ℕ) → marginal_by_id new i ≡ marginal_by_id old i
  pub one_more : length new.marginals ≤ length old.marginals + 1

-- The graph with a new name for the next id.
abbrev grown : TagRelationGraph → ℕ → Str → List (Str × ℕ) → TagRelationGraph
grown graph g t bucket = record graph {
  tag_to_id = set graph.tag_to_id g (insert t (length graph.marginals) bucket);
  marginals = graph.marginals ++ 0 ∷ [];
}

module _ (graph : TagRelationGraph) (g : ℕ) (t : Str) {bucket : List (Str × ℕ)}
    (at : get_elem? graph.tag_to_id g ≡ some bucket) (absent : lookup t bucket ≡ none) where
  id_of-grown :
      (m : Name)
      → id_of (grown graph g t bucket) m
        ≡ (if m == (g, t) then some (length graph.marginals) else id_of graph m)
  unfolding id_of
  id_of-grown (k, u) = ground (
    arith,
    at,
    get_elem?-set graph.tag_to_id g k bucket (insert t (length graph.marginals) bucket),
    lookup-insert t u (length graph.marginals) bucket,
    eq_iff t u,
    eq_iff u t,
  )

  grown-IsInterned : IsInterned graph → IsInterned (grown graph g t bucket)
  grown-IsInterned v = record {
    sized =
        ground
          (arith, v.sized, length-set graph.tag_to_id g (insert t (length graph.marginals) bucket));
    below = λ n id h.
        ground (arith, id_of-grown n, v.below n id, length-append graph.marginals (0 ∷ []));
    distinct = λ n m id h k. ground (
      arith,
      id_of-grown n,
      id_of-grown m,
      eq_iff n (g, t),
      eq_iff m (g, t),
      v.below n id,
      v.below m id,
      v.distinct n m id,
    );
    quiet = λ i j h. ground (arith, v.quiet i j, length-append graph.marginals (0 ∷ []));
  }

  grown-Extends : Extends graph (grown graph g t bucket) (g, t) (length graph.marginals)
  unfolding id_of marginal_by_id
  grown-Extends = record {
    known = ground (arith, id_of-grown (g, t), eq_iff t t);
    others = λ m other. ground (arith, id_of-grown m);
    first_id = inr (ground (arith, at, absent), refl);
    same_pairs = refl;
    same_marginals = λ i. get_or-append graph.marginals i;
    one_more = ground (arith, length-append graph.marginals (0 ∷ []));
  }

-- A tag of one of the groups is interned without a panic, while the ids do not run out.
pub intern-Extends :
    (graph : TagRelationGraph) (g : ℕ) (t : Str)
    → IsInterned graph
    → g < group_count
    → length graph.marginals < 2 ^ 32
    → (new : TagRelationGraph) × (id : ℕ) × (intern graph g t ≡ some (new, id))
      × IsInterned new
      × Extends graph new (g, t) id
unfolding intern id_of
intern-Extends graph g t v h room =
    let (bucket, at) = get_elem?-lt graph.tag_to_id g (rw v.sized h) in
    elim (Option-cases (lookup t bucket)) [
      | inl absent ↦ (
        grown graph g t bucket,
        length graph.marginals,
        ground (arith, at, absent),
        grown-IsInterned graph g t at absent v,
        grown-Extends graph g t at absent,
      )
      | inr (id, found) ↦ (
        graph,
        id,
        ground (arith, at, found),
        v,
        record {
          known = ground (arith, at, found);
          others = λ m other. refl;
          first_id = inl (ground (arith, at, found));
          same_pairs = refl;
          same_marginals = λ i. refl;
          one_more = omega arith;
        },
      )
    ]
