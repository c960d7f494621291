-- ===== src/TagRelation/Named.antt =====
-- A graph that grows by names: what it answers is what was inserted under them.
use e621_feed.Base.{
  ℕ, zero, suc, ◌+◌, ◌≡◌, ◌≢◌, ◌≤◌, refl, List, [], ◌∷◌, some, none, if◌then◌else◌, ◌==◌, nat_eq,
  list_eq, pair_eq, eq_iff, arith, length, ◌||◌, ◌&&◌, Bool-cases, Option-cases, inl, inr, get_or,
}
use e621_feed.TagRelation.{PairStorage, TagRelationGraph, Key, canonical, marginal_by_id, get}
use e621_feed.TagRelation.Interned.{Name, id_of, IsInterned, Extends}

-- The count of two names, by the ids that they have.
unfoldable pub counted : TagRelationGraph → Name → Name → ℕ
counted graph n m = elim (id_of graph n) [
  | none ↦ 0
  | some i ↦ elim (id_of graph m) [ none ↦ 0 | some j ↦ get graph.pairs (canonical i j) ]
]

-- The marginal of a name, by its id.
unfoldable pub marked : TagRelationGraph → Name → ℕ
marked graph n = elim (id_of graph n) [ none ↦ 0 | some i ↦ marginal_by_id graph i ]

get_or-past : (xs : List ℕ) (i : ℕ) → length xs ≤ i → get_or xs i 0 ≡ 0
get_or-past [] i h = refl
get_or-past (x ∷ xs) zero h = absurd (omega arith)
get_or-past (x ∷ xs) (suc i) h = get_or-past xs i (omega arith)

canonical_comm : (i j : ℕ) → canonical i j ≡ canonical j i
canonical_comm i j = ground arith

past_marginals :
    (graph : TagRelationGraph) (id : ℕ) → length graph.marginals ≤ id → marginal_by_id graph id ≡ 0
unfolding marginal_by_id
past_marginals graph id h = get_or-past graph.marginals id h

module _ {old new : TagRelationGraph} {n : Name} {id : ℕ} (v : IsInterned old)
    (x : Extends old new n id) where
  pub Extends-counted : (a b : Name) → counted new a b ≡ counted old a b
  unfolding counted
  Extends-counted a b = elim (Option-cases (id_of old a)) [
    | inl no_a ↦ elim (Option-cases (id_of new b)) [
      | inl no_b ↦ ground (arith, no_a, no_b, x.others a, x.known, eq_iff a n)
      | inr (j, at) ↦
          ground (
            arith,
            no_a,
            at,
            x.others a,
            x.known,
            eq_iff a n,
            x.first_id,
            v.quiet id j,
            x.same_pairs,
          )
    ]
    | inr (i, at) ↦ ground (
      arith,
      at,
      x.others a,
      x.others b,
      x.known,
      eq_iff a n,
      eq_iff b n,
      x.first_id,
      v.quiet id i,
      canonical_comm i id,
      x.same_pairs,
    )
  ]

  pub Extends-marked : (a : Name) → marked new a ≡ marked old a
  unfolding marked
  Extends-marked a = elim (Option-cases (id_of old a)) [
    | inl no_a ↦ elim (Bool-cases (a == n)) [
      | inl same ↦
          ground (
            arith,
            no_a,
            x.known,
            eq_iff a n,
            x.first_id,
            x.same_marginals id,
            past_marginals old id,
          )
      | inr other ↦ ground (arith, no_a, x.others a)
    ]
    | inr (i, at) ↦
        ground (arith, at, x.others a, x.known, eq_iff a n, x.first_id, x.same_marginals i)
  ]

-- Two names with different ids, and a count that is added for those.
module _ (graph : TagRelationGraph) (n m : Name) {i j : ℕ} (v : IsInterned graph)
    (at_n : id_of graph n ≡ some i) (at_m : id_of graph m ≡ some j) (different : n ≢ m)
    (s : PairStorage) (c : ℕ)
    (adds : (other : Key)
      → get s other ≡ (
          if canonical i j == other
          then get graph.pairs (canonical i j) + c
          else get graph.pairs other)) where
  pub added-IsInterned : IsInterned (record graph { pairs = s })
  unfolding id_of
  added-IsInterned = record {
    sized = v.sized;
    below = v.below;
    distinct = v.distinct;
    quiet = λ k l h.
        ground (arith, adds (canonical k l), v.below n i at_n, v.below m j at_m, v.quiet k l);
  }

  -- It is added to the count of the two names, and to no other.
  pub counted-added :
      (a b : Name)
      → a ≢ b
      → counted (record graph { pairs = s }) a b
        ≡ counted graph a b + (if (a == n && b == m) || (a == m && b == n) then c else 0)
  unfolding counted id_of
  counted-added a b distinct = elim (Option-cases (id_of graph a)) [
    | inl no_a ↦ ground (arith, no_a, at_n, at_m, eq_iff a n, eq_iff a m)
    | inr (k, at_a) ↦ elim (Option-cases (id_of graph b)) [
      | inl no_b ↦ ground (arith, at_a, no_b, at_n, at_m, eq_iff b n, eq_iff b m)
      | inr (l, at_b) ↦ ground (
        arith,
        at_a,
        at_b,
        adds (canonical k l),
        eq_iff a n,
        eq_iff a m,
        eq_iff b n,
        eq_iff b m,
        v.distinct a n i,
        v.distinct a m j,
        v.distinct b n i,
        v.distinct b m j,
        at_n,
        at_m,
        v.distinct n m i,
      )
    ]
  ]
