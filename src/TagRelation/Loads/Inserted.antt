-- ===== src/TagRelation/Loads/Inserted.antt =====
-- What `insert_pair` does to the answers by names.
use e621_feed.Base.{
  ℕ, suc, ◌+◌, ◌*◌, ◌^◌, ◌≡◌, ◌≢◌, ◌≤◌, refl, false, some, if◌then◌else◌, ◌==◌, nat_eq, list_eq,
  pair_eq, eq_iff, arith, length, ◌||◌, Bool-cases, inl, inr, ◌∙◌,
}
use e621_feed.Base.Int.{ℤ, pos, pos_part, leb_ℤ}
use e621_feed.Base.Text.{is_empty}
use e621_feed.TagRelation.{
  i64_max, PairStorage, Key, TagRelationGraph, canonical, marginal_by_id, get, insert_pair,
}
use e621_feed.TagRelation.Interned.{Name, id_of, IsInterned, Extends, intern-Extends}
use e621_feed.TagRelation.Built.{IsHot, entry_add-IsHot}
use e621_feed.TagRelation.Named.{
  counted, marked, Extends-counted, Extends-marked, added-IsInterned, counted-added,
}
use e621_feed.TagRelation.Loads.{pairs, load, InGroups, IsLoading, Loaded}

module _ (graph one two : TagRelationGraph) (n m : Name) (i j : ℕ) (count : ℤ) (left coming : ℕ)
    (v : IsLoading graph (suc left) (pos_part count + coming)) (v1 : IsInterned one)
    (v2 : IsInterned two) (x1 : Extends graph one n i) (x2 : Extends one two m j)
    (taken : leb_ℤ count (pos 0) || (is_empty n.1 || is_empty m.1) ≡ false) where
  first_stays : id_of two n ≡ some i
  first_stays = elim (Bool-cases (n == m)) [
    | inl same ↦ ground (arith, x1.known, x2.known, x2.first_id, eq_iff n m)
    | inr other ↦ ground (arith, x1.known, x2.others n)
  ]

  still-IsHot : IsHot two.pairs
  still-IsHot = rw (x2.same_pairs, x1.same_pairs) (v.hot)

  room_left : length two.marginals + 2 * left ≤ 2 ^ 32
  room_left = omega (arith, v.room, x1.one_more, x2.one_more)

  fits_still : (key : Key) → get two.pairs key + (pos_part count + coming) ≤ i64_max
  fits_still key = rw (x2.same_pairs, x1.same_pairs) (v.fits key)

  interned_counts : (a b : Name) → counted two a b ≡ counted graph a b
  interned_counts a b = Extends-counted v1 x2 a b ∙ Extends-counted v.interned x1 a b

  interned_marks : (a : Name) → marked two a ≡ marked graph a
  interned_marks a = Extends-marked v1 x2 a ∙ Extends-marked v.interned x1 a

  same_name-Loaded : i ≡ j → Loaded graph two (pairs n m count) left coming
  same_name-Loaded same = record {
    loading = record {
      interned = v2;
      hot = still-IsHot;
      room = room_left;
      fits = λ key. omega (arith, fits_still key);
    };
    counts = λ a b distinct. ground (
      arith,
      interned_counts a b,
      v2.distinct n m i first_stays (ground (arith, x2.known, same)),
      eq_iff a n,
      eq_iff b m,
      eq_iff a m,
      eq_iff b n,
    );
    marks_of = interned_marks;
  }

  two_names-Loaded :
      (different : n ≢ m) (s : PairStorage)
      → IsHot s
      → ((other : Key)
          → get s other ≡ (
              if canonical i j == other
              then get two.pairs (canonical i j) + pos_part count
              else get two.pairs other))
      → Loaded graph (record two { pairs = s }) (pairs n m count) left coming
  unfolding marked id_of marginal_by_id
  two_names-Loaded different s h adds = record {
    loading = record {
      interned = added-IsInterned two n m v2 first_stays x2.known different s (pos_part count) adds;
      hot = h;
      room = room_left;
      fits = λ key. ground (arith, adds key, fits_still key);
    };
    counts = λ a b distinct. ground (
      arith,
      taken,
      counted-added two n m v2 first_stays x2.known different s (pos_part count) adds a b distinct,
      interned_counts a b,
    );
    marks_of = interned_marks;
  }

pub insert_pair-Loaded :
    (graph : TagRelationGraph) (n m : Name) (count : ℤ) (left coming : ℕ)
    → IsLoading graph (suc left) (pos_part count + coming)
    → InGroups (pairs n m count)
    → (new : TagRelationGraph) × (load graph (pairs n m count) ≡ some new)
      × Loaded graph new (pairs n m count) left coming
unfolding load insert_pair
insert_pair-Loaded graph n m count left coming v h =
    elim (Bool-cases (leb_ℤ count (pos 0) || (is_empty n.1 || is_empty m.1))) [
      | inl skipped ↦ (
        graph,
        rw skipped,
        record {
          loading = record {
            interned = v.interned;
            hot = v.hot;
            room = omega (arith, v.room);
            fits = λ key. omega (arith, v.fits key);
          };
          counts = λ a b distinct. ground arith;
          marks_of = λ a. refl;
        },
      )
      | inr taken ↦
          let (one, i, step_one, v1, x1) =
            intern-Extends graph n.0 n.1 v.interned h.0 (omega (arith, v.room)) in
          let (two, j, step_two, v2, x2) =
            intern-Extends one m.0 m.1 v1 h.1 (omega (arith, v.room, x1.one_more)) in
          elim (Bool-cases (i == j)) [
            | inl same ↦ (
              two,
              ground (arith, taken, step_one, step_two, same),
              same_name-Loaded graph one two n m i j count left coming v v1 v2 x1 x2 taken
                  (ground arith),
            )
            | inr other ↦
                let (s, added, still, adds) =
                  entry_add-IsHot two.pairs (canonical i j) (pos_part count)
                    (still-IsHot graph one two n m i j count left coming v v1 v2 x1 x2 taken)
                    (omega (
                      arith,
                      fits_still graph one two n m i j count left coming v v1 v2 x1 x2 taken
                          (canonical i j),
                    )) in
                (
                  record two { pairs = s },
                  ground (arith, taken, step_one, step_two, other, added),
                  two_names-Loaded graph one two n m i j count left coming v v1 v2 x1 x2 taken
                      (λ e. ground (
                        arith,
                        e,
                        first_stays graph one two n m i j count left coming v v1 v2 x1 x2 taken,
                        x2.known,
                      ))
                      s still adds,
                )
          ]
    ]
