-- ===== src/Base/Sort.antt =====
-- `sort_by_key` of the standard library: a stable sort, here by insertion, of entries by a number.
use mathlib.Core.Path.{◌≡◌, refl}
use mathlib.Core.List.{List, [], ◌∷◌}
use mathlib.Core.Option.{none, some}
use Prim.Native.Nat.{ℕ, suc, ◌≤◌}
use native.Mathlib.Omega.{arith}
use e621_feed.Base.Tests.{if◌then◌else◌, leb}
use e621_feed.Base.Lists.{length, All}
use e621_feed.Base.Keys.{Eq, ◌==◌, eq_iff}
use e621_feed.Base.Assoc.{lookup, IsMap}

module _ {ℓ} {K : Type ℓ} where
  pub insert_sorted : K × ℕ → List (K × ℕ) → List (K × ℕ)
  insert_sorted (k, t) [] = (k, t) ∷ []
  insert_sorted (k, t) ((j, u) ∷ l) =
      if leb t u then (k, t) ∷ (j, u) ∷ l else (j, u) ∷ insert_sorted (k, t) l

  unfoldable pub sort_by_key : List (K × ℕ) → List (K × ℕ)
  unfolding insert_sorted
  sort_by_key [] = []
  sort_by_key (x ∷ l) = insert_sorted x (sort_by_key l)

  abbrev pub IsSorted : List (K × ℕ) → Type 0
  IsSorted [] = Unit
  IsSorted ((k, t) ∷ l) = All (λ x. t ≤ x.1) l × IsSorted l

  All-mono : (t u : ℕ) (l : List (K × ℕ)) → t ≤ u → All (λ x. u ≤ x.1) l → All (λ x. t ≤ x.1) l
  All-mono t u [] h a = tt
  All-mono t u (x ∷ l) h a = (omega arith, All-mono t u l h a.1)

  All-insert_sorted :
      (b t : ℕ) (k : K) (l : List (K × ℕ))
      → b ≤ t
      → All (λ x. b ≤ x.1) l
      → All (λ x. b ≤ x.1) (insert_sorted (k, t) l)
  unfolding insert_sorted
  All-insert_sorted b t k [] h a = (h, tt)
  All-insert_sorted b t k ((j, u) ∷ l) h a = ground (arith, All-insert_sorted b t k l h a.1)

  insert_sorted-IsSorted :
      (k : K) (t : ℕ) (l : List (K × ℕ)) → IsSorted l → IsSorted (insert_sorted (k, t) l)
  unfolding insert_sorted
  insert_sorted-IsSorted k t [] s = (tt, tt)
  insert_sorted-IsSorted k t ((j, u) ∷ l) s =
      ground (arith, All-mono t u l, All-insert_sorted u t k l, insert_sorted-IsSorted k t l s.1)

  pub sort_by_key-IsSorted : (l : List (K × ℕ)) → IsSorted (sort_by_key l)
  unfolding sort_by_key
  sort_by_key-IsSorted [] = tt
  sort_by_key-IsSorted ((k, t) ∷ l) =
      insert_sorted-IsSorted k t (sort_by_key l) (sort_by_key-IsSorted l)

  length-insert_sorted :
      (k : K) (t : ℕ) (l : List (K × ℕ)) → length (insert_sorted (k, t) l) ≡ suc (length l)
  unfolding insert_sorted
  length-insert_sorted k t [] = refl
  length-insert_sorted k t ((j, u) ∷ l) = ground (arith, length-insert_sorted k t l)

  pub length-sort_by_key : (l : List (K × ℕ)) → length (sort_by_key l) ≡ length l
  unfolding sort_by_key
  length-sort_by_key [] = refl
  length-sort_by_key ((k, t) ∷ l) =
      omega (arith, length-insert_sorted k t (sort_by_key l), length-sort_by_key l)

module _ {ℓ} {K : Type ℓ} ⦃e : Eq K⦄ where
  lookup-insert_sorted :
      (j k : K) (t : ℕ) (l : List (K × ℕ))
      → lookup k l ≡ none
      → lookup j (insert_sorted (k, t) l) ≡ (if k == j then some t else lookup j l)
  unfolding insert_sorted lookup
  lookup-insert_sorted j k t [] h = refl
  lookup-insert_sorted j k t ((i, u) ∷ l) h =
      ground (arith, eq_iff k j, eq_iff i j, eq_iff i k, lookup-insert_sorted j k t l)

  insert_sorted-IsMap :
      (k : K) (t : ℕ) (l : List (K × ℕ))
      → lookup k l ≡ none
      → IsMap l
      → IsMap (insert_sorted (k, t) l)
  unfolding insert_sorted lookup
  insert_sorted-IsMap k t [] h m = (refl, tt)
  insert_sorted-IsMap k t ((i, u) ∷ l) h m =
      ground
        (arith, eq_iff k i, eq_iff i k, lookup-insert_sorted i k t l, insert_sorted-IsMap k t l)

  pub lookup-sort_by_key :
      (j : K) (l : List (K × ℕ)) → IsMap l → lookup j (sort_by_key l) ≡ lookup j l
  unfolding sort_by_key lookup
  lookup-sort_by_key j [] h = refl
  lookup-sort_by_key j ((k, t) ∷ l) h = ground (
    arith,
    lookup-insert_sorted j k t (sort_by_key l),
    lookup-sort_by_key k l h.1,
    lookup-sort_by_key j l h.1,
  )

  pub sort_by_key-IsMap : (l : List (K × ℕ)) → IsMap l → IsMap (sort_by_key l)
  unfolding sort_by_key
  sort_by_key-IsMap [] h = tt
  sort_by_key-IsMap ((k, t) ∷ l) h =
      insert_sorted-IsMap k t (sort_by_key l) (ground (arith, lookup-sort_by_key k l h.1))
        (sort_by_key-IsMap l h.1)
