-- ===== src/Base/Evict.antt =====
-- Dropping the oldest entries of a map, as every cache of the program does it: collect the keys
-- with their times, sort by time, remove the first few.
use e621_feed.Base.Tests.{Option-cases}
use e621_feed.Base.Lists.{length, take, length-take}
use e621_feed.Base.Keys.{Eq, eq_iff}
use e621_feed.Base.Assoc.{lookup, remove, IsMap, lookup-remove, remove-IsMap, length-remove}
use e621_feed.Base.Prefix.{lookup-take, take-IsMap, take_older}
use e621_feed.Base.Sort.{
  sort_by_key, sort_by_key-IsSorted, length-sort_by_key, lookup-sort_by_key, sort_by_key-IsMap,
}
use mathlib.Core.Path.{◌≡◌, refl, ◌∙◌, ap}
use mathlib.Core.Logic.{◌≢◌, inl, inr}
use mathlib.Core.List.{List, [], ◌∷◌}
use mathlib.Core.Option
use mathlib.Core.Option.{Option, none, some}
use Prim.Native.Nat.{ℕ, zero, suc, ◌+◌, ◌≤◌, min}
use native.Mathlib.Omega.{arith}

module _ {ℓ κ} {K : Type ℓ} {V : Type κ} where
  -- `map.iter().map(|(k, v)| (k.clone(), v.time))`.
  unfoldable pub stamps : (V → ℕ) → List (K × V) → List (K × ℕ)
  stamps time [] = []
  stamps time ((k, v) ∷ m) = (k, time v) ∷ stamps time m

  length-stamps : (time : V → ℕ) (m : List (K × V)) → length (stamps time m) ≡ length m
  unfolding stamps
  length-stamps time [] = refl
  length-stamps time ((k, v) ∷ m) = ap suc (length-stamps time m)

module _ {ℓ κ} {K : Type ℓ} ⦃e : Eq K⦄ {V : Type κ} where
  -- `for (k, _) in keys { map.remove(&k); }`.
  unfoldable pub remove_all : List (K × ℕ) → List (K × V) → List (K × V)
  remove_all [] m = m
  remove_all ((k, t) ∷ ks) m = remove_all ks (remove k m)

  unfoldable pub evict_oldest : (V → ℕ) → ℕ → List (K × V) → List (K × V)
  unfolding stamps remove_all sort_by_key
  evict_oldest time n m = remove_all (take n (sort_by_key (stamps time m))) m

  lookup-stamps :
      (time : V → ℕ) (j : K) (m : List (K × V))
      → lookup j (stamps time m) ≡ Option.map time (lookup j m)
  unfolding stamps lookup
  lookup-stamps time j [] = refl
  lookup-stamps time j ((k, v) ∷ m) = ground (arith, lookup-stamps time j m)

  stamps-IsMap : (time : V → ℕ) (m : List (K × V)) → IsMap m → IsMap (stamps time m)
  unfolding stamps
  stamps-IsMap time [] h = tt
  stamps-IsMap time ((k, v) ∷ m) h = ground (arith, lookup-stamps time k m, stamps-IsMap time m h.1)

  lookup-remove_all :
      (j : K) (ks : List (K × ℕ)) (m : List (K × V))
      → lookup j (remove_all ks m) ≡ elim (lookup j ks) [ none ↦ lookup j m | some _ ↦ none ]
  unfolding remove_all lookup
  lookup-remove_all j [] m = refl
  lookup-remove_all j ((k, t) ∷ ks) m =
      ground (arith, lookup-remove k j m, lookup-remove_all j ks (remove k m))

  remove_all-IsMap : (ks : List (K × ℕ)) (m : List (K × V)) → IsMap m → IsMap (remove_all ks m)
  unfolding remove_all
  remove_all-IsMap [] m h = h
  remove_all-IsMap ((k, t) ∷ ks) m h = remove_all-IsMap ks (remove k m) (remove-IsMap k m h)

  abbrev Within : List (K × ℕ) → List (K × V) → Type κ
  Within [] m = Unit
  Within ((k, t) ∷ ks) m = (lookup k m ≢ none) × Within ks m

  Within-remove :
      (k : K) (ks : List (K × ℕ)) (m : List (K × V))
      → lookup k ks ≡ none
      → Within ks m
      → Within ks (remove k m)
  unfolding lookup
  Within-remove k [] m h w = tt
  Within-remove k ((j, t) ∷ ks) m h w =
      ground (arith, eq_iff k j, eq_iff j k, lookup-remove k j m, Within-remove k ks m)

  length-remove_all :
      (ks : List (K × ℕ)) (m : List (K × V))
      → IsMap ks
      → IsMap m
      → Within ks m
      → length (remove_all ks m) + length ks ≡ length m
  unfolding remove_all
  length-remove_all [] m d h w = omega arith
  length-remove_all ((k, t) ∷ ks) m d h w = omega (
    arith,
    length-remove_all ks (remove k m) d.1 (remove-IsMap k m h) (Within-remove k ks m d.0 w.1),
    length-remove k m h w.0,
  )

  Within-take : (n : ℕ) (ks : List (K × ℕ)) (m : List (K × V)) → Within ks m → Within (take n ks) m
  Within-take zero ks m w = tt
  Within-take (suc n) [] m w = tt
  Within-take (suc n) ((k, t) ∷ ks) m w = (w.0, Within-take n ks m w.1)

  -- Each key of a list of distinct keys is found, so a list that the map answers lies within it.
  Within-of_lookup :
      (ks : List (K × ℕ)) (m : List (K × V))
      → ((j : K) → lookup j m ≡ none → lookup j ks ≡ none)
      → IsMap ks
      → Within ks m
  unfolding lookup
  Within-of_lookup [] m sub d = tt
  Within-of_lookup ((k, t) ∷ ks) m sub d = (
    λ absent. ground (arith, sub k absent, eq_iff k k),
    Within-of_lookup ks m (λ j absent. ground (arith, sub j absent)) d.1,
  )

  abbrev oldest : (V → ℕ) → List (K × V) → List (K × ℕ)
  oldest time m = sort_by_key (stamps time m)

  lookup-oldest :
      (time : V → ℕ) (j : K) (m : List (K × V))
      → IsMap m
      → lookup j (oldest time m) ≡ Option.map time (lookup j m)
  lookup-oldest time j m h =
      lookup-sort_by_key j (stamps time m) (stamps-IsMap time m h) ∙ lookup-stamps time j m

  oldest-IsMap : (time : V → ℕ) (m : List (K × V)) → IsMap m → IsMap (oldest time m)
  oldest-IsMap time m h = sort_by_key-IsMap (stamps time m) (stamps-IsMap time m h)

  pub evict_oldest-IsMap :
      (time : V → ℕ) (n : ℕ) (m : List (K × V)) → IsMap m → IsMap (evict_oldest time n m)
  unfolding evict_oldest
  evict_oldest-IsMap time n m h = remove_all-IsMap (take n (oldest time m)) m h

  -- Exactly `n` entries go, or all of them where there are fewer.
  pub length-evict_oldest :
      (time : V → ℕ) (n : ℕ) (m : List (K × V))
      → IsMap m
      → length (evict_oldest time n m) + min n (length m) ≡ length m
  unfolding evict_oldest
  length-evict_oldest time n m h = omega (
    arith,
    length-remove_all (take n (oldest time m)) m (take-IsMap n _ (oldest-IsMap time m h)) h (
        Within-take n _ m (
          Within-of_lookup (oldest time m) m (λ j absent. rw (lookup-oldest time j m h, absent))
            (oldest-IsMap time m h))),
    length-take n (oldest time m),
    length-sort_by_key (stamps time m),
    length-stamps time m,
  )

  -- What is left was there, unchanged.
  pub lookup-evict_oldest :
      (time : V → ℕ) (n : ℕ) (j : K) (m : List (K × V)) {v : V}
      → lookup j (evict_oldest time n m) ≡ some v
      → lookup j m ≡ some v
  unfolding evict_oldest
  lookup-evict_oldest time n j m h = ground (arith, lookup-remove_all j (take n (oldest time m)) m)

  -- An entry that goes is no younger than one that stays.
  pub evict_oldest_order :
      (time : V → ℕ) (n : ℕ) (i j : K) (m : List (K × V)) (v w : V)
      → IsMap m
      → lookup i m ≡ some v
      → lookup i (evict_oldest time n m) ≡ none
      → lookup j (evict_oldest time n m) ≡ some w
      → time v ≤ time w
  unfolding evict_oldest
  evict_oldest_order time n i j m v w h at_i gone kept =
      let ks = oldest time m in
      elim (Option-cases (lookup i (take n ks))) [
        | inl absent ↦ ground (arith, lookup-remove_all i (take n ks) m)
        | inr (t, found) ↦ ground (
          arith,
          lookup-take n t i ks,
          lookup-oldest time i m h,
          lookup-oldest time j m h,
          lookup-remove_all j (take n ks) m,
          take_older n t (time w) i j ks (sort_by_key-IsSorted (stamps time m)),
        )
      ]
