-- ===== src/Base/Prefix.antt =====
-- A prefix of a list of stamped keys: what it holds, and that in a sorted list it is the older part.
use e621_feed.Base.Lists.{take, All}
use e621_feed.Base.Keys.{Eq}
use e621_feed.Base.Assoc.{lookup, IsMap}
use e621_feed.Base.Sort.{IsSorted}
use mathlib.Core.Path.{◌≡◌, refl}
use mathlib.Core.List.{List, [], ◌∷◌}
use mathlib.Core.Option.{none, some}
use Prim.Native.Nat.{ℕ, zero, suc, ◌≤◌}
use native.Mathlib.Omega.{arith}

module _ {ℓ} {K : Type ℓ} ⦃e : Eq K⦄ where
  pub lookup-take-none :
      (j : K) (n : ℕ) (ks : List (K × ℕ)) → lookup j ks ≡ none → lookup j (take n ks) ≡ none
  unfolding lookup
  lookup-take-none j zero ks h = refl
  lookup-take-none j (suc n) [] h = refl
  lookup-take-none j (suc n) ((k, t) ∷ ks) h = ground (arith, lookup-take-none j n ks)

  pub take-IsMap : (n : ℕ) (ks : List (K × ℕ)) → IsMap ks → IsMap (take n ks)
  take-IsMap zero ks h = tt
  take-IsMap (suc n) [] h = tt
  take-IsMap (suc n) ((k, t) ∷ ks) h = (lookup-take-none k n ks h.0, take-IsMap n ks h.1)

  lookup-All :
      (b u : ℕ) (j : K) (ks : List (K × ℕ)) → All (λ x. b ≤ x.1) ks → lookup j ks ≡ some u → b ≤ u
  unfolding lookup
  lookup-All b u j [] a h = cc
  lookup-All b u j ((k, t) ∷ ks) a h = ground (arith, lookup-All b u j ks a.1)

  pub take_older :
      (n t u : ℕ) (i j : K) (ks : List (K × ℕ))
      → IsSorted ks
      → lookup i (take n ks) ≡ some t
      → lookup j ks ≡ some u
      → lookup j (take n ks) ≡ none
      → t ≤ u
  unfolding lookup
  take_older zero t u i j ks s hi hj out = cc
  take_older (suc n) t u i j [] s hi hj out = cc
  take_older (suc n) t u i j ((k, b) ∷ ks) s hi hj out =
      ground (arith, lookup-All b u j ks s.0, take_older n t u i j ks s.1)

  pub lookup-take :
      (n t : ℕ) (i : K) (ks : List (K × ℕ)) → lookup i (take n ks) ≡ some t → lookup i ks ≡ some t
  unfolding lookup
  lookup-take zero t i ks h = cc
  lookup-take (suc n) t i [] h = cc
  lookup-take (suc n) t i ((k, b) ∷ ks) h = ground (arith, lookup-take n t i ks)
