-- ===== src/GroupQuota/Kept.antt =====
-- The quota moves posts, and neither loses nor repeats one.
use e621_feed.Base.{
  ℕ, zero, suc, ◌+◌, min, ◌≡◌, refl, inl, inr, Bool, Option, some, List, [], ◌∷◌, arith, nat_beq,
  if◌then◌else◌, Bool-cases, Option-cases, length, take, drop, get_elem?-set, get_elem?, set,
  nat_eq, list_eq, pair_eq,
}
use e621_feed.Base.Text.{Str}
use e621_feed.Blacklist.{Post}
use e621_feed.GroupQuota.{
  swap, promote, push_key, find_fresh, enforce_group_quota, enforce_diversity_quota, first_lower,
  scan,
}

-- How many posts pass a test.
unfoldable pub count {ℓ} : {A : Type ℓ} → (A → Bool) → List A → ℕ
count p [] = 0
count p (x ∷ xs) = let rest = count p xs in if p x then suc rest else rest

abbrev one {ℓ} : {A : Type ℓ} → (A → Bool) → A → ℕ
one p x = if p x then 1 else 0

count-set {ℓ} :
    {A : Type ℓ} (p : A → Bool) (xs : List A) (i : ℕ) (old new : A)
    → get_elem? xs i ≡ some old
    → count p (set xs i new) + one p old ≡ count p xs + one p new
unfolding count
count-set p [] i old new h = ground arith
count-set p (x ∷ xs) zero old new h = ground arith
count-set p (x ∷ xs) (suc i) old new h = ground (arith, count-set p xs i old new)

module _ {A : Type 0} (key : A → Option Str) (p : A → Bool) where
  count-swap : (i j : ℕ) (posts : List A) → count p (swap key i j posts) ≡ count p posts
  unfolding swap
  count-swap i j posts = elim (Option-cases (get_elem? posts i)) [
    | inl no_a ↦ ground (arith, no_a)
    | inr (a, at_i) ↦ elim (Option-cases (get_elem? posts j)) [
      | inl no_b ↦ ground (arith, at_i, no_b)
      | inr (b, at_j) ↦ elim (Bool-cases (nat_beq i j)) [
        | inl same ↦ ground (
          arith,
          at_i,
          at_j,
          count-set p posts i a b at_i,
          count-set p (set posts i b) j b a,
          get_elem?-set posts i j a b at_i,
        )
        | inr other ↦ ground (
          arith,
          at_i,
          at_j,
          count-set p posts i a b at_i,
          count-set p (set posts i b) j b a,
          get_elem?-set posts i j a b at_i,
        )
      ]
    ]
  ]

  count-promote :
      (rounds min_distinct next : ℕ) (seen : List Str) (redundant : List ℕ) (posts : List A)
      → count p (promote key rounds min_distinct next seen redundant posts).0 ≡ count p posts
  unfolding promote
  count-promote zero min_distinct next seen redundant posts = refl
  count-promote (suc rounds) min_distinct next seen [] posts =
      elim (Option-cases (find_fresh key seen next (drop next posts))) [
        | inl none_left ↦ ground (arith, none_left)
        | inr (j, found) ↦ ground (arith, found)
      ]
  count-promote (suc rounds) min_distinct next seen (slot ∷ rest) posts =
      elim (Option-cases (find_fresh key seen next (drop next posts))) [
        | inl none_left ↦ ground (arith, none_left)
        | inr (j, found) ↦
            let swapped : List A = swap key slot j posts in
            ground (
              arith,
              found,
              count-swap slot j posts,
              count-promote rounds min_distinct (j + 1) (push_key key (get_elem? swapped slot) seen)
                  rest swapped,
            )
      ]

  count-enforce_group_quota :
      (posts : List A) (top_k min_distinct : ℕ)
      → count p (enforce_group_quota key posts top_k min_distinct).0 ≡ count p posts
  unfolding enforce_group_quota
  count-enforce_group_quota posts top_k min_distinct =
      let s = scan key 0 [] [] (take top_k posts) in
      count-promote min_distinct min_distinct top_k s.0 s.1 posts

-- The quota only moves posts: of every kind there are as many after it as before.
pub count-enforce_diversity_quota :
    (p : Post → Bool) (scored : List Post)
    → count p (enforce_diversity_quota scored) ≡ count p scored
unfolding enforce_diversity_quota
count-enforce_diversity_quota p scored =
    let top_k : ℕ = min 20 (length scored) in
    let artist : Post → Option Str = λ post. first_lower post.tags.artist in
    let character : Post → Option Str = λ post. first_lower post.tags.character in
    ground (
      arith,
      count-enforce_group_quota artist p scored top_k 2,
      count-enforce_group_quota character p (enforce_group_quota artist scored top_k 2).0 top_k 3,
    )
