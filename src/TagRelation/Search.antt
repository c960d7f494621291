-- ===== src/TagRelation/Search.antt =====
-- The binary search of a frozen graph finds what a scan of its vector finds.
use e621_feed.Base.{
  subst, ap, ◌⊎◌, length-take, ℕ, zero, suc, ◌+◌, ◌/◌, ◌≡◌, ◌≤◌, refl, List, [], ◌∷◌, true, false,
  All, nat_eq, pair_eq, eq_iff, lookup, arith, length, take, drop, Bool-cases, inl, inr,
}
use e621_feed.TagRelation.{Key, Entry, key_ltb, binary_search}
use e621_feed.TagRelation.Order.{IsAscending, lookup_below, All-above}

length-drop {ℓ} :
    {A : Type ℓ} (n : ℕ) (xs : List A) → n ≤ length xs → length (drop n xs) + n ≡ length xs
length-drop zero xs h = omega arith
length-drop (suc n) [] h = absurd (omega arith)
length-drop (suc n) (x ∷ xs) h = omega (arith, length-drop n xs)

All-drop {ℓ κ} : {A : Type ℓ} (P : A → Type κ) (n : ℕ) (xs : List A) → All P xs → All P (drop n xs)
All-drop P zero xs h = h
All-drop P (suc n) [] h = h
All-drop P (suc n) (x ∷ xs) h = All-drop P n xs h.1

drop-IsAscending : (n : ℕ) (v : List Entry) → IsAscending v → IsAscending (drop n v)
drop-IsAscending zero v h = h
drop-IsAscending (suc n) [] h = h
drop-IsAscending (suc n) (x ∷ v) h = drop-IsAscending n v h.1

All-take {ℓ κ} : {A : Type ℓ} (P : A → Type κ) (n : ℕ) (xs : List A) → All P xs → All P (take n xs)
All-take P zero xs h = tt
All-take P (suc n) [] h = tt
All-take P (suc n) (x ∷ xs) h = (h.0, All-take P n xs h.1)

take-IsAscending : (n : ℕ) (v : List Entry) → IsAscending v → IsAscending (take n v)
take-IsAscending zero v h = tt
take-IsAscending (suc n) [] h = tt
take-IsAscending (suc n) ((k, c) ∷ v) h = (All-take _ n v h.0, take-IsAscending n v h.1)

-- A key below the middle entry is before it, if anywhere.
lookup-take :
    (n : ℕ) (key k : Key) (c : ℕ) (v after : List Entry)
    → IsAscending v
    → drop n v ≡ (k, c) ∷ after
    → key_ltb key k ≡ true
    → lookup key (take n v) ≡ lookup key v
unfolding lookup
lookup-take zero key k c v after s e h =
    rw (
      e,
      lookup_below key ((k, c) ∷ after) (h, All-above key k after h ((subst IsAscending e s).0)),
    )
lookup-take (suc n) key k c [] after s e h = refl
lookup-take (suc n) key k c ((j, d) ∷ v) after s e h = rw (lookup-take n key k c v after s.1 e h)

-- The entries before the middle one are below it.
before_middle :
    (n : ℕ) (j k : Key) (c : ℕ) (v after : List Entry)
    → All (λ x. key_ltb j x.0 ≡ true) v
    → drop n v ≡ (k, c) ∷ after
    → key_ltb j k ≡ true
before_middle n j k c v after a e = (subst (All (λ x. key_ltb j x.0 ≡ true)) e (All-drop _ n v a)).0

lookup-drop :
    (n : ℕ) (key k : Key) (c : ℕ) (v after : List Entry)
    → IsAscending v
    → drop n v ≡ (k, c) ∷ after
    → key_ltb key k ≡ false
    → lookup key (drop n v) ≡ lookup key v
unfolding lookup
lookup-drop zero key k c v after s e h = refl
lookup-drop (suc n) key k c [] after s e h = refl
lookup-drop (suc n) key k c ((j, d) ∷ v) after s e h = ground (
  arith,
  eq_iff j key,
  before_middle n j k c v after s.0 e,
  lookup-drop n key k c v after s.1 e h,
)

List-cases : (v : List Entry) → (v ≡ []) ⊎ ((x : Entry) × (after : List Entry) × (v ≡ x ∷ after))
List-cases [] = inl refl
List-cases (x ∷ v) = inr (x, v, refl)

-- With fuel for its length the search of an ascending vector is a lookup.
pub binary_search-lookup :
    (fuel : ℕ) (key : Key) (v : List Entry)
    → length v ≤ fuel
    → IsAscending v
    → binary_search fuel key v ≡ lookup key v
unfolding binary_search lookup
binary_search-lookup zero key [] h s = refl
binary_search-lookup zero key (x ∷ v) h s = absurd (omega arith)
binary_search-lookup (suc fuel) key [] h s = refl
binary_search-lookup (suc fuel) key ((k, c) ∷ []) h s = refl
binary_search-lookup (suc fuel) key (x ∷ y ∷ v) h s =
    let w : List Entry = x ∷ y ∷ v in
    let n : ℕ = length w / 2 in
    elim (List-cases (drop n w)) [
      | inl none_left ↦ absurd (omega (arith, length-drop n w, ap length none_left))
      | inr ((k, c), after, e) ↦ elim (Bool-cases (key_ltb key k)) [
        | inl below ↦ ground (
          arith,
          e,
          below,
          lookup-take n key k c w after s e below,
          binary_search-lookup fuel key (take n w) (omega (arith, length-take n w))
              (take-IsAscending n w s),
        )
        | inr above ↦ ground (
          arith,
          e,
          above,
          lookup-drop n key k c w after s e above,
          binary_search-lookup fuel key (drop n w) (omega (arith, length-drop n w))
              (drop-IsAscending n w s),
        )
      ]
    ]
