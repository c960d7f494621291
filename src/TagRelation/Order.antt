-- ===== src/TagRelation/Order.antt =====
-- Vectors of entries in the order of their keys.
use e621_feed.Base.{
  ℕ, ◌≡◌, refl, List, [], ◌∷◌, true, false, some, none, if◌then◌else◌, All, ◌==◌, nat_eq, pair_eq,
  eq_iff, lookup, IsMap, arith,
}
use e621_feed.TagRelation.{Key, Entry, key_ltb, insert_entry, sort_entries}

-- Every key is below the keys after it: no key twice.
abbrev pub IsAscending : List Entry → Type 0
IsAscending [] = Unit
IsAscending ((k, c) ∷ v) = All (λ x. key_ltb k x.0 ≡ true) v × IsAscending v

-- No key is above one after it.
abbrev pub IsOrdered : List Entry → Type 0
IsOrdered [] = Unit
IsOrdered ((k, c) ∷ v) = All (λ x. key_ltb x.0 k ≡ false) v × IsOrdered v

pub key_ltb_trans : (i j k : Key) → key_ltb i j ≡ true → key_ltb j k ≡ true → key_ltb i k ≡ true
key_ltb_trans (a, b) (c, d) (e, f) p q = ground arith

pub key_ltb_le_trans :
    (i j k : Key) → key_ltb j i ≡ false → key_ltb k j ≡ false → key_ltb k i ≡ false
key_ltb_le_trans (a, b) (c, d) (e, f) p q = ground arith

pub key_ltb_asym : (i j : Key) → key_ltb i j ≡ true → key_ltb j i ≡ false
key_ltb_asym (a, b) (c, d) p = ground arith

pub key_ltb_total : (i j : Key) → key_ltb i j ≡ false → key_ltb j i ≡ false → i ≡ j
key_ltb_total (a, b) (c, d) p q = ground arith

pub key_ltb_irrefl : (i : Key) → key_ltb i i ≡ false
key_ltb_irrefl (a, b) = ground arith

pub All-above :
    (i j : Key) (v : List Entry)
    → key_ltb i j ≡ true
    → All (λ x. key_ltb j x.0 ≡ true) v
    → All (λ x. key_ltb i x.0 ≡ true) v
All-above i j [] h a = tt
All-above i j ((k, c) ∷ v) h a = (key_ltb_trans i j k h a.0, All-above i j v h a.1)

All-not_below :
    (i j : Key) (v : List Entry)
    → key_ltb j i ≡ false
    → All (λ x. key_ltb x.0 j ≡ false) v
    → All (λ x. key_ltb x.0 i ≡ false) v
All-not_below i j [] h a = tt
All-not_below i j ((k, c) ∷ v) h a = (key_ltb_le_trans i j k h a.0, All-not_below i j v h a.1)

-- A key below all entries is not among them.
pub lookup_below :
    (k : Key) (v : List Entry) → All (λ x. key_ltb k x.0 ≡ true) v → lookup k v ≡ none
unfolding lookup
lookup_below k [] a = refl
lookup_below (a, b) (((c, d), n) ∷ v) h = ground (arith, lookup_below (a, b) v h.1)

All-insert_entry :
    (i k : Key) (c : ℕ) (v : List Entry)
    → key_ltb k i ≡ false
    → All (λ x. key_ltb x.0 i ≡ false) v
    → All (λ x. key_ltb x.0 i ≡ false) (insert_entry (k, c) v)
unfolding insert_entry
All-insert_entry i k c [] h a = (h, tt)
All-insert_entry i k c ((j, d) ∷ v) h a = ground (arith, All-insert_entry i k c v)

insert_entry-IsOrdered :
    (k : Key) (c : ℕ) (v : List Entry) → IsOrdered v → IsOrdered (insert_entry (k, c) v)
unfolding insert_entry
insert_entry-IsOrdered k c [] s = (tt, tt)
insert_entry-IsOrdered k c ((j, d) ∷ v) s = ground (
  arith,
  All-insert_entry j k c v,
  key_ltb_asym j k,
  All-not_below k j v,
  insert_entry-IsOrdered k c v,
)

pub sort_entries-IsOrdered : (v : List Entry) → IsOrdered (sort_entries v)
unfolding sort_entries
sort_entries-IsOrdered [] = tt
sort_entries-IsOrdered ((k, c) ∷ v) =
    insert_entry-IsOrdered k c (sort_entries v) (sort_entries-IsOrdered v)

-- In a map no two entries compare as equal, so that the order is strict.
All-strict :
    (k : Key) (v : List Entry)
    → lookup k v ≡ none
    → All (λ x. key_ltb x.0 k ≡ false) v
    → All (λ x. key_ltb k x.0 ≡ true) v
unfolding lookup
All-strict k [] h a = tt
All-strict (a, b) (((c, d), n) ∷ v) h s = ground (arith, All-strict (a, b) v)

pub IsOrdered-IsAscending : (v : List Entry) → IsMap v → IsOrdered v → IsAscending v
IsOrdered-IsAscending [] m s = tt
IsOrdered-IsAscending ((k, c) ∷ v) m s = (All-strict k v m.0 s.0, IsOrdered-IsAscending v m.1 s.1)

lookup-insert_entry :
    (j k : Key) (c : ℕ) (v : List Entry)
    → lookup k v ≡ none
    → lookup j (insert_entry (k, c) v) ≡ (if k == j then some c else lookup j v)
unfolding insert_entry lookup
lookup-insert_entry j k c [] h = refl
lookup-insert_entry j k c ((i, d) ∷ v) h =
    ground (arith, eq_iff k j, eq_iff i j, eq_iff i k, lookup-insert_entry j k c v)

insert_entry-IsMap :
    (k : Key) (c : ℕ) (v : List Entry) → lookup k v ≡ none → IsMap v → IsMap (insert_entry (k, c) v)
unfolding insert_entry lookup
insert_entry-IsMap k c [] h m = (refl, tt)
insert_entry-IsMap k c ((i, d) ∷ v) h m =
    ground (arith, eq_iff k i, eq_iff i k, lookup-insert_entry i k c v, insert_entry-IsMap k c v)

pub lookup-sort_entries :
    (j : Key) (v : List Entry) → IsMap v → lookup j (sort_entries v) ≡ lookup j v
unfolding sort_entries lookup
lookup-sort_entries j [] h = refl
lookup-sort_entries j ((k, c) ∷ v) h = ground (
  arith,
  lookup-insert_entry j k c (sort_entries v),
  lookup-sort_entries k v h.1,
  lookup-sort_entries j v h.1,
)

sort_entries-IsMap : (v : List Entry) → IsMap v → IsMap (sort_entries v)
unfolding sort_entries
sort_entries-IsMap [] h = tt
sort_entries-IsMap ((k, c) ∷ v) h =
    insert_entry-IsMap k c (sort_entries v) (ground (arith, lookup-sort_entries k v h.1))
      (sort_entries-IsMap v h.1)

pub sort_entries-IsAscending : (v : List Entry) → IsMap v → IsAscending (sort_entries v)
sort_entries-IsAscending v h =
    IsOrdered-IsAscending (sort_entries v) (sort_entries-IsMap v h) (sort_entries-IsOrdered v)
