-- ===== src/RateLimit/Gc.antt =====
-- The garbage collection cannot be seen by a key, as long as the table is not over its cap.
use e621_feed.Base.{
  ℕ, ◌≤◌, ◌≡◌, not, arith, ◌⊎◌, lookup, length, IsMap, keep_if, lookup-retain, retain-IsMap,
  length-retain-le, Option-cases, inl, inr, nat_eq, list_eq,
}
use e621_feed.Base.Text.{Str}
use e621_feed.RateLimit.{Table, maybe_gc, max_buckets, is_idle}
use e621_feed.RateLimit.Refill.{IsValid, credit, credit_absent, credit_present}

pub length-maybe_gc :
    (t : Table) (now : ℕ)
    → length t.buckets ≤ max_buckets
    → length (maybe_gc t now).buckets ≤ length t.buckets
unfolding maybe_gc
length-maybe_gc t now room = ground (arith, length-retain-le (λ b. not (is_idle now b)) t.buckets)

pub lookup-maybe_gc :
    (t : Table) (now : ℕ) (key : Str)
    → IsMap t.buckets
    → length t.buckets ≤ max_buckets
    → (lookup key (maybe_gc t now).buckets ≡ lookup key t.buckets)
      ⊎ (lookup key (maybe_gc t now).buckets
          ≡ keep_if (λ b. not (is_idle now b)) (lookup key t.buckets))
unfolding maybe_gc
lookup-maybe_gc t now key h room =
    ground (arith, lookup-retain (λ b. not (is_idle now b)) key t.buckets h)

pub maybe_gc-IsMap :
    (t : Table) (now : ℕ)
    → IsMap t.buckets
    → length t.buckets ≤ max_buckets
    → IsMap (maybe_gc t now).buckets
unfolding maybe_gc
maybe_gc-IsMap t now h room = ground (arith, retain-IsMap (λ b. not (is_idle now b)) t.buckets h)

module _ (key : Str) (per_min burst : ℕ) where
  pub maybe_gc-IsValid :
      (t : Table) (now : ℕ)
      → length t.buckets ≤ max_buckets
      → IsValid key per_min burst t now
      → IsValid key per_min burst (maybe_gc t now) now
  maybe_gc-IsValid t now room v = record {
    is_map = maybe_gc-IsMap t now v.is_map room;
    past = λ b found. elim (Option-cases (lookup key t.buckets)) [
      | inl absent ↦ ground (arith, lookup-maybe_gc t now key v.is_map room)
      | inr (old, at) ↦ ground (arith, lookup-maybe_gc t now key v.is_map room, v.past old)
    ];
    same_burst = λ b found. elim (Option-cases (lookup key t.buckets)) [
      | inl absent ↦ ground (arith, lookup-maybe_gc t now key v.is_map room)
      | inr (old, at) ↦ ground (arith, lookup-maybe_gc t now key v.is_map room, v.same_burst old)
    ];
  }

  -- A bucket that is dropped was full, and so is the one that will be made in its place.
  pub credit-maybe_gc :
      (t : Table) (now : ℕ)
      → length t.buckets ≤ max_buckets
      → IsValid key per_min burst t now
      → credit key per_min burst (maybe_gc t now) now ≡ credit key per_min burst t now
  credit-maybe_gc t now room v = elim (Option-cases (lookup key t.buckets)) [
    | inl absent ↦ ground (
      arith,
      lookup-maybe_gc t now key v.is_map room,
      credit_absent key per_min burst t now,
      credit_absent key per_min burst (maybe_gc t now) now,
    )
    | inr (b, found) ↦ ground (
      arith,
      lookup-maybe_gc t now key v.is_map room,
      v.same_burst b,
      credit_present key per_min burst t now b,
      credit_absent key per_min burst (maybe_gc t now) now,
      credit_present key per_min burst (maybe_gc t now) now b,
    )
  ]
