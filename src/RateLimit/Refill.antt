-- ===== src/RateLimit/Refill.antt =====
-- The tokens that a key could spend, between calls.
use e621_feed.Base.{
  ℕ, ◌+◌, ◌-◌, ◌*◌, ◌≤◌, ◌≡◌, some, none, arith, min, lookup, IsMap, Option-cases, inl, inr, nat_eq,
  list_eq, ap, ◌∙◌,
}
use native.Mathlib.Nat.{add-mul}
use e621_feed.Base.Text.{Str}
use e621_feed.RateLimit.{Table, Bucket, bucket_of, full}

split_product : (a b c p : ℕ) → c ≤ a → (a + b - c) * p ≡ (a - c) * p + b * p
split_product a b c p h =
    let e : a + b - c ≡ (a - c) + b = omega arith in ap (λ (n : ℕ). n * p) e ∙ add-mul (a - c) b p

module _ (key : Str) (per_min burst : ℕ) where
  -- What a call at that time would find in the bucket of the key.
  abbrev pub credit : Table → ℕ → ℕ
  credit t now = (bucket_of t key per_min burst now).tokens

  -- The table is a map, and the bucket of the key was last used in the past and by this burst.
  pub record IsValid (t : Table) (now : ℕ) : Type 0 where
    pub is_map : IsMap t.buckets
    pub past : (b : Bucket) → lookup key t.buckets ≡ some b → b.last_refill ≤ now
    pub same_burst : (b : Bucket) → lookup key t.buckets ≡ some b → b.burst ≡ full burst

  -- Never more than the burst.
  pub credit-le-full : (t : Table) (now : ℕ) → credit t now ≤ full burst
  unfolding bucket_of
  credit-le-full t now = ground arith

  pub credit_absent :
      (t : Table) (now : ℕ) → lookup key t.buckets ≡ none → credit t now ≡ full burst
  unfolding bucket_of
  credit_absent t now absent = rw (absent, bucket_of) (omega arith)

  pub credit_present :
      (t : Table) (now : ℕ) (b : Bucket)
      → lookup key t.buckets ≡ some b
      → credit t now ≡ min (b.tokens + (now - b.last_refill) * per_min) (full burst)
  unfolding bucket_of
  credit_present t now b found = rw (found, bucket_of) (omega arith)

  -- Time adds tokens at the rate.
  pub credit_later :
      (t : Table) (now d : ℕ) → IsValid t now → credit t (now + d) ≤ credit t now + d * per_min
  credit_later t now d v = elim (Option-cases (lookup key t.buckets)) [
    | inl absent ↦ omega (arith, credit_absent t now absent, credit_absent t (now + d) absent)
    | inr (b, found) ↦ omega (
      arith,
      credit_present t now b found,
      credit_present t (now + d) b found,
      split_product now d b.last_refill per_min (v.past b found),
    )
  ]

  pub IsValid-later : (t : Table) (now d : ℕ) → IsValid t now → IsValid t (now + d)
  IsValid-later t now d v = record {
    is_map = v.is_map;
    past = λ b found. omega (arith, v.past b found);
    same_burst = v.same_burst;
  }
