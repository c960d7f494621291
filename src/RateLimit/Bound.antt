-- ===== src/RateLimit/Bound.antt =====
-- How many calls of one key get through in a time.
use e621_feed.Base.{
  ℕ, suc, ◌+◌, ◌-◌, ◌*◌, ◌≤◌, ◌≡◌, refl, Bool, true, false, ◌&&◌, List, [], ◌∷◌, arith,
  if◌then◌else◌, leb, ◌==◌, All, insert, length, lookup-insert, lookup-insert_self, insert-IsMap,
  length-insert-le, ◌∙◌, nat_eq, list_eq,
}
use e621_feed.Base.Results.{Result, ok, err}
use e621_feed.Base.Text.{Str}
use e621_feed.RateLimit.{Table, Bucket, check, bucket_of, full, unit, max_buckets, take_token}
use e621_feed.RateLimit.Refill.{IsValid, credit, credit_present, credit-le-full}
use e621_feed.RateLimit.Gc.{maybe_gc-IsValid, credit-maybe_gc, length-maybe_gc}

abbrev pub is_ok {ℓ} : {E : Type 0} {A : Type ℓ} → Result E A → Bool
is_ok (ok a) = true
is_ok (err e) = false

-- The table before the garbage collection.
abbrev stored : Table → Str → Bucket → Table
stored t k b = record t { buckets = insert k b t.buckets }

module _ (key : Str) (per_min burst : ℕ) where
  abbrev Valid : Table → ℕ → Type 0
  Valid = IsValid key per_min burst

  abbrev own_bucket : Table → ℕ → Bucket
  own_bucket t now = bucket_of t key per_min burst now

  stored-IsValid :
      (t : Table) (now : ℕ) (b : Bucket)
      → Valid t now
      → b.last_refill ≡ now
      → b.burst ≡ full burst
      → Valid (stored t key b) now
  stored-IsValid t now b v at_now same = record {
    is_map = insert-IsMap key b t.buckets v.is_map;
    past = λ c found. ground (arith, lookup-insert_self key b t.buckets);
    same_burst = λ c found. ground (arith, lookup-insert_self key b t.buckets);
  }

  stored_other-IsValid :
      (t : Table) (now : ℕ) (k : Str) (b : Bucket)
      → (k == key) ≡ false
      → Valid t now
      → Valid (stored t k b) now
  stored_other-IsValid t now k b other v = record {
    is_map = insert-IsMap k b t.buckets v.is_map;
    past = λ c found. ground (arith, lookup-insert k key b t.buckets, v.past c);
    same_burst = λ c found. ground (arith, lookup-insert k key b t.buckets, v.same_burst c);
  }

  -- A bucket that was refilled just now is worth what it holds.
  credit-stored :
      (t : Table) (now : ℕ) (b : Bucket)
      → b.last_refill ≡ now
      → b.tokens ≤ full burst
      → credit key per_min burst (stored t key b) now ≡ b.tokens
  credit-stored t now b at_now bounded = omega (
    arith,
    credit_present key per_min burst (stored t key b) now b (lookup-insert_self key b t.buckets),
    zero_elapsed b at_now,
  )
    where
      zero_elapsed : (b : Bucket) → b.last_refill ≡ now → (now - b.last_refill) * per_min ≡ 0
      zero_elapsed b e = rw (← e) (grind arith)

  credit-stored_other :
      (t : Table) (now : ℕ) (k : Str) (b : Bucket)
      → (k == key) ≡ false
      → credit key per_min burst (stored t k b) now ≡ credit key per_min burst t now
  unfolding bucket_of
  credit-stored_other t now k b other = ground (arith, lookup-insert k key b t.buckets)

  own_bucket-facts :
      (t : Table) (now : ℕ)
      → ((own_bucket t now).last_refill ≡ now) × ((own_bucket t now).burst ≡ full burst)
  unfolding bucket_of
  own_bucket-facts t now = (refl, refl)

  take_token-facts :
      (b : Bucket)
      → ((take_token b).last_refill ≡ b.last_refill)
        × ((take_token b).burst ≡ b.burst)
        × ((take_token b).tokens + (if leb unit b.tokens then unit else 0) ≡ b.tokens)
  unfolding take_token
  take_token-facts b = ground arith

  -- A call of the key that gets through spends one token, and one that does not spends none.
  pub check_spends :
      (t : Table) (now : ℕ)
      → suc (length t.buckets) ≤ max_buckets
      → Valid t now
      → let r = check t key per_min burst now in
        Valid r.0 now
        × (credit key per_min burst r.0 now + (if is_ok r.1 then unit else 0)
            ≡ credit key per_min burst t now)
        × (length r.0.buckets ≤ suc (length t.buckets))
  unfolding check
  check_spends t now room v =
      let b = own_bucket t now in
      let t' = stored t key (take_token b) in
      let (at_now, same) = own_bucket-facts t now in
      let (still, kept, spent) = take_token-facts b in
      let size = length-insert-le key (take_token b) t.buckets in
      let valid = stored-IsValid t now (take_token b) v (still ∙ at_now) (kept ∙ same) in
      (
        maybe_gc-IsValid key per_min burst t' now (omega arith) valid,
        ground (
          arith,
          credit-maybe_gc key per_min burst t' now (omega arith) valid,
          credit-stored t now (take_token b) (still ∙ at_now),
          credit-le-full key per_min burst t now,
        ),
        omega (arith, length-maybe_gc t' now (omega arith)),
      )

  pub check_other :
      (t : Table) (now : ℕ) (k : Str) (p b : ℕ)
      → (k == key) ≡ false
      → suc (length t.buckets) ≤ max_buckets
      → Valid t now
      → let r = check t k p b now in
        Valid r.0 now
        × (credit key per_min burst r.0 now ≡ credit key per_min burst t now)
        × (length r.0.buckets ≤ suc (length t.buckets))
  unfolding check
  check_other t now k p b other room v =
      let c = take_token (bucket_of t k p b now) in
      let t' = stored t k c in
      let size = length-insert-le k c t.buckets in
      let valid = stored_other-IsValid t now k c other v in
      (
        maybe_gc-IsValid key per_min burst t' now (omega arith) valid,
        credit-maybe_gc key per_min burst t' now (omega arith) valid
            ∙ credit-stored_other t now k c other,
        omega (arith, length-maybe_gc t' now (omega arith)),
      )

-- A call of `check`, so long after the one before.
pub record Call : Type 0 where
  pub delay : ℕ
  pub key : Str
  pub per_min : ℕ
  pub burst : ℕ

abbrev pub elapsed : List Call → ℕ
elapsed [] = 0
elapsed (c ∷ cs) = c.delay + elapsed cs

-- How many calls of a key get through.
unfoldable pub granted : Str → Table → ℕ → List Call → ℕ
granted key t now [] = 0
granted key t now (c ∷ cs) =
    let r = check t c.key c.per_min c.burst (now + c.delay) in
    (if c.key == key && is_ok r.1 then 1 else 0) + granted key r.0 (now + c.delay) cs

-- The calls of the key all state the same rate and burst.
abbrev pub Uses : Str → ℕ → ℕ → List Call → Type 0
Uses key per_min burst =
    All (λ c. (c.key == key) ≡ true → (c.key ≡ key) × (c.per_min ≡ per_min) × (c.burst ≡ burst))
