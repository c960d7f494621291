-- ===== src/RateLimit/Trace.antt =====
-- The rate limit over a history of calls, those of other keys and the collections included.
use native.Mathlib.Nat.{add-mul}
use e621_feed.Base.{
  ℕ, suc, ◌+◌, ◌*◌, ◌≤◌, ◌≡◌, Bool, true, List, [], ◌∷◌, arith, if◌then◌else◌, ◌==◌, length, max,
  Bool-cases, inl, inr, nat_eq, list_eq, lookup, some, ◌-◌, Option-cases,
}
use e621_feed.Base.Text.{Str}
use e621_feed.RateLimit.{Table, Bucket, check, unit, max_buckets, bucket_of}
use e621_feed.RateLimit.Refill.{IsValid, IsValid-later, credit, credit-le-full, credit_later}
use e621_feed.RateLimit.Bound.{is_ok, Call, elapsed, granted, Uses, check_spends, check_other}

module _ (key : Str) (per_min burst : ℕ) where
  check_own :
      (t : Table) (now : ℕ) (k : Str) (p b : ℕ)
      → (k ≡ key) × (p ≡ per_min) × (b ≡ burst)
      → suc (length t.buckets) ≤ max_buckets
      → IsValid key per_min burst t now
      → let r = check t k p b now in
        IsValid key per_min burst r.0 now
        × (credit key per_min burst r.0 now + (if is_ok r.1 then unit else 0)
            ≡ credit key per_min burst t now)
        × (length r.0.buckets ≤ suc (length t.buckets))
  check_own t now k p b e room v = rw (e.0, e.1, e.2) (check_spends key per_min burst t now room v)

  weight :
      (b : Bool) (n : ℕ) → ((if b then 1 else 0) + n) * unit ≡ (if b then unit else 0) + n * unit
  weight b n = ground arith

  granted-le-credit :
      (t : Table) (now : ℕ) (calls : List Call)
      → Uses key per_min burst calls
      → length t.buckets + length calls ≤ max_buckets
      → IsValid key per_min burst t now
      → granted key t now calls * unit ≤ credit key per_min burst t now + elapsed calls * per_min
  unfolding granted
  granted-le-credit t now [] u room v = omega arith
  granted-le-credit t now (c ∷ cs) u room v =
      let at = now + c.delay in
      let v' = IsValid-later key per_min burst t now c.delay v in
      let grown = credit_later key per_min burst t now c.delay v in
      let r = check t c.key c.per_min c.burst at in
      let time = add-mul c.delay (elapsed cs) per_min in
      elim (Bool-cases (c.key == key)) [
        | inl own ↦
            let (valid, spent, size) =
              check_own t at c.key c.per_min c.burst (u.0 own) (omega arith) v' in
            let rest = granted-le-credit r.0 at cs u.1 (omega arith) valid in
            rw own (omega (arith, weight (is_ok r.1) (granted key r.0 at cs)))
        | inr other ↦
            let (valid, same, size) =
              check_other key per_min burst t at c.key c.per_min c.burst other (omega arith) v' in
            let rest = granted-le-credit r.0 at cs u.1 (omega arith) valid in rw other (omega arith)
      ]

  -- Whatever else is called in between, a key that is called with one rate and burst gets through
  -- at most as often as its burst (at least 1) and the rate times the elapsed time allow, from any
  -- valid table on which the calls cannot fill more than the cap of buckets.
  pub granted_bound :
      (t : Table) (now : ℕ) (calls : List Call)
      → Uses key per_min burst calls
      → length t.buckets + length calls ≤ max_buckets
      → IsValid key per_min burst t now
      → granted key t now calls * unit ≤ max burst 1 * unit + elapsed calls * per_min
  granted_bound t now calls u room v =
      omega (arith, granted-le-credit t now calls u room v, credit-le-full key per_min burst t now)

  -- A key whose last call is so long ago that the rate has made a token since gets through, and so
  -- does one that has no bucket, in any table.
  pub check_spaced :
      (t : Table) (now : ℕ)
      → ((b : Bucket)
          → lookup key t.buckets ≡ some b
          → unit ≤ b.tokens + (now - b.last_refill) * per_min)
      → is_ok (check t key per_min burst now).1 ≡ true
  unfolding check bucket_of
  check_spaced t now spaced = elim (Option-cases (lookup key t.buckets)) [
    | inl absent ↦ ground arith
    | inr (b, found) ↦ ground (arith, spaced b found)
  ]
