-- ===== src/MediaRange/Served.antt =====
-- The ranges that are served lie in the file.
use e621_feed.Base.{
  ℕ, zero, suc, ◌-◌, ◌≤◌, ◌<◌, Bool, true, false, Option, some, none, ◌≡◌, arith, ltb,
  if◌then◌else◌, refl, min, [], ◌∷◌, ◌||◌, ◌+◌,
}
use e621_feed.Base.Text.{
  Str, codes, trim, strip_prefix, parse_u64, is_empty, split_once, contains_char,
}
use e621_feed.MediaRange.{
  RangeParse, satisfiable, unsatisfiable, ignore, range_of, closed_range, open_range, suffix_range,
  bounds_range, parse_spec, parse_range, MediaBody, missing, not_modified, partial, out_of_range,
  file, if_none_match_is_fresh, serve, body_of, body_for,
}

-- A range that is served is not empty and ends in the file.
abbrev pub IsServed : ℕ → RangeParse → Type 0
IsServed total ignore = Unit
IsServed total unsatisfiable = Unit
IsServed total (satisfiable start end) = (start ≤ end) × (end < total)

IsServed-if :
    (total : ℕ) (b : Bool) (r r' : RangeParse)
    → IsServed total r
    → (b ≡ false → IsServed total r')
    → IsServed total (if b then r else r')
IsServed-if total true r r' h k = h
IsServed-if total false r r' h k = k refl

range_of-IsServed : (total s e : ℕ) → e < total → IsServed total (range_of s e)
range_of-IsServed total s e h =
    IsServed-if total (ltb e s) unsatisfiable (satisfiable s e) tt (λ b. (ground arith, h))

closed_range-IsServed : (n : ℕ) (s e : Option ℕ) → IsServed (suc n) (closed_range (suc n - 1) s e)
closed_range-IsServed n (some s) (some e) =
    range_of-IsServed (suc n) s (min e (suc n - 1)) (omega arith)
closed_range-IsServed n (some s) none = tt
closed_range-IsServed n none e = tt

open_range-IsServed : (n : ℕ) (s : Option ℕ) → IsServed (suc n) (open_range (suc n - 1) s)
open_range-IsServed n (some s) = range_of-IsServed (suc n) s (suc n - 1) (omega arith)
open_range-IsServed n none = tt

suffix_range-IsServed : (n : ℕ) (m : Option ℕ) → IsServed (suc n) (suffix_range (suc n) m)
suffix_range-IsServed n (some zero) = tt
suffix_range-IsServed n (some (suc m)) =
    range_of-IsServed (suc n) (suc n - suc m) (suc n - 1) (omega arith)
suffix_range-IsServed n none = tt

bounds_range-IsServed : (n : ℕ) (s e : Str) → IsServed (suc n) (bounds_range (suc n) s e)
bounds_range-IsServed n [] [] = tt
bounds_range-IsServed n [] (d ∷ e) = suffix_range-IsServed n (parse_u64 (d ∷ e))
bounds_range-IsServed n (c ∷ s) [] = open_range-IsServed n (parse_u64 (c ∷ s))
bounds_range-IsServed n (c ∷ s) (d ∷ e) =
    closed_range-IsServed n (parse_u64 (c ∷ s)) (parse_u64 (d ∷ e))

parse_spec-IsServed : (n : ℕ) (spec : Str) → IsServed (suc n) (parse_spec spec (suc n))
unfolding parse_spec
parse_spec-IsServed n spec =
    IsServed-if (suc n) (is_empty spec || contains_char b',' spec) ignore
      (by_split (split_once b'-' spec)) tt (λ b. by_split-IsServed (split_once b'-' spec))
  where
    by_split : Option (Str × Str) → RangeParse
    by_split none = ignore
    by_split (some (s, e)) = bounds_range (suc n) (trim s) (trim e)

    by_split-IsServed : (o : Option (Str × Str)) → IsServed (suc n) (by_split o)
    by_split-IsServed none = tt
    by_split-IsServed (some (s, e)) = bounds_range-IsServed n (trim s) (trim e)

-- Whatever the `Range` header says, a range that is to be served of a file that is not empty
-- starts no later than it ends, and ends in the file.
pub parse_range-IsServed :
    (header : Str) (total : ℕ) → 0 < total → IsServed total (parse_range header total)
unfolding parse_range
parse_range-IsServed header zero h = absurd (ground arith)
parse_range-IsServed header (suc n) h = by_prefix (strip_prefix (codes "bytes=") (trim header))
  where
    by_prefix :
        (o : Option Str)
        → IsServed (suc n) (elim o [ none ↦ ignore | some spec ↦ parse_spec (trim spec) (suc n) ])
    by_prefix none = tt
    by_prefix (some spec) = parse_spec-IsServed n (trim spec)

-- What an answer promises: a part is a non-empty piece of a file, a whole is the file, and only a
-- request whose tag matches is told that nothing changed.
abbrev pub Promises : Option Str → Str → ℕ → MediaBody → Type 0
Promises inm etag len missing = len ≡ 0
Promises inm etag len (not_modified tag) = (tag ≡ etag) × (if_none_match_is_fresh inm etag ≡ true)
Promises inm etag len (partial start n total) =
    (1 ≤ n) × (start + n ≤ len) × (total ≡ len) × (if_none_match_is_fresh inm etag ≡ false)
Promises inm etag len (out_of_range total) = total ≡ len
Promises inm etag len (file n) = (n ≡ len) × (1 ≤ n)

body_of-Promises :
    (inm : Option Str) (etag : Str) (n : ℕ) (r : RangeParse)
    → if_none_match_is_fresh inm etag ≡ false
    → IsServed (suc n) r
    → Promises inm etag (suc n) (body_of (suc n) r)
body_of-Promises inm etag n ignore h k = (refl, omega arith)
body_of-Promises inm etag n (satisfiable s e) h k = (omega arith, omega (arith, k.0, k.1), refl, h)
body_of-Promises inm etag n unsatisfiable h k = refl

body_for-Promises :
    (inm range : Option Str) (etag : Str) (n : ℕ)
    → if_none_match_is_fresh inm etag ≡ false
    → Promises inm etag (suc n) (body_for range (suc n))
body_for-Promises inm none etag n h = (refl, omega arith)
body_for-Promises inm (some header) etag n h =
    body_of-Promises inm etag n (parse_range header (suc n)) h
      (parse_range-IsServed header (suc n) (omega arith))

Promises-if :
    (inm : Option Str) (etag : Str) (len : ℕ) (b : Bool) (x y : MediaBody)
    → (b ≡ true → Promises inm etag len x)
    → (b ≡ false → Promises inm etag len y)
    → Promises inm etag len (if b then x else y)
Promises-if inm etag len true x y h k = h refl
Promises-if inm etag len false x y h k = k refl

-- Whatever the two headers say, the answer keeps its promise: the file is missing only when it is
-- empty; `not modified` answers a matching tag, with the file's own; a part has at least one byte,
-- all of them in the file, and is sent only to a request without a matching tag; a whole file is
-- the whole of it.
pub serve-Promises :
    (inm range : Option Str) (etag : Str) (len : ℕ)
    → Promises inm etag len (serve inm range etag len)
unfolding serve
serve-Promises inm range etag zero = refl
serve-Promises inm range etag (suc n) =
    Promises-if inm etag (suc n) (if_none_match_is_fresh inm etag) (not_modified etag)
      (body_for range (suc n)) (λ e. (refl, e)) (body_for-Promises inm range etag n)
