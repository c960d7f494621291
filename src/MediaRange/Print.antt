-- ===== src/MediaRange/Print.antt =====
-- A range that a client writes is read back.
use e621_feed.Base.{
  ℕ, ◌-◌, ◌^◌, ◌<◌, min, false, [], ◌∷◌, ◌++◌, some, ◌≡◌, ◌≢◌, refl, arith, All, All-append,
  reverse,
}
use mathlib.Core.List.{reverse_aux, reverse-reverse}
use e621_feed.Base.Text.{
  Str, codes, trim, is_empty, split_once, contains_char, decimal, IsDigit, decimal-AreDigits,
  decimal-nonempty, parse_u64-decimal, strip_prefix-append, is_ascii_digit, is_whitespace,
  trim_matches, trim_start_matches, trim_end_matches,
}
use e621_feed.MediaRange.{range_of, parse_spec, parse_range}

-- A character that no trimming takes.
abbrev IsInk : ℕ → Type 0
IsInk c = is_whitespace c ≡ false

AreDigits-AreInk : (s : Str) → All IsDigit s → All IsInk s
unfolding is_whitespace is_ascii_digit
AreDigits-AreInk [] h = tt
AreDigits-AreInk (c ∷ s) h = (ground (arith, h.0), AreDigits-AreInk s h.1)

trim_start-ink : (s : Str) → All IsInk s → trim_start_matches is_whitespace s ≡ s
unfolding trim_start_matches
trim_start-ink [] h = refl
trim_start-ink (c ∷ s) h = ground (arith, h.0)

All-reverse_aux : (s t : Str) → All IsInk s → All IsInk t → All IsInk (reverse_aux s t)
All-reverse_aux [] t h k = k
All-reverse_aux (c ∷ s) t h k = All-reverse_aux s (c ∷ t) h.1 (h.0, k)

trim-ink : (s : Str) → All IsInk s → trim s ≡ s
unfolding trim trim_matches trim_end_matches
trim-ink s h =
    rw (
      trim_start-ink s h,
      trim_start-ink (reverse s) (All-reverse_aux s [] h tt),
      reverse-reverse s,
    )

-- Digits hold no hyphen and no comma.
split_once-digits : (s t : Str) → All IsDigit s → split_once b'-' (s ++ b'-' ∷ t) ≡ some (s, t)
unfolding split_once is_ascii_digit
split_once-digits [] t h = refl
split_once-digits (c ∷ s) t h = ground (arith, h.0, split_once-digits s t h.1)

IsNoComma : ℕ → Type 0
IsNoComma c = c ≢ b','

digits-NoComma : (s : Str) → All IsDigit s → All IsNoComma s
unfolding IsNoComma is_ascii_digit
digits-NoComma [] h = tt
digits-NoComma (c ∷ s) h = (ground (arith, h.0), digits-NoComma s h.1)

no_comma : (s : Str) → All IsNoComma s → contains_char b',' s ≡ false
unfolding contains_char IsNoComma
no_comma [] h = refl
no_comma (c ∷ s) h = ground (arith, h.0, no_comma s h.1)

-- `{start}-{end}`.
abbrev pub range_spec : ℕ → ℕ → Str
range_spec start end = decimal start ++ b'-' ∷ decimal end

spec-IsInk : (s e : ℕ) → All IsInk (range_spec s e)
unfolding is_whitespace
spec-IsInk s e =
    All-append IsInk (decimal s) (b'-' ∷ decimal e)
      (AreDigits-AreInk (decimal s) (decimal-AreDigits s))
      (refl, AreDigits-AreInk (decimal e) (decimal-AreDigits e))

header-IsInk : (s e : ℕ) → All IsInk (codes "bytes=" ++ range_spec s e)
unfolding is_whitespace
header-IsInk s e =
    All-append IsInk (codes "bytes=") (range_spec s e)
      (refl, (refl, (refl, (refl, (refl, (refl, tt)))))) (spec-IsInk s e)

spec-no_comma : (s e : ℕ) → contains_char b',' (range_spec s e) ≡ false
unfolding IsNoComma
spec-no_comma s e = no_comma (range_spec s e) (
    All-append IsNoComma (decimal s) (b'-' ∷ decimal e)
      (digits-NoComma (decimal s) (decimal-AreDigits s))
      (ground arith, digits-NoComma (decimal e) (decimal-AreDigits e)))

is_empty-nonempty : (s : Str) → s ≢ [] → is_empty s ≡ false
is_empty-nonempty [] h = absurd (h refl)
is_empty-nonempty (c ∷ s) h = refl

is_empty_spec_lem : (s t : Str) (c : ℕ) → is_empty (s ++ c ∷ t) ≡ false
is_empty_spec_lem [] t c = refl
is_empty_spec_lem (d ∷ s) t c = refl

parse_spec-range_spec :
    (s e total : ℕ)
    → s < 2 ^ 64
    → e < 2 ^ 64
    → parse_spec (range_spec s e) total ≡ range_of s (min e (total - 1))
unfolding parse_spec
parse_spec-range_spec s e total h k = rw (
  is_empty_spec_lem (decimal s) (decimal e) b'-',
  spec-no_comma s e,
  split_once-digits (decimal s) (decimal e) (decimal-AreDigits s),
  trim-ink (decimal s) (AreDigits-AreInk (decimal s) (decimal-AreDigits s)),
  trim-ink (decimal e) (AreDigits-AreInk (decimal e) (decimal-AreDigits e)),
  is_empty-nonempty (decimal s) (decimal-nonempty s),
  is_empty-nonempty (decimal e) (decimal-nonempty e),
  parse_u64-decimal s h,
  parse_u64-decimal e k,
)

-- A client that asks for the bytes from `s` to `e` of a file, in a header `bytes=s-e`, is understood
-- so, with `e` held to the last byte: it gets that range when `s` does not come after its end. Else
-- it gets a 416, where `s` lies past the file, but also where the client wrote `e` before `s`.
pub parse_range-printed :
    (s e total : ℕ)
    → s < 2 ^ 64
    → e < 2 ^ 64
    → parse_range (codes "bytes=" ++ range_spec s e) total ≡ range_of s (min e (total - 1))
unfolding parse_range
parse_range-printed s e total h k = rw (
  parse_range,
  trim-ink (codes "bytes=" ++ range_spec s e) (header-IsInk s e),
  strip_prefix-append (codes "bytes=") (range_spec s e),
  trim-ink (range_spec s e) (spec-IsInk s e),
  parse_spec-range_spec s e total h k,
)
