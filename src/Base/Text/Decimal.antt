-- ===== src/Base/Text/Decimal.antt =====
-- Unsigned numbers as text: `{}` writes the decimal digits, and `parse::<u64>()` reads them.
use e621_feed.Base.Tests.{ltb, nat_beq, Bool-cases, if◌then◌else◌}
use e621_feed.Base.Lists.{All, All-append}
use e621_feed.Base.Int.{ℤ, pos, negsuc}
use mathlib.Core.Bool.{Bool, true, false, ◌&&◌}
use mathlib.Core.List.{[], ◌∷◌, ◌++◌}
use mathlib.Core.Option.{Option, none, some}
use mathlib.Core.Path.{◌≡◌, refl, ◌∙◌}
use mathlib.Core.Logic.{◌≢◌, inl, inr}
use native.Mathlib.Omega.{arith}
use Prim.Native.Nat.{ℕ, zero, suc, ◌+◌, ◌-◌, ◌*◌, ◌/◌, ◌%◌, ◌^◌, ◌<◌}
use e621_feed.Base.Text.Chars.{Str, is_ascii_digit}

decimal_fuel : ℕ → ℕ → Str
decimal_fuel zero n = []
decimal_fuel (suc fuel) n =
    let front = decimal_fuel fuel (n / 10) in
    if ltb n 10 then (b'0' + n) ∷ [] else front ++ (b'0' + n % 10) ∷ []

-- A number has no more digits than its successor counts.
unfoldable pub decimal : ℕ → Str
unfolding decimal_fuel
decimal n = decimal_fuel (suc n) n

-- The digits from left to right, each checked and the value held below 2 ^ 64.
unfoldable pub digits_value : ℕ → Str → Option ℕ
digits_value acc [] = some acc
digits_value acc (c ∷ s) =
    let value = acc * 10 + (c - b'0') in
    let rest = digits_value value s in if is_ascii_digit c && ltb value (2 ^ 64) then rest else none

-- A plus sign may stand before the digits, of which there is one at least.
unfoldable pub parse_u64 : Str → Option ℕ
unfolding digits_value
parse_u64 [] = none
parse_u64 (c ∷ []) = digits_value 0 (c ∷ [])
parse_u64 (c ∷ d ∷ s) =
    let unsigned = digits_value 0 (d ∷ s) in
    let whole = digits_value 0 (c ∷ d ∷ s) in if nat_beq c b'+' then unsigned else whole

below_2_63 : Option ℕ → Option ℤ
below_2_63 none = none
below_2_63 (some n) = if ltb n (2 ^ 63) then some (pos n) else none

negated_2_63 : Option ℕ → Option ℤ
negated_2_63 none = none
negated_2_63 (some zero) = some (pos 0)
negated_2_63 (some (suc n)) = if ltb n (2 ^ 63) then some (negsuc n) else none

-- `parse::<i64>()`: a sign may stand before the digits.
unfoldable pub parse_i64 : Str → Option ℤ
unfolding below_2_63 negated_2_63 parse_u64
parse_i64 [] = none
parse_i64 (c ∷ []) = below_2_63 (parse_u64 (c ∷ []))
parse_i64 (c ∷ d ∷ s) =
    if nat_beq c b'-'
    then negated_2_63 (digits_value 0 (d ∷ s))
    else below_2_63 (parse_u64 (c ∷ d ∷ s))

digits_value-snoc :
    (acc d m : ℕ) (s : Str)
    → digits_value acc s ≡ some m
    → is_ascii_digit d ≡ true
    → m * 10 + (d - b'0') < 2 ^ 64
    → digits_value acc (s ++ d ∷ []) ≡ some (m * 10 + (d - b'0'))
unfolding digits_value
digits_value-snoc acc d m [] h k l = ground arith
digits_value-snoc acc d m (c ∷ s) h k l =
    ground (arith, digits_value-snoc (acc * 10 + (c - b'0')) d m s)

-- A digit.
abbrev pub IsDigit : ℕ → Type 0
IsDigit c = is_ascii_digit c ≡ true

IsDigit-back : (d : ℕ) → d < 10 → IsDigit (b'0' + d)
unfolding is_ascii_digit
IsDigit-back d h = ground arith

digits_value-decimal_fuel :
    (fuel n : ℕ) → n < fuel → n < 2 ^ 64 → digits_value 0 (decimal_fuel fuel n) ≡ some n
unfolding decimal_fuel digits_value
digits_value-decimal_fuel zero n h l = ground arith
digits_value-decimal_fuel (suc fuel) n h l = elim (Bool-cases (ltb n 10)) [
  | inl small ↦ ground (arith, IsDigit-back n)
  | inr big ↦ ground (
    arith,
    digits_value-decimal_fuel fuel (n / 10),
    digits_value-snoc 0 (b'0' + n % 10) (n / 10) (decimal_fuel fuel (n / 10)),
    IsDigit-back (n % 10),
  )
]

All-if :
    (b : Bool) (s t : Str)
    → (b ≡ true → All IsDigit s)
    → All IsDigit t
    → All IsDigit (if b then s else t)
All-if true s t h k = h refl
All-if false s t h k = k

decimal_fuel-AreDigits : (fuel n : ℕ) → All IsDigit (decimal_fuel fuel n)
unfolding decimal_fuel
decimal_fuel-AreDigits zero n = tt
decimal_fuel-AreDigits (suc fuel) n =
    All-if (ltb n 10) ((b'0' + n) ∷ []) (decimal_fuel fuel (n / 10) ++ (b'0' + n % 10) ∷ [])
      (λ e. (IsDigit-back n (ground arith), tt))
      (All-append IsDigit (decimal_fuel fuel (n / 10)) ((b'0' + n % 10) ∷ [])
        (decimal_fuel-AreDigits fuel (n / 10)) (IsDigit-back (n % 10) (omega arith), tt))

pub decimal-AreDigits : (n : ℕ) → All IsDigit (decimal n)
unfolding decimal
decimal-AreDigits n = decimal_fuel-AreDigits (suc n) n

snoc-nonempty : (s : Str) (d : ℕ) → s ++ d ∷ [] ≢ []
snoc-nonempty [] d = ground arith
snoc-nonempty (c ∷ s) d = ground arith

decimal_fuel-nonempty : (fuel n : ℕ) → decimal_fuel (suc fuel) n ≢ []
unfolding decimal_fuel
decimal_fuel-nonempty fuel n =
    ground (arith, snoc-nonempty (decimal_fuel fuel (n / 10)) (b'0' + n % 10))

pub decimal-nonempty : (n : ℕ) → decimal n ≢ []
unfolding decimal
decimal-nonempty n = decimal_fuel-nonempty n n

parse_u64_of_digits : (s : Str) → s ≢ [] → All IsDigit s → parse_u64 s ≡ digits_value 0 s
unfolding parse_u64 is_ascii_digit
parse_u64_of_digits [] h k = ground arith
parse_u64_of_digits (c ∷ []) h k = refl
parse_u64_of_digits (c ∷ d ∷ s) h k = ground (arith, k.0)

pub parse_u64-decimal : (n : ℕ) → n < 2 ^ 64 → parse_u64 (decimal n) ≡ some n
unfolding decimal
parse_u64-decimal n h =
    parse_u64_of_digits (decimal n) (decimal-nonempty n) (decimal-AreDigits n)
    ∙ digits_value-decimal_fuel (suc n) n (omega arith) h
