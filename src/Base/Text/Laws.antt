-- ===== src/Base/Text/Laws.antt =====
-- Laws of searching and of the classes of characters.
use e621_feed.Base.Tests.{nat_beq_iff}
use mathlib.Core.Path.{◌≡◌, refl}
use mathlib.Core.Bool.{true}
use mathlib.Core.List.{[], ◌∷◌, ◌++◌}
use mathlib.Core.Option.{some}
use native.Mathlib.Omega.{arith}
use Prim.Native.Nat.{ℕ}
use e621_feed.Base.Text.Chars.{Str, lower_char}
use e621_feed.Base.Text.Slices.{strip_prefix, after, contains_str}

pub strip_prefix-append : (p s : Str) → strip_prefix p (p ++ s) ≡ some s
unfolding strip_prefix
strip_prefix-append [] s = refl
strip_prefix-append (c ∷ p) s = ground (arith, nat_beq_iff c c, strip_prefix-append p s)

after_of_prefix : (n s r : Str) → strip_prefix n s ≡ some r → after n s ≡ some r
unfolding after
after_of_prefix n [] r h = h
after_of_prefix n (c ∷ s) r h = rw (h, after)

-- A text is found in whatever it stands in.
pub contains_str-append : (n p r : Str) → contains_str n (p ++ (n ++ r)) ≡ true
unfolding contains_str
contains_str-append n [] r = rw (after_of_prefix n (n ++ r) r (strip_prefix-append n r))
contains_str-append n (c ∷ p) r = ground (arith, contains_str-append n p r)

pub lower_char_idem : (c : ℕ) → lower_char (lower_char c) ≡ lower_char c
unfolding lower_char
lower_char_idem c = ground arith
