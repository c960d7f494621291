-- ===== src/Base/Text/Slices.antt =====
-- `str`: trimming, searching and splitting.
use e621_feed.Base.Tests.{nat_beq, if◌then◌else◌}
use e621_feed.Base.Keys.{◌==◌, nat_eq, list_eq}
use mathlib.Core.Bool.{Bool, true, false, ◌||◌}
use mathlib.Core.List.{List, [], ◌∷◌, ◌++◌, map, reverse}
use mathlib.Core.Option.{Option, none, some}
use mathlib.Core.Option
use Prim.Native.Nat.{ℕ, ◌+◌}
use e621_feed.Base.Text.Chars.{Str, is_whitespace, lower_char, len_utf8}

abbrev pub str_eq : Str → Str → Bool
str_eq s t = s == t

abbrev pub is_empty : Str → Bool
is_empty [] = true
is_empty (c ∷ s) = false

-- `str::len`, in bytes.
unfoldable pub byte_len : Str → ℕ
byte_len [] = 0
byte_len (c ∷ s) = len_utf8 c + byte_len s

unfoldable pub to_ascii_lowercase : Str → Str
to_ascii_lowercase s = map lower_char s

unfoldable pub eq_ignore_ascii_case : Str → Str → Bool
unfolding to_ascii_lowercase
eq_ignore_ascii_case s t = to_ascii_lowercase s == to_ascii_lowercase t

-- `trim_start_matches(p)`.
unfoldable pub trim_start_matches : (ℕ → Bool) → Str → Str
trim_start_matches p [] = []
trim_start_matches p (c ∷ s) = let rest = trim_start_matches p s in if p c then rest else c ∷ s

unfoldable pub trim_end_matches : (ℕ → Bool) → Str → Str
unfolding trim_start_matches
trim_end_matches p s = reverse (trim_start_matches p (reverse s))

-- `trim_matches(p)`.
unfoldable pub trim_matches : (ℕ → Bool) → Str → Str
unfolding trim_end_matches
trim_matches p s = trim_end_matches p (trim_start_matches p s)

unfoldable pub trim : Str → Str
unfolding trim_matches is_whitespace
trim s = trim_matches is_whitespace s

unfoldable pub strip_prefix : Str → Str → Option Str
strip_prefix [] s = some s
strip_prefix (p ∷ ps) [] = none
strip_prefix (p ∷ ps) (c ∷ s) = if nat_beq p c then strip_prefix ps s else none

-- What follows the first occurrence of a text, if there is one.
unfoldable pub after : Str → Str → Option Str
unfolding strip_prefix
after needle [] = strip_prefix needle []
after needle (c ∷ s) = elim (strip_prefix needle (c ∷ s)) [
  | some rest ↦ some rest
  | none ↦ after needle s
]

abbrev pub is_some {ℓ} : {A : Type ℓ} → Option A → Bool
is_some none = false
is_some (some a) = true

-- `contains(needle)`, for a text and for a character.
unfoldable pub contains_str : Str → Str → Bool
unfolding after
contains_str needle s = is_some (after needle s)

unfoldable pub contains_char : ℕ → Str → Bool
contains_char d [] = false
contains_char d (c ∷ s) = nat_beq c d || contains_char d s

-- `split_once(d)`.
unfoldable pub split_once : ℕ → Str → Option (Str × Str)
split_once d [] = none
split_once d (c ∷ s) =
    if nat_beq c d then some ([], s) else Option.map (λ p. (c ∷ p.0, p.1)) (split_once d s)

abbrev pub onto_head : ℕ → List Str → List Str
onto_head c [] = (c ∷ []) ∷ []
onto_head c (w ∷ ws) = (c ∷ w) ∷ ws

-- `split(d)`: always one part at least.
unfoldable pub split : ℕ → Str → List Str
split d [] = [] ∷ []
split d (c ∷ s) = let rest = split d s in if nat_beq c d then [] ∷ rest else onto_head c rest

-- `split_inclusive('\n')`: a part keeps its newline, and a text that has ended has no part more.
split_inclusive : Str → List Str
split_inclusive [] = []
split_inclusive (c ∷ s) =
    let rest = split_inclusive s in if nat_beq c 10 then (c ∷ []) ∷ rest else onto_head c rest

-- A carriage return goes only before a newline; the text stands in reverse.
strip_cr : Str → Str
strip_cr [] = []
strip_cr (c ∷ s) = if nat_beq c 13 then s else c ∷ s

strip_newline : Str → Str
strip_newline [] = []
strip_newline (c ∷ s) = if nat_beq c 10 then strip_cr s else c ∷ s

-- `lines()`.
unfoldable pub lines : Str → List Str
unfolding split_inclusive strip_cr strip_newline
lines s = map (λ l. reverse (strip_newline (reverse l))) (split_inclusive s)

unfoldable pub drop_empty : List Str → List Str
drop_empty [] = []
drop_empty ([] ∷ ws) = drop_empty ws
drop_empty ((c ∷ w) ∷ ws) = (c ∷ w) ∷ drop_empty ws

-- The runs of characters between separators.
unfoldable pub split_at_spaces : Str → List Str
unfolding is_whitespace
split_at_spaces [] = [] ∷ []
split_at_spaces (c ∷ s) =
    let rest = split_at_spaces s in if is_whitespace c then [] ∷ rest else onto_head c rest

-- `split_whitespace()`.
unfoldable pub split_whitespace : Str → List Str
unfolding drop_empty split_at_spaces
split_whitespace s = drop_empty (split_at_spaces s)

unfoldable pub join : Str → List Str → Str
join sep [] = []
join sep (w ∷ []) = w
join sep (w ∷ v ∷ ws) = w ++ (sep ++ join sep (v ∷ ws))
