-- ===== src/Validation/Blacklists.antt =====
-- What blacklists the server takes.
use e621_feed.Base.{ℕ, ◌≤◌, false, List, [], ◌∷◌, length, ◌≡◌, ◌≢◌, ◌↔◌, arith, All, ◌+◌}
use e621_feed.Base.Results.{ok}
use e621_feed.Base.Text.{
  Str, byte_len, lines, trim, contains_str, contains_char, to_ascii_lowercase,
}
use e621_feed.Validation.BlacklistText.{
  validate_blacklist_text, check_needles, check_chars, check_lines, forbidden_substrings,
  is_bad_control,
}

-- A character of a blacklist: no angle bracket, and of the controls only line ends and tabs.
abbrev pub IsPlain : ℕ → Type 0
IsPlain c = (is_bad_control c ≡ false) × (c ≢ b'<') × (c ≢ b'>')

abbrev pub IsShortLine : Str → Type 0
IsShortLine line = length (trim line) ≤ 64

abbrev pub LacksNeedle : Str → Str → Type 0
LacksNeedle lower needle = contains_str needle lower ≡ false

check_needles_iff :
    (lower : Str) (ns : List Str) → (check_needles lower ns ≡ ok tt) ↔ All (LacksNeedle lower) ns
unfolding check_needles
check_needles_iff lower [] = ground arith
check_needles_iff lower (n ∷ ns) = ground (arith, check_needles_iff lower ns)

check_chars_iff : (s : Str) → (check_chars s ≡ ok tt) ↔ All IsPlain s
unfolding check_chars
check_chars_iff [] = ground arith
check_chars_iff (c ∷ s) = ground (arith, check_chars_iff s)

check_lines_iff : (idx : ℕ) (ls : List Str) → (check_lines idx ls ≡ ok tt) ↔ All IsShortLine ls
unfolding check_lines
check_lines_iff idx [] = ground arith
check_lines_iff idx (l ∷ ls) = ground (arith, check_lines_iff (idx + 1) ls)

-- A blacklist is accepted exactly when it has at most 16 KiB, no NUL, none of the forbidden
-- substrings in any case of letters, only plain characters, and lines of at most 64 characters.
pub validate_blacklist_text_iff :
    (s : Str)
    → (validate_blacklist_text s ≡ ok tt) ↔ (
        (byte_len s ≤ 16384)
        × (contains_char 0 s ≡ false)
        × All (LacksNeedle (to_ascii_lowercase s)) forbidden_substrings
        × All IsPlain s
        × All IsShortLine (lines s))
unfolding validate_blacklist_text
validate_blacklist_text_iff s = ground (
  arith,
  check_needles_iff (to_ascii_lowercase s) forbidden_substrings,
  check_chars_iff s,
  check_lines_iff 0 (lines s),
)
