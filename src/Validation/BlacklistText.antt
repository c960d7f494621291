-- ===== src/Validation/BlacklistText.antt =====
-- The check of a blacklist's text.
use e621_feed.Base.{ℕ, ltb, nat_beq, Bool, not, ◌&&◌, ◌||◌, List, [], ◌∷◌, ◌++◌, length, ◌+◌, ◌*◌}
use e621_feed.Base.Results.{ok, ◌>>◌}
use e621_feed.Base.Text.{
  Str, codes, byte_len, contains_char, contains_str, to_ascii_lowercase, is_control, lines, trim,
  decimal,
}
use e621_feed.Validation.{Check, reject_if}

abbrev pub max_blacklist_len : ℕ
max_blacklist_len = 16 * 1024

abbrev pub max_blacklist_line_len : ℕ
max_blacklist_line_len = 64

abbrev pub forbidden_substrings : List Str
forbidden_substrings =
    codes "<script" ∷ codes "javascript:" ∷ codes "data:text/html" ∷ codes "vbscript:" ∷ []

unfoldable pub check_needles : Str → List Str → Check
check_needles lower [] = ok tt
check_needles lower (needle ∷ needles) =
    reject_if (contains_str needle lower)
      (codes "blacklist contains forbidden substring '" ++ (needle ++ codes "'"))
    >> check_needles lower needles

abbrev pub is_bad_control : ℕ → Bool
is_bad_control c =
    is_control c && not (nat_beq c b'\n') && not (nat_beq c b'\r') && not (nat_beq c b'\t')

unfoldable pub check_chars : Str → Check
check_chars [] = ok tt
check_chars (c ∷ s) =
    reject_if (is_bad_control c) (codes "blacklist must not contain control characters")
    >> reject_if (nat_beq c b'<' || nat_beq c b'>') (codes "blacklist must not contain '<' or '>'")
    >> check_chars s

unfoldable pub check_lines : ℕ → List Str → Check
check_lines idx [] = ok tt
check_lines idx (line ∷ rest) =
    reject_if (ltb max_blacklist_line_len (length (trim line)))
      (codes "blacklist line " ++ (decimal (idx + 1) ++ (codes " too long (max 64 chars)")))
    >> check_lines (idx + 1) rest

unfoldable pub validate_blacklist_text : Str → Check
unfolding check_needles check_chars check_lines
validate_blacklist_text blacklist =
    reject_if (ltb max_blacklist_len (byte_len blacklist))
      (codes "blacklist too long (" ++ (decimal (byte_len blacklist) ++ codes " bytes, max 16384)"))
    >> reject_if (contains_char 0 blacklist) (codes "blacklist must not contain NUL bytes")
    >> check_needles (to_ascii_lowercase blacklist) forbidden_substrings
    >> check_chars blacklist
    >> check_lines 0 (lines blacklist)
