-- ===== src/Validation/Fields.antt =====
-- The checks of single fields: account ids, tokens, names and keys.
use e621_feed.Base.{
  ℕ, ltb, leb, Bool, not, ◌&&◌, ◌||◌, ◌++◌, all, any, length, ◌==◌, nat_eq, list_eq, nat_beq,
  contains,
}
use e621_feed.Base.Int.{ℤ, pos, leb_ℤ, ltb_ℤ}
use e621_feed.Base.Results.{◌>>◌}
use e621_feed.Base.Text.{
  Str, codes, byte_len, is_ascii_alphanumeric, is_whitespace, trim, is_empty, decimal,
}
use e621_feed.Validation.{Check, reject_if, signed_decimal}

abbrev pub max_account_id : ℕ
max_account_id = 100_000_000

abbrev pub max_name_len : ℕ
max_name_len = 64

unfoldable pub validate_account_id : ℤ → Check
validate_account_id id = reject_if (leb_ℤ id (pos 0) || ltb_ℤ (pos max_account_id) id) (
    codes "invalid account id "
    ++ (signed_decimal id ++ (codes ": must be in 1..=" ++ decimal max_account_id)))

-- `(lo..=hi).contains(&len)`.
abbrev pub is_within : ℕ → ℕ → ℕ → Bool
is_within lo hi len = leb lo len && leb len hi

-- `[A-Za-z0-9_-]`.
unfoldable pub is_token_char : ℕ → Bool
unfolding is_ascii_alphanumeric
is_token_char c = is_ascii_alphanumeric c || nat_beq c b'-' || nat_beq c b'_'

unfoldable pub validate_owner_token : Str → Check
unfolding is_token_char
validate_owner_token owner_token =
    reject_if (not (is_within 16 128 (byte_len owner_token)))
      (codes "owner_token length " ++ (decimal (byte_len owner_token) ++ codes " not in 16..=128"))
    >> reject_if (not (all is_token_char owner_token))
        (codes "owner_token must contain only [A-Za-z0-9_-]")

unfoldable pub is_name_char : ℕ → Bool
unfolding is_ascii_alphanumeric
is_name_char c = is_ascii_alphanumeric c || contains (codes "_-.~ '()!@") c

unfoldable pub validate_account_name : Str → Check
unfolding is_name_char
validate_account_name name =
    let trimmed = trim name in
    reject_if (is_empty trimmed) (codes "name must not be empty")
    >> reject_if (ltb max_name_len (length trimmed))
        (codes "name too long (" ++ (decimal (length trimmed) ++ codes " chars, max 64)"))
    >> reject_if (not (all is_name_char trimmed))
        (codes "name contains characters that are not allowed")

unfoldable pub validate_session_token : Str → Check
unfolding is_token_char
validate_session_token token =
    reject_if (not (is_within 8 128 (byte_len token)))
      (codes "session_token length " ++ (decimal (byte_len token) ++ codes " not in 8..=128"))
    >> reject_if (not (all is_token_char token))
        (codes "session_token must contain only [A-Za-z0-9_-]")

unfoldable pub validate_e621_api_key : Str → Check
validate_e621_api_key key =
    reject_if (not (is_within 8 128 (byte_len key)))
      (codes "e621 API key length " ++ (decimal (byte_len key) ++ codes " not in 8..=128"))
    >> reject_if (not (trim key == key))
        (codes "e621 API key must not have leading/trailing whitespace")
    >> reject_if (any is_whitespace key) (codes "e621 API key must not contain whitespace")
