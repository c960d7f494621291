-- ===== src/Validation/Tokens.antt =====
-- What the checks of single fields let through.
use e621_feed.Base.{◌≤◌, true, false, all, any, ◌≡◌, ◌↔◌, arith, eq_iff, nat_eq, list_eq}
use e621_feed.Base.Int.{ℤ, pos, ◌≤ℤ◌}
use e621_feed.Base.Results.{ok}
use e621_feed.Base.Text.{Str, byte_len, is_whitespace, trim}
use e621_feed.Validation.Fields.{
  validate_account_id, validate_owner_token, is_token_char, validate_e621_api_key,
}

-- An account id is accepted exactly from 1 to a hundred million.
pub validate_account_id_iff :
    (id : ℤ) → (validate_account_id id ≡ ok tt) ↔ ((pos 1 ≤ℤ id) × (id ≤ℤ pos 100_000_000))
unfolding validate_account_id
validate_account_id_iff id = ground arith

-- An owner token is accepted exactly when it has 16 to 128 bytes and only letters, digits, hyphens
-- and underscores.
pub validate_owner_token_iff :
    (token : Str)
    → (validate_owner_token token ≡ ok tt)
      ↔ ((16 ≤ byte_len token) × (byte_len token ≤ 128) × (all is_token_char token ≡ true))
unfolding validate_owner_token
validate_owner_token_iff token = ground arith

-- A key is accepted exactly when it has 8 to 128 bytes and no white space in it or around it.
pub validate_e621_api_key_iff :
    (key : Str)
    → (validate_e621_api_key key ≡ ok tt) ↔ (
        (8 ≤ byte_len key)
        × (byte_len key ≤ 128)
        × (trim key ≡ key)
        × (any is_whitespace key ≡ false))
unfolding validate_e621_api_key
validate_e621_api_key_iff key = ground (arith, eq_iff (trim key) key)
