-- ===== src/Validation.antt =====
-- parser-api/src/validation.rs: the checks on what a request brings. A check returns the error that
-- the route answers with. The two checks of a floating-point setting are not modelled.
pub mod Fields
pub mod Paging
pub mod BlacklistText
pub mod Normalize
pub mod Payloads
pub mod Tokens
pub mod Batches
pub mod Blacklists
pub mod PreferredTags
use e621_feed.Base.{Bool, ◌∷◌}
use e621_feed.Base.Int.{ℤ, pos, negsuc}
use e621_feed.Base.Results.{Result, ok, err, fail_if}
use e621_feed.Base.Text.{Str, decimal}
use e621_feed.Errors.{ApiError, bad_request}
use Prim.Native.Nat.{◌+◌}

abbrev pub Check : Type 0
Check = Result ApiError (Unit {0})

-- `return Err(ApiError::BadRequest(..))` under a condition.
abbrev pub reject_if : Bool → Str → Check
reject_if b message = fail_if b (bad_request message)

-- `{}` of a signed number.
unfoldable pub signed_decimal : ℤ → Str
signed_decimal (pos n) = decimal n
signed_decimal (negsuc n) = b'-' ∷ decimal (n + 1)
