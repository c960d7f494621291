-- ===== src/Errors.antt =====
-- parser-api/src/errors.rs: the error type of every route, and the classification of error texts.
pub mod Laws
use e621_feed.Base.{ℕ, Bool, ◌&&◌, List, Option, some, none, ◌++◌}
use e621_feed.Base.Text.{Str, codes, after, contains_str, trim}

abbrev pub upstream_err_marker : Str
upstream_err_marker = codes "e621-upstream-unavailable: "

abbrev pub not_found_err_marker : Str
not_found_err_marker = codes "account-not-found: "

pub data ApiError : Type 0 where
  bad_request : Str → ApiError
  unauthorized : Str → ApiError
  not_found : Str → ApiError
  forbidden : Str → ApiError
  too_many_requests : Str → ApiError
  upstream : Str → ApiError
  internal : Str → ApiError

-- The code of the `Status` that `ApiError::status` chooses.
unfoldable pub status : ApiError → ℕ
status (bad_request m) = 400
status (unauthorized m) = 401
status (not_found m) = 404
status (forbidden m) = 403
status (too_many_requests m) = 429
status (upstream m) = 503
status (internal m) = 500

unfoldable pub message : ApiError → Str
message (bad_request m) = m
message (unauthorized m) = m
message (not_found m) = m
message (forbidden m) = m
message (too_many_requests m) = m
message (upstream m) = m
message (internal m) = m

from_unmarked : Str → Option Str → ApiError
from_unmarked s (some rest) = not_found (trim rest)
from_unmarked s none = internal s

from_marked : Str → Option Str → ApiError
unfolding from_unmarked
from_marked s (some rest) = upstream (trim rest)
from_marked s none = from_unmarked s (after not_found_err_marker s)

unfoldable pub from_string : Str → ApiError
unfolding from_marked
from_string s = from_marked s (after upstream_err_marker s)

unfoldable pub upstream_error_is_not_found : Str → Bool
upstream_error_is_not_found err =
    contains_str upstream_err_marker err && contains_str (codes "returned 404") err

-- `rusqlite::Error`: the case that is singled out, and any other with its text.
pub data SqlError : Type 0 where
  query_returned_no_rows : SqlError
  other : Str → SqlError

unfoldable pub from_sql : SqlError → ApiError
from_sql query_returned_no_rows = not_found (codes "No matching row found")
from_sql (other e) = internal (codes "Database error: " ++ e)

pub record ApiErrorBody : Type 0 where
  pub error : Str
  pub code : ℕ

-- `respond_to`: the status of the response, and its body.
unfoldable pub respond_to : ApiError → ℕ × ApiErrorBody
unfolding status message
respond_to e = (status e, record { error = message e; code = status e })
