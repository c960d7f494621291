-- ===== src/Validation/Paging.antt =====
-- The checks of page numbers, limits and counts, with their defaults. An `i64` of an `i32` is the
-- same number.
use e621_feed.Base.{ℕ, not, Option, none, some, if◌then◌else◌, ◌++◌}
use e621_feed.Base.Int.{ℤ, pos, in_range}
use e621_feed.Base.Results.{Result, ok, err}
use e621_feed.Base.Text.{Str, codes, decimal}
use e621_feed.Errors.{ApiError, bad_request}
use e621_feed.Validation.{Check, reject_if, signed_decimal}

unfoldable pub validate_recommendations_page : Option ℤ → Check
validate_recommendations_page none = ok tt
validate_recommendations_page (some p) =
    reject_if (not (in_range (pos 1) (pos 750) p))
      (codes "page " ++ (signed_decimal p ++ codes " out of range [1, 750]"))

-- The shape that the four other checks share: a default, and a range from 1.
unfoldable pub bounded_or : ℤ → ℕ → Str → Option ℤ → Result ApiError ℤ
bounded_or default most name none = ok default
bounded_or default most name (some n) =
    if in_range (pos 1) (pos most) n
    then ok n
    else err (
        bad_request (
          name
          ++ (codes " "
              ++ (signed_decimal n
                  ++ (codes " out of range [1, " ++ (decimal most ++ codes "]"))))))

unfoldable pub validate_continue_count : Option ℤ → Result ApiError ℤ
unfolding bounded_or
validate_continue_count count = bounded_or (pos 20) 100 (codes "count") count

unfoldable pub validate_similar_posts_limit : Option ℤ → Result ApiError ℤ
unfolding bounded_or
validate_similar_posts_limit limit = bounded_or (pos 20) 100 (codes "limit") limit

unfoldable pub validate_similar_posts_min_overlap : Option ℤ → Result ApiError ℤ
unfolding bounded_or
validate_similar_posts_min_overlap overlap = bounded_or (pos 2) 20 (codes "min_overlap") overlap

unfoldable pub validate_similar_posts_page : Option ℤ → Result ApiError ℤ
unfolding bounded_or
validate_similar_posts_page page = bounded_or (pos 1) 100 (codes "page") page
