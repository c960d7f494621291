-- ===== src/Errors/Laws.antt =====
-- What the status of a classified error text says.
use e621_feed.Base.{◌≡◌, false, ◌++◌, arith, if◌then◌else◌}
use e621_feed.Base.Text.{Str, contains_str, contains_str-append}
use e621_feed.Errors.{from_string, status, respond_to, upstream_err_marker, not_found_err_marker}

-- The status of an error text depends on its markers alone: 503 with the upstream marker anywhere
-- in it, else 404 with the ownership marker anywhere in it, else 500.
pub status-from_string :
    (s : Str)
    → status (from_string s) ≡ (
        if contains_str upstream_err_marker s
        then 503
        else if contains_str not_found_err_marker s
        then 404
        else 500)
unfolding status from_string contains_str
status-from_string s = ground arith

-- An error text with the upstream marker is answered with 503, whatever context stands before and
-- after the marker, and the body repeats the status.
pub respond_to-upstream :
    (before rest : Str)
    → let r = respond_to (from_string (before ++ (upstream_err_marker ++ rest))) in
      (r.0 ≡ 503) × (r.1.code ≡ 503)
unfolding respond_to
respond_to-upstream before rest =
    let e = status-from_string (before ++ (upstream_err_marker ++ rest)) in
    let found = contains_str-append upstream_err_marker before rest in
    (ground (arith, e, found), ground (arith, e, found))

-- An error text with the ownership marker is answered with 404, whatever context stands before and
-- after the marker, unless the upstream marker occurs in it too.
pub respond_to-not_found :
    (before rest : Str)
    → contains_str upstream_err_marker (before ++ (not_found_err_marker ++ rest)) ≡ false
    → let r = respond_to (from_string (before ++ (not_found_err_marker ++ rest))) in
      (r.0 ≡ 404) × (r.1.code ≡ 404)
unfolding respond_to
respond_to-not_found before rest plain =
    let e = status-from_string (before ++ (not_found_err_marker ++ rest)) in
    let found = contains_str-append not_found_err_marker before rest in
    (ground (arith, e, found), ground (arith, e, found))
