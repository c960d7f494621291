-- ===== src/MediaRange.antt =====
-- parser-api/src/routes/media.rs: what of a stored file a request gets. A header is text; the
-- entity tag of the file is an argument, and so are the file's length and its extension.
pub mod Served
pub mod Print
use e621_feed.Base.{
  ℕ, zero, suc, ◌-◌, ◌+◌, min, ltb, Bool, true, false, ◌||◌, List, [], ◌∷◌, Option, some, none,
  if◌then◌else◌, any, map,
}
use e621_feed.Base.Text.{
  Str, codes, trim, strip_prefix, is_empty, contains_char, split_once, split, parse_u64, str_eq,
  to_ascii_lowercase,
}

pub data RangeParse : Type 0 where
  ignore : RangeParse
  satisfiable : ℕ → ℕ → RangeParse
  unsatisfiable : RangeParse

-- `trim_start_matches("W/")`: as often as the prefix is there.
unfoldable pub trim_weak : Str → Str
trim_weak [] = []
trim_weak (c ∷ []) = c ∷ []
trim_weak (c ∷ d ∷ s) =
    let rest = trim_weak s in if str_eq (c ∷ d ∷ []) (codes "W/") then rest else c ∷ d ∷ s

unfoldable pub if_none_match_is_fresh : Option Str → Str → Bool
unfolding trim_weak
if_none_match_is_fresh none etag = false
if_none_match_is_fresh (some inm) etag =
    let expected = trim_weak etag in
    any (λ t. str_eq t (codes "*") || str_eq t expected)
      (map (λ t. trim_weak (trim t)) (split b',' inm))

abbrev pub range_of : ℕ → ℕ → RangeParse
range_of start end = if ltb end start then unsatisfiable else satisfiable start end

abbrev pub closed_range : ℕ → Option ℕ → Option ℕ → RangeParse
closed_range last (some s) (some e) = range_of s (min e last)
closed_range last (some s) none = ignore
closed_range last none _ = ignore

abbrev pub open_range : ℕ → Option ℕ → RangeParse
open_range last (some s) = range_of s last
open_range last none = ignore

abbrev pub suffix_range : ℕ → Option ℕ → RangeParse
suffix_range total (some zero) = unsatisfiable
suffix_range total (some (suc n)) = range_of (total - suc n) (total - 1)
suffix_range total none = ignore

abbrev pub bounds_range : ℕ → Str → Str → RangeParse
bounds_range total start_s end_s =
    if is_empty start_s
    then if is_empty end_s then ignore else suffix_range total (parse_u64 end_s)
    else if is_empty end_s
    then open_range (total - 1) (parse_u64 start_s)
    else closed_range (total - 1) (parse_u64 start_s) (parse_u64 end_s)

unfoldable pub parse_spec : Str → ℕ → RangeParse
parse_spec spec total =
    if is_empty spec || contains_char b',' spec then ignore else elim (split_once b'-' spec) [
      | none ↦ ignore
      | some (start_s, end_s) ↦ bounds_range total (trim start_s) (trim end_s)
    ]

unfoldable pub parse_range : Str → ℕ → RangeParse
unfolding parse_spec
parse_range header total = elim (strip_prefix (codes "bytes=") (trim header)) [
  | none ↦ ignore
  | some spec ↦ parse_spec (trim spec) total
]

-- The answer to a request for a stored file.
pub data MediaBody : Type 0 where
  missing : MediaBody
  not_modified : Str → MediaBody
  partial : ℕ → ℕ → ℕ → MediaBody
  out_of_range : ℕ → MediaBody
  file : ℕ → MediaBody

-- A part has its start, its length and the file's.
abbrev pub body_of : ℕ → RangeParse → MediaBody
body_of len ignore = file len
body_of len (satisfiable start end) = partial start (end - start + 1) len
body_of len unsatisfiable = out_of_range len

abbrev pub body_for : Option Str → ℕ → MediaBody
body_for none len = file len
body_for (some range_hdr) len = body_of len (parse_range range_hdr len)

-- `serve_media`, from the file's length on, for the two request headers.
unfoldable pub serve : Option Str → Option Str → Str → ℕ → MediaBody
serve if_none_match range etag zero = missing
serve if_none_match range etag (suc n) =
    if if_none_match_is_fresh if_none_match etag then not_modified etag else body_for range (suc n)
