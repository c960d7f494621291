-- ===== src/Validation/Normalize.antt =====
-- `normalize_blacklist`: the lines trimmed, without empty ones and without repeats.
use e621_feed.Base.{◌||◌, List, [], ◌∷◌, contains, if◌then◌else◌, nat_eq, list_eq}
use e621_feed.Base.Text.{
  Str, codes, split, trim_matches, is_whitespace, to_ascii_lowercase, is_empty, join,
}

-- The loop, with the lines seen so far in lower case.
unfoldable pub keep_new : List Str → List Str → List Str
keep_new seen [] = []
keep_new seen (raw ∷ raws) =
    let trimmed = trim_matches is_whitespace raw in
    let lower = to_ascii_lowercase trimmed in
    let skipped = keep_new seen raws in
    let kept = keep_new (lower ∷ seen) raws in
    if is_empty trimmed || contains seen lower then skipped else trimmed ∷ kept

unfoldable pub normalize_blacklist : Str → Str
unfolding keep_new
normalize_blacklist blacklist = join (codes "\n") (keep_new [] (split b'\n' blacklist))
