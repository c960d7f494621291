-- ===== src/Tests/Feed.antt =====
-- The query for e621 and the quota on a page of the feed, at concrete inputs.
use e621_feed.Base.{
  AreDistinct, ◌≤◌, ◌≡◌, refl, Bool, Option, List, [], ◌∷◌, ◌++◌, replicate, nat_eq, list_eq,
  pair_eq, contains,
}
use e621_feed.Base.Int.{pos}
use e621_feed.Base.Text.{
  Str, codes, join, split_whitespace, trim_start_matches, to_ascii_lowercase, lower_char, trim,
  lines, eq_ignore_ascii_case,
}
use e621_feed.Blacklist.{rules, require_tag, Post, rating_s}
use e621_feed.TagQuery.{
  TagQueryBudget, Gathered, clamped, gather, pick, build_e621_tags_query_with_budget,
}
use e621_feed.TagQuery.Limits.{weights, weights-pick}
use e621_feed.TagQuery.Repeats.{keys, gather-AreDistinct}
use e621_feed.GroupQuota.{enforce_group_quota, enforce_diversity_quota, first_lower}
use e621_feed.GroupQuota.Kept.{count, count-enforce_diversity_quota}

abbrev boosted : List Str
boosted = codes "wolf" ∷ codes "Fox" ∷ codes "-canine" ∷ codes "two words" ∷ []

abbrev hidden : Str
hidden = codes "gore\nrequire:solo\nfox"

abbrev small_budget : TagQueryBudget
small_budget = record { limit = 4; boost = 2; blacklist = 0 }

queried :
    build_e621_tags_query_with_budget (codes "forest -Wolf") hidden boosted small_budget
    ≡ codes "Wolf forest ( ~Fox ~canine )"
unfolding build_e621_tags_query_with_budget join split_whitespace trim_start_matches
    to_ascii_lowercase lower_char trim rules lines require_tag eq_ignore_ascii_case
queried = refl

abbrev gathered : Gathered
gathered = record {
  positives = codes "forest" ∷ codes "wolf" ∷ [];
  boosts = codes "fox" ∷ codes "canine" ∷ [];
  required = codes "solo" ∷ [];
  negatives = codes "gore" ∷ [];
}

weights-pick_example : weights (pick gathered small_budget) ≤ clamped 4
weights-pick_example = weights-pick gathered small_budget

gather-AreDistinct_example :
    let g = gather (codes "forest -Wolf") hidden boosted in
    AreDistinct (keys g.positives ++ (keys g.boosts ++ (keys g.required ++ keys g.negatives)))
gather-AreDistinct_example = gather-AreDistinct (codes "forest -Wolf") hidden boosted

abbrev drawn_by : Str → Post
drawn_by name = record {
  tags = record {
    general = [];
    artist = name ∷ [];
    copyright = [];
    character = [];
    species = [];
    invalid = [];
    meta = [];
    lore = [];
    contributor = [];
  };
  rating = rating_s;
  uploader_id = pos 5;
}

abbrev artist_of : Post → Option Str
artist_of post = first_lower post.tags.artist

abbrev page : List Post
page = drawn_by (codes "Rune") ∷ drawn_by (codes "rune") ∷ drawn_by (codes "Asa") ∷ []

promoted_asa : enforce_group_quota artist_of page 2 2 ≡ (
  drawn_by (codes "Rune") ∷ drawn_by (codes "Asa") ∷ drawn_by (codes "rune") ∷ [],
  codes "asa" ∷ codes "rune" ∷ [],
)
unfolding enforce_group_quota to_ascii_lowercase lower_char
promoted_asa = refl

abbrev long_page : List Post
long_page = replicate 20 (drawn_by (codes "Rune")) ++ (drawn_by (codes "Asa") ∷ [])

abbrev is_asa : Post → Bool
is_asa post = contains post.tags.artist (codes "Asa")

count-enforce_diversity_quota_example :
    count is_asa (enforce_diversity_quota long_page) ≡ count is_asa long_page
count-enforce_diversity_quota_example = count-enforce_diversity_quota is_asa long_page
