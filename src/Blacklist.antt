-- ===== src/Blacklist.antt =====
-- parser-api/src/utils/blacklist.rs: an account's blacklist, parsed into rules, which filter posts
-- here and shape the request to e621. Of a post, the fields that the rules read.
pub mod Terms
pub mod Agreement
use e621_feed.Base.{
  ℕ, zero, suc, nat_beq, Bool, true, false, not, ◌&&◌, ◌||◌, List, [], ◌∷◌, ◌++◌, Option, some,
  none, map, any, take, contains, if◌then◌else◌, nat_eq, list_eq, ◌==◌,
}
use e621_feed.Base.Int.{ℤ, int_eq}
use e621_feed.Base.Text.{
  Str, codes, lines, trim, is_empty, split_whitespace, trim_start_matches, eq_ignore_ascii_case,
  strip_prefix, contains_char, parse_i64, str_eq, is_some,
}

abbrev pub require_prefix : Str
require_prefix = codes "require:"

abbrev pub require_tags : List Str
require_tags = codes "video" ∷ codes "animated" ∷ []

pub record Tags : Type 0 where
  pub general : List Str
  pub artist : List Str
  pub copyright : List Str
  pub character : List Str
  pub species : List Str
  pub invalid : List Str
  pub meta : List Str
  pub lore : List Str
  pub contributor : List Str

pub data Rating : Type 0 where
  rating_s rating_q rating_e : Rating

pub record Post : Type 0 where
  pub tags : Tags
  pub rating : Rating
  pub uploader_id : ℤ

pub record QueryTerms : Type 0 where
  pub required : List Str
  pub excluded : List Str

-- `starts_with('#')`.
abbrev pub is_comment : Str → Bool
is_comment [] = false
is_comment (c ∷ s) = nat_beq c b'#'

-- `filter` on the lines and on the rules.
unfoldable pub keep : (Str → Bool) → List Str → List Str
keep p [] = []
keep p (s ∷ ss) = let rest = keep p ss in if p s then s ∷ rest else rest

unfoldable pub words_of : List Str → List Str
words_of [] = []
words_of (l ∷ ls) = split_whitespace l ++ words_of ls

abbrev pub is_dash : ℕ → Bool
is_dash c = nat_beq c b'-'

unfoldable pub rules : Str → List Str
unfolding keep words_of
rules blacklist =
    keep (λ r. not (is_empty r))
      (map (trim_start_matches is_dash) (
        words_of (keep (λ l. not (is_empty l) && not (is_comment l)) (map trim (lines blacklist)))))

unfoldable pub drop : ℕ → Str → Str
drop zero s = s
drop (suc n) [] = []
drop (suc n) (c ∷ s) = drop n s

-- The prefix is ASCII, so its eight bytes are eight characters.
unfoldable pub require_payload : Str → Option Str
unfolding drop
require_payload rule =
    if eq_ignore_ascii_case (take 8 rule) require_prefix then some (drop 8 rule) else none

-- `find` among the supported tags.
unfoldable pub find_tag : Str → List Str → Option Str
find_tag payload [] = none
find_tag payload (t ∷ ts) = if eq_ignore_ascii_case payload t then some t else find_tag payload ts

abbrev pub supported : Option Str → Option Str
supported none = none
supported (some payload) = find_tag payload require_tags

unfoldable pub require_tag : Str → Option Str
unfolding require_payload find_tag
require_tag rule = supported (require_payload rule)

abbrev pub has_any : Str → List Str → Bool
has_any tag = any (λ value. eq_ignore_ascii_case value tag)

unfoldable pub has_tag_in : Post → Str → Bool
has_tag_in post tag =
    let t = post.tags in
    has_any tag (
      t.general
      ++ (t.artist
          ++ (t.copyright
              ++ (t.character
                  ++ (t.species ++ (t.invalid ++ (t.meta ++ (t.lore ++ t.contributor))))))))

unfoldable pub has_meta_tag : Post → Str → Bool
has_meta_tag post tag = has_any tag post.tags.meta

abbrev pub is_rating : Rating → Post → Bool
is_rating rating_s post = elim post.rating [ rating_s ↦ true | _ ↦ false ]
is_rating rating_q post = elim post.rating [ rating_q ↦ true | _ ↦ false ]
is_rating rating_e post = elim post.rating [ rating_e ↦ true | _ ↦ false ]

abbrev pub is_uploader : Post → Option ℤ → Bool
is_uploader post none = false
is_uploader post (some id) = id == post.uploader_id

-- The literal arms of the `match`, and what follows it.
unfoldable pub literal_hits : Post → Bool → Str → Bool
literal_hits post all_tags rule =
    if str_eq rule (codes "rating:s") || str_eq rule (codes "rating:safe")
    then is_rating rating_s post
    else if str_eq rule (codes "rating:q") || str_eq rule (codes "rating:questionable")
    then is_rating rating_q post
    else if str_eq rule (codes "rating:e") || str_eq rule (codes "rating:explicit")
    then is_rating rating_e post
    else if str_eq rule (codes "video") || str_eq rule (codes "animated")
    then has_meta_tag post rule
    else if not all_tags || contains_char b':' rule
    then false
    else has_tag_in post rule

-- A rule that is not a supported requirement.
unfoldable pub plain_hits : Post → Bool → Str → Bool
unfolding literal_hits
plain_hits post all_tags rule = elim (strip_prefix (codes "uploader:!") rule) [
  | some id ↦ is_uploader post (parse_i64 id)
  | none ↦ literal_hits post all_tags rule
]

unfoldable pub rule_hits : Post → Bool → Str → Bool
unfolding plain_hits
rule_hits post all_tags rule = elim (require_tag rule) [
  | some tag ↦ not (has_meta_tag post tag)
  | none ↦ plain_hits post all_tags rule
]

unfoldable pub matches_impl : Post → Str → Bool → Bool
unfolding rules rule_hits
matches_impl post blacklist all_tags = any (rule_hits post all_tags) (rules blacklist)

unfoldable pub matches : Post → Str → Bool
unfolding matches_impl
matches post blacklist = matches_impl post blacklist true

unfoldable pub matches_metatag : Post → Str → Bool
unfolding matches_impl
matches_metatag post blacklist = matches_impl post blacklist false
