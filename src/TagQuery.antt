-- ===== src/TagQuery.antt =====
-- parser-api/src/api.rs: the `tags` query that is sent to e621, from the search, the boosted tags
-- and the blacklist. A picked term is kept apart from its text, which the last step writes.
pub mod Limits
pub mod Repeats
use e621_feed.Base.{
  ℕ, zero, suc, ◌+◌, ◌-◌, ◌*◌, ◌/◌, ◌%◌, ◌^◌, ◌≤◌, ◌<◌, min, max, ◌≡◌, refl, sym, ap, subst, ◌∙◌,
  ◌≢◌, ◌↔◌, ◌⊎◌, inl, inr, Bool, true, false, not, ◌&&◌, ◌||◌, Option, some, none, List, [], ◌∷◌,
  ◌++◌, map, reverse, arith, ltb, leb, nat_beq, if◌then◌else◌, Bool-cases, Option-cases, length,
  take, drop, all, any, All, All-append, length-append, length-take, Eq, ◌==◌, eq_iff, eq_refl,
  nat_eq, list_eq, pair_eq, contains, lookup, insert, remove, adjust, retain, keep_if, IsMap,
  lookup-insert, lookup-remove, lookup-adjust, lookup-retain, insert-IsMap, remove-IsMap,
  adjust-IsMap, retain-IsMap,
}
use e621_feed.Base.Text.{
  Str, codes, trim, is_empty, split_whitespace, trim_start_matches, to_ascii_lowercase,
  is_whitespace, join,
}
use e621_feed.Blacklist.{is_dash}
use e621_feed.Blacklist.Terms.{query_terms}

abbrev pub e621_tag_limit : ℕ
e621_tag_limit = 40

pub record TagQueryBudget : Type 0 where
  pub limit : ℕ
  pub boost : ℕ
  pub blacklist : ℕ

abbrev pub default_budget : TagQueryBudget
default_budget = record { limit = e621_tag_limit; boost = 0; blacklist = 0 }

-- `clamp(1, E621_TAG_LIMIT)`.
abbrev pub clamped : ℕ → ℕ
clamped limit = min (max limit 1) e621_tag_limit

-- The budget of `[runtime]`, from its three settings.
unfoldable pub from_config : ℕ → ℕ → ℕ → TagQueryBudget
from_config limit boost blacklist = record {
  limit = clamped limit;
  boost = boost;
  blacklist = blacklist;
}

abbrev pub is_syntax : ℕ → Bool
is_syntax c = is_whitespace c || contains (codes "()~\"") c

-- A loop that keeps the tails that were not seen: what is seen after it, and what it keeps. With
-- `skip_empty` an empty tail is passed over; a tail that does not pass `wanted` is seen, not kept.
unfoldable pub admit : Bool → (Str → Bool) → List Str → List Str → List Str × List Str
admit skip_empty wanted seen [] = (seen, [])
admit skip_empty wanted seen (tail ∷ tails) =
    let key = to_ascii_lowercase tail in
    let passed = admit skip_empty wanted seen tails in
    let (after, kept) = admit skip_empty wanted (key ∷ seen) tails in
    if (skip_empty && is_empty tail) || contains seen key
    then passed
    else (after, if wanted tail then tail ∷ kept else kept)

pub record Gathered : Type 0 where
  pub positives : List Str
  pub boosts : List Str
  pub required : List Str
  pub negatives : List Str

-- The four loops, which share the set of what was seen; without the marks and before the sorting.
unfoldable pub gather : Str → Str → List Str → Gathered
unfolding admit query_terms
gather user_query blacklist boost =
    let (seen1, positives) =
      admit true (λ _. true) [] (map (trim_start_matches is_dash) (split_whitespace user_query)) in
    let (seen2, boosts) =
      admit true (λ tail. not (any is_syntax tail)) seen1
        (map (λ raw. trim_start_matches is_dash (trim raw)) boost) in
    let (seen3, required) = admit false (λ _. true) seen2 (query_terms blacklist).required in
    let (seen4, negatives) = admit true (λ _. true) seen3 (query_terms blacklist).excluded in
    record { positives = positives; boosts = boosts; required = required; negatives = negatives }

-- The order of `str`, which is that of the code points.
abbrev pub str_leb : Str → Str → Bool
str_leb [] t = true
str_leb (c ∷ s) [] = false
str_leb (c ∷ s) (d ∷ t) = ltb c d || (c == d && str_leb s t)

unfoldable pub insert_text : Str → List Str → List Str
insert_text s [] = s ∷ []
insert_text s (t ∷ texts) = if str_leb s t then s ∷ t ∷ texts else t ∷ insert_text s texts

unfoldable pub sort_unstable : List Str → List Str
unfolding insert_text
sort_unstable [] = []
sort_unstable (s ∷ texts) = insert_text s (sort_unstable texts)

-- A picked term; a group is one text with many tags.
pub data Term : Type 0 where
  single : Str → Term
  group : List Str → Term

-- The loop over the requirements, which `used` counts along.
unfoldable pub pick_required : ℕ → ℕ → List Str → List Term × ℕ
pick_required limit used [] = ([], used)
pick_required limit used (tag ∷ tags) =
    let (picked, after) = pick_required limit (used + 1) tags in
    if leb limit used then ([], used) else (single tag ∷ picked, after)

-- The loop over the exclusions, with their number so far.
unfoldable pub pick_negatives : ℕ → ℕ → ℕ → ℕ → List Str → List Term
pick_negatives limit cap used excluded [] = []
pick_negatives limit cap used excluded (t ∷ ts) =
    let picked = pick_negatives limit cap (used + 1) (excluded + 1) ts in
    if leb limit used || leb cap excluded then [] else single t ∷ picked

abbrev pub group_of : ℕ → List Str → List Term
group_of boost_take boosts = if ltb 0 boost_take then group (take boost_take boosts) ∷ [] else []

unfoldable pub pick : Gathered → TagQueryBudget → List Term
unfolding sort_unstable pick_required pick_negatives
pick g budget =
    let limit = clamped budget.limit in
    let positives = take limit (sort_unstable g.positives) in
    let used = length positives in
    let boosts = map (λ tail. codes "~" ++ tail) g.boosts in
    let boost_take = min (min budget.boost (length boosts)) (limit - used) in
    let (required, used') = pick_required limit (used + boost_take) (sort_unstable g.required) in
    let cap = if budget.blacklist == 0 then limit else budget.blacklist in
    let negatives = sort_unstable (map (λ tail. codes "-" ++ tail) g.negatives) in
    map single positives
    ++ (group_of boost_take boosts ++ (required ++ pick_negatives limit cap used' 0 negatives))

unfoldable pub term_text : Term → Str
term_text (single s) = s
term_text (group tags) = codes "( " ++ (join (codes " ") tags ++ codes " )")

unfoldable pub build_e621_tags_query_with_budget : Str → Str → List Str → TagQueryBudget → Str
unfolding gather pick term_text
build_e621_tags_query_with_budget user_query blacklist boost budget =
    join (codes " ") (map term_text (pick (gather user_query blacklist boost) budget))

unfoldable pub build_e621_tags_query : Str → Str → Str
unfolding build_e621_tags_query_with_budget
build_e621_tags_query user_query blacklist =
    build_e621_tags_query_with_budget user_query blacklist [] default_budget

unfoldable pub build_recommendation_tags : TagQueryBudget → Str → List Str → Str
unfolding build_e621_tags_query_with_budget
build_recommendation_tags configured blacklist boost =
    build_e621_tags_query_with_budget (codes "order:id_desc") blacklist boost configured
