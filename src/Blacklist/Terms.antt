-- ===== src/Blacklist/Terms.antt =====
-- `query_terms` and `simple_tags`: what the rules say to e621 and to the scorer.
use e621_feed.Base.{◌||◌, List, [], ◌∷◌, some, none, contains, if◌then◌else◌, nat_eq, list_eq}
use e621_feed.Base.Text.{Str, contains_char, is_some}
use e621_feed.Blacklist.{QueryTerms, require_tag, require_payload, rules}

-- The pushes onto `terms`, in order.
unfoldable pub required_of : List Str → List Str
required_of [] = []
required_of (rule ∷ rest) = elim (require_tag rule) [
  | some tag ↦ tag ∷ required_of rest
  | none ↦ required_of rest
]

unfoldable pub excluded_of : List Str → List Str
excluded_of [] = []
excluded_of (rule ∷ rest) =
    let others = excluded_of rest in
    if is_some (require_tag rule) || is_some (require_payload rule) then others else rule ∷ others

unfoldable pub query_terms : Str → QueryTerms
unfolding required_of excluded_of
query_terms blacklist = record {
  required = required_of (rules blacklist);
  excluded = excluded_of (rules blacklist);
}

-- `str::to_lowercase` is an argument.
unfoldable pub new_tags : (Str → Str) → List Str → List Str → List Str
new_tags to_lowercase seen [] = []
new_tags to_lowercase seen (rule ∷ rest) =
    let tag = to_lowercase rule in
    let skipped = new_tags to_lowercase seen rest in
    let kept = new_tags to_lowercase (tag ∷ seen) rest in
    if contains_char b':' rule || contains seen tag then skipped else tag ∷ kept

unfoldable pub simple_tags : (Str → Str) → Str → List Str
unfolding new_tags
simple_tags to_lowercase blacklist = new_tags to_lowercase [] (rules blacklist)
