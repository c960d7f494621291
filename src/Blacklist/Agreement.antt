-- ===== src/Blacklist/Agreement.antt =====
-- The request to e621 and the filter here mean the same blacklist.
use e621_feed.Base.{
  AreDistinct, Bool, true, false, not, ◌||◌, List, [], ◌∷◌, some, none, any, take, nat_eq, list_eq,
  eq_iff, arith, ◌≡◌, refl, contains, nat_beq, Option-cases, inl, inr, All, ap, sym, ◌∙◌, ℕ, zero,
  suc, Bool-cases, Option,
}
use e621_feed.Base.Text.{
  Str, codes, strip_prefix, contains_char, str_eq, eq_ignore_ascii_case, to_ascii_lowercase,
  lower_char, is_ascii_uppercase, is_some,
}
use e621_feed.Blacklist.{
  Post, QueryTerms, rules, require_payload, has_meta_tag, literal_hits, plain_hits, rule_hits,
  matches_impl, matches, matches_metatag, require_prefix, find_tag, require_tag, require_tags,
  supported,
}
use e621_feed.Blacklist.Terms.{query_terms, required_of, excluded_of, simple_tags, new_tags}

literal_hits_less :
    (post : Post) (rule : Str)
    → literal_hits post false rule ≡ true
    → literal_hits post true rule ≡ true
unfolding literal_hits
literal_hits_less post rule h = ground arith

rule_hits_less :
    (post : Post) (rule : Str) → rule_hits post false rule ≡ true → rule_hits post true rule ≡ true
unfolding rule_hits plain_hits
rule_hits_less post rule h = ground (arith, literal_hits_less post rule)

any_hits_less :
    (post : Post) (rs : List Str)
    → any (rule_hits post false) rs ≡ true
    → any (rule_hits post true) rs ≡ true
any_hits_less post [] h = h
any_hits_less post (r ∷ rs) h = ground (arith, rule_hits_less post r, any_hits_less post rs)

-- A post that the first, cheap pass hides is hidden by the full filter too.
pub matches_metatag-matches :
    (post : Post) (blacklist : Str)
    → matches_metatag post blacklist ≡ true
    → matches post blacklist ≡ true
unfolding matches matches_metatag matches_impl
matches_metatag-matches post blacklist h = any_hits_less post (rules blacklist) h

-- A rule that begins like a requirement.
abbrev Requires : Str → Type 0
Requires rule = eq_ignore_ascii_case (take 8 rule) require_prefix ≡ true

not_literal :
    (rule l : Str)
    → Requires rule
    → eq_ignore_ascii_case (take 8 l) require_prefix ≡ false
    → str_eq rule l ≡ false
not_literal rule l h k = ground (arith, eq_iff rule l)

colon-lowered : (s : Str) → contains_char b':' (to_ascii_lowercase s) ≡ contains_char b':' s
unfolding contains_char to_ascii_lowercase lower_char is_ascii_uppercase
colon-lowered [] = refl
colon-lowered (c ∷ s) = ground (arith, colon-lowered s)

colon-take : (n : ℕ) (s : Str) → contains_char b':' (take n s) ≡ true → contains_char b':' s ≡ true
unfolding contains_char
colon-take zero s h = ground arith
colon-take (suc n) [] h = h
colon-take (suc n) (c ∷ s) h = ground (arith, colon-take n s)

lowered :
    (s t : Str) → eq_ignore_ascii_case s t ≡ true → to_ascii_lowercase s ≡ to_ascii_lowercase t
unfolding eq_ignore_ascii_case
lowered s t h = (eq_iff (to_ascii_lowercase s) (to_ascii_lowercase t)).0 h

Requires-colon : (rule : Str) → Requires rule → contains_char b':' rule ≡ true
unfolding contains_char to_ascii_lowercase lower_char is_ascii_uppercase
Requires-colon rule h = colon-take 8 rule (
    sym (colon-lowered (take 8 rule))
    ∙ ap (λ s. contains_char b':' s) (lowered (take 8 rule) require_prefix h))

not_u : (s : Str) → eq_ignore_ascii_case (take 8 (b'u' ∷ s)) require_prefix ≡ false
unfolding eq_ignore_ascii_case to_ascii_lowercase lower_char is_ascii_uppercase
not_u s = refl

Requires-not_uploader : (rule : Str) → Requires rule → strip_prefix (codes "uploader:!") rule ≡ none
unfolding strip_prefix
Requires-not_uploader [] h = refl
Requires-not_uploader (c ∷ s) h = elim (Bool-cases (nat_beq b'u' c)) [
  | inl e ↦ ground (arith, not_u s)
  | inr e ↦ rw e refl
]

-- The literals of the `match` are no requirements.
abbrev literals : List Str
literals =
    codes "rating:s"
    ∷ codes "rating:safe"
    ∷ codes "rating:q"
    ∷ codes "rating:questionable"
    ∷ codes "rating:e"
    ∷ codes "rating:explicit"
    ∷ codes "video"
    ∷ codes "animated"
    ∷ []

literals_differ : (rule : Str) → Requires rule → All (λ l. str_eq rule l ≡ false) literals
unfolding eq_ignore_ascii_case to_ascii_lowercase lower_char is_ascii_uppercase
literals_differ rule h = (
  not_literal rule (codes "rating:s") h refl,
  (
    not_literal rule (codes "rating:safe") h refl,
    (
      not_literal rule (codes "rating:q") h refl,
      (
        not_literal rule (codes "rating:questionable") h refl,
        (
          not_literal rule (codes "rating:e") h refl,
          (
            not_literal rule (codes "rating:explicit") h refl,
            (
              not_literal rule (codes "video") h refl,
              (not_literal rule (codes "animated") h refl, tt),
            ),
          ),
        ),
      ),
    ),
  ),
)

require_payload-literal :
    (post : Post) (all_tags : Bool) (rule : Str)
    → Requires rule
    → plain_hits post all_tags rule ≡ false
unfolding plain_hits literal_hits strip_prefix
require_payload-literal post all_tags rule h =
    let d = literals_differ rule h in
    rw
      (
        Requires-not_uploader rule h,
        d.0,
        d.1.0,
        d.1.1.0,
        d.1.1.1.0,
        d.1.1.1.1.0,
        d.1.1.1.1.1.0,
        d.1.1.1.1.1.1.0,
        d.1.1.1.1.1.1.1.0,
        Requires-colon rule h,
      )
      (ground arith)

-- An unsupported requirement hits nothing.
require_payload-hits :
    (post : Post) (all_tags : Bool) (rule payload : Str)
    → require_payload rule ≡ some payload
    → plain_hits post all_tags rule ≡ false
unfolding require_payload
require_payload-hits post all_tags rule payload e =
    require_payload-literal post all_tags rule (ground arith)

-- What the request's terms make of a post: one of the tags it requires is missing, or one of the
-- exclusions hits.
abbrev pub terms_hit : Post → Bool → QueryTerms → Bool
terms_hit post all_tags terms =
    any (λ tag. not (has_meta_tag post tag)) terms.required
    || any (plain_hits post all_tags) terms.excluded

any_hits-terms :
    (post : Post) (all_tags : Bool) (rs : List Str)
    → any (rule_hits post all_tags) rs ≡ (
        any (λ tag. not (has_meta_tag post tag)) (required_of rs)
        || any (plain_hits post all_tags) (excluded_of rs))
unfolding rule_hits required_of excluded_of
any_hits-terms post all_tags [] = refl
any_hits-terms post all_tags (r ∷ rs) = elim (Option-cases (require_payload r)) [
  | inl e ↦ ground (arith, any_hits-terms post all_tags rs)
  | inr (p, e) ↦
      ground (arith, require_payload-hits post all_tags r p e, any_hits-terms post all_tags rs)
]

excluded_of-AreNoRequirements :
    (rs : List Str) → All (λ rule. require_payload rule ≡ none) (excluded_of rs)
unfolding excluded_of
excluded_of-AreNoRequirements [] = tt
excluded_of-AreNoRequirements (r ∷ rs) = elim (Option-cases (require_payload r)) [
  | inl plain ↦ elim (Bool-cases (is_some (require_tag r))) [
    | inl known ↦ rw (known) (excluded_of-AreNoRequirements rs)
    | inr other ↦ rw (other, plain) (plain, excluded_of-AreNoRequirements rs)
  ]
  | inr (p, e) ↦ elim (Bool-cases (is_some (require_tag r))) [
    | inl known ↦ rw (known) (excluded_of-AreNoRequirements rs)
    | inr other ↦ rw (other, e) (excluded_of-AreNoRequirements rs)
  ]
]

find_tag-contains :
    (payload tag : Str) (ts : List Str) → find_tag payload ts ≡ some tag → contains ts tag ≡ true
unfolding find_tag
find_tag-contains payload tag [] h = ground (arith, h)
find_tag-contains payload tag (t ∷ ts) h =
    ground (arith, h, eq_iff t tag, find_tag-contains payload tag ts)

supported-contains :
    (payload : Option Str) (tag : Str)
    → supported payload ≡ some tag
    → contains require_tags tag ≡ true
supported-contains none tag h = ground (arith, h)
supported-contains (some payload) tag h = find_tag-contains payload tag require_tags h

require_tag-contains :
    (rule tag : Str) → require_tag rule ≡ some tag → contains require_tags tag ≡ true
unfolding require_tag
require_tag-contains rule tag h = supported-contains (require_payload rule) tag h

required_of-AreSupported :
    (rs : List Str) → All (λ tag. contains require_tags tag ≡ true) (required_of rs)
unfolding required_of
required_of-AreSupported [] = tt
required_of-AreSupported (r ∷ rs) = elim (Option-cases (require_tag r)) [
  | inl other ↦ rw (All, required_of, other) (required_of-AreSupported rs)
  | inr (tag, e) ↦
      rw (All, required_of, e) (require_tag-contains r tag e, required_of-AreSupported rs)
]

-- The filter here and the request to e621 split a blacklist alike: a post is hidden here exactly
-- when a tag that the request requires is missing from its meta tags, or a rule that the request
-- excludes hits it. The request requires only the two supported tags, and excludes no rule that is
-- written as a requirement, supported or not.
pub matches_impl-query_terms :
    (post : Post) (blacklist : Str) (all_tags : Bool)
    → (matches_impl post blacklist all_tags ≡ terms_hit post all_tags (query_terms blacklist))
      × All (λ tag. contains require_tags tag ≡ true) (query_terms blacklist).required
      × All (λ rule. require_payload rule ≡ none) (query_terms blacklist).excluded
unfolding matches_impl query_terms
matches_impl-query_terms post blacklist all_tags = (
  any_hits-terms post all_tags (rules blacklist),
  required_of-AreSupported (rules blacklist),
  excluded_of-AreNoRequirements (rules blacklist),
)

new_tags-unseen :
    (to_lowercase : Str → Str) (seen rs : List Str) (t : Str)
    → contains seen t ≡ true
    → contains (new_tags to_lowercase seen rs) t ≡ false
unfolding new_tags
new_tags-unseen to_lowercase seen [] t h = refl
new_tags-unseen to_lowercase seen (r ∷ rs) t h =
    let l = to_lowercase r in
    ground (
      arith,
      eq_iff l t,
      new_tags-unseen to_lowercase seen rs t,
      new_tags-unseen to_lowercase (l ∷ seen) rs t,
    )

new_tags-AreDistinct :
    (to_lowercase : Str → Str) (seen rs : List Str) → AreDistinct (new_tags to_lowercase seen rs)
unfolding new_tags
new_tags-AreDistinct to_lowercase seen [] = tt
new_tags-AreDistinct to_lowercase seen (r ∷ rs) =
    let l = to_lowercase r in
    ground (
      arith,
      eq_iff l l,
      new_tags-unseen to_lowercase (l ∷ seen) rs l,
      new_tags-AreDistinct to_lowercase seen rs,
      new_tags-AreDistinct to_lowercase (l ∷ seen) rs,
    )

-- The plain tags of a blacklist are listed once each, whatever lower case is.
pub simple_tags-AreDistinct :
    (to_lowercase : Str → Str) (blacklist : Str) → AreDistinct (simple_tags to_lowercase blacklist)
unfolding simple_tags
simple_tags-AreDistinct to_lowercase blacklist =
    new_tags-AreDistinct to_lowercase [] (rules blacklist)
