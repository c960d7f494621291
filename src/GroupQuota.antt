-- ===== src/GroupQuota.antt =====
-- parser-api/src/utils/scorer/diversify.rs: the quota that brings artists and characters into the
-- first posts of a feed. The scores are not modelled: the order is given. `seen` is a list with the
-- last key first, and `redundant` the stack that `pop` takes from.
pub mod Rounds
pub mod Promoted
pub mod Met
pub mod Scanned
pub mod Kept
use e621_feed.Base.{
  ℕ, zero, suc, ◌+◌, ◌-◌, ◌*◌, ◌/◌, ◌%◌, ◌^◌, ◌≤◌, ◌<◌, min, max, ◌≡◌, refl, sym, ap, subst, ◌∙◌,
  ◌≢◌, ◌↔◌, ◌⊎◌, inl, inr, Bool, true, false, not, ◌&&◌, ◌||◌, Option, some, none, List, [], ◌∷◌,
  ◌++◌, map, reverse, arith, ltb, leb, nat_beq, if◌then◌else◌, Bool-cases, Option-cases, length,
  take, drop, all, any, All, All-append, length-append, length-take, length-set, get_elem?-lt,
  get_elem?-set, get_elem?, get_or, set, replicate, Eq, ◌==◌, eq_iff, eq_refl, nat_eq, list_eq,
  pair_eq, contains, lookup, insert, remove, adjust, retain, keep_if, IsMap, lookup-insert,
  lookup-remove, lookup-adjust, lookup-retain, insert-IsMap, remove-IsMap, adjust-IsMap,
  retain-IsMap,
}
use e621_feed.Base.Text.{Str, to_ascii_lowercase}
use e621_feed.Blacklist.{Post}

module _ {A : Type 0} (key : A → Option Str) where
  -- The first loop: the keys in the window, and the slots that repeat one or have none.
  unfoldable pub scan : ℕ → List Str → List ℕ → List A → List Str × List ℕ
  scan i seen redundant [] = (seen, redundant)
  scan i seen redundant (post ∷ posts) = elim (key post) [
    | none ↦ scan (i + 1) seen (i ∷ redundant) posts
    | some k ↦
        let repeated = scan (i + 1) seen (i ∷ redundant) posts in
        let first = scan (i + 1) (k ∷ seen) redundant posts in
        if contains seen k then repeated else first
  ]

  -- `key(post).is_some_and(|k| !seen.contains(&k))`.
  abbrev pub has_new_key : List Str → A → Bool
  has_new_key seen post = elim (key post) [ none ↦ false | some k ↦ not (contains seen k) ]

  -- `(next_below..len).find(..)`, on the posts from `next_below` on.
  unfoldable pub find_fresh : List Str → ℕ → List A → Option ℕ
  find_fresh seen j [] = none
  find_fresh seen j (post ∷ posts) =
      if has_new_key seen post then some j else find_fresh seen (j + 1) posts

  -- `slice::swap`, which panics out of range: neither index is, here.
  unfoldable pub swap : ℕ → ℕ → List A → List A
  swap i j posts = elim (get_elem? posts i) [
    | none ↦ posts
    | some a ↦ elim (get_elem? posts j) [ none ↦ posts | some b ↦ set (set posts i b) j a ]
  ]

  abbrev pub push_key : Option A → List Str → List Str
  push_key none seen = seen
  push_key (some post) seen = elim (key post) [ none ↦ seen | some k ↦ k ∷ seen ]

  -- The loop of promotions, with what it has seen when it stops; a round for each key at most.
  unfoldable pub promote : ℕ → ℕ → ℕ → List Str → List ℕ → List A → List A × List Str
  unfolding find_fresh swap
  promote zero min_distinct next seen redundant posts = (posts, seen)
  promote (suc rounds) min_distinct next seen redundant posts =
      if leb min_distinct (length seen)
      then (posts, seen)
      else elim (find_fresh seen next (drop next posts)) [
        | none ↦ (posts, seen)
        | some j ↦ elim redundant [
          | [] ↦ (posts, seen)
          | slot ∷ rest ↦
              let swapped = swap slot j posts in
              promote rounds min_distinct (j + 1) (push_key (get_elem? swapped slot) seen) rest
                swapped
        ]
      ]

  unfoldable pub enforce_group_quota : List A → ℕ → ℕ → List A × List Str
  unfolding scan promote
  enforce_group_quota scored top_k min_distinct =
      let (seen, redundant) = scan 0 [] [] (take top_k scored) in
      promote min_distinct min_distinct top_k seen redundant scored

abbrev pub first_lower : List Str → Option Str
first_lower [] = none
first_lower (name ∷ names) = some (to_ascii_lowercase name)

unfoldable pub enforce_diversity_quota : List Post → List Post
enforce_diversity_quota scored =
    let top_k = min 20 (length scored) in
    let by_artist =
      (enforce_group_quota (λ (post : Post). first_lower post.tags.artist) scored top_k 2).0 in
    let by_character =
      (enforce_group_quota (λ (post : Post). first_lower post.tags.character) by_artist top_k
        3).0 in
    if ltb top_k 4 then scored else by_character
