-- ===== src/TagRelation/Loads.antt =====
-- A load by names, as `load_account_tag_relation` runs it: calls of `insert_pair` and of
-- `set_marginal`, and what the graph should answer after them.
pub mod Inserted
pub mod Marked
pub mod Total
use e621_feed.Base.{
  length-set, ℕ, zero, suc, ◌+◌, ◌*◌, ◌^◌, ◌≡◌, ◌≢◌, ◌<◌, ◌≤◌, refl, List, [], ◌∷◌, Bool, true,
  false, Option, some, none, if◌then◌else◌, ◌==◌, nat_eq, list_eq, pair_eq, eq_iff, arith, length,
  ◌||◌, ◌&&◌, not, Bool-cases, Option-cases, inl, inr, All, set, ◌∙◌,
}
use e621_feed.Base.Int.{ℤ, pos, negsuc, pos_part, leb_ℤ}
use e621_feed.Base.Text.{Str, is_empty}
use e621_feed.TagRelation.{
  i64_max, PairStorage, Key, TagRelationGraph, intern, canonical, marginal_by_id, get, group_count,
  insert_pair, set_marginal, with_posts,
}
use e621_feed.TagRelation.Interned.{Name, id_of, IsInterned, Extends, intern-Extends, get_or-set}
use e621_feed.TagRelation.Built.{IsHot, entry_add-IsHot}
use e621_feed.TagRelation.Named.{
  counted, marked, Extends-counted, Extends-marked, added-IsInterned, counted-added,
}

-- One call of a load: `pairs` is `insert_pair`, `marks` is `set_marginal`.
pub data Load : Type 0 where
  pairs : Name → Name → ℤ → Load
  marks : Name → ℤ → Load

unfoldable pub load : TagRelationGraph → Load → Option TagRelationGraph
load graph (pairs (g1, t1) (g2, t2) count) = insert_pair graph g1 t1 g2 t2 count
load graph (marks (g, t) count) = set_marginal graph g t count

unfoldable pub load_all : TagRelationGraph → List Load → Option TagRelationGraph
load_all graph [] = some graph
load_all graph (l ∷ loads) = elim (load graph l) [ none ↦ none | some next ↦ load_all next loads ]

-- The program has seven groups of tags.
abbrev pub InGroups : Load → Type 0
InGroups (pairs n m count) = (n.0 < group_count) × (m.0 < group_count)
InGroups (marks n count) = n.0 < group_count

abbrev pub is_named : Name → Bool
is_named n = not (is_empty n.1)

-- What one call adds to the count of two names.
abbrev pub share : Name → Name → Load → ℕ
share a b (pairs n m count) =
    if (is_named n && is_named m) && ((a == n && b == m) || (a == m && b == n))
    then pos_part count
    else 0
share a b (marks n count) = 0

-- What a list of calls adds.
abbrev pub total : Name → Name → List Load → ℕ
total a b [] = 0
total a b (l ∷ loads) = share a b l + total a b loads

-- The marginal of a name after one call, given the one before it.
abbrev pub remark : Name → ℕ → Load → ℕ
remark a before (pairs n m count) = before
remark a before (marks n count) = if is_named n && a == n then pos_part count else before

abbrev pub last_mark : Name → ℕ → List Load → ℕ
last_mark a before [] = before
last_mark a before (l ∷ loads) = last_mark a (remark a before l) loads

-- What a call adds to a count at most, and the calls of a list together.
abbrev pub worth : Load → ℕ
worth (pairs n m count) = pos_part count
worth (marks n count) = 0

abbrev pub volume : List Load → ℕ
volume [] = 0
volume (l ∷ loads) = worth l + volume loads

-- A graph in the middle of a load, with room for two more tags for each of the calls left, and in
-- each count for all that is to come.
pub record IsLoading (graph : TagRelationGraph) (left coming : ℕ) : Type 0 where
  pub interned : IsInterned graph
  pub hot : IsHot graph.pairs
  pub room : length graph.marginals + 2 * left ≤ 2 ^ 32
  pub fits : (key : Key) → get graph.pairs key + coming ≤ i64_max

-- What one call does.
pub record Loaded (old new : TagRelationGraph) (l : Load) (left coming : ℕ) : Type 0 where
  pub loading : IsLoading new left coming
  pub counts : (a b : Name) → a ≢ b → counted new a b ≡ counted old a b + share a b l
  pub marks_of : (a : Name) → marked new a ≡ remark a (marked old a) l
