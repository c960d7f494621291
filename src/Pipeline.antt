-- ===== src/Pipeline.antt =====
-- parser-api/src/pipeline.rs: the import of an account's favourites from e621, page by page. e621
-- and the database answer by arguments; what a run does is listed as effects, in order. The log and
-- the audit events are left out.
pub mod Full
pub mod Incremental
pub mod Skipped
use e621_feed.Base.{
  ℕ, zero, suc, ◌+◌, ltb, leb, nat_beq, max, Bool, true, false, not, ◌||◌, List, [], ◌∷◌, ◌++◌,
  Option, some, none, map, contains, if◌then◌else◌, length, ◌==◌, nat_eq, list_eq,
}
use e621_feed.Base.Int.{ℤ, pos, pos_part, int_eq, ltb_ℤ, int_beq}
use e621_feed.Base.Results.{Result, ok, err}
use e621_feed.Base.Text.{Str, codes, trim, to_ascii_lowercase, str_eq, is_empty, decimal}
use e621_feed.Blacklist.{Tags, keep}

pub data ProcessMode : Type 0 where
  full incremental auto : ProcessMode

abbrev pub unknown_mode : Str → Str
unknown_mode other =
    codes "unknown process mode '" ++ (other ++ codes "'; expected one of: auto, full, incremental")

abbrev pub mode_named : Str → Result Str ProcessMode
mode_named name =
    if is_empty name || str_eq name (codes "auto")
    then ok auto
    else if str_eq name (codes "full")
    then ok full
    else if str_eq name (codes "incremental")
        || str_eq name (codes "incr")
        || str_eq name (codes "delta")
    then ok incremental
    else err (unknown_mode name)

unfoldable pub from_str : Str → Result Str ProcessMode
from_str s = mode_named (to_ascii_lowercase (trim s))

unfoldable pub mode_as_str : ProcessMode → Str
mode_as_str full = codes "full"
mode_as_str incremental = codes "incremental"
mode_as_str auto = codes "auto"

unfoldable pub resolve_process_mode : ProcessMode → ℤ → ℤ → ProcessMode
resolve_process_mode full local_count remote_count = full
resolve_process_mode incremental local_count remote_count = incremental
resolve_process_mode auto local_count remote_count =
    if int_beq local_count (pos 0) || ltb_ℤ remote_count local_count then full else incremental

-- Of a post, what the import looks at.
pub record Favourite : Type 0 where
  pub id : ℤ
  pub tags : Tags

-- `str::to_lowercase` is an argument.
unfoldable pub strip_blacklisted_tags : (Str → Str) → List Str → Favourite → Favourite
strip_blacklisted_tags to_lowercase blacklist p =
    let filter = keep (λ t. not (contains blacklist (trim (to_lowercase t)))) in
    let t = p.tags in
    record p {
      tags = record t {
        artist = filter t.artist;
        character = filter t.character;
        copyright = filter t.copyright;
        general = filter t.general;
        lore = filter t.lore;
        meta = filter t.meta;
        species = filter t.species;
      };
    }

-- `FavoritesPageError`.
pub data FavoritesPageError : Type 0 where
  request : Str → FavoritesPageError
  malformed : Str → FavoritesPageError

abbrev pub is_malformed : FavoritesPageError → Bool
is_malformed (request m) = false
is_malformed (malformed m) = true

abbrev pub text_of : FavoritesPageError → Str
text_of (request m) = m
text_of (malformed m) = m

-- `set_pages_total`, `record_page_done` and `save_posts_with_tags`, with its page.
pub data Effect : Type 0 where
  sets_total : ℤ → Effect
  page_done : Effect
  saves : ℕ → List Favourite → Effect

abbrev pub max_consecutive_page_failures : ℕ
max_consecutive_page_failures = 2

abbrev pub aborted_malformed : ℕ → FavoritesPageError → Str
aborted_malformed page e =
    codes "aborted on malformed favourites response at page "
    ++ (decimal page ++ (codes ": " ++ text_of e))

abbrev pub aborted_failures : ℕ → ℕ → FavoritesPageError → Str
aborted_failures failures page e =
    codes "aborted after "
    ++ (decimal failures
        ++ (codes " consecutive page fetch failures; last error on page "
            ++ (decimal page ++ (codes ": " ++ text_of e))))

-- Whether a failure ends the run, with which text; `failures` counts it.
unfoldable pub abort_on : ℕ → ℕ → FavoritesPageError → Option Str
abort_on failures page e =
    if is_malformed e
    then some (aborted_malformed page e)
    else if leb max_consecutive_page_failures failures
    then some (aborted_failures failures page e)
    else none

abbrev pub save_failed : ℕ → Str → Str
save_failed page e =
    codes "Failed to save posts with tags for page " ++ (decimal page ++ (codes ": " ++ e))

abbrev pub Outcome : Type 0
Outcome = List Effect × Result Str ℕ

-- Effects before the rest of a run.
abbrev pub after_effects : List Effect → Outcome → Outcome
after_effects es rest = (es ++ rest.0, rest.1)

module _ (get_favorites : ℕ → Result FavoritesPageError (List Favourite))
    (save_posts_with_tags : ℕ → List Favourite → Result Str (Unit {0}))
    (strip : Favourite → Favourite) where
  -- The loop of `run_full_fetch` from `page`, with so many pages left.
  unfoldable pub full_from : ℕ → ℕ → ℕ → ℕ → Outcome
  full_from zero page failures total = ([], ok total)
  full_from (suc left) page failures total = elim (get_favorites page) [
    | err e ↦
        let rest = full_from left (suc page) (suc failures) total in
        elim (abort_on (suc failures) page e) [
          | some text ↦ ([], err text)
          | none ↦ after_effects (page_done ∷ []) rest
        ]
    | ok posts ↦
        let stripped = map strip posts in
        let rest = full_from left (suc page) 0 (total + length stripped) in
        elim (save_posts_with_tags page stripped) [
          | err e ↦ (saves page stripped ∷ [], err (save_failed page e))
          | ok _ ↦ after_effects (saves page stripped ∷ page_done ∷ []) rest
        ]
  ]

  unfoldable pub run_full_fetch : ℤ → Outcome
  unfolding full_from
  run_full_fetch pages = after_effects (sets_total pages ∷ []) (full_from (pos_part pages) 1 0 0)

  abbrev pub unknown_of : List ℤ → List Favourite → List Favourite
  unknown_of owned [] = []
  unknown_of owned (p ∷ ps) =
      let rest = unknown_of owned ps in if contains owned p.id then rest else p ∷ rest

  abbrev pub bump_total : ℕ → ℕ → List Effect
  bump_total page display_pages = if ltb display_pages page then sets_total (pos page) ∷ [] else []

  -- After the save: the page is done, and an overlap ends the run.
  abbrev pub save_effects : ℕ → List Favourite → List Effect
  save_effects page [] = []
  save_effects page (p ∷ ps) = saves page (p ∷ ps) ∷ []

  abbrev pub save_result : ℕ → List Favourite → Result Str (Unit {0})
  save_result page [] = ok tt
  save_result page (p ∷ ps) = save_posts_with_tags page (p ∷ ps)

  unfoldable pub on_page : List ℤ → ℕ → ℕ → List Favourite → (ℕ → Outcome) → Outcome
  on_page owned page total stripped rest =
      let new_posts = unknown_of owned stripped in
      elim (save_result page new_posts) [
        | err e ↦ (save_effects page new_posts, err (save_failed page e))
        | ok _ ↦ after_effects (save_effects page new_posts ++ page_done ∷ []) (
            if ltb (length new_posts) (length stripped)
            then (sets_total (pos page) ∷ [], ok (total + length new_posts))
            else rest (total + length new_posts))
      ]

  -- The loop of `run_incremental_fetch` from `page`, with so many pages left of the 200.
  unfoldable pub incremental_from : List ℤ → ℕ → ℕ → ℕ → ℕ → ℕ → Outcome
  unfolding on_page
  incremental_from owned display_pages zero page failures total = ([], ok total)
  incremental_from owned display_pages (suc left) page failures total =
      after_effects (bump_total page display_pages) (elim (get_favorites page) [
        | err e ↦
            let rest = incremental_from owned display_pages left (suc page) (suc failures) total in
            elim (abort_on (suc failures) page e) [
              | some text ↦ ([], err text)
              | none ↦ after_effects (page_done ∷ []) rest
            ]
        | ok [] ↦ ([], ok total)
        | ok (p ∷ ps) ↦
            on_page owned page total (map strip (p ∷ ps))
              (λ n. incremental_from owned display_pages left (suc page) 0 n)
      ])

  unfoldable pub run_incremental_fetch : List ℤ → ℤ → Outcome
  run_incremental_fetch owned known_pages =
      let display_pages = max (pos_part known_pages) 1 in
      after_effects (sets_total (pos display_pages) ∷ [])
        (incremental_from owned display_pages 200 1 0 0)
