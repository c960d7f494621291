-- ===== src/Pipeline/Full.antt =====
-- What a full import saves.
use e621_feed.Base.{
  ℕ, zero, suc, ◌+◌, ◌≡◌, not, ◌&&◌, List, [], ◌∷◌, map, length, nat_eq, list_eq, pair_eq, contains,
}
use e621_feed.Base.Results.{Result, ok, err}
use e621_feed.Base.Text.{Str, trim}
use e621_feed.Pipeline.{Favourite, FavoritesPageError, Effect, sets_total, page_done, saves}

-- The saves among the effects.
abbrev pub saved : List Effect → List (ℕ × List Favourite)
saved [] = []
saved (sets_total n ∷ es) = saved es
saved (page_done ∷ es) = saved es
saved (saves page posts ∷ es) = (page, posts) ∷ saved es

abbrev pub post_count : List (ℕ × List Favourite) → ℕ
post_count [] = 0
post_count ((page, posts) ∷ rest) = length posts + post_count rest

module _ (get_favorites : ℕ → Result FavoritesPageError (List Favourite))
    (save_posts_with_tags : ℕ → List Favourite → Result Str (Unit {0}))
    (strip : Favourite → Favourite) where
  abbrev add_page :
      ℕ
      → Result FavoritesPageError (List Favourite)
      → List (ℕ × List Favourite)
      → List (ℕ × List Favourite)
  add_page page (ok posts) rest = (page, map strip posts) ∷ rest
  add_page page (err e) rest = rest

  -- The pages that e621 answers, of so many from one on, with their posts stripped.
  unfoldable pub answered : ℕ → ℕ → List (ℕ × List Favourite)
  answered zero page = []
  answered (suc left) page = add_page page (get_favorites page) (answered left (suc page))

module _ (to_lowercase : Str → Str) (blacklist : List Str) where
  -- Of the tags, those that are not on the blacklist in lower case are left.
  abbrev pub Leaves : List Str → List Str → Type 0
  Leaves before after =
      (t : Str)
      → contains after t ≡ (contains before t && not (contains blacklist (trim (to_lowercase t))))

  -- The same post without its blacklisted tags, but for the invalid tags and those of contributors.
  pub record IsStripped (before after : Favourite) : Type 0 where
    pub same_id : after.id ≡ before.id
    pub artist : Leaves before.tags.artist after.tags.artist
    pub character : Leaves before.tags.character after.tags.character
    pub copyright : Leaves before.tags.copyright after.tags.copyright
    pub general : Leaves before.tags.general after.tags.general
    pub lore : Leaves before.tags.lore after.tags.lore
    pub meta : Leaves before.tags.meta after.tags.meta
    pub species : Leaves before.tags.species after.tags.species
    pub invalid : after.tags.invalid ≡ before.tags.invalid
    pub contributor : after.tags.contributor ≡ before.tags.contributor
