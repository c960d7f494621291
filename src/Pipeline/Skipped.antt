-- ===== src/Pipeline/Skipped.antt =====
-- What an incremental import loses when one page does not load.
use e621_feed.Base.{ℕ, suc, ◌+◌, ◌≤◌, ◌<◌, max, List, ◌∷◌, ◌++◌, map, length, ◌≡◌, arith, ap, ◌∙◌}
use e621_feed.Base.Int.{ℤ, pos_part, int_eq}
use e621_feed.Base.Results.{Result, ok, err}
use e621_feed.Base.Text.{Str}
use e621_feed.Pipeline.{
  Favourite, FavoritesPageError, request, page_done, abort_on, Outcome, on_page, incremental_from,
  run_incremental_fetch, bump_total,
}
use e621_feed.Pipeline.Incremental.{
  saved_posts, new_of, saved_posts-bump_total, on_page-overlap, on_page-new,
}

module _ (get_favorites : ℕ → Result FavoritesPageError (List Favourite))
    (save_posts_with_tags : ℕ → List Favourite → Result Str (Unit {0}))
    (strip : Favourite → Favourite) (owned : List ℤ) where
  abbrev pub news : List Favourite → List Favourite
  news = new_of get_favorites save_posts_with_tags strip owned

  skip_from :
      (left page total display_pages : ℕ) (m : Str) (p : Favourite) (ps : List Favourite)
      → get_favorites page ≡ err (request m)
      → get_favorites (suc page) ≡ ok (p ∷ ps)
      → length (news (map strip (p ∷ ps))) < length (map strip (p ∷ ps))
      → ((n : ℕ) (posts : List Favourite) → save_posts_with_tags n posts ≡ ok tt)
      → let r =
          incremental_from get_favorites save_posts_with_tags strip owned display_pages
            (suc (suc left))
            page
            0
            total in
        (r.1 ≡ ok (total + length (news (map strip (p ∷ ps)))))
        × (saved_posts r.0 ≡ news (map strip (p ∷ ps)))
  unfolding incremental_from abort_on
  skip_from left page total display_pages m p ps e1 e2 overlap all_saved =
      let stripped = map strip (p ∷ ps) in
      let rest : ℕ → Outcome = λ n.
        incremental_from get_favorites save_posts_with_tags strip owned display_pages left
          (suc (suc page)) 0 n in
      let (result, kept) =
        on_page-overlap get_favorites save_posts_with_tags strip owned all_saved (suc page) total
          stripped rest overlap in
      let o =
        on_page get_favorites save_posts_with_tags strip owned (suc page) total stripped rest in
      rw (incremental_from, e1, e2)
        (
          result,
          saved_posts-bump_total get_favorites save_posts_with_tags strip owned page display_pages (
                page_done
                ∷ (bump_total get_favorites save_posts_with_tags strip (suc page) display_pages
                    ++ o.0))
              ∙ saved_posts-bump_total get_favorites save_posts_with_tags strip owned (suc page)
                  display_pages o.0
              ∙ kept,
        )

  skip_second :
      (left display_pages : ℕ) (m : Str) (q p : Favourite) (qs ps : List Favourite)
      → get_favorites 1 ≡ ok (q ∷ qs)
      → length (map strip (q ∷ qs)) ≤ length (news (map strip (q ∷ qs)))
      → get_favorites 2 ≡ err (request m)
      → get_favorites 3 ≡ ok (p ∷ ps)
      → length (news (map strip (p ∷ ps))) < length (map strip (p ∷ ps))
      → ((n : ℕ) (posts : List Favourite) → save_posts_with_tags n posts ≡ ok tt)
      → let r =
          incremental_from get_favorites save_posts_with_tags strip owned display_pages
            (suc (suc (suc left)))
            1
            0
            0 in
        let first = news (map strip (q ∷ qs)) in
        let third = news (map strip (p ∷ ps)) in
        (r.1 ≡ ok (length first + length third)) × (saved_posts r.0 ≡ first ++ third)
  unfolding incremental_from
  skip_second left display_pages m q p qs ps e1 new e2 e3 overlap all_saved =
      let c = map strip (q ∷ qs) in
      let rest : ℕ → Outcome = λ n.
        incremental_from get_favorites save_posts_with_tags strip owned display_pages
          (suc (suc left)) 2 0 n in
      let (result, kept) =
        on_page-new get_favorites save_posts_with_tags strip owned all_saved 1 0 c rest new in
      let o = on_page get_favorites save_posts_with_tags strip owned 1 0 c rest in
      let (result', kept') =
        skip_from left 2 (0 + length (news c)) display_pages m p ps e2 e3 overlap all_saved in
      rw (incremental_from, e1)
        (
          result ∙ result' ∙ ap (λ n. ok n) (omega arith),
          saved_posts-bump_total get_favorites save_posts_with_tags strip owned 1 display_pages o.0
              ∙ kept
              ∙ ap (λ ns. news c ++ ns) kept',
        )

  -- A page whose request fails is passed over, unlike one that is malformed: when every save
  -- succeeds, the first page has posts and all of them are new, the request for the second fails,
  -- and the third has a known post, the import reports success, having saved the new posts of the
  -- first and of the third page only.
  pub skipped_page_lost :
      (m : Str) (known_pages : ℤ) (q p : Favourite) (qs ps : List Favourite)
      → get_favorites 1 ≡ ok (q ∷ qs)
      → length (map strip (q ∷ qs)) ≤ length (news (map strip (q ∷ qs)))
      → get_favorites 2 ≡ err (request m)
      → get_favorites 3 ≡ ok (p ∷ ps)
      → length (news (map strip (p ∷ ps))) < length (map strip (p ∷ ps))
      → ((n : ℕ) (posts : List Favourite) → save_posts_with_tags n posts ≡ ok tt)
      → let r = run_incremental_fetch get_favorites save_posts_with_tags strip owned known_pages in
        let first = news (map strip (q ∷ qs)) in
        let third = news (map strip (p ∷ ps)) in
        (r.1 ≡ ok (length first + length third)) × (saved_posts r.0 ≡ first ++ third)
  unfolding run_incremental_fetch
  skipped_page_lost m known_pages q p qs ps e1 new e2 e3 overlap all_saved =
      skip_second 197 (max (pos_part known_pages) 1) m q p qs ps e1 new e2 e3 overlap all_saved
