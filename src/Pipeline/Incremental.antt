-- ===== src/Pipeline/Incremental.antt =====
-- What an incremental import saves, and what it loses when one page does not load.
use e621_feed.Base.{
  ℕ, zero, suc, ◌+◌, ◌≤◌, ◌<◌, ltb, max, true, false, List, [], ◌∷◌, ◌++◌, map, length, ◌≡◌, refl,
  lt→ltb, arith, ◌⊎◌, inl, inr, contains, Bool-cases, ap, sym, subst, ◌∙◌, ltb→lt, length-append,
}
use e621_feed.Base.Int.{ℤ, pos, pos_part, int_eq}
use e621_feed.Base.Results.{Result, ok}
use mathlib.Core.List.{append-nil, map-append}
use e621_feed.Base.Text.{Str}
use e621_feed.Pipeline.{
  Favourite, FavoritesPageError, Effect, sets_total, page_done, saves, Outcome, on_page,
  save_effects, save_result, unknown_of, incremental_from, run_incremental_fetch, bump_total,
}

-- The posts of the saves, page after page.
abbrev pub saved_posts : List Effect → List Favourite
saved_posts [] = []
saved_posts (sets_total n ∷ es) = saved_posts es
saved_posts (page_done ∷ es) = saved_posts es
saved_posts (saves page posts ∷ es) = posts ++ saved_posts es

abbrev pub flatten : List (List Favourite) → List Favourite
flatten [] = []
flatten (c ∷ cs) = c ++ flatten cs

module _ (get_favorites : ℕ → Result FavoritesPageError (List Favourite))
    (save_posts_with_tags : ℕ → List Favourite → Result Str (Unit {0}))
    (strip : Favourite → Favourite) (owned : List ℤ) where
  abbrev pub new_of : List Favourite → List Favourite
  new_of = unknown_of get_favorites save_posts_with_tags strip owned

  -- Newest first: after the first known post all are known.
  abbrev pub NewestFirst : List Favourite → Type 0
  NewestFirst [] = Unit
  NewestFirst (p ∷ ps) =
      ((contains owned p.id ≡ true) × (new_of ps ≡ []))
      ⊎ (contains owned p.id ≡ false) × NewestFirst ps

  -- The listing from `page`: these pages, and then nothing.
  abbrev pub Lists : ℕ → List (List Favourite) → Type 0
  Lists page [] = get_favorites page ≡ ok []
  Lists page ([] ∷ cs) = ⊥
  Lists page ((p ∷ ps) ∷ cs) = (get_favorites page ≡ ok (p ∷ ps)) × Lists (suc page) cs

  length-new_of : (ps : List Favourite) → length (new_of ps) ≤ length ps
  length-new_of [] = omega arith
  length-new_of (p ∷ ps) = ground (arith, length-new_of ps)

  new_of-append : (ps qs : List Favourite) → new_of (ps ++ qs) ≡ new_of ps ++ new_of qs
  new_of-append [] qs = refl
  new_of-append (p ∷ ps) qs = ground (arith, new_of-append ps qs)

  append-empty : (ps qs : List Favourite) → ps ++ qs ≡ [] → qs ≡ []
  append-empty [] qs h = h
  append-empty (p ∷ ps) qs h = ground arith

  -- Past a page with a known post, nothing is new.
  new_of-overlap :
      (ps qs : List Favourite)
      → NewestFirst (ps ++ qs)
      → length (new_of ps) < length ps
      → new_of qs ≡ []
  new_of-overlap [] qs h l = ground arith
  new_of-overlap (p ∷ ps) qs (inl (known, none_new)) l =
      append-empty (new_of ps) (new_of qs) (sym (new_of-append ps qs) ∙ none_new)
  new_of-overlap (p ∷ ps) qs (inr (new, h)) l =
      new_of-overlap ps qs h (ground (arith, length-new_of ps))

  -- Past a page without one, the rest is newest first too.
  NewestFirst-rest :
      (ps qs : List Favourite)
      → NewestFirst (ps ++ qs)
      → length ps ≤ length (new_of ps)
      → NewestFirst qs
  NewestFirst-rest [] qs h l = h
  NewestFirst-rest (p ∷ ps) qs (inl (known, none_new)) l = absurd (ground (arith, length-new_of ps))
  NewestFirst-rest (p ∷ ps) qs (inr (new, h)) l =
      NewestFirst-rest ps qs h (ground (arith, length-new_of ps))

  saved_posts-save_effects :
      (page : ℕ) (new : List Favourite) (es : List Effect)
      → saved_posts
          (save_effects get_favorites save_posts_with_tags strip page new ++ page_done ∷ [] ++ es)
        ≡ new ++ saved_posts es
  saved_posts-save_effects page [] es = refl
  saved_posts-save_effects page (p ∷ ps) es = refl

  pub saved_posts-bump_total :
      (page display_pages : ℕ) (es : List Effect)
      → saved_posts (bump_total get_favorites save_posts_with_tags strip page display_pages ++ es)
        ≡ saved_posts es
  saved_posts-bump_total page display_pages es = ground arith

  le→not_ltb : (a b : ℕ) → a ≤ b → ltb b a ≡ false
  le→not_ltb a b h = ground arith

  module _
      (all_saved : (page : ℕ) (posts : List Favourite)
        → save_posts_with_tags page posts ≡ ok tt) where
    save_result-ok :
        (page : ℕ) (new : List Favourite)
        → save_result get_favorites save_posts_with_tags strip page new ≡ ok tt
    save_result-ok page [] = refl
    save_result-ok page (p ∷ ps) = all_saved page (p ∷ ps)

    pub on_page-overlap :
        (page total : ℕ) (stripped : List Favourite) (rest : ℕ → Outcome)
        → length (new_of stripped) < length stripped
        → let r = on_page get_favorites save_posts_with_tags strip owned page total stripped rest in
          (r.1 ≡ ok (total + length (new_of stripped))) × (saved_posts r.0 ≡ new_of stripped)
    unfolding on_page
    on_page-overlap page total stripped rest l =
        rw
          (
            on_page,
            save_result-ok page (new_of stripped),
            lt→ltb (length (new_of stripped)) (length stripped) l,
          )
          (
            refl,
            saved_posts-save_effects page (new_of stripped) (sets_total (pos page) ∷ [])
                ∙ append-nil (new_of stripped),
          )

    pub on_page-new :
        (page total : ℕ) (stripped : List Favourite) (rest : ℕ → Outcome)
        → length stripped ≤ length (new_of stripped)
        → let r = on_page get_favorites save_posts_with_tags strip owned page total stripped rest in
          let k = rest (total + length (new_of stripped)) in
          (r.1 ≡ k.1) × (saved_posts r.0 ≡ new_of stripped ++ saved_posts k.0)
    unfolding on_page
    on_page-new page total stripped rest l =
        let k = rest (total + length (new_of stripped)) in
        rw
          (
            on_page,
            save_result-ok page (new_of stripped),
            le→not_ltb (length stripped) (length (new_of stripped)) l,
          )
          (refl, saved_posts-save_effects page (new_of stripped) k.0)

    -- The listing is known to be within the 200 pages.
    incremental_from-saves :
        (left page failures total display_pages : ℕ) (cs : List (List Favourite))
        → Lists page cs
        → length cs < left
        → NewestFirst (map strip (flatten cs))
        → let r =
            incremental_from get_favorites save_posts_with_tags strip owned display_pages left page
              failures total in
          (r.1 ≡ ok (total + length (new_of (map strip (flatten cs)))))
          × (saved_posts r.0 ≡ new_of (map strip (flatten cs)))
    unfolding incremental_from
    incremental_from-saves zero page failures total display_pages cs h l order =
        absurd (omega (arith, l))
    incremental_from-saves (suc left) page failures total display_pages [] h l order =
        rw (incremental_from, h) (ground arith, saved_posts-bump_total page display_pages [])
    incremental_from-saves (suc left) page failures total display_pages ([] ∷ cs) h l order =
        absurd h
    incremental_from-saves (suc left) page failures total display_pages ((p ∷ ps) ∷ cs) h l order =
        let c = map strip (p ∷ ps) in
        let d = map strip (flatten cs) in
        let rest : ℕ → Outcome = λ n.
          incremental_from get_favorites save_posts_with_tags strip owned display_pages left
            (suc page) 0 n in
        let o = on_page get_favorites save_posts_with_tags strip owned page total c rest in
        let joined : map strip (flatten ((p ∷ ps) ∷ cs)) ≡ c ++ d =
          map-append strip (p ∷ ps) (flatten cs) in
        let order' : NewestFirst (c ++ d) = subst NewestFirst joined order in
        let whole : new_of (map strip (flatten ((p ∷ ps) ∷ cs))) ≡ new_of c ++ new_of d =
          ap new_of joined ∙ new_of-append c d in
        let (result, kept) : (o.1 ≡ ok (total + length (new_of c ++ new_of d)))
            × (saved_posts o.0 ≡ new_of c ++ new_of d) =
          elim (Bool-cases (ltb (length (new_of c)) (length c))) [
            | inl overlaps ↦
                let less = ltb→lt (length (new_of c)) (length c) overlaps in
                let nothing = new_of-overlap c d order' less in
                let (result, kept) = on_page-overlap page total c rest less in
                rw (nothing, append-nil (new_of c)) (result, kept)
            | inr fresh ↦
                let more : length c ≤ length (new_of c) = ground arith in
                let (result, kept) = on_page-new page total c rest more in
                let (result', kept') =
                  incremental_from-saves left (suc page) 0 (total + length (new_of c)) display_pages
                    cs h.1 (omega (arith, l)) (NewestFirst-rest c d order' more) in
                (
                  result
                      ∙ result'
                      ∙ ap (λ n. ok n) (omega (arith, length-append (new_of c) (new_of d))),
                  kept ∙ ap (λ ns. new_of c ++ ns) kept',
                )
          ] in
        rw (incremental_from, h.0, whole)
          (result, saved_posts-bump_total page display_pages o.0 ∙ kept)

  -- Where every page loads and every save succeeds, and the listing is newest first and shorter than
  -- 200 pages, an incremental import saves exactly the posts that are new, in order, and reports
  -- how many these are.
  pub run_incremental_fetch-saves :
      (known_pages : ℤ) (cs : List (List Favourite))
      → Lists 1 cs
      → length cs < 200
      → NewestFirst (map strip (flatten cs))
      → ((page : ℕ) (posts : List Favourite) → save_posts_with_tags page posts ≡ ok tt)
      → let r = run_incremental_fetch get_favorites save_posts_with_tags strip owned known_pages in
        (r.1 ≡ ok (length (new_of (map strip (flatten cs)))))
        × (saved_posts r.0 ≡ new_of (map strip (flatten cs)))
  unfolding run_incremental_fetch
  run_incremental_fetch-saves known_pages cs h l order all_saved =
      let (result, kept) =
        incremental_from-saves all_saved 200 1 0 0 (max (pos_part known_pages) 1) cs h l order in
      (result ∙ ap (λ n. ok n) (omega arith), kept)
