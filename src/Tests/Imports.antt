-- ===== src/Tests/Imports.antt =====
-- Imports, at concrete inputs.
use e621_feed.Base.{ℕ, zero, suc, ◌≡◌, refl, List, [], ◌∷◌, ◌++◌, ◌+◌, map, length, inl, inr, arith}
use e621_feed.Base.Int.{ℤ, pos, int_eq}
use e621_feed.Base.Results.{Result, ok, err}
use e621_feed.Base.Text.{Str, codes}
use e621_feed.Blacklist.{Tags}
use e621_feed.Pipeline.{Favourite, FavoritesPageError, request, run_incremental_fetch}
use e621_feed.Pipeline.Skipped.{skipped_page_lost}
use e621_feed.Pipeline.Incremental.{saved_posts, flatten, new_of, run_incremental_fetch-saves}

abbrev no_tags : Tags
no_tags = record {
  general = [];
  artist = [];
  copyright = [];
  character = [];
  species = [];
  invalid = [];
  meta = [];
  lore = [];
  contributor = [];
}

abbrev favourite : ℕ → Favourite
favourite n = record { id = pos n; tags = no_tags }

abbrev unchanged_post : Favourite → Favourite
unchanged_post p = p

abbrev saves_all : ℕ → List Favourite → Result Str (Unit {0})
saves_all page posts = ok tt

abbrev known : List ℤ
known = pos 1 ∷ pos 2 ∷ []

-- The second page fails.
abbrev flaky : ℕ → Result FavoritesPageError (List Favourite)
flaky zero = ok []
flaky (suc zero) = ok (favourite 5 ∷ [])
flaky (suc (suc zero)) = err (request (codes "timeout"))
flaky (suc (suc (suc zero))) = ok (favourite 3 ∷ favourite 2 ∷ [])
flaky (suc (suc (suc (suc n)))) = ok []

abbrev steady : ℕ → Result FavoritesPageError (List Favourite)
steady zero = ok []
steady (suc zero) = ok (favourite 4 ∷ [])
steady (suc (suc zero)) = ok (favourite 3 ∷ favourite 2 ∷ [])
steady (suc (suc (suc n))) = ok []

abbrev hidden : List Str
hidden = codes "gore" ∷ []

abbrev gory : Favourite
gory = record {
  id = pos 9;
  tags = record no_tags {
    general = codes "forest" ∷ codes "gore" ∷ [];
    invalid = codes "gore" ∷ [];
  };
}

skipped_page_lost_example :
    let r = run_incremental_fetch flaky saves_all unchanged_post known (pos 2) in
    let first = new_of flaky saves_all unchanged_post known (favourite 5 ∷ []) in
    let third = new_of flaky saves_all unchanged_post known (favourite 3 ∷ favourite 2 ∷ []) in
    (r.1 ≡ ok (length first + length third)) × (saved_posts r.0 ≡ first ++ third)
skipped_page_lost_example =
    skipped_page_lost flaky saves_all unchanged_post known (codes "timeout") (pos 2) (favourite 5)
      (favourite 3) [] (favourite 2 ∷ []) refl (omega arith) refl refl (omega arith)
      (λ n posts. refl)

abbrev chunks : List (List Favourite)
chunks = (favourite 4 ∷ []) ∷ (favourite 3 ∷ favourite 2 ∷ []) ∷ []

run_incremental_fetch-saves_example :
    let r = run_incremental_fetch steady saves_all unchanged_post known (pos 2) in
    let new = new_of steady saves_all unchanged_post known (map unchanged_post (flatten chunks)) in
    (r.1 ≡ ok (length new)) × (saved_posts r.0 ≡ new)
run_incremental_fetch-saves_example =
    run_incremental_fetch-saves steady saves_all unchanged_post known (pos 2) chunks
      (refl, (refl, refl)) (omega arith) (inr (refl, inr (refl, inl (refl, refl))))
      (λ page posts. refl)
