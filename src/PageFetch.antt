-- ===== src/PageFetch.antt =====
-- parser-api/src/utils/page_fetch.rs: the pages of a favourites listing, one request at a time.
-- `fetch` answers for a page number; the pages that are asked for are listed with the result.
pub mod Listing
use e621_feed.Base.{ℕ, zero, suc, List, [], ◌∷◌}
use e621_feed.Base.Results.{Result, ok, err}

module _ {T E : Type 0} (fetch : ℕ → Result E (List T)) where
  abbrev pub with_batch : List T → Result E (List (List T)) → Result E (List (List T))
  with_batch batch (ok batches) = ok (batch ∷ batches)
  with_batch batch (err e) = err e

  -- The loop from `page`, with so many pages left.
  unfoldable pub fetch_from : ℕ → ℕ → List ℕ × Result E (List (List T))
  fetch_from zero page = ([], ok [])
  fetch_from (suc left) page = elim (fetch page) [
    | err e ↦ (page ∷ [], err e)
    | ok [] ↦ (page ∷ [], ok [])
    | ok (x ∷ xs) ↦
        let rest = fetch_from left (suc page) in (page ∷ rest.0, with_batch (x ∷ xs) rest.1)
  ]

  unfoldable pub fetch_pages : ℕ → List ℕ × Result E (List (List T))
  unfolding fetch_from
  fetch_pages pages = fetch_from pages 1
