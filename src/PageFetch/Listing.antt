-- ===== src/PageFetch/Listing.antt =====
-- What a fetched listing is.
use e621_feed.Base.{
  ℕ, zero, suc, ◌+◌, ◌<◌, List, [], ◌∷◌, length, ◌≡◌, refl, ◌≢◌, ◌⊎◌, inl, inr, arith,
}
use mathlib.Core.Path.{ap}
use e621_feed.Base.Results.{Result, ok, err}
use e621_feed.PageFetch.{with_batch, fetch_from, fetch_pages}

-- The numbers from `page`, so many of them.
abbrev pub from : ℕ → ℕ → List ℕ
from zero page = []
from (suc n) page = page ∷ from n (suc page)

module _ {T E : Type 0} (fetch : ℕ → Result E (List T)) where
  -- The batches are the answers from `page`, none of them empty.
  abbrev pub AreAnswers : ℕ → List (List T) → Type 0
  AreAnswers page [] = Unit
  AreAnswers page (b ∷ bs) = (fetch page ≡ ok b) × (b ≢ []) × AreAnswers (suc page) bs

  -- Why the loop stopped with `left` pages to go: it got them all, or an empty page, or an error
  -- after answers that were not empty; and it asked for no page past the one that stopped it.
  abbrev pub Stops : ℕ → ℕ → List ℕ × Result E (List (List T)) → Type 0
  Stops left page (asked, ok bs) =
      AreAnswers page bs
      × (((length bs ≡ left) × (asked ≡ from left page))
          ⊎ ((length bs < left)
              × (fetch (page + length bs) ≡ ok [])
              × (asked ≡ from (suc (length bs)) page)))
  Stops left page (asked, err e) =
      (bs : List (List T)) × AreAnswers page bs
      × (length bs < left)
      × (fetch (page + length bs) ≡ err e)
      × (asked ≡ from (suc (length bs)) page)

  by_rest :
      (left page : ℕ) (x : T) (xs : List T) (rest : List ℕ × Result E (List (List T)))
      → fetch page ≡ ok (x ∷ xs)
      → Stops left (suc page) rest
      → Stops (suc left) page (page ∷ rest.0, with_batch fetch (x ∷ xs) rest.1)
  by_rest left page x xs (asked, ok bs) e (answers, inl (l, a)) =
      ((e, ground arith, answers), inl (omega (arith, l), ap (λ r. page ∷ r) a))
  by_rest left page x xs (asked, ok bs) e (answers, inr (l, z, a)) =
      ((e, ground arith, answers), inr (omega (arith, l), ground (arith, z), ap (λ r. page ∷ r) a))
  by_rest left page x xs (asked, err b) e (bs, answers, l, z, a) = (
    (x ∷ xs) ∷ bs,
    (e, ground arith, answers),
    omega (arith, l),
    ground (arith, z),
    ap (λ r. page ∷ r) a,
  )

  by_answer :
      (left page : ℕ) (r : Result E (List T)) (rest : List ℕ × Result E (List (List T)))
      → fetch page ≡ r
      → Stops left (suc page) rest
      → Stops (suc left) page (elim r [
        | err e ↦ (page ∷ [], err e)
        | ok [] ↦ (page ∷ [], ok [])
        | ok (x ∷ xs) ↦ (page ∷ rest.0, with_batch fetch (x ∷ xs) rest.1)
      ])
  by_answer left page (err e) rest h k = ([], tt, omega arith, ground arith, refl)
  by_answer left page (ok []) rest h k = (tt, inr (omega arith, ground arith, refl))
  by_answer left page (ok (x ∷ xs)) rest h k = by_rest left page x xs rest h k

  fetch_from-Stops : (left page : ℕ) → Stops left page (fetch_from fetch left page)
  unfolding fetch_from
  fetch_from-Stops zero page = (tt, inl (refl, refl))
  fetch_from-Stops (suc left) page =
      by_answer left page (fetch page) (fetch_from fetch left (suc page)) refl
        (fetch_from-Stops left (suc page))

  -- A fetch of so many pages returns the answers from page 1 on, none of them empty, and has
  -- either all the pages or stopped at an empty one; or it returns the first error, all answers
  -- before it being non-empty. It asks for the pages in order, once each, up to the one that
  -- stopped it.
  pub fetch_pages-Stops : (pages : ℕ) → Stops pages 1 (fetch_pages fetch pages)
  unfolding fetch_pages
  fetch_pages-Stops pages = fetch_from-Stops pages 1
