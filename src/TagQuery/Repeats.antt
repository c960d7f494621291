-- ===== src/TagQuery/Repeats.antt =====
-- No tag is asked for twice, whichever part of the query it came from.
use e621_feed.Base.{
  AreDistinct, ◌≡◌, refl, subst, inl, inr, Bool, true, false, not, ◌&&◌, ◌||◌, List, [], ◌∷◌, ◌++◌,
  map, arith, Bool-cases, any, eq_iff, nat_eq, list_eq, pair_eq, contains,
}
use mathlib.Core.List.{append-nil}
use e621_feed.Base.Text.{
  Str, trim, is_empty, split_whitespace, trim_start_matches, to_ascii_lowercase,
}
use e621_feed.Blacklist.{is_dash}
use e621_feed.Blacklist.Terms.{query_terms}
use e621_feed.TagQuery.{admit, gather, is_syntax}

abbrev pub keys : List Str → List Str
keys tags = map to_ascii_lowercase tags

-- Nothing of the list was seen.
abbrev AreNew : List Str → List Str → Type 0
AreNew seen [] = Unit
AreNew seen (x ∷ xs) = (contains seen x ≡ false) × AreNew seen xs

AreNew-tail : (key : Str) (seen xs : List Str) → AreNew (key ∷ seen) xs → AreNew seen xs
AreNew-tail key seen [] h = tt
AreNew-tail key seen (x ∷ xs) h = (ground (arith, h.0), AreNew-tail key seen xs h.1)

-- What was seen is not among what is new.
AreNew-head : (key : Str) (seen xs : List Str) → AreNew (key ∷ seen) xs → contains xs key ≡ false
AreNew-head key seen [] h = refl
AreNew-head key seen (x ∷ xs) h =
    ground (arith, h.0, eq_iff key x, eq_iff x key, AreNew-head key seen xs h.1)

-- A loop keeps tails that were not seen, none twice, and what is new after it stays new beside them.
admit-AreDistinct :
    (skip_empty : Bool) (wanted : Str → Bool) (tails seen more : List Str)
    → AreDistinct more
    → AreNew (admit skip_empty wanted seen tails).0 more
    → AreDistinct (keys (admit skip_empty wanted seen tails).1 ++ more)
      × AreNew seen (keys (admit skip_empty wanted seen tails).1 ++ more)
unfolding admit
admit-AreDistinct skip_empty wanted [] seen more d n = (d, n)
admit-AreDistinct skip_empty wanted (tail ∷ tails) seen more d n =
    let key : Str = to_ascii_lowercase tail in
    elim (Bool-cases ((skip_empty && is_empty tail) || contains seen key)) [
      | inl passed ↦
          rw passed (admit-AreDistinct skip_empty wanted tails seen more d (rw passed at n))
      | inr new ↦
          let ih = admit-AreDistinct skip_empty wanted tails (key ∷ seen) more d (rw new at n) in
          let rest : List Str = keys (admit skip_empty wanted (key ∷ seen) tails).1 ++ more in
          elim (Bool-cases (wanted tail)) [
            | inl kept ↦
                rw (new, kept)
                  (
                    (AreNew-head key seen rest ih.1, ih.0),
                    (ground (arith, new), AreNew-tail key seen rest ih.1),
                  )
            | inr left ↦ rw (new, left) (ih.0, AreNew-tail key seen rest ih.1)
          ]
    ]

-- Searched, boosted, required and excluded tags together have no two that are the same once their
-- ASCII letters are lowered; other letters keep their case.
pub gather-AreDistinct :
    (user_query blacklist : Str) (boost : List Str)
    → let g = gather user_query blacklist boost in
      AreDistinct (keys g.positives ++ (keys g.boosts ++ (keys g.required ++ keys g.negatives)))
unfolding gather
gather-AreDistinct user_query blacklist boost =
    let p =
      admit true (λ _. true) [] (map (trim_start_matches is_dash) (split_whitespace user_query)) in
    let wanted : Str → Bool = λ tail. not (any is_syntax tail) in
    let raws : List Str = map (λ raw. trim_start_matches is_dash (trim raw)) boost in
    let b = admit true wanted p.0 raws in
    let r = admit false (λ _. true) b.0 (query_terms blacklist).required in
    let n = admit true (λ _. true) r.0 (query_terms blacklist).excluded in
    let (d4, n4) =
      admit-AreDistinct true (λ _. true) (query_terms blacklist).excluded r.0 [] tt tt in
    let (d3, n3) =
      admit-AreDistinct false (λ _. true) (query_terms blacklist).required b.0 _ d4 n4 in
    let (d2, n2) = admit-AreDistinct true wanted raws p.0 _ d3 n3 in
    let d1 =
      (admit-AreDistinct true (λ _. true)
        (map (trim_start_matches is_dash) (split_whitespace user_query)) [] _ d2 n2).0 in
    subst (λ l. AreDistinct (keys p.1 ++ (keys b.1 ++ (keys r.1 ++ l)))) (append-nil (keys n.1)) d1
