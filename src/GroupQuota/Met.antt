-- ===== src/GroupQuota/Met.antt =====
-- The quota is met, or nothing could be done for it.
use e621_feed.Base.{
  AreDistinct, length, leb, ◌⊎◌, get_elem?-lt, ◌-◌, nat_eq, ℕ, zero, suc, ◌+◌, ◌≤◌, ◌<◌, ◌≡◌, inl,
  inr, true, false, Option, some, none, List, [], ◌∷◌, arith, Bool-cases, get_elem?, nat_eq,
  list_eq, pair_eq, contains, Option-cases, drop, ltb, length, leb, get_elem?-lt,
}
use e621_feed.Base.Text.{Str}
use e621_feed.GroupQuota.{promote, swap, find_fresh, has_new_key, promote}
use e621_feed.GroupQuota.Rounds.{
  Carries, Stays, Inv, find_fresh-some, find_fresh-none, fresh_key, get_elem?-drop,
}
use e621_feed.GroupQuota.Promoted.{promoted_pushed, length-swapped, promoted}

module _ {A : Type 0} (key : A → Option Str) where
  -- The end of the loop, with enough rounds: the quota is met, or no post is fresh, or every place
  -- of the window has a key of its own.
  pub record End (top_k min_distinct : ℕ) (seen : List Str) (posts : List A) : Type 0 where
    pub distinct : AreDistinct seen
    pub stay : (k : Str) → contains seen k ≡ true → Carries key top_k posts k
    pub done :
        (i : ℕ) (post : A)
        → get_elem? posts i ≡ some post
        → (min_distinct ≤ length seen) ⊎ (has_new_key key seen post ≡ false) ⊎ (length seen ≡ top_k)

  forget :
      (top_k : ℕ) (redundant : List ℕ) (posts : List A) (k : Str)
      → Stays key top_k redundant posts k
      → Carries key top_k posts k
  forget top_k redundant posts k (i, post, within, off, at, named) = (i, post, within, at, named)

  met-End :
      (top_k next min_distinct : ℕ) (seen : List Str) (redundant : List ℕ) (posts : List A)
      → Inv key top_k next seen redundant posts
      → min_distinct ≤ length seen
      → End top_k min_distinct seen posts
  met-End top_k next min_distinct seen redundant posts inv enough = record {
    distinct = inv.distinct;
    stay = λ k h. forget top_k redundant posts k (inv.stay k h);
    done = λ i post at. inl enough;
  }

  exhausted-End :
      (top_k next min_distinct : ℕ) (seen : List Str) (redundant : List ℕ) (posts : List A)
      → Inv key top_k next seen redundant posts
      → find_fresh key seen next (drop next posts) ≡ none
      → End top_k min_distinct seen posts
  exhausted-End top_k next min_distinct seen redundant posts inv none_left = record {
    distinct = inv.distinct;
    stay = λ k h. forget top_k redundant posts k (inv.stay k h);
    done = λ i post at. inr (
        inl (elim (Bool-cases (ltb i next)) [
          | inl early ↦ inv.stale i post (ground arith) at
          | inr late ↦
              let back : next + (i - next) ≡ i = ground (arith, late) in
              find_fresh-none key seen (drop next posts) next (i - next) post none_left
                (ground (arith, get_elem?-drop key next (i - next) posts, back, at))
        ]));
  }

  full-End :
      (top_k next min_distinct : ℕ) (seen : List Str) (posts : List A)
      → Inv key top_k next seen [] posts
      → End top_k min_distinct seen posts
  full-End top_k next min_distinct seen posts inv = record {
    distinct = inv.distinct;
    stay = λ k h. forget top_k [] posts k (inv.stay k h);
    done = λ i post at. inr (inr (omega (arith, inv.counted)));
  }

  pub promote-End :
      (rounds top_k next min_distinct : ℕ) (seen : List Str) (redundant : List ℕ) (posts : List A)
      → Inv key top_k next seen redundant posts
      → top_k ≤ length posts
      → min_distinct ≤ rounds + length seen
      → End top_k min_distinct
          (promote key rounds min_distinct next seen redundant posts).1
          (promote key rounds min_distinct next seen redundant posts).0
  unfolding promote
  promote-End zero top_k next min_distinct seen redundant posts inv fits enough =
      met-End top_k next min_distinct seen redundant posts inv (omega (arith, enough))
  promote-End (suc rounds) top_k next min_distinct seen [] posts inv fits enough =
      elim (Bool-cases (leb min_distinct (length seen))) [
        | inl met ↦ rw met (met-End top_k next min_distinct seen [] posts inv (ground arith))
        | inr short ↦ elim (Option-cases (find_fresh key seen next (drop next posts))) [
          | inl none_left ↦ rw (short, none_left) (full-End top_k next min_distinct seen posts inv)
          | inr (j, found) ↦ rw (short, found) (full-End top_k next min_distinct seen posts inv)
        ]
      ]
  promote-End (suc rounds) top_k next min_distinct seen (slot ∷ rest) posts inv fits enough =
      elim (Bool-cases (leb min_distinct (length seen))) [
        | inl met ↦
            rw met (met-End top_k next min_distinct seen (slot ∷ rest) posts inv (ground arith))
        | inr short ↦ elim (Option-cases (find_fresh key seen next (drop next posts))) [
          | inl none_left ↦
              rw (short, none_left)
                (exhausted-End top_k next min_distinct seen (slot ∷ rest) posts inv none_left)
          | inr (j, found) ↦
              let (n, post, at_j, at, fresh, before) =
                find_fresh-some key seen (drop next posts) next j found in
              let (k, named, new) = fresh_key key seen post fresh in
              let (old, at_slot) = get_elem?-lt posts slot (omega (arith, inv.slots.0, fits)) in
              let here : get_elem? posts (next + n) ≡ some post =
                ground (arith, get_elem?-drop key next n posts, at) in
              let earlier : (m : ℕ) (other : A)
                  → m < n
                  → get_elem? posts (next + m) ≡ some other
                  → has_new_key key seen other ≡ false =
                λ m other lt h.
                  before m other lt (ground (arith, get_elem?-drop key next m posts, h)) in
              rw
                (
                  short,
                  found,
                  at_j,
                  promoted_pushed key top_k next n slot seen rest posts post old k inv here named
                      new at_slot earlier,
                )
                (promote-End rounds top_k (next + n + 1) min_distinct (k ∷ seen) rest
                  (swap key slot (next + n) posts)
                  (promoted key top_k next n slot seen rest posts post old k inv here named new
                    at_slot earlier)
                  (omega (
                    arith,
                    fits,
                    length-swapped key top_k next n slot seen rest posts post old k inv here named
                        new at_slot earlier,
                  ))
                  (omega (arith, enough)))
        ]
      ]
