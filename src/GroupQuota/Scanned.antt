-- ===== src/GroupQuota/Scanned.antt =====
-- The first loop of the quota, and with it the whole.
use e621_feed.Base.{
  ℕ, zero, suc, ◌+◌, ◌≤◌, ◌<◌, ◌≡◌, refl, subst, inl, inr, false, Option, some, List, [], ◌∷◌,
  arith, nat_beq, Bool-cases, Option-cases, length, take, length-take, get_elem?, ◌==◌, eq_iff,
  nat_eq, list_eq, pair_eq, contains,
}
use e621_feed.Base.Text.{Str}
use e621_feed.GroupQuota.{scan, has_new_key, enforce_group_quota}
use e621_feed.GroupQuota.Rounds.{AreSlots, Inv, stale_push, pushed_stale}
use e621_feed.GroupQuota.Met.{End, promote-End}

module _ {A : Type 0} (key : A → Option Str) (posts : List A) where
  slots_absent :
      (i : ℕ) (redundant : List ℕ) → AreSlots key i redundant → contains redundant i ≡ false
  slots_absent i [] h = refl
  slots_absent i (s ∷ ss) h = ground (arith, h.0, slots_absent i ss h.2)

  AreSlots-later :
      (i : ℕ) (redundant : List ℕ) → AreSlots key i redundant → AreSlots key (i + 1) redundant
  AreSlots-later i [] h = tt
  AreSlots-later i (s ∷ ss) h = (omega (arith, h.0), h.1, AreSlots-later i ss h.2)

  -- The window so far, and one post more.
  module _ (i : ℕ) (seen : List Str) (redundant : List ℕ) (x : A)
      (inv : Inv key i i seen redundant posts) (at : get_elem? posts i ≡ some x) where
    no_slot : contains redundant i ≡ false
    no_slot = slots_absent i redundant inv.slots

    scanned_stale :
        (more : List Str)
        → has_new_key key more x ≡ false
        → ((post : A) → has_new_key key seen post ≡ false → has_new_key key more post ≡ false)
        → (j : ℕ) (post : A) → j < i + 1
        → get_elem? posts j ≡ some post
        → has_new_key key more post ≡ false
    scanned_stale more stale mono j post lt found = elim (Bool-cases (nat_beq j i)) [
      | inl same ↦ ground (arith, same, at, found, stale)
      | inr other ↦ mono post (inv.stale j post (ground (arith, other)) found)
    ]

    repeated : has_new_key key seen x ≡ false → Inv key (i + 1) (i + 1) seen (i ∷ redundant) posts
    repeated stale = record {
      distinct = inv.distinct;
      stay = λ k h.
          let (j, post, within, off, found, named) = inv.stay k h in
          (j, post, omega (arith, within), ground (arith, within, off), found, named);
      slots = (omega arith, no_slot, AreSlots-later i redundant inv.slots);
      stale = scanned_stale seen stale (λ post h. h);
      past = omega arith;
      counted = omega (arith, inv.counted);
    }

    first_named :
        (k : Str)
        → key x ≡ some k
        → contains seen k ≡ false
        → Inv key (i + 1) (i + 1) (k ∷ seen) redundant posts
    first_named k named new = record {
      distinct = (new, inv.distinct);
      stay = λ name h. elim (Bool-cases (k == name)) [
        | inl same ↦ (i, x, omega arith, no_slot, at, ground (arith, named, eq_iff k name))
        | inr other ↦
            let (j, post, within, off, found, carries) = inv.stay name (ground (arith, other, h)) in
            (j, post, omega (arith, within), off, found, carries)
      ];
      slots = AreSlots-later i redundant inv.slots;
      stale = scanned_stale (k ∷ seen) (pushed_stale key k seen x named) (stale_push key k seen);
      past = omega arith;
      counted = omega (arith, inv.counted);
    }

  scan-Inv :
      (window : List A) (i : ℕ) (seen : List Str) (redundant : List ℕ)
      → Inv key i i seen redundant posts
      → ((m : ℕ) (post : A) → get_elem? window m ≡ some post → get_elem? posts (i + m) ≡ some post)
      → Inv key
          (i + length window)
          (i + length window)
          (scan key i seen redundant window).0
          (scan key i seen redundant window).1
          posts
  unfolding scan
  scan-Inv [] i seen redundant inv within =
      let here : i ≡ i + 0 = omega arith in subst (λ n. Inv key n n seen redundant posts) here inv
  scan-Inv (x ∷ window) i seen redundant inv within =
      let zeroed : i + 0 ≡ i = omega arith in
      let at : get_elem? posts i ≡ some x =
        subst (λ n. get_elem? posts n ≡ some x) zeroed (within 0 x refl) in
      let reach : i + 1 + length window ≡ i + suc (length window) = omega arith in
      let later : (m : ℕ) (post : A)
          → get_elem? window m ≡ some post
          → get_elem? posts (i + 1 + m) ≡ some post =
        λ m post h.
          let step : i + suc m ≡ i + 1 + m = omega arith in
          subst (λ n. get_elem? posts n ≡ some post) step (within (suc m) post h) in
      elim (Option-cases (key x)) [
        | inl no_key ↦
            rw (scan, no_key)
              (subst
                (λ n.
                  Inv key n n (scan key (i + 1) seen (i ∷ redundant) window).0
                    (scan key (i + 1) seen (i ∷ redundant) window).1 posts)
                reach
                (scan-Inv window (i + 1) seen (i ∷ redundant)
                  (repeated i seen redundant x inv at (ground (arith, no_key))) later))
        | inr (k, named) ↦ elim (Bool-cases (contains seen k)) [
          | inl known ↦
              rw (scan, named, known)
                (subst
                  (λ n.
                    Inv key n n (scan key (i + 1) seen (i ∷ redundant) window).0
                      (scan key (i + 1) seen (i ∷ redundant) window).1 posts)
                  reach
                  (scan-Inv window (i + 1) seen (i ∷ redundant)
                    (repeated i seen redundant x inv at (ground (arith, named, known))) later))
          | inr new ↦
              rw (scan, named, new)
                (subst
                  (λ n.
                    Inv key n n (scan key (i + 1) (k ∷ seen) redundant window).0
                      (scan key (i + 1) (k ∷ seen) redundant window).1 posts)
                  reach
                  (scan-Inv window (i + 1) (k ∷ seen) redundant
                    (first_named i seen redundant x inv at k named new) later))
        ]
      ]

  get_elem?-take :
      (n m : ℕ) (xs : List A) (x : A) → get_elem? (take n xs) m ≡ some x → get_elem? xs m ≡ some x
  get_elem?-take zero m xs x h = ground (arith, h)
  get_elem?-take (suc n) m [] x h = ground (arith, h)
  get_elem?-take (suc n) zero (y ∷ ys) x h = h
  get_elem?-take (suc n) (suc m) (y ∷ ys) x h = get_elem?-take n m ys x h

  scan_start : Inv key 0 0 [] [] posts
  scan_start = record {
    distinct = tt;
    stay = λ k h. absurd (ground (arith, h));
    slots = tt;
    stale = λ i post lt at. absurd (omega (arith, lt));
    past = omega arith;
    counted = refl;
  }

  -- What the quota leaves behind, for posts at least as many as the window has places.
  pub enforce_group_quota-End :
      (top_k min_distinct : ℕ)
      → top_k ≤ length posts
      → End key top_k min_distinct
          (enforce_group_quota key posts top_k min_distinct).1
          (enforce_group_quota key posts top_k min_distinct).0
  unfolding enforce_group_quota
  enforce_group_quota-End top_k min_distinct fits =
      let (seen, redundant) = scan key 0 [] [] (take top_k posts) in
      let full : 0 + length (take top_k posts) ≡ top_k =
        ground (arith, length-take top_k posts, fits) in
      promote-End key min_distinct top_k top_k min_distinct seen redundant posts
        (subst (λ n. Inv key n n seen redundant posts) full
          (scan-Inv (take top_k posts) 0 [] [] scan_start (λ m post h.
            let zeroed : m ≡ 0 + m = omega arith in
            subst (λ n. get_elem? posts n ≡ some post) zeroed
              (get_elem?-take top_k m posts post h))))
        fits (omega arith)
