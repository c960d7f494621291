-- ===== src/GroupQuota/Rounds.antt =====
-- The rounds of the quota: what holds between two of them, and what the search tells.
use e621_feed.Base.{
  AreDistinct, length, ap, ◌∙◌, eq_refl, nat_eq, ℕ, zero, suc, ◌+◌, ◌≤◌, ◌<◌, ◌≡◌, refl, inl, inr,
  true, false, Option, some, none, List, [], ◌∷◌, arith, nat_beq, if◌then◌else◌, Bool-cases,
  get_elem?-set, get_elem?, set, nat_eq, list_eq, pair_eq, contains, Option-cases, drop, length,
}
use e621_feed.Base.Text.{Str}
use e621_feed.GroupQuota.{swap, find_fresh, has_new_key}

module _ {A : Type 0} (key : A → Option Str) where
  -- A key of the list is carried by a post in the first `top_k` places.
  abbrev pub Carries : ℕ → List A → Str → Type 0
  Carries top_k posts k =
      (i : ℕ) × (post : A) × (i < top_k) × (get_elem? posts i ≡ some post) × (key post ≡ some k)

  -- The same, in a place that is not on the stack.
  abbrev pub Stays : ℕ → List ℕ → List A → Str → Type 0
  Stays top_k redundant posts k =
      (i : ℕ) × (post : A) × (i < top_k)
      × (contains redundant i ≡ false)
      × (get_elem? posts i ≡ some post)
      × (key post ≡ some k)

  -- The places on the stack, each once, are in the window.
  abbrev pub AreSlots : ℕ → List ℕ → Type 0
  AreSlots top_k [] = Unit
  AreSlots top_k (s ∷ ss) = (s < top_k) × (contains ss s ≡ false) × AreSlots top_k ss

  -- Between two rounds: the keys differ and stay in the window, and no post before `next` is fresh.
  pub record Inv (top_k next : ℕ) (seen : List Str) (redundant : List ℕ) (posts : List A)
      : Type 0 where
    pub distinct : AreDistinct seen
    pub stay : (k : Str) → contains seen k ≡ true → Stays top_k redundant posts k
    pub slots : AreSlots top_k redundant
    pub stale :
        (i : ℕ) (post : A)
        → i < next
        → get_elem? posts i ≡ some post
        → has_new_key key seen post ≡ false
    pub past : top_k ≤ next
    pub counted : length seen + length redundant ≡ top_k

  pub get_elem?-swap :
      (i j k : ℕ) (posts : List A) (a b : A)
      → get_elem? posts i ≡ some a
      → get_elem? posts j ≡ some b
      → get_elem? (swap key i j posts) k
        ≡ (if nat_beq j k then some a else if nat_beq i k then some b else get_elem? posts k)
  unfolding swap
  get_elem?-swap i j k posts a b at_i at_j = ground (
    arith,
    at_i,
    at_j,
    get_elem?-set posts i k a b at_i,
    get_elem?-set posts i j a b at_i,
    get_elem?-set (set posts i b) j k b a,
  )

  before_suc :
      (seen : List Str) (x : A) (posts : List A) (n : ℕ)
      → has_new_key key seen x ≡ false
      → ((m : ℕ) (other : A)
          → m < n
          → get_elem? posts m ≡ some other
          → has_new_key key seen other ≡ false)
      → (m : ℕ) (other : A) → m < suc n
      → get_elem? (x ∷ posts) m ≡ some other
      → has_new_key key seen other ≡ false
  before_suc seen x posts n stale before zero other lt at = ground (arith, stale, at)
  before_suc seen x posts n stale before (suc m) other lt at = before m other (omega arith) at

  -- What `find` tells: where the first fresh post is, and that none before it is.
  pub find_fresh-some :
      (seen : List Str) (posts : List A) (from j : ℕ)
      → find_fresh key seen from posts ≡ some j
      → (n : ℕ) × (post : A) × (j ≡ from + n)
        × (get_elem? posts n ≡ some post)
        × (has_new_key key seen post ≡ true)
        × ((m : ℕ) (other : A)
            → m < n
            → get_elem? posts m ≡ some other
            → has_new_key key seen other ≡ false)
  unfolding find_fresh
  find_fresh-some seen [] from j h = ground (arith, h)
  find_fresh-some seen (x ∷ posts) from j h = elim (Bool-cases (has_new_key key seen x)) [
    | inl fresh ↦
        (0, x, ground (arith, fresh, h), refl, fresh, λ m other lt at. absurd (omega arith))
    | inr stale ↦
        let (n, post, at, found, fresh, before) =
          find_fresh-some seen posts (from + 1) j (ground (arith, stale, h)) in
        (suc n, post, omega arith, found, fresh, before_suc seen x posts n stale before)
  ]

  pub find_fresh-none :
      (seen : List Str) (posts : List A) (from m : ℕ) (other : A)
      → find_fresh key seen from posts ≡ none
      → get_elem? posts m ≡ some other
      → has_new_key key seen other ≡ false
  unfolding find_fresh
  find_fresh-none seen [] from m other h at = ground arith
  find_fresh-none seen (x ∷ posts) from zero other h at = ground (arith, h, at)
  find_fresh-none seen (x ∷ posts) from (suc m) other h at =
      ground (arith, h, find_fresh-none seen posts (from + 1) m other)

  pub fresh_key :
      (seen : List Str) (post : A)
      → has_new_key key seen post ≡ true
      → (k : Str) × (key post ≡ some k) × (contains seen k ≡ false)
  fresh_key seen post h = elim (Option-cases (key post)) [
    | inl no_key ↦ ground (arith, no_key, h)
    | inr (k, named) ↦ (k, named, ground (arith, named, h))
  ]

  pub stale_push :
      (k : Str) (seen : List Str) (post : A)
      → has_new_key key seen post ≡ false
      → has_new_key key (k ∷ seen) post ≡ false
  stale_push k seen post h = elim (Option-cases (key post)) [
    | inl no_key ↦ ground (arith, no_key)
    | inr (name, named) ↦ ground (arith, named, h)
  ]

  pub pushed_stale :
      (k : Str) (seen : List Str) (post : A)
      → key post ≡ some k
      → has_new_key key (k ∷ seen) post ≡ false
  pushed_stale k seen post named = ground (arith, named, eq_refl k)

  pub get_elem?-drop : (n m : ℕ) (xs : List A) → get_elem? (drop n xs) m ≡ get_elem? xs (n + m)
  get_elem?-drop zero m xs = ground arith
  get_elem?-drop (suc n) m [] = ground arith
  get_elem?-drop (suc n) m (x ∷ xs) =
      let next : suc (n + m) ≡ suc n + m = omega arith in
      get_elem?-drop n m xs ∙ ap (get_elem? (x ∷ xs)) next
