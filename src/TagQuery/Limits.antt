-- ===== src/TagQuery/Limits.antt =====
-- e621 refuses a query of more than 40 tags: no query has more.
use e621_feed.Base.{
  ℕ, ◌+◌, ◌-◌, ◌≤◌, min, ◌≡◌, refl, List, [], ◌∷◌, ◌++◌, map, arith, if◌then◌else◌, length, take,
  length-take, ◌==◌, nat_eq, list_eq, pair_eq,
}
use e621_feed.Base.Text.{Str, codes}
use e621_feed.TagQuery.{
  Term, single, group, Gathered, TagQueryBudget, pick, pick_required, pick_negatives, group_of,
  clamped, sort_unstable,
}

-- How many tags e621 counts.
abbrev pub weight : Term → ℕ
weight (single s) = 1
weight (group tags) = length tags

abbrev pub weights : List Term → ℕ
weights [] = 0
weights (t ∷ ts) = weight t + weights ts

weights-append : (xs ys : List Term) → weights (xs ++ ys) ≡ weights xs + weights ys
weights-append [] ys = omega arith
weights-append (x ∷ xs) ys = omega (arith, weights-append xs ys)

weights-singles : (xs : List Str) → weights (map single xs) ≡ length xs
weights-singles [] = refl
weights-singles (x ∷ xs) = omega (arith, weights-singles xs)

length-map {ℓ κ} :
    {A : Type ℓ} {B : Type κ} (f : A → B) (xs : List A) → length (map f xs) ≡ length xs
length-map f [] = refl
length-map f (x ∷ xs) = omega (arith, length-map f xs)

pick_required-used :
    (limit used : ℕ) (tags : List Str)
    → used ≤ limit
    → (weights (pick_required limit used tags).0 + used ≡ (pick_required limit used tags).1)
      × ((pick_required limit used tags).1 ≤ limit)
unfolding pick_required
pick_required-used limit used [] h = (omega arith, h)
pick_required-used limit used (tag ∷ tags) h =
    ground (arith, pick_required-used limit (used + 1) tags)

weights-pick_negatives :
    (limit cap used excluded : ℕ) (ts : List Str)
    → used ≤ limit
    → excluded ≤ cap
    → (weights (pick_negatives limit cap used excluded ts) + used ≤ limit)
      × (weights (pick_negatives limit cap used excluded ts) + excluded ≤ cap)
unfolding pick_negatives
weights-pick_negatives limit cap used excluded [] h k = (omega arith, omega arith)
weights-pick_negatives limit cap used excluded (t ∷ ts) h k =
    ground (arith, weights-pick_negatives limit cap (used + 1) (excluded + 1) ts)

weights-group_of : (n : ℕ) (boosts : List Str) → n ≤ length boosts → weights (group_of n boosts) ≡ n
weights-group_of n boosts h = ground (arith, length-take n boosts)

-- Whatever the search, the blacklist, the boosted tags and the settings: the picked terms are at
-- most as many tags as the limit of the budget, raised to 1 and lowered to 40.
pub weights-pick :
    (g : Gathered) (budget : TagQueryBudget) → weights (pick g budget) ≤ clamped budget.limit
unfolding pick
weights-pick g budget =
    let limit : ℕ = clamped budget.limit in
    let positives : List Str = take limit (sort_unstable g.positives) in
    let boosts : List Str = map (λ tail. codes "~" ++ tail) g.boosts in
    let n : ℕ = min (min budget.boost (length boosts)) (limit - length positives) in
    let r : List Term × ℕ = pick_required limit (length positives + n) (sort_unstable g.required) in
    let cap : ℕ = if budget.blacklist == 0 then limit else budget.blacklist in
    let negatives : List Str = sort_unstable (map (λ tail. codes "-" ++ tail) g.negatives) in
    let last : List Term = pick_negatives limit cap r.1 0 negatives in
    omega (
      arith,
      weights-append (map single positives) (group_of n boosts ++ (r.0 ++ last)),
      weights-append (group_of n boosts) (r.0 ++ last),
      weights-append r.0 last,
      weights-singles positives,
      length-take limit (sort_unstable g.positives),
      weights-group_of n boosts (omega arith),
      pick_required-used limit (length positives + n) (sort_unstable g.required)
          (omega (arith, length-take limit (sort_unstable g.positives))),
      weights-pick_negatives limit cap r.1 0 negatives
          (pick_required-used limit (length positives + n) (sort_unstable g.required)
            (omega (arith, length-take limit (sort_unstable g.positives)))).1
          (omega arith),
    )
