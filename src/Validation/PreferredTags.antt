-- ===== src/Validation/PreferredTags.antt =====
-- What preferred tags the server takes.
use e621_feed.Base.{
  ◌≤◌, Bool, false, List, [], ◌∷◌, length, ◌≡◌, ◌≢◌, ◌↔◌, arith, All, contains, eq_iff, nat_eq,
  list_eq, pair_eq,
}
use e621_feed.Base.Results.{ok}
use e621_feed.Base.Text.{Str}
use e621_feed.Validation.Payloads.{
  PreferredTag, check_preferred_tag, tag_key, check_preferred_tags, validate_preferred_tag_payload,
}

module _ {W : Type 0} (weight_ok : W → Bool) (weight_text : W → Str) where
  abbrev pub IsAccepted : PreferredTag W → Type 0
  IsAccepted pt = check_preferred_tag weight_ok weight_text pt ≡ ok tt

  abbrev pub HasOtherKey : Str × Str → PreferredTag W → Type 0
  HasOtherKey k pt = k ≢ tag_key weight_ok weight_text pt

  -- No two entries with one key.
  abbrev pub Distinct : List (PreferredTag W) → Type 0
  Distinct [] = Unit
  Distinct (pt ∷ pts) = All (HasOtherKey (tag_key weight_ok weight_text pt)) pts × Distinct pts

  abbrev IsUnseen : List (Str × Str) → PreferredTag W → Type 0
  IsUnseen seen pt = contains seen (tag_key weight_ok weight_text pt) ≡ false

  IsUnseen-cons :
      (k : Str × Str) (seen : List (Str × Str)) (pts : List (PreferredTag W))
      → All (IsUnseen (k ∷ seen)) pts ↔ (All (HasOtherKey k) pts × All (IsUnseen seen) pts)
  IsUnseen-cons k seen [] = ground arith
  IsUnseen-cons k seen (pt ∷ pts) = ground (
    arith,
    eq_iff k (tag_key weight_ok weight_text pt),
    eq_iff (tag_key weight_ok weight_text pt) k,
    IsUnseen-cons k seen pts,
  )

  check_preferred_tags_iff :
      (seen : List (Str × Str)) (pts : List (PreferredTag W))
      → (check_preferred_tags weight_ok weight_text seen pts ≡ ok tt)
        ↔ (All IsAccepted pts × Distinct pts × All (IsUnseen seen) pts)
  unfolding check_preferred_tags
  check_preferred_tags_iff seen [] = ground arith
  check_preferred_tags_iff seen (pt ∷ pts) =
      let k = tag_key weight_ok weight_text pt in
      ground (arith, IsUnseen-cons k seen pts, check_preferred_tags_iff (k ∷ seen) pts)

  IsUnseen-nil : (pts : List (PreferredTag W)) → All (IsUnseen []) pts
  IsUnseen-nil [] = tt
  IsUnseen-nil (pt ∷ pts) = (ground arith, IsUnseen-nil pts)

  -- A payload of preferred tags is accepted exactly when it has at most fifty, each of them passes
  -- the checks of an entry, and no two of them are the same tag of the same group in whatever case
  -- of letters.
  pub validate_preferred_tag_payload_iff :
      (pts : List (PreferredTag W))
      → (validate_preferred_tag_payload weight_ok weight_text pts ≡ ok tt)
        ↔ ((length pts ≤ 50) × All IsAccepted pts × Distinct pts)
  unfolding validate_preferred_tag_payload
  validate_preferred_tag_payload_iff pts =
      ground (arith, check_preferred_tags_iff [] pts, IsUnseen-nil pts)
