-- ===== src/GroupQuota/Promoted.antt =====
-- One round: a post below the window takes the place of one that repeats a key.
use e621_feed.Base.{
  length-set, length, ◌==◌, ◌-◌, nat_eq, ℕ, ◌+◌, ◌<◌, ◌≡◌, inl, inr, true, false, Option, some,
  List, ◌∷◌, arith, nat_beq, if◌then◌else◌, Bool-cases, get_elem?, set, nat_eq, list_eq, pair_eq,
  contains, ltb, eq_iff, length,
}
use e621_feed.Base.Text.{Str}
use e621_feed.GroupQuota.{push_key, swap, has_new_key}
use e621_feed.GroupQuota.Rounds.{Stays, Inv, get_elem?-swap, stale_push, pushed_stale}

module _ {A : Type 0} (key : A → Option Str) where
  -- One promotion.
  module _ (top_k next n k_slot : ℕ) (seen : List Str) (rest : List ℕ) (posts : List A)
      (post old : A) (k : Str) (inv : Inv key top_k next seen (k_slot ∷ rest) posts)
      (at : get_elem? posts (next + n) ≡ some post) (named : key post ≡ some k)
      (new : contains seen k ≡ false) (at_slot : get_elem? posts k_slot ≡ some old)
      (before : (m : ℕ) (other : A)
        → m < n
        → get_elem? posts (next + m) ≡ some other
        → has_new_key key seen other ≡ false) where
    abbrev pub swapped : List A
    swapped = swap key k_slot (next + n) posts

    swapped_at :
        (i : ℕ)
        → get_elem? swapped i ≡ (
            if nat_beq (next + n) i
            then some old
            else if nat_beq k_slot i
            then some post
            else get_elem? posts i)
    swapped_at i = get_elem?-swap key k_slot (next + n) i posts old post at_slot at

    promoted_stay :
        (name : Str) → contains (k ∷ seen) name ≡ true → Stays key top_k rest swapped name
    promoted_stay name h = elim (Bool-cases (k == name)) [
      | inl same ↦ (
        k_slot,
        post,
        inv.slots.0,
        inv.slots.1,
        ground (arith, swapped_at k_slot, inv.slots.0, inv.past),
        ground (arith, named, eq_iff k name),
      )
      | inr other ↦
          let (i, p, within, off, found, carries) = inv.stay name (ground (arith, other, h)) in
          (
            i,
            p,
            within,
            ground (arith, off),
            ground (arith, swapped_at i, off, found, within, inv.past),
            carries,
          )
    ]

    promoted_stale :
        (i : ℕ) (p : A)
        → i < next + n + 1
        → get_elem? swapped i ≡ some p
        → has_new_key key (k ∷ seen) p ≡ false
    promoted_stale i p lt found = elim (Bool-cases (nat_beq (next + n) i)) [
      | inl at_j ↦ stale_push key k seen p (
          inv.stale k_slot p (omega (arith, inv.slots.0, inv.past))
            (ground (arith, swapped_at i, found, at_j, at_slot)))
      | inr off_j ↦ elim (Bool-cases (nat_beq k_slot i)) [
        | inl at_s ↦
            pushed_stale key k seen p (ground (arith, swapped_at i, found, off_j, at_s, named))
        | inr off_s ↦ elim (Bool-cases (ltb i next)) [
          | inl early ↦
              stale_push key k seen p
                (inv.stale i p (ground arith) (ground (arith, swapped_at i, found, off_j, off_s)))
          | inr late ↦
              let back : next + (i - next) ≡ i = ground (arith, late) in
              stale_push key k seen p (
                before (i - next) p (ground arith)
                  (ground (arith, swapped_at i, found, off_j, off_s, back)))
        ]
      ]
    ]

    pub promoted_pushed : push_key key (get_elem? swapped k_slot) seen ≡ k ∷ seen
    promoted_pushed = ground (arith, swapped_at k_slot, inv.slots.0, inv.past, named)

    pub length-swapped : length swapped ≡ length posts
    unfolding swap
    length-swapped = ground (
      arith,
      at,
      at_slot,
      length-set (set posts k_slot post) (next + n) old,
      length-set posts k_slot post,
    )

    pub promoted : Inv key top_k (next + n + 1) (k ∷ seen) rest swapped
    promoted = record {
      distinct = (new, inv.distinct);
      stay = promoted_stay;
      slots = inv.slots.2;
      stale = promoted_stale;
      past = omega (arith, inv.past);
      counted = omega (arith, inv.counted);
    }
