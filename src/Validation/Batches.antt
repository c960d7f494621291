-- ===== src/Validation/Batches.antt =====
-- The batches that the server takes.
use e621_feed.Base.{◌≤◌, List, [], ◌∷◌, length, ◌≡◌, ◌↔◌, arith, All}
use e621_feed.Base.Int.{pos, ◌≤ℤ◌}
use e621_feed.Base.Results.{ok}
use e621_feed.Base.Text.{byte_len}
use e621_feed.Validation.Payloads.{
  FeedInteraction, validate_feed_interaction, validate_batch_interaction, check_interactions,
}
use e621_feed.Validation.Tokens.{validate_account_id_iff}

abbrev pub IsAcceptable : FeedInteraction → Type 0
IsAcceptable i =
    (pos 1 ≤ℤ i.account_id) × (i.account_id ≤ℤ pos 100_000_000) × (byte_len i.session_id ≤ 128)

validate_feed_interaction_iff :
    (i : FeedInteraction) → (validate_feed_interaction i ≡ ok tt) ↔ IsAcceptable i
unfolding validate_feed_interaction
validate_feed_interaction_iff i = ground (arith, validate_account_id_iff i.account_id)

check_interactions_iff :
    (is : List FeedInteraction) → (check_interactions is ≡ ok tt) ↔ All IsAcceptable is
unfolding check_interactions
check_interactions_iff [] = ground arith
check_interactions_iff (i ∷ is) =
    ground (arith, validate_feed_interaction_iff i, check_interactions_iff is)

-- A batch is accepted exactly when it has 1 to 100 interactions, each of them of a valid account
-- and with a session id of 128 bytes at most.
pub validate_batch_interaction_iff :
    (is : List FeedInteraction)
    → (validate_batch_interaction is ≡ ok tt)
      ↔ ((1 ≤ length is) × (length is ≤ 100) × All IsAcceptable is)
unfolding validate_batch_interaction
validate_batch_interaction_iff is = ground (arith, check_interactions_iff is)
