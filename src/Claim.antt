-- ===== src/Claim.antt =====
-- parser-api/src/db/instance.rs: who owns the instance. The table `instance_ownership` holds at
-- most the row with id 1 (its CHECK), so a database is the optional row, and the database's own
-- failures are not modelled.
pub mod Owner
use e621_feed.Base.{Bool, true, false, ◌==◌, Option, some, none, if◌then◌else◌, nat_eq, list_eq, ℕ}
use e621_feed.Base.Text.{Str, codes}

pub data ClaimMethod : Type 0 where
  bootstrap secret : ClaimMethod

pub data ClaimOutcome : Type 0 where
  claimed already_owned transferred refused : ClaimOutcome

pub record InstanceClaim : Type 0 where
  pub owner_token : Str
  pub claimed_at : Str
  pub claim_method : Str

unfoldable pub method_as_str : ClaimMethod → Str
method_as_str bootstrap = codes "bootstrap"
method_as_str secret = codes "secret"

unfoldable pub outcome_as_str : ClaimOutcome → Str
outcome_as_str claimed = codes "claimed"
outcome_as_str already_owned = codes "already-owned"
outcome_as_str transferred = codes "transferred"
outcome_as_str refused = codes "refused"

abbrev pub Ownership : Type 0
Ownership = Option InstanceClaim

unfoldable pub is_instance_owner_conn : Ownership → Str → Bool
is_instance_owner_conn none token = false
is_instance_owner_conn (some c) token = c.owner_token == token

unfoldable pub instance_claim_conn : Ownership → Option InstanceClaim
instance_claim_conn row = row

abbrev pub written : Str → Str → ClaimMethod → InstanceClaim
written token now method = record {
  owner_token = token;
  claimed_at = now;
  claim_method = method_as_str method;
}

unfoldable pub claim_instance_tx : Ownership → Str → ClaimMethod → Str → Ownership × ClaimOutcome
claim_instance_tx none token method now = (some (written token now method), claimed)
claim_instance_tx (some c) token method now =
    if c.owner_token == token then (some c, already_owned) else elim method [
      | bootstrap ↦ (some c, refused)
      | secret ↦ (
        some (record c {
          owner_token = token;
          claimed_at = now;
          claim_method = method_as_str secret;
        }),
        transferred,
      )
    ]
