-- ===== src/Validation/Payloads.antt =====
-- The checks of whole payloads. A weight is an f32, whose test and text are arguments.
use e621_feed.Base.{
  ℕ, ltb, nat_beq, Bool, not, ◌||◌, List, [], ◌∷◌, ◌++◌, all, length, contains, nat_eq, list_eq,
  pair_eq, Option, some, none, if◌then◌else◌,
}
use e621_feed.Base.Int.{ℤ}
use e621_feed.Base.Results.{ok, ◌>>◌}
use e621_feed.Base.Text.{
  Str, codes, byte_len, is_ascii_lowercase, is_ascii_digit, trim, is_empty, decimal,
  to_ascii_lowercase,
}
use e621_feed.Validation.{Check, reject_if}
use e621_feed.Validation.Fields.{validate_account_id, validate_account_name, validate_e621_api_key}
use e621_feed.Validation.BlacklistText.{validate_blacklist_text}

pub record DeviceScopedAccount : Type 0 where
  pub id : ℤ
  pub name : Str
  pub blacklist : Option Str
  pub api_key : Option Str

-- `if let Some(x) = .. { check(x)?; }`.
abbrev pub check_some : (Str → Check) → Option Str → Check
check_some check none = ok tt
check_some check (some s) = check s

abbrev pub check_key : Str → Check
check_key k = if is_empty (trim k) then ok tt else validate_e621_api_key k

unfoldable pub validate_device_scoped_account : DeviceScopedAccount → Check
validate_device_scoped_account acc =
    validate_account_id acc.id
    >> validate_account_name acc.name
    >> check_some validate_blacklist_text acc.blacklist
    >> check_some check_key acc.api_key

-- The payload is its one field.
unfoldable pub validate_blacklist_payload : Option Str → Check
validate_blacklist_payload blacklist = check_some validate_blacklist_text blacklist

-- What the check of an interaction reads.
pub record FeedInteraction : Type 0 where
  pub account_id : ℤ
  pub session_id : Str

unfoldable pub validate_feed_interaction : FeedInteraction → Check
validate_feed_interaction req =
    validate_account_id req.account_id
    >> reject_if (ltb 128 (byte_len req.session_id)) (
        codes "session_id too long ("
        ++ (decimal (byte_len req.session_id) ++ codes " chars, max 128)"))

unfoldable pub check_interactions : List FeedInteraction → Check
check_interactions [] = ok tt
check_interactions (i ∷ is) = validate_feed_interaction i >> check_interactions is

unfoldable pub validate_batch_interaction : List FeedInteraction → Check
unfolding check_interactions
validate_batch_interaction interactions =
    reject_if (nat_beq (length interactions) 0) (codes "batch must contain at least 1 interaction")
    >> reject_if (ltb 100 (length interactions)) (codes "batch max 100 interactions per request")
    >> check_interactions interactions

abbrev pub valid_tag_groups : List Str
valid_tag_groups =
    codes "artist"
    ∷ codes "character"
    ∷ codes "copyright"
    ∷ codes "general"
    ∷ codes "lore"
    ∷ codes "meta"
    ∷ codes "species"
    ∷ []

unfoldable pub is_tag_char : ℕ → Bool
unfolding is_ascii_lowercase is_ascii_digit
is_tag_char c = is_ascii_lowercase c || is_ascii_digit c || nat_beq c b'_'

pub record PreferredTag (W : Type 0) : Type 0 where
  pub tag : Str
  pub group : Str
  pub weight : W

module _ {W : Type 0} (weight_ok : W → Bool) (weight_text : W → Str) where
  -- The checks of one entry before its key.
  unfoldable pub check_preferred_tag : PreferredTag W → Check
  check_preferred_tag pt =
      let trimmed = trim pt.tag in
      let group_trimmed = trim pt.group in
      reject_if (is_empty trimmed) (codes "tag name must not be empty")
      >> reject_if (ltb 64 (byte_len trimmed)) (codes "tag name too long (max 64 chars)")
      >> reject_if (not (all is_tag_char trimmed))
          (codes "tag '" ++ (trimmed ++ codes "' must be a plain lowercase tag name "))
      >> reject_if (not (weight_ok pt.weight))
          (codes "weight " ++ (weight_text pt.weight ++ codes " out of range [0.1, 10.0]"))
      >> reject_if (is_empty group_trimmed) (codes "group must not be empty")
      >> reject_if (not (contains valid_tag_groups (to_ascii_lowercase group_trimmed))) (
          codes "group '"
          ++ (group_trimmed
              ++ codes
                  "' not one of [\"artist\", \"character\", \"copyright\", \"general\", \"lore\", \"meta\", \"species\"]"))

  -- The key by which an entry repeats another.
  abbrev pub tag_key : PreferredTag W → Str × Str
  tag_key pt = (to_ascii_lowercase (trim pt.tag), to_ascii_lowercase (trim pt.group))

  unfoldable pub check_preferred_tags : List (Str × Str) → List (PreferredTag W) → Check
  check_preferred_tags seen [] = ok tt
  check_preferred_tags seen (pt ∷ pts) =
      check_preferred_tag pt
      >> reject_if (contains seen (tag_key pt)) (
          codes "duplicate preferred tag: "
          ++ (trim pt.tag ++ (codes " (" ++ (trim pt.group ++ codes ")"))))
      >> check_preferred_tags (tag_key pt ∷ seen) pts

  unfoldable pub validate_preferred_tag_payload : List (PreferredTag W) → Check
  unfolding check_preferred_tags
  validate_preferred_tag_payload preferred_tags =
      reject_if (ltb 50 (length preferred_tags)) (codes "max 50 preferred tags per account")
      >> check_preferred_tags [] preferred_tags
