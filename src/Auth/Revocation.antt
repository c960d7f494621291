-- ===== src/Auth/Revocation.antt =====
-- A token that was logged out is refused.
use e621_feed.Base.{
  ℕ, ◌≤◌, ◌≡◌, refl, Bool, true, false, some, none, List, [], ◌∷◌, arith, eq_refl, nat_eq, list_eq,
  pair_eq, contains, lookup, IsMap, lookup-insert,
}
use e621_feed.Base.Text.{Str}
use e621_feed.Validation.Fields.{validate_owner_token}
use e621_feed.Auth.{
  guard_token, build_owner_cookie_clear, Denylist, Request, revoke, revoke_token_in_db,
  prune_and_reload, reload_revocation_set, store_revocation_set, load_all_revoked_tokens,
  is_revoked, from_request, csrf_origin_is_allowed, build_owner_cookie_clear, guard_token, ok,
  build_owner_cookie,
}

-- No token has two rows, and one that has a row is refused: from the mirror, or since the lock is
-- poisoned.
pub record IsMirrored (d : Denylist) : Type 0 where
  pub is_map : IsMap d.rows
  pub mirrors : (t : Str) (at : ℕ) → lookup t d.rows ≡ some at → is_revoked d t ≡ true

-- A step of the program after the start: a logout, a step of the pruner, and a reload.
pub data Op : Type 0 where
  revokes : Str → ℕ → Op
  prunes : ℕ → Op
  reloads : Op

unfoldable pub step : Denylist → Op → Denylist
step d (revokes t now) = (revoke d t now).0
step d (prunes now) = prune_and_reload d now
step d reloads = reload_revocation_set d

unfoldable pub run : Denylist → List Op → Denylist
run d [] = d
run d (op ∷ ops) = run (step d op) ops

-- The pruner does not run after the time.
abbrev pub PrunesBy : ℕ → Op → Type 0
PrunesBy limit (prunes now) = now ≤ limit
PrunesBy limit _ = Unit

loaded_lacks :
    (t : Str) (rows : List (Str × ℕ))
    → lookup t rows ≡ none
    → contains (load_all_revoked_tokens rows) t ≡ false
unfolding load_all_revoked_tokens lookup
loaded_lacks t [] h = refl
loaded_lacks t ((u, b) ∷ rows) h = ground (arith, loaded_lacks t rows)

from_request_sent :
    (debug : Bool) (d : Denylist) (req : Request) (token : Str)
    → req.owner_token ≡ some token
    → from_request debug d req ≡ guard_token debug d req token
unfolding from_request
from_request_sent debug d req token sent = rw (from_request, sent)

guard_token_admits :
    (debug : Bool) (d : Denylist) (req : Request) (token : Str)
    → validate_owner_token token ≡ ok tt
    → csrf_origin_is_allowed debug req ≡ true
    → is_revoked d token ≡ false
    → ((guard_token debug d req token).outcome ≡ ok token)
      × ((guard_token debug d req token).cookies ≡ build_owner_cookie debug token ∷ [])
unfolding guard_token
guard_token_admits debug d req token good local kept =
    (ground (arith, good, local, kept), ground (arith, good, local, kept))

reload_forgets :
    (d : Denylist) (set : List Str) (token : Str) (now : ℕ)
    → d.hot ≡ some set
    → lookup token d.rows ≡ none
    → let tokens = load_all_revoked_tokens d.rows in
      let after = store_revocation_set (revoke d token now).0 tokens in
      (lookup token after.rows ≡ some now) × (is_revoked after token ≡ false)
unfolding revoke revoke_token_in_db store_revocation_set is_revoked
reload_forgets d set token now known absent = ground (
  arith,
  known,
  absent,
  lookup-insert token token now d.rows,
  eq_refl token,
  loaded_lacks token d.rows absent,
)

-- A logout between the two halves of a reload is lost from the mirror: its row is there, and yet a
-- request with the token, when the token is well formed and its origin allowed, is admitted, and its
-- cookie renewed.
pub reload_loses :
    (debug : Bool) (d : Denylist) (req : Request) (set : List Str) (token : Str) (now : ℕ)
    → d.hot ≡ some set
    → lookup token d.rows ≡ none
    → req.owner_token ≡ some token
    → validate_owner_token token ≡ ok tt
    → csrf_origin_is_allowed debug req ≡ true
    → let tokens = load_all_revoked_tokens d.rows in
      let after = store_revocation_set (revoke d token now).0 tokens in
      (lookup token after.rows ≡ some now)
      × ((from_request debug after req).outcome ≡ ok token)
      × ((from_request debug after req).cookies ≡ build_owner_cookie debug token ∷ [])
reload_loses debug d req set token now known absent sent good local =
    let (row, lost) = reload_forgets d set token now known absent in
    let after = store_revocation_set (revoke d token now).0 (load_all_revoked_tokens d.rows) in
    let (outcome, cookies) = guard_token_admits debug after req token good local lost in
    (
      row,
      rw (from_request_sent debug after req token sent) outcome,
      rw (from_request_sent debug after req token sent) cookies,
    )
