-- ===== src/Claim/Owner.antt =====
-- Who owns the instance after claims.
use e621_feed.Base.{
  true, false, ◌==◌, Option, some, none, nat_eq, list_eq, eq_iff, eq_refl, List, [], ◌∷◌, arith,
  ◌≡◌, refl, ◌≢◌, Bool-cases, subst, sym, if◌then◌else◌, inl, inr,
}
use e621_feed.Base.Text.{Str}
use e621_feed.Claim.{
  ClaimMethod, bootstrap, secret, ClaimOutcome, claimed, already_owned, transferred, refused,
  Ownership, is_instance_owner_conn, claim_instance_tx, written,
}

-- What an outcome tells the caller, about the state before and after.
abbrev pub Tells : Ownership → Str → ClaimMethod → Ownership × ClaimOutcome → Type 0
Tells row token method (row', claimed) = (row ≡ none) × (is_instance_owner_conn row' token ≡ true)
Tells row token method (row', already_owned) =
    (row' ≡ row) × (is_instance_owner_conn row token ≡ true)
Tells row token method (row', transferred) =
    (method ≡ secret)
    × (is_instance_owner_conn row token ≡ false)
    × (row ≢ none)
    × (is_instance_owner_conn row' token ≡ true)
Tells row token method (row', refused) =
    (method ≡ bootstrap) × (row' ≡ row) × (row ≢ none) × (is_instance_owner_conn row' token ≡ false)

-- The outcome of a claim is true: `claimed` that the instance had no owner and is now the caller's,
-- `already_owned` that it was the caller's, `transferred` that it was another's, is now the
-- caller's and that the caller proved the secret, `refused` that it is another's, the row being
-- untouched, and that the caller only bootstrapped.
pub claim_instance_tx-Tells :
    (row : Ownership) (token : Str) (method : ClaimMethod) (now : Str)
    → Tells row token method (claim_instance_tx row token method now)
unfolding claim_instance_tx is_instance_owner_conn
claim_instance_tx-Tells none token method now = (refl, eq_refl token)
claim_instance_tx-Tells (some c) token bootstrap now = elim (Bool-cases (c.owner_token == token)) [
  | inl e ↦
      subst
        (λ b.
          Tells (some c) token bootstrap (if b then (some c, already_owned) else (some c, refused)))
        (sym e) (refl, e)
  | inr e ↦
      subst
        (λ b.
          Tells (some c) token bootstrap (if b then (some c, already_owned) else (some c, refused)))
        (sym e) (refl, refl, ground arith, e)
]
claim_instance_tx-Tells (some c) token secret now =
    let moved = written token now secret in
    elim (Bool-cases (c.owner_token == token)) [
      | inl e ↦
          subst
            (λ b.
              Tells (some c) token secret
                (if b then (some c, already_owned) else (some moved, transferred)))
            (sym e) (refl, e)
      | inr e ↦
          subst
            (λ b.
              Tells (some c) token secret
                (if b then (some c, already_owned) else (some moved, transferred)))
            (sym e) (refl, e, ground arith, eq_refl token)
    ]

-- A claim as a request: who, how and when.
pub record Attempt : Type 0 where
  pub token : Str
  pub method : ClaimMethod
  pub now : Str

unfoldable pub claims : Ownership → List Attempt → Ownership
claims row [] = row
claims row (a ∷ rest) = claims (claim_instance_tx row a.token a.method a.now).0 rest

-- The owner that the instance has after the attempts: the last to prove the secret, or else the
-- first to ask.
unfoldable pub heir : Option Str → List Attempt → Option Str
heir o [] = o
heir none (a ∷ rest) = heir (some a.token) rest
heir (some t) (a ∷ rest) = elim a.method [
  | bootstrap ↦ heir (some t) rest
  | secret ↦ heir (some a.token) rest
]

abbrev pub holder : Ownership → Option Str
holder none = none
holder (some c) = some c.owner_token

-- After any sequence of claims, the owner of the instance is the last caller that proved the
-- secret, if one did; else the owner that it had, or the first caller where it had none.
pub holder-claims :
    (row : Ownership) (rest : List Attempt) → holder (claims row rest) ≡ heir (holder row) rest
unfolding claims heir claim_instance_tx
holder-claims row [] = refl
holder-claims none (a ∷ rest) = holder-claims (claim_instance_tx none a.token a.method a.now).0 rest
holder-claims (some c) (a ∷ rest) =
    let ih = holder-claims (claim_instance_tx (some c) a.token a.method a.now).0 rest in
    ground (arith, ih, eq_iff c.owner_token a.token)

-- One token owns a claimed instance.
pub is_instance_owner_conn_unique :
    (row : Ownership) (t u : Str)
    → is_instance_owner_conn row t ≡ true
    → is_instance_owner_conn row u ≡ true
    → t ≡ u
unfolding is_instance_owner_conn
is_instance_owner_conn_unique none t u h k = ground arith
is_instance_owner_conn_unique (some c) t u h k =
    ground (arith, eq_iff c.owner_token t, eq_iff c.owner_token u)
