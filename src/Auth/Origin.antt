-- ===== src/Auth/Origin.antt =====
-- Which requests may change state: the ones from the program's own origin.
use e621_feed.Base.{
  ℕ, ◌≡◌, refl, ap, ◌∙◌, ◌⊎◌, inl, inr, Bool, true, false, some, List, [], ◌∷◌, ◌++◌, arith,
  nat_beq, Bool-cases, Option-cases, nat_eq, list_eq, pair_eq,
}
use e621_feed.Base.Text.{Str, codes, strip_prefix, split, contains_char, onto_head}
use e621_feed.Auth.{Request, csrf_origin_is_allowed, origin_host, is_safe, is_cross_site, first_of}

strip_prefix-some : (p s r : Str) → strip_prefix p s ≡ some r → s ≡ p ++ r
unfolding strip_prefix
strip_prefix-some [] s r h = ground arith
strip_prefix-some (p ∷ ps) [] r h = ground arith
strip_prefix-some (p ∷ ps) (c ∷ s) r h = ground (arith, strip_prefix-some ps s r)

-- What follows the host in an origin: nothing, or a slash and more.
abbrev pub IsTail : ℕ → Str → Type 0
IsTail d [] = Unit
IsTail d (c ∷ s) = c ≡ d

first_of-onto_head :
    (c : ℕ) (head : Str) (parts : List Str)
    → first_of parts ≡ some head
    → first_of (onto_head c parts) ≡ some (c ∷ head)
first_of-onto_head c head [] h = ground arith
first_of-onto_head c head (part ∷ parts) h = ground arith

-- The first part of a text: a prefix without the separator, up to the end or a separator.
split_first :
    (d : ℕ) (s : Str)
    → (head : Str) × (tail : Str) × (first_of (split d s) ≡ some head)
      × (s ≡ head ++ tail)
      × (contains_char d head ≡ false)
      × IsTail d tail
unfolding split contains_char
split_first d [] = ([], [], refl, refl, refl, tt)
split_first d (c ∷ s) = elim (Bool-cases (nat_beq c d)) [
  | inl at ↦ ([], c ∷ s, ground (arith, at), refl, refl, ground (arith, at))
  | inr past ↦
      let (head, tail, first, whole, free, ends) = split_first d s in
      (
        c ∷ head,
        tail,
        ground (arith, past, first_of-onto_head c head (split d s) first),
        ground (arith, whole),
        ground (arith, past, free),
        ends,
      )
]

-- An origin that names a host: a scheme, the host, and what may follow it.
abbrev pub Names : Str → Str → Str → Type 0
Names scheme host origin = (tail : Str) × (origin ≡ scheme ++ (host ++ tail)) × IsTail b'/' tail

stripped-Names :
    (scheme origin value host : Str)
    → strip_prefix scheme origin ≡ some value
    → first_of (split b'/' value) ≡ some host
    → Names scheme host origin × (contains_char b'/' host ≡ false)
stripped-Names scheme origin value host stripped h =
    let (head, tail, first, whole, free, ends) = split_first b'/' value in
    let same : head ≡ host = ground (arith, first, h) in
    (
      (
        tail,
        strip_prefix-some scheme origin value stripped
            ∙ (ap (λ v. scheme ++ v) whole ∙ ap (λ x. scheme ++ (x ++ tail)) same),
        ends,
      ),
      rw (← same) free,
    )

origin_host-Names :
    (origin host : Str)
    → origin_host origin ≡ some host
    → (Names (codes "https://") host origin ⊎ Names (codes "http://") host origin)
      × (contains_char b'/' host ≡ false)
unfolding origin_host
origin_host-Names origin host h = elim (Option-cases (strip_prefix (codes "https://") origin)) [
  | inr (value, e) ↦
      let (names, free) =
        stripped-Names (codes "https://") origin value host e (ground (arith, h, e)) in
      (inl names, free)
  | inl no_tls ↦ elim (Option-cases (strip_prefix (codes "http://") origin)) [
    | inr (value, e) ↦
        let (names, free) =
          stripped-Names (codes "http://") origin value host e (ground (arith, h, no_tls, e)) in
        (inr names, free)
    | inl no_scheme ↦ ground (arith, h, no_tls, no_scheme)
  ]
]

-- In a release, a request that may change state is allowed only when it does not call itself
-- cross-site and has an origin with a scheme of the web, whose host, the text up to the next slash,
-- is that of the request.
pub csrf_origin_is_allowed-Names :
    (req : Request)
    → is_safe req.method ≡ false
    → csrf_origin_is_allowed false req ≡ true
    → (is_cross_site req.sec_fetch_site ≡ false)
      × ((origin : Str) × (host : Str) × (host_eq : Str → Bool) × (req.origin ≡ some origin)
          × (req.host ≡ some host_eq)
          × (host_eq host ≡ true)
          × (contains_char b'/' host ≡ false)
          × (Names (codes "https://") host origin ⊎ Names (codes "http://") host origin))
unfolding csrf_origin_is_allowed
csrf_origin_is_allowed-Names req changes allowed = elim (Option-cases req.origin) [
  | inl no_origin ↦ ground (arith, no_origin)
  | inr (origin, sent) ↦ elim (Option-cases (origin_host origin)) [
    | inl no_host ↦ ground (arith, sent, no_host)
    | inr (host, named) ↦ elim (Option-cases req.host) [
      | inl hostless ↦ ground (arith, sent, named, hostless)
      | inr (host_eq, own) ↦
          let (names, free) = origin_host-Names origin host named in
          (
            ground (arith),
            (origin, host, host_eq, sent, own, ground (arith, sent, named, own), free, names),
          )
    ]
  ]
]
