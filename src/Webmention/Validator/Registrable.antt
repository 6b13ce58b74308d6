-- ===== src/Webmention/Validator/Registrable.antt =====
-- indieweb2-bastion/services/webmention-rate-limiter/src/validator.rs: what the registrable domain
-- of a host is.
use civic_connect.Prelude.{
  reverse_three, ◌<◌, String, ◌≡◌, refl, sym, ap, subst, ◌∙◌, ◌⊎◌, inl, inr, true, none, some, List,
  [], ◌∷◌, Bool-cases, Option-cases, length, All, reverse,
}
use native.Mathlib.Omega.{arith}
use civic_connect.Prelude.Text.{split, join, In, contains-In, In-contains, split-join}
use civic_connect.Prelude.Pieces.{pieces}
use civic_connect.Webmention.Url.{IpAddr, UrlLib}
use civic_connect.Webmention.Validator.{
  is_two_part_tld, domain_of_parts, domain_of, extract_registrable_domain,
}
use civic_connect.Webmention.Validator.Domain.{IsLabel, under, host_of, domain, split-under}

-- The suffixes of two labels under which domains are registered.
abbrev pub two_part_tlds : List String
two_part_tlds =
    "co.uk" ∷ "org.uk" ∷ "me.uk" ∷ "co.nz" ∷ "co.jp" ∷ "co.kr" ∷ "com.au" ∷ "net.au" ∷ "org.au"
    ∷ "com.br" ∷ "co.za" ∷ []

module _ (u : UrlLib) where
  -- The registrable domain of a host: the host in lower case when that is an address, or has one label
  -- or two; else its last two labels, or three when the last two are one of the suffixes.
  pub data IsDomain (host d : String) : Type 0 where
    address :
        (ip : IpAddr)
        → u.parse_ip (u.to_lowercase host) ≡ some ip
        → d ≡ u.to_lowercase host
        → IsDomain host d
    short :
        (label : String) (labels : List String)
        → u.parse_ip (u.to_lowercase host) ≡ none
        → All IsLabel (label ∷ labels)
        → u.to_lowercase host ≡ join "." (label ∷ labels)
        → length labels < 2
        → d ≡ u.to_lowercase host
        → IsDomain host d
    two_labels :
        (front : List String) (third second last : String)
        → u.parse_ip (u.to_lowercase host) ≡ none
        → All IsLabel (under front third second last)
        → u.to_lowercase host ≡ join "." (under front third second last)
        → ¬ In (join "." (second ∷ last ∷ [])) two_part_tlds
        → d ≡ join "." (second ∷ last ∷ [])
        → IsDomain host d
    three_labels :
        (front : List String) (third second last : String)
        → u.parse_ip (u.to_lowercase host) ≡ none
        → All IsLabel (under front third second last)
        → u.to_lowercase host ≡ join "." (under front third second last)
        → In (join "." (second ∷ last ∷ [])) two_part_tlds
        → d ≡ join "." (third ∷ second ∷ last ∷ [])
        → IsDomain host d

  -- A host that is no address, with the labels of its lower case.
  domain_of_labels :
      (host : String) (labels : List String)
      → u.parse_ip (u.to_lowercase host) ≡ none
      → split "." (u.to_lowercase host) ≡ labels
      → extract_registrable_domain u host ≡ domain_of_parts (u.to_lowercase host) (reverse labels)
  unfolding extract_registrable_domain domain_of
  domain_of_labels host labels e s = rw (domain_of, e, s) refl

  domain_of_short :
      (host label : String) (labels : List String)
      → length labels < 2
      → domain_of_parts host (reverse (label ∷ labels)) ≡ host
  unfolding domain_of_parts
  domain_of_short host x [] h = refl
  domain_of_short host x (y ∷ []) h = refl
  domain_of_short host x (y ∷ z ∷ rest) h = absurd (omega (arith, h))

  domain_of_long :
      (host : String) (front : List String) (third second last : String)
      → domain_of_parts host (reverse (under front third second last)) ≡ domain third second last
  unfolding domain_of_parts
  domain_of_long host front c b a = ap (domain_of_parts host) (reverse_three front c b a)

  domain-two :
      (third second last : String)
      → ¬ In (join "." (second ∷ last ∷ [])) two_part_tlds
      → domain third second last ≡ join "." (second ∷ last ∷ [])
  domain-two c b a h = elim (Bool-cases (is_two_part_tld (host_of (b ∷ a ∷ [])))) [
    | inl listed ↦ absurd (h (contains-In two_part_tlds (host_of (b ∷ a ∷ [])) listed))
    | inr free ↦ rw free refl
  ]

  domain-three :
      (third second last : String)
      → In (join "." (second ∷ last ∷ [])) two_part_tlds
      → domain third second last ≡ join "." (third ∷ second ∷ last ∷ [])
  unfolding join
  domain-three c b a h =
      let listed : is_two_part_tld (host_of (b ∷ a ∷ [])) ≡ true =
        In-contains two_part_tlds (host_of (b ∷ a ∷ [])) h in
      rw listed refl

  pub IsDomain-extract : (host d : String) → IsDomain host d → extract_registrable_domain u host ≡ d
  unfolding extract_registrable_domain domain_of
  IsDomain-extract host d (address ip e same) = rw (domain_of, e) (sym same)
  IsDomain-extract host d (short x xs e plain written few same) =
      domain_of_labels host (x ∷ xs) e (ap (split ".") written ∙ split-join "." x xs plain)
      ∙ domain_of_short (u.to_lowercase host) x xs few
      ∙ sym same
  IsDomain-extract host d (two_labels front c b a e plain written free same) =
      domain_of_labels host (under front c b a) e
        (ap (split ".") written ∙ split-under front c b a plain)
      ∙ domain_of_long (u.to_lowercase host) front c b a
      ∙ domain-two c b a free
      ∙ sym same
  IsDomain-extract host d (three_labels front c b a e plain written listed same) =
      domain_of_labels host (under front c b a) e
        (ap (split ".") written ∙ split-under front c b a plain)
      ∙ domain_of_long (u.to_lowercase host) front c b a
      ∙ domain-three c b a listed
      ∙ sym same

  -- Three labels or more are three last ones and others.
  last_three :
      (x : String) (xs : List String)
      → (length xs < 2)
        ⊎ ((front : List String) × (third : String) × (second : String) × (last : String) × (x ∷ xs
              ≡ under front third second last))
  last_three x [] = inl (omega arith)
  last_three x (y ∷ []) = inl (omega arith)
  last_three x (y ∷ z ∷ []) = inr ([], x, y, z, refl)
  last_three x (y ∷ z ∷ w ∷ rest) = elim (last_three y (z ∷ w ∷ rest)) [
    | inl few ↦ absurd (omega (arith, few))
    | inr (front, c, b, a, e) ↦ inr (x ∷ front, c, b, a, ap (◌∷◌ x) e)
  ]

  long-IsDomain :
      (host : String) (front : List String) (third second last : String)
      → u.parse_ip (u.to_lowercase host) ≡ none
      → All IsLabel (under front third second last)
      → u.to_lowercase host ≡ join "." (under front third second last)
      → IsDomain host (extract_registrable_domain u host)
  long-IsDomain host front c b a e plain written =
      let value =
        domain_of_labels host (under front c b a) e
          (ap (split ".") written ∙ split-under front c b a plain)
        ∙ domain_of_long (u.to_lowercase host) front c b a in
      elim (Bool-cases (is_two_part_tld (host_of (b ∷ a ∷ [])))) [
        | inl listed ↦
            (let held = contains-In two_part_tlds (host_of (b ∷ a ∷ [])) listed in
              three_labels front c b a e plain written held (value ∙ domain-three c b a held))
        | inr free ↦
            (let absent : ¬ In (host_of (b ∷ a ∷ [])) two_part_tlds =
                λ i. cc (In-contains two_part_tlds (host_of (b ∷ a ∷ [])) i, free) in
              two_labels front c b a e plain written absent (value ∙ domain-two c b a absent))
      ]

  pub extract-IsDomain : (host : String) → IsDomain host (extract_registrable_domain u host)
  unfolding extract_registrable_domain domain_of
  extract-IsDomain host = elim (Option-cases (u.parse_ip (u.to_lowercase host))) [
    | inr (ip, e) ↦ address ip e (rw (domain_of, e) refl)
    | inl e ↦
        (let s = pieces "." (u.to_lowercase host) in
          elim (last_three s.head s.tail) [
            | inl few ↦ short s.head s.tail e s.plain (sym s.join-eq) few (
                domain_of_labels host (s.head ∷ s.tail) e s.split-eq
                ∙ domain_of_short (u.to_lowercase host) s.head s.tail few)
            | inr (front, c, b, a, same) ↦
                long-IsDomain host front c b a e (subst (All IsLabel) same s.plain)
                  (sym s.join-eq ∙ ap (join ".") same)
          ])
  ]
