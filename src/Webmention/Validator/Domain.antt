-- ===== src/Webmention/Validator/Domain.antt =====
-- indieweb2-bastion/services/webmention-rate-limiter/src/validator.rs: which hosts share a domain.
use civic_connect.Prelude.{
  sym, ◌≢◌, ◌∙◌, String, ap, reverse, ◌≡◌, refl, false, none, List, [], ◌∷◌, ◌++◌, reverse_three,
  All, if◌then◌else◌,
}
use civic_connect.Prelude.Text.{has_char, split, join, split-join}
use civic_connect.Webmention.Url.{UrlLib}
use civic_connect.Webmention.Validator.{
  is_two_part_tld, domain_of_parts, domain_of, extract_registrable_domain,
}

-- A text without a dot.
abbrev pub IsLabel : String → Type 0
IsLabel p = has_char "." p ≡ false

-- The labels of a host: `front` and then three more.
abbrev pub under : List String → String → String → String → List String
under front third second last = front ++ third ∷ second ∷ last ∷ []

-- A host of the labels, as it is written.
abbrev pub host_of : List String → String
host_of labels = join "." labels

pub split-under :
    (front : List String) (third second last : String)
    → All IsLabel (under front third second last)
    → split "." (host_of (under front third second last)) ≡ under front third second last
split-under [] c b a h = split-join "." c (b ∷ a ∷ []) h
split-under (x ∷ front) c b a h = split-join "." x (under front c b a) h

-- What `extract_registrable_domain` gives for a host of three labels or more.
abbrev pub domain : String → String → String → String
domain third second last =
    if is_two_part_tld (host_of (second ∷ last ∷ []))
    then host_of (third ∷ host_of (second ∷ last ∷ []) ∷ [])
    else host_of (second ∷ last ∷ [])

pub domain-plain :
    (third second last : String)
    → is_two_part_tld (host_of (second ∷ last ∷ [])) ≡ false
    → domain third second last ≡ host_of (second ∷ last ∷ [])
domain-plain c b a h = rw h refl

pub empty-IsLabel : IsLabel ""
unfolding has_char
empty-IsLabel = refl

-- A host and the domain of the same host with a final dot are different texts.
pub host_of-final_dot :
    (x y : String)
    → x ≢ ""
    → All IsLabel (x ∷ y ∷ [])
    → host_of (x ∷ y ∷ []) ≢ host_of (y ∷ "" ∷ [])
host_of-final_dot x y full labels e =
    let labels' =
      sym (split-join "." x (y ∷ []) labels)
      ∙ ap (split ".") e
      ∙ split-join "." y ("" ∷ []) (labels.1.0, (empty-IsLabel, tt)) in
    full (cc labels')

module _ (u : UrlLib) where
  -- A host in lower case that is not an address.
  abbrev pub IsName : String → Type 0
  IsName host = (u.to_lowercase host ≡ host) × (u.parse_ip host ≡ none)

  domain_of-name :
      (host : String)
      → u.parse_ip host ≡ none
      → domain_of u host ≡ domain_of_parts host (reverse (split "." host))
  unfolding domain_of
  domain_of-name host e = rw (domain_of, e) refl

  pub extract_registrable_domain-under :
      (front : List String) (third second last : String)
      → All IsLabel (under front third second last)
      → IsName (host_of (under front third second last))
      → extract_registrable_domain u (host_of (under front third second last))
        ≡ domain third second last
  unfolding extract_registrable_domain domain_of_parts
  extract_registrable_domain-under front c b a labels name =
      let host = host_of (under front c b a) in
      ap (domain_of u) name.0
      ∙ domain_of-name host name.1
      ∙ ap (λ ps. domain_of_parts host (reverse ps)) (split-under front c b a labels)
      ∙ ap (domain_of_parts host) (reverse_three front c b a)

  -- A host of two labels is its own domain.
  pub extract_registrable_domain-pair :
      (second last : String)
      → All IsLabel (second ∷ last ∷ [])
      → IsName (host_of (second ∷ last ∷ []))
      → extract_registrable_domain u (host_of (second ∷ last ∷ [])) ≡ host_of (second ∷ last ∷ [])
  unfolding extract_registrable_domain domain_of_parts
  extract_registrable_domain-pair b a labels name =
      let host = host_of (b ∷ a ∷ []) in
      ap (domain_of u) name.0
      ∙ domain_of-name host name.1
      ∙ ap (λ ps. domain_of_parts host (reverse ps)) (split-join "." b (a ∷ []) labels)
